-- ===== src/Server.antt =====
-- OutGameLobbyServer.h and OutGameLobbyServer.cpp: the creation of the connection objects, and the loops
-- of the worker threads and of the accepter threads.
pub mod Threads
pub mod Channels
pub mod Boot
pub mod Users
pub mod Serves
pub mod Progress
pub mod Run
pub mod Start
pub mod Lost
mod Notify
pub mod Ownership
mod Tests
use outgame_lobby_server.Prelude.{
  ℕ, zero, suc, ◌+◌, Bool, true, false, ◌&&◌, ◌||◌, not, List, [], ◌∷◌, ◌++◌, Option, none, some,
  Bytes, ◌==◌, if◌then◌else◌,
}
use outgame_lobby_server.Effects.{M, returned, fault, pure, modify, when, ◌>>=◌, ◌>>◌}
use outgame_lobby_server.Overlapped.{
  Overlapped, OverLappedManager, TaskType, accept, recv, send, new_recv, new_send, return_ov_lap,
  max_circle_size,
}
use outgame_lobby_server.ConnUser.{
  ConnUser, Request, create_user, reset, post_accept, conn_user_recv, send_complete,
}
use outgame_lobby_server.ConnUsersManager.{ConnUsersManager, create_manager, insert_user, find_user}

-- `class OutGameLobbyServer`, with the requests that went to the system so far. A pointer to a
-- connection object is its number.
pub record Lobby : Type 0 where
  pub manager : ConnUsersManager
  pub pool : OverLappedManager
  pub accept_queue : List ℕ
  pub requests : List Request
  pub work_run : Bool
  pub accepter_run : Bool
  pub max_client_count : ℕ

-- What `GetQueuedCompletionStatus` gives; `none` is a null pointer.
pub record Completion : Type 0 where
  pub success : Bool
  pub io_size : ℕ
  pub overlapped : Option Overlapped

-- What the system gives to one round: the unset bytes of a new buffer, whether `WSARecv` succeeds or is
-- pending, and a new socket.
pub record Answers : Type 0 where
  pub unset : Bytes
  pub receives : Bool
  pub socket : ℕ

reach : Option ConnUser → M Lobby ConnUser
reach none l = fault
reach (some u) l = returned u l

-- The object behind `FindUser`; every branch goes through the pointer without a test.
unfoldable pub user_at : ℕ → M Lobby ConnUser
unfolding reach
user_at num l = reach (find_user num l.manager) l

-- A method of the object `num` has run: what is left of the object, and its requests.
unfoldable pub store_user : ℕ → ConnUser × List Request → M Lobby (Unit {0})
store_user num (u, requests) =
    modify
      λ l. record l { manager = insert_user num u l.manager; requests = l.requests ++ requests }

unfoldable pub push_accept : ℕ → M Lobby (Unit {0})
push_accept num = modify λ l. record l { accept_queue = l.accept_queue ++ num ∷ [] }

unfoldable pub give_back : Overlapped → M Lobby (Unit {0})
give_back o = modify λ l. record l { pool = return_ov_lap o l.pool }

-- `connUser->Reset(); AcceptQueue.push(connUser)`
unfoldable pub requeue : ℕ → ℕ → M Lobby (Unit {0})
requeue socket num = do u ← user_at num; store_user num (reset socket u); push_accept num

after_receive : Option (Bool × OverLappedManager × List Request) → M Lobby Bool
after_receive none l = fault
after_receive (some (answer, pool, requests)) l =
    returned answer (record l { pool = pool; requests = l.requests ++ requests })

-- `connUser->ConnUserRecv()`
unfoldable pub start_receive : Answers → ConnUser → M Lobby Bool
unfolding after_receive
start_receive a u l = after_receive (conn_user_recv a.unset a.receives l.pool u) l

-- `connUser->SendComplete()`
unfoldable pub complete_send : ℕ → M Lobby (Unit {0})
complete_send num = do u ← user_at num; store_user num (send_complete u)

-- What happens to the object of a lost connection: deleted, or back to the pool.
unfoldable pub release : TaskType → Overlapped → M Lobby (Unit {0})
release new_recv o = pure tt
release new_send o = pure tt
release other o = give_back o

-- The branch for a user that has disconnected.
unfoldable pub disconnect : Answers → Overlapped → M Lobby (Unit {0})
disconnect a o = release o.task_type o >> requeue a.socket o.conn_obj_num

-- The branches for the task types.
unfoldable pub finish_task : TaskType → Answers → ConnUser → Overlapped → M Lobby (Unit {0})
finish_task accept a u o = do
  receives ← start_receive a u
  when (not receives) (requeue a.socket o.conn_obj_num)
finish_task recv a u o = do _ ← start_receive a u; give_back o
finish_task send a u o = give_back o >> complete_send o.conn_obj_num
finish_task new_recv a u o = do _ ← start_receive a u; pure tt
finish_task new_send a u o = complete_send o.conn_obj_num

abbrev pub is_accept : TaskType → Bool
is_accept accept = true
is_accept other = false

unfoldable pub is_lost : Completion → Overlapped → Bool
is_lost c o = not c.success || c.io_size == 0 && not (is_accept o.task_type)

unfoldable pub handle : Answers → Completion → Option Overlapped → M Lobby (Unit {0})
handle a c none = λ l. fault
handle a c (some o) = do
  u ← user_at o.conn_obj_num
  if is_lost c o then disconnect a o else finish_task o.task_type a u o

abbrev pub is_null : Option Overlapped → Bool
is_null none = true
is_null (some o) = false

-- One round of `WorkThread`; `ServerEnd` posts the completion that stops it.
unfoldable pub work_round : Answers → Completion → M Lobby (Unit {0})
work_round a c =
    if c.success && c.io_size == 0 && is_null c.overlapped
    then modify (λ l. record l { work_run = false })
    else handle a c c.overlapped

-- The loop of `WorkThread`, over the completions that it gets.
unfoldable pub work_thread : List (Answers × Completion) → M Lobby (Unit {0})
work_thread [] l = returned tt l
work_thread ((a, c) ∷ rest) l =
    if l.work_run then (work_round a c >> work_thread rest) l else returned tt l

repost : ℕ → Bool × ConnUser × List Request → M Lobby (Unit {0})
repost num (done, u, requests) = store_user num (u, requests) >> when (not done) (push_accept num)

accept_front : Bool → List ℕ → M Lobby (Unit {0})
accept_front answer [] = pure tt
accept_front answer (num ∷ rest) = do
  modify λ l. record l { accept_queue = rest }
  u ← user_at num
  repost num (post_accept answer u)

-- One round of `AccepterThread`, given whether `AcceptEx` succeeds or is pending.
unfoldable pub accepter_round : Bool → M Lobby (Unit {0})
unfolding accept_front repost
accepter_round answer l = accept_front answer l.accept_queue l

-- What the system and `new` give to the connection objects: sockets, and unset memory.
pub record Supply : Type 0 where
  pub socket : ℕ → ℕ
  pub storage : ℕ → Bytes
  pub unset_pk : ℕ → ℕ

abbrev pub new_user : Supply → ℕ → ConnUser
new_user s i = create_user (s.socket i) (s.storage i) (s.unset_pk i) max_circle_size i

unfoldable pub add_user : Supply → ℕ → Lobby → Lobby
add_user s i l = record l {
  accept_queue = l.accept_queue ++ i ∷ [];
  manager = insert_user i (new_user s i) l.manager;
}

-- The body of the loop of `StartWork`.
unfoldable pub start_user : Supply → ℕ → Lobby → Lobby
start_user s i l = if i == 11 then l else add_user s i l

-- The loop of `StartWork`, from `i` on with `n` rounds left.
unfoldable pub create_users : Supply → ℕ → ℕ → Lobby → Lobby
create_users s zero i l = l
create_users s (suc n) i l = create_users s n (i + 1) (start_user s i l)

-- `StartWork`, given whether the threads could be created.
unfoldable pub start_work : Supply → (workers accepters : Bool) → Lobby → Bool × Lobby
start_work s false accepters l = (false, record l { work_run = true })
start_work s true false l = (false, record l { work_run = true; accepter_run = true })
start_work s true true l = (
  true,
  create_users s l.max_client_count 0 (record l {
    manager = create_manager l.max_client_count;
    work_run = true;
    accepter_run = true;
  }),
)
