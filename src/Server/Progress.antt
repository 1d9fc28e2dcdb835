-- ===== src/Server/Progress.antt =====
-- The rounds of the worker threads and of the accepter threads as steps of the server.
use outgame_lobby_server.Prelude.{
  ℕ, ◌≡◌, refl, List, [], ◌∷◌, some, All, inl, inr, Bool, true, false, arith, ◌==◌, if◌then◌else◌,
  ◌&&◌, not, ◌⊎◌, All-append,
}
use outgame_lobby_server.Effects.{when}
use outgame_lobby_server.Overlapped.{
  Overlapped, TaskType, accept, recv, send, new_recv, new_send, get_ov_lap, take_front,
}
use outgame_lobby_server.ConnUser.{ConnUser, post_accept, conn_user_recv}
use outgame_lobby_server.Server.{
  Lobby, Answers, give_back, requeue, start_receive, release, disconnect, finish_task, is_lost,
  handle, work_round, accepter_round, after_receive, repost, accept_front, store_user, push_accept,
}
use outgame_lobby_server.Server.Users.{IsKnown, IsOwn, IsServing, NamesOne}
use outgame_lobby_server.Server.Serves.{
  Serves, Kept-post_accept, Serves-bind, Serves-user_at, Serves-store_user, Serves-push_accept,
  Serves-give_back, Serves-requeue, Serves-complete_send, Serves-release,
}

nil-or-cons :
    (q : List Overlapped)
    → (q ≡ []) ⊎ ((o : Overlapped) × (rest : List Overlapped) × (q ≡ o ∷ rest))
nil-or-cons [] = inl refl
nil-or-cons (o ∷ q) = inr (o, q, refl)

-- `ConnUserRecv` goes through a null pointer only if the pool is empty.
Serves-start_receive :
    (a : Answers) (u : ConnUser) (n : ℕ) (l : Lobby)
    → IsServing l
    → IsKnown l.manager n
    → u.conn_obj_num ≡ n
    → Serves (l.pool.ov_lap_pool ≡ []) n (start_receive a u l)
unfolding start_receive after_receive conn_user_recv get_ov_lap take_front
Serves-start_receive a u n l v h e = elim (nil-or-cons l.pool.ov_lap_pool) [
  | inl empty ↦ rw empty refl
  | inr (o, rest, filled) ↦ rw filled (
    record {
      waiting = v.waiting;
      carried = All-append _ l.requests _ v.carried (rw e h, tt);
      own = v.own;
    },
    h,
  )
]

module _ (a : Answers) (o : Overlapped) where
  Serves-disconnect :
      (P : Type 0) (l : Lobby)
      → IsServing l
      → NamesOne l.manager o
      → Serves P o.conn_obj_num (disconnect a o l)
  unfolding disconnect
  Serves-disconnect P l v h =
      Serves-bind P _ (release o.task_type o l) _ (Serves-release P _ l o.task_type o v h)
        (λ _ l'. Serves-requeue P _ l' a.socket)

  Serves-retry :
      (P : Type 0) (failed : Bool) (l : Lobby)
      → IsServing l
      → NamesOne l.manager o
      → Serves P o.conn_obj_num (when failed (requeue a.socket o.conn_obj_num) l)
  Serves-retry P true l v h = Serves-requeue _ _ l a.socket v h
  Serves-retry P false l v h = (v, h)

  Serves-finish_task :
      (t : TaskType) (u : ConnUser) (l : Lobby)
      → IsServing l
      → NamesOne l.manager o
      → u.conn_obj_num ≡ o.conn_obj_num
      → Serves (l.pool.ov_lap_pool ≡ []) o.conn_obj_num (finish_task t a u o l)
  unfolding finish_task
  Serves-finish_task accept u l v h e =
      Serves-bind _ _ (start_receive a u l) _ (Serves-start_receive a u _ l v h e)
        (λ answer l'. Serves-retry _ (not answer) l')
  Serves-finish_task recv u l v h e =
      Serves-bind _ _ (start_receive a u l) _ (Serves-start_receive a u _ l v h e)
        (λ _ l'. Serves-give_back _ _ l' o)
  Serves-finish_task send u l v h e =
      Serves-bind _ _ (give_back o l) _ (Serves-give_back _ _ l o v h)
        (λ _ l'. Serves-complete_send _ _ l')
  Serves-finish_task new_recv u l v h e =
      Serves-bind _ _ (start_receive a u l) _ (Serves-start_receive a u _ l v h e)
        (λ _ l' v' h'. (v', h'))
  Serves-finish_task new_send u l v h e = Serves-complete_send _ _ l v h

pub never_null : (a b : Bool) → (a && b && false) ≡ false
never_null a b = ground arith

-- A worker's round on a completion of an object that names a known connection.
pub work_round-Serves :
    (a : Answers) (success : Bool) (io_size : ℕ) (o : Overlapped) (l : Lobby)
    → IsServing l
    → NamesOne l.manager o
    → Serves
        (l.pool.ov_lap_pool ≡ [])
        o.conn_obj_num
        (work_round a (record { success = success; io_size = io_size; overlapped = some o }) l)
unfolding work_round handle
work_round-Serves a success io_size o l v h = rw (never_null success (io_size == 0)) (
    Serves-user_at _ _ l _ v h λ u own.
      Serves-branch
        (is_lost (record { success = success; io_size = io_size; overlapped = some o }) o) u own)
  where
    Serves-branch :
        (lost : Bool) (u : ConnUser)
        → IsOwn o.conn_obj_num u
        → Serves
            (l.pool.ov_lap_pool ≡ [])
            o.conn_obj_num
            ((if lost then disconnect a o else finish_task o.task_type a u o) l)
    Serves-branch true u own = Serves-disconnect a o _ l v h
    Serves-branch false u own = Serves-finish_task a o o.task_type u l v h own.numbered

pub accepter_round-Serves :
    (answer : Bool) (num : ℕ) (rest : List ℕ) (l : Lobby)
    → IsServing l
    → l.accept_queue ≡ num ∷ rest
    → Serves ⊥ num (accepter_round answer l)
unfolding accepter_round accept_front repost
accepter_round-Serves answer num rest l v e =
    let waiting : All (IsKnown l.manager) (num ∷ rest) = rw e at v.waiting in
    let v' : IsServing (record l { accept_queue = rest }) = record {
      waiting = waiting.1;
      carried = v.carried;
      own = v.own;
    } in
    rw e (
      Serves-user_at ⊥ num (record l { accept_queue = rest }) _ v' waiting.0
        λ u o.
          Serves-bind ⊥ num (store_user num _ _) _
            (Serves-store_user ⊥ num _ _ v' waiting.0
              (Kept-post_accept answer l.manager num u waiting.0 o))
            (λ _ l'. Serves-repost (not (post_accept answer u).0) l'))
  where
    Serves-repost :
        (failed : Bool) (l' : Lobby)
        → IsServing l'
        → IsKnown l'.manager num
        → Serves ⊥ num (when failed (push_accept num) l')
    Serves-repost true l' v' h = Serves-push_accept ⊥ num l' v' h
    Serves-repost false l' v' h = (v', h)
