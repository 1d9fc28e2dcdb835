-- ===== src/Server/Tests.antt =====
-- A server with one connection object, its completions, and what a started server is.
use outgame_lobby_server.Prelude.{
  zero, suc, ◌++◌, ℕ, ◌≡◌, refl, [], ◌∷◌, none, some, true, false, inl, if◌then◌else◌,
}
use outgame_lobby_server.Effects.{returned, ◌>>◌}
use outgame_lobby_server.Overlapped.{
  Overlapped, zeroed, heap, accept_slot, send, recv, accept, return_ov_lap,
}
use outgame_lobby_server.Overlapped.Pool.{IsClean}
use outgame_lobby_server.ConnUser.{
  wsa_recv, wsa_send, accept_ex, close_socket, ConnUser, post_accept, reset,
}
use outgame_lobby_server.ConnUser.Samples.{quiet_user}
use outgame_lobby_server.ConnUsersManager.{find_user, insert_user}
use outgame_lobby_server.Server.{
  Lobby, Completion, Answers, Supply, new_user, start_work, work_round, accepter_round,
  accept_front, handle, user_at, reach, disconnect, requeue, release, give_back, store_user,
  push_accept, repost, is_lost,
}
use outgame_lobby_server.Server.Users.{IsServing, IsOwn}
use outgame_lobby_server.Server.Start.{is_made, start_work_lem}
use outgame_lobby_server.Server.Run.{
  Keeps, here, next, accepts, carried, work_round-Keeps, accepter_round-Keeps, Reach-IsServing,
}
use outgame_lobby_server.Server.Lost.{Requeues, released, lost_twice, work_round-unclean}

-- An object in flight of the connection 0.
abbrev flying : Overlapped
flying = record (zeroed (heap 3)) { task_type = send }

abbrev incoming : Overlapped
incoming = record (zeroed (heap 4)) { task_type = recv }

abbrev accepting : Overlapped
accepting = zeroed (accept_slot 0)

abbrev lobby : Lobby
lobby = record {
  manager = record { pk_to_obj_num = []; conn_users = some quiet_user ∷ [] };
  pool = record { ov_lap_pool = []; allocated = 5 };
  accept_queue = 0 ∷ [];
  requests = wsa_send 5 flying ∷ wsa_recv 5 incoming ∷ [];
  work_run = true;
  accepter_run = true;
  max_client_count = 1000;
}

abbrev answers : Answers
answers = record { unset = []; receives = true; socket = 8 }

abbrev lost : Overlapped → Completion
lost o = record { success = false; io_size = 0; overlapped = some o }

lobby-IsOwn : (n : ℕ) (u : ConnUser) → find_user n lobby.manager ≡ some u → IsOwn n u
unfolding find_user
lobby-IsOwn zero u e =
    let same : quiet_user ≡ u = cc in rw (← same) (record { numbered = refl; queued = tt })
lobby-IsOwn (suc n) u e = let nobody : ⊥ = cc in absurd nobody

lobby-IsServing : IsServing lobby
unfolding find_user
lobby-IsServing = record {
  waiting = ((quiet_user, refl), tt);
  carried = ((quiet_user, refl), ((quiet_user, refl), tt));
  own = lobby-IsOwn;
}

work_round-Keeps_example :
    Keeps (lobby.pool.ov_lap_pool ≡ []) (work_round answers (lost flying) lobby)
work_round-Keeps_example =
    work_round-Keeps answers (lost flying) lobby lobby-IsServing
      (carried flying none (inl refl) refl)

accepter_round-Keeps_example : Keeps ⊥ (accepter_round true lobby)
accepter_round-Keeps_example = accepter_round-Keeps true lobby lobby-IsServing

lost_twice_example :
    Requeues 0
      (0 ∷ 0 ∷ [])
      (released send flying (released recv incoming lobby.pool))
      ((work_round answers (lost incoming) >> work_round answers (lost flying)) lobby)
lost_twice_example =
    lost_twice answers answers (lost incoming) (lost flying) incoming flying lobby
      (record { delivers = refl; lost = unfold is_lost in refl })
      (record { delivers = refl; lost = unfold is_lost in refl }) refl lobby-IsServing.waiting.0

abbrev supply : Supply
supply = record { socket = λ i. i; storage = λ i. []; unset_pk = λ i. 0 }

start_work_lem_example :
    let (done, l) =
      start_work supply true true (record lobby { accept_queue = []; requests = [] }) in
    (done ≡ true)
    × ((k : ℕ)
        → find_user k l.manager ≡ (if is_made 0 1000 k then some (new_user supply k) else none))
    × IsServing l
start_work_lem_example =
    start_work_lem supply (record lobby { accept_queue = []; requests = [] }) refl refl

abbrev slot : Overlapped
slot = record (zeroed (accept_slot 0)) { task_type = accept; conn_obj_num = 0 }

-- The connection 0 has been handed to `AcceptEx`.
abbrev accepted : Lobby
accepted = record lobby {
  manager = record {
    pk_to_obj_num = [];
    conn_users = some (record quiet_user { accept_ovlap = slot }) ∷ [];
  };
  accept_queue = [];
  requests = lobby.requests ++ accept_ex 5 slot ∷ [];
}

accepter_round-accepted : accepter_round true lobby ≡ returned tt accepted
unfolding accepter_round accept_front repost user_at reach find_user post_accept store_user
    insert_user push_accept
accepter_round-accepted = refl

Reach-IsServing_example : IsServing accepted
Reach-IsServing_example =
    Reach-IsServing (next here (accepts true accepter_round-accepted)) lobby-IsServing

-- `AcceptEx` has failed.
abbrev refused : Lobby
refused = record lobby {
  manager = record {
    pk_to_obj_num = [];
    conn_users = some (record quiet_user { is_conn = false; user_skt = 8 }) ∷ [];
  };
  pool = record { ov_lap_pool = zeroed (accept_slot 0) ∷ []; allocated = 5 };
  accept_queue = 0 ∷ 0 ∷ [];
  requests = lobby.requests ++ close_socket 5 ∷ [];
}

work_round-refused : work_round answers (lost slot) lobby ≡ returned tt refused
unfolding work_round handle user_at reach find_user is_lost disconnect release give_back
    return_ov_lap requeue reset store_user insert_user push_accept
work_round-refused = refl

work_round-unclean_example : ¬ IsClean refused.pool
work_round-unclean_example =
    work_round-unclean answers (lost slot) slot 0 lobby refused
      (record { delivers = refl; lost = unfold is_lost in refl }) refl refl
      lobby-IsServing.waiting.0 work_round-refused
