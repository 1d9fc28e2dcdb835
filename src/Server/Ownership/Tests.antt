-- ===== src/Server/Ownership/Tests.antt =====
-- A started server with one connection object that accepts a client and receives from it.
use outgame_lobby_server.Prelude.{◌+◌, ◌≡◌, refl, [], ◌∷◌, none, some, true, false, arith}
use outgame_lobby_server.Effects.{returned}
use outgame_lobby_server.Overlapped.{
  Overlapped, recv, accept_slot, heap, zeroed, get_ov_lap, take_front, init, fill, new_overlapped,
}
use outgame_lobby_server.ConnUser.{
  create_user, post_accept, conn_user_recv, wsa_recv, accept_ex, load,
}
use outgame_lobby_server.ConnUsersManager.{create_manager, find_user, insert_user}
use outgame_lobby_server.Server.{
  Lobby, Supply, new_user, start_work, create_users, start_user, add_user, accepter_round,
  accept_front, repost, user_at, reach, store_user, work_round, handle, is_lost, finish_task,
  start_receive, after_receive,
}
use outgame_lobby_server.Server.Ownership.Flights.{
  Traffic, Reach, here, next, accepts, completes, HaveOneHolder,
}
use outgame_lobby_server.Server.Ownership.Start.{started, empty_pool, Reach_started-HaveOneHolder}

abbrev supply : Supply
supply = record { socket = λ i. i + 5; storage = λ i. []; unset_pk = λ i. 0 }

abbrev stopped : Lobby
stopped = record {
  manager = record { pk_to_obj_num = []; conn_users = [] };
  pool = empty_pool;
  accept_queue = [];
  requests = [];
  work_run = false;
  accepter_run = false;
  max_client_count = 1;
}

abbrev slot : Overlapped
slot = zeroed (accept_slot 0)

abbrev waiting : Lobby
waiting = record {
  manager = record { pk_to_obj_num = []; conn_users = some (new_user supply 0) ∷ [] };
  pool = init empty_pool;
  accept_queue = [];
  requests = accept_ex 5 slot ∷ [];
  work_run = true;
  accepter_run = true;
  max_client_count = 1;
}

abbrev receiving : Lobby
receiving = record waiting {
  pool = (get_ov_lap waiting.pool).1;
  requests =
      accept_ex 5 slot ∷ wsa_recv 5 (load recv [] (new_user supply 0) (zeroed (heap 0))) ∷ [];
}

accepted : accepter_round true (started supply stopped).lobby ≡ returned tt waiting
unfolding accepter_round accept_front repost user_at reach find_user store_user start_work
    create_users start_user add_user create_manager insert_user create_user post_accept
accepted = refl

connected :
    work_round
      (record { unset = []; receives = true; socket = 8 })
      (record { success = true; io_size = 0; overlapped = some slot })
      waiting
    ≡ returned tt receiving
unfolding work_round handle is_lost finish_task user_at reach find_user start_receive after_receive
    conn_user_recv get_ov_lap take_front init fill new_overlapped create_user
connected = refl

abbrev in_traffic : Traffic
in_traffic = record {
  lobby = receiving;
  in_flight = load recv [] (new_user supply 0) (zeroed (heap 0)) ∷ [];
}

run : Reach (started supply stopped) in_traffic
unfolding start_work create_users start_user add_user create_manager insert_user
run = next (next here (accepts true (slot ∷ []) waiting accepted (λ n. omega arith) refl)) (
    completes (record { unset = []; receives = true; socket = 8 }) true 0 none [] slot []
      (load recv [] (new_user supply 0) (zeroed (heap 0)) ∷ []) receiving refl connected
      (λ n. omega arith) refl)

Reach_started-HaveOneHolder_example : HaveOneHolder in_traffic
Reach_started-HaveOneHolder_example = Reach_started-HaveOneHolder supply stopped run
