-- ===== src/ConnUser/Samples.antt =====
-- A connection and a pool that the tests start from.
use outgame_lobby_server.Prelude.{[], ◌∷◌, false}
use outgame_lobby_server.Overlapped.{OverLappedManager, accept_slot, zeroed}
use outgame_lobby_server.ConnUser.{ConnUser}

abbrev pub quiet_user : ConnUser
quiet_user = record {
  read_data = [];
  send_queue = [];
  circular_buffer = record {
    buffer = 0 ∷ [];
    buffer_size = 1;
    write_pos = 0;
    read_pos = 0;
    current_size = 0;
  };
  friend_pks = [];
  accept_ovlap = zeroed (accept_slot 0);
  user_id = [];
  user_skt = 5;
  user_pk = 0;
  conn_obj_num = 0;
  is_conn = false;
  send_queue_size = 0;
}

abbrev pub empty_pool : OverLappedManager
empty_pool = record { ov_lap_pool = []; allocated = 0 }
