-- ===== src/Redis/Stream/Tests.antt =====
-- A connection on which two packets arrive, and the first is served.
use outgame_lobby_server.Prelude.{
  ℕ, zero, suc, ◌≡◌, refl, sym, ◌∙◌, [], ◌∷◌, ◌++◌, false, some, Bytes, replicate, arith, memcpy,
}
use outgame_lobby_server.Effects.{fault, returned}
use outgame_lobby_server.CircularBuffer.{create, write, copy_in, read, copy_out}
use outgame_lobby_server.CircularBuffer.Invariant.{create-IsValid}
use outgame_lobby_server.Packet.{
  DataPacket, PacketInfo, read_u16, connect_response, connect_response_size,
}
use outgame_lobby_server.ConnUser.{
  ConnUser, push_send_msg, write_recv_data, read_recv_data, packet_info,
}
use outgame_lobby_server.ConnUser.Samples.{empty_pool}
use outgame_lobby_server.ConnUsersManager.{find_user, insert_user}
use outgame_lobby_server.Redis.Samples.{env, user, world}
use outgame_lobby_server.Redis.World.{
  State, user_at, reach, put_user, push_to, send_from, ask, settle,
}
use outgame_lobby_server.Redis.Publish.{verify_user_token, accept_token}
use outgame_lobby_server.Redis.Users.{user_connect, connect_verified, reply_connect}
use outgame_lobby_server.Redis.Thread.{
  round, process_packet, handle_read, push_redis_packet, redis_thread_round, call_handler,
}
use outgame_lobby_server.Redis.Stream.{Holds, Carries}
use outgame_lobby_server.Redis.Stream.Steps.{
  take_packet, front_packet, settle_read, push_redis_packet-Carries,
}
use outgame_lobby_server.Redis.Stream.Refused.{rounds, push_redis_packet_refused}
use outgame_lobby_server.Redis.Stream.Fifo.{
  Line, Reach, here, next, push, serve, InOrder, Reach-InOrder,
}

abbrev ready : ConnUser
ready = record user { read_data = replicate 1024 0 }

abbrev idle_world : State env
idle_world = record world { manager = record { pk_to_obj_num = []; conn_users = some ready ∷ [] } }

-- A `USER_LOBBY_CONNECT_REQUEST`, cut short: its length, and its id.
abbrev packet : Bytes
packet = 4 ∷ 0 ∷ 1 ∷ 0 ∷ []

ready-Holds : (k : ℕ) (u : ConnUser) → find_user k idle_world.manager ≡ some u → Holds k [] u
unfolding find_user create
ready-Holds zero u e =
    let same : ready ≡ u = cc in
    rw (← same) (record {
      valid = create-IsValid (replicate 8 0) 8 refl (omega arith) (omega arith);
      full = refl;
      own = refl;
      room = refl;
    })
ready-Holds (suc k) u e = let nobody : ⊥ = cc in absurd nobody

idle-Carries : Carries env [] [] idle_world
idle-Carries = record { queue = refl; rings = ready-Holds; sized = tt; present = tt }

abbrev idle_line : Line env
idle_line = record { state = idle_world; pushed = []; handed = [] }

abbrev pushed_once : State env
pushed_once = record idle_world {
  manager = record {
    pk_to_obj_num = [];
    conn_users =
        some (record ready {
          circular_buffer = record {
            buffer = 4 ∷ 0 ∷ 1 ∷ 0 ∷ 0 ∷ 0 ∷ 0 ∷ 0 ∷ [];
            buffer_size = 8;
            write_pos = 4;
            read_pos = 0;
            current_size = 4;
          };
        })
        ∷ [];
  };
  proc_skt_queue = record { data_size = 4; conn_obj_num = 0 } ∷ [];
}

abbrev line_once : Line env
line_once = record { state = pushed_once; pushed = (0, packet) ∷ []; handed = [] }

was_pushed : push_redis_packet env 0 4 packet idle_world ≡ returned tt pushed_once
unfolding find_user insert_user push_redis_packet user_at reach put_user write_recv_data write
    copy_in create memcpy
was_pushed = refl

push_run : Reach env idle_line line_once
unfolding find_user write_recv_data write create
push_run =
    next here (push 0 packet ready pushed_once refl (omega arith, omega arith) refl was_pushed refl)

-- The packet, and the connection once it was taken.
abbrev info : PacketInfo
info = record {
  packet_id = 1;
  data_size = 4;
  conn_obj_num = 0;
  p_data = packet ++ replicate 1020 0;
}

abbrev emptied : ConnUser
emptied = record ready {
  read_data = packet ++ replicate 1020 0;
  circular_buffer = record {
    buffer = 4 ∷ 0 ∷ 1 ∷ 0 ∷ 0 ∷ 0 ∷ 0 ∷ 0 ∷ [];
    buffer_size = 8;
    write_pos = 4;
    read_pos = 4;
    current_size = 0;
  };
}

abbrev taken : State env
taken = record idle_world {
  manager = record { pk_to_obj_num = []; conn_users = some emptied ∷ [] };
}

took : take_packet env pushed_once ≡ returned (some info) taken
unfolding read_recv_data packet_info read copy_out take_packet front_packet settle_read user_at
    reach put_user find_user insert_user memcpy read_u16
took = refl

-- The state once the connection was refused.
abbrev refused : State env
refused =
    let (pool, u, requests) =
      push_send_msg [] connect_response_size (connect_response 0 false) empty_pool emptied in
    record taken { pool = pool; manager = insert_user 0 u taken.manager; requests = requests }

served : call_handler env info taken ≡ returned tt refused
unfolding call_handler user_connect verify_user_token accept_token ask settle connect_verified
    reply_connect push_to send_from user_at reach find_user
served = refl

abbrev line_served : Line env
line_served = record { state = refused; pushed = (0, packet) ∷ []; handed = info ∷ [] }

Reach-InOrder_example : InOrder env line_served
Reach-InOrder_example =
    Reach-InOrder env idle_world idle-Carries
      (next push_run (serve info taken refused took served refl))

once-Carries : Carries env ((0, packet) ∷ []) [] pushed_once
unfolding find_user create
once-Carries =
    let (w, run, carries) =
      push_redis_packet-Carries env 0 packet [] ready idle_world idle-Carries refl
        (omega arith, omega arith) (omega arith) in
    let both : returned tt w ≡ returned tt pushed_once = sym run ∙ was_pushed in
    let same : w ≡ pushed_once = cc in rw same at carries

-- A second packet, for which the ring has no room.
abbrev long_packet : Bytes
long_packet = 5 ∷ 0 ∷ 1 ∷ 0 ∷ 9 ∷ []

abbrev orphan : DataPacket
orphan = record { data_size = 5; conn_obj_num = 0 }

abbrev pushed_twice : State env
pushed_twice = record pushed_once {
  proc_skt_queue = record { data_size = 4; conn_obj_num = 0 } ∷ orphan ∷ [];
}

abbrev orphaned : State env
orphaned = record refused { proc_skt_queue = orphan ∷ [] }

was_refused : push_redis_packet env 0 5 long_packet pushed_once ≡ returned tt pushed_twice
unfolding find_user insert_user push_redis_packet user_at reach put_user write_recv_data write
was_refused = refl

one_round : rounds env 1 pushed_twice ≡ returned tt orphaned
unfolding redis_thread_round round process_packet handle_read read_recv_data packet_info read
    copy_out user_at reach put_user find_user insert_user memcpy read_u16 call_handler user_connect
    verify_user_token accept_token ask settle connect_verified reply_connect push_to send_from
one_round = refl

push_redis_packet_refused_example : redis_thread_round env orphaned ≡ fault
unfolding find_user write_recv_data write
push_redis_packet_refused_example =
    push_redis_packet_refused env 0 long_packet ((0, packet) ∷ [])
      (record ready {
        circular_buffer = record {
          buffer = 4 ∷ 0 ∷ 1 ∷ 0 ∷ 0 ∷ 0 ∷ 0 ∷ 0 ∷ [];
          buffer_size = 8;
          write_pos = 4;
          read_pos = 0;
          current_size = 4;
        };
      })
      pushed_once pushed_twice orphaned once-Carries refl (omega arith) refl was_refused one_round
