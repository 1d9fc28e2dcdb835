-- ===== src/Redis/Thread.antt =====
-- `Init`, `PushRedisPacket` and the loop body of `RedisThread`.
use outgame_lobby_server.Prelude.{
  ℕ, List, [], ◌∷◌, ◌++◌, Option, none, some, Bytes, replicate, ◌==◌, if◌then◌else◌,
}
use outgame_lobby_server.Effects.{fault, pure, modify, ◌>>=◌, ◌>>◌}
use outgame_lobby_server.Packet.{DataPacket, PacketInfo, user_lobby_connect_request}
use outgame_lobby_server.ConnUser.{ConnUser, write_recv_data, read_recv_data}
use outgame_lobby_server.Redis.World.{Environment, Server, user_at, put_user}
use outgame_lobby_server.Redis.Users.{user_connect}

module _ (env : Environment) where
  -- `PushRedisPacket`: what `WriteRecvData` returns is not looked at.
  unfoldable pub push_redis_packet : (num size : ℕ) → Bytes → Server env (Unit {0})
  push_redis_packet num size bytes = do
    u ← user_at env num
    put_user env num (write_recv_data bytes size u).1
    modify λ w. record w {
      proc_skt_queue = w.proc_skt_queue ++ record { data_size = size; conn_obj_num = num } ∷ [];
    }

  -- A call through `packetIDTable`, as `Init` fills it. `operator[]` gives a null pointer for any other
  -- id.
  unfoldable pub call_handler : PacketInfo → Server env (Unit {0})
  call_handler info =
      if info.packet_id == user_lobby_connect_request
      then user_connect env info.conn_obj_num info.data_size info.p_data
      else λ w. fault

  -- A call on what `ReadRecvData` left; without a value the behaviour is undefined.
  unfoldable pub handle_read : ℕ → Option PacketInfo × ConnUser → Server env (Unit {0})
  unfolding call_handler
  handle_read num (none, u) = λ w. fault
  handle_read num (some info, u) = do put_user env num u; call_handler info

  unfoldable pub process_packet : DataPacket → Server env (Unit {0})
  unfolding handle_read
  process_packet d = do
    u ← user_at env d.conn_obj_num
    handle_read d.conn_obj_num (read_recv_data (replicate 1024 0) d.data_size u)

  -- One round of the loop; on an empty queue it sleeps.
  unfoldable pub round : List DataPacket → Server env (Unit {0})
  unfolding process_packet
  round [] = pure tt
  round (d ∷ rest) = do modify λ w. record w { proc_skt_queue = rest }; process_packet d

  unfoldable pub redis_thread_round : Server env (Unit {0})
  unfolding round
  redis_thread_round w = round w.proc_skt_queue w
