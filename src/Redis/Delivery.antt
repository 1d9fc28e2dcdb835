-- ===== src/Redis/Delivery.antt =====
-- From `PushRedisPacket` through the ring of the connection to the handler.
use outgame_lobby_server.Prelude.{
  ℕ, ◌+◌, ◌^◌, ◌≤◌, ◌<◌, ◌≡◌, refl, ap, ◌∙◌, [], ◌++◌, append-nil, some, Bytes, Bool, true, false,
  length, take, drop, replicate, ltb, get_or-append, length-memcpy, memcpy, arith, ◌==◌,
}
use outgame_lobby_server.Effects.{fault, ◌>>◌}
use outgame_lobby_server.Text.Find.{take-append}
use outgame_lobby_server.CircularBuffer.{CircularBuffer, write, read}
use outgame_lobby_server.CircularBuffer.Invariant.{IsValid, write-IsValid}
use outgame_lobby_server.CircularBuffer.Contents.{contents}
use outgame_lobby_server.CircularBuffer.Queue.{push, pop, write_refines, read_refines}
use outgame_lobby_server.Packet.{PacketInfo, read_u16, user_lobby_connect_request}
use outgame_lobby_server.ConnUser.{ConnUser, write_recv_data, read_recv_data, packet_info}
use outgame_lobby_server.Redis.World.{Environment, State, user_at, reach, put_user}
use outgame_lobby_server.Redis.Thread.{
  push_redis_packet, redis_thread_round, round, process_packet, handle_read, call_handler,
}
use outgame_lobby_server.ConnUsersManager.{find_user, insert_user}
use outgame_lobby_server.ConnUsersManager.Laws.{find_user-insert_user, find_user-lt}

pub take_all : (bytes : Bytes) → take (length bytes) bytes ≡ bytes
take_all bytes = rw append-nil at (take-append bytes [] (length bytes) refl)

-- A ring that holds nothing takes a block that fits, and holds it.
write-empty :
    (c : CircularBuffer) (bytes : Bytes)
    → IsValid c
    → contents c ≡ []
    → length bytes ≤ c.buffer_size
    → contents (write c bytes (length bytes)).1 ≡ bytes
unfolding push
write-empty c bytes v empty fits =
    let small : length bytes < 2 ^ 32 = omega (arith, v.small) in
    let r : contents (write c bytes (length bytes)).1
        ≡ (push c.buffer_size (contents c) bytes (length bytes)).1 =
      ap (λ (p : Bool × Bytes). p.1) (write_refines bytes (length bytes) v (omega arith) small) in
    r ∙ rw empty (ground (arith, take_all bytes))

pop-whole :
    (bytes out : Bytes)
    → pop bytes out (length bytes)
      ≡ (true, bytes ++ drop (length bytes) out, drop (length bytes) bytes)
unfolding pop
pop-whole bytes out = ground (arith, take_all bytes)

-- A ring that holds one block gives it, in front of what the array held behind it.
read-whole :
    (c : CircularBuffer) (out bytes : Bytes)
    → IsValid c
    → contents c ≡ bytes
    → length bytes ≤ length out
    → ((read c out (length bytes)).0 ≡ true)
      × ((read c out (length bytes)).1 ≡ bytes ++ drop (length bytes) out)
read-whole c out bytes v full room =
    let r =
      read_refines out (length bytes) v room
      ∙ (ap (λ (q : Bytes). pop q out (length bytes)) full ∙ pop-whole bytes out) in
    (ap (λ (p : Bool × Bytes × Bytes). p.0) r, ap (λ (p : Bool × Bytes × Bytes). p.1) r)

-- A packet info for the bytes `bytes`, which stand at the front of its data.
pub record IsInfoOf (num : ℕ) (bytes : Bytes) (info : PacketInfo) : Type 0 where
  pub id : info.packet_id ≡ read_u16 bytes 2
  pub size : info.data_size ≡ read_u16 bytes 0
  pub sender : info.conn_obj_num ≡ num
  pub whole : take (length bytes) info.p_data ≡ bytes

pub read_u16-front :
    (bytes rest : Bytes) (i : ℕ)
    → i + 2 ≤ length bytes
    → read_u16 (bytes ++ rest) i ≡ read_u16 bytes i
unfolding read_u16
read_u16-front bytes rest i h =
    ground (arith, get_or-append bytes rest i 0, get_or-append bytes rest (i + 1) 0)

-- What `ReadRecvData` makes of a packet that was written to an empty ring.
read_recv_data-written :
    (num : ℕ) (u : ConnUser) (bytes zeros : Bytes)
    → IsValid u.circular_buffer
    → contents u.circular_buffer ≡ []
    → 4 ≤ length bytes
    → length bytes ≤ u.circular_buffer.buffer_size
    → length bytes ≤ length u.read_data
    → u.conn_obj_num ≡ num
    → let (found, u') =
        read_recv_data zeros (length bytes) (write_recv_data bytes (length bytes) u).1 in
      (info : PacketInfo) × (found ≡ some info) × IsInfoOf num bytes info
unfolding read_recv_data write_recv_data packet_info
read_recv_data-written num u bytes zeros v empty header fits room e =
    let small : length bytes < 2 ^ 32 = omega (arith, v.small) in
    let out : Bytes = memcpy u.read_data 0 zeros 0 (length bytes) in
    let ring : CircularBuffer = (write u.circular_buffer bytes (length bytes)).1 in
    let (_, filled, ring') = read ring out (length bytes) in
    let info : PacketInfo =
      packet_info (record u { read_data = filled; circular_buffer = ring' }) in
    let within : ltb (length u.read_data) (length bytes) ≡ false = ground (arith, room) in
    let (done, moved) =
      read-whole ring out bytes (write-IsValid bytes (length bytes) v small)
        (write-empty u.circular_buffer bytes v empty fits)
        (omega (arith, length-memcpy u.read_data 0 zeros 0 (length bytes))) in
    (
      info,
      rw (within, done) refl,
      record {
        id = rw moved (read_u16-front bytes _ 2 header);
        size = rw moved (read_u16-front bytes _ 0 (omega arith));
        sender = e;
        whole = rw moved (take-append bytes _ (length bytes) refl);
      },
    )

module _ (env : Environment) (num : ℕ) (bytes : Bytes) (u : ConnUser) (w : State env)
    (found : find_user num w.manager ≡ some u) (idle : w.proc_skt_queue ≡ [])
    (v : IsValid u.circular_buffer) (empty : contents u.circular_buffer ≡ [])
    (header : 4 ≤ length bytes) (fits : length bytes ≤ u.circular_buffer.buffer_size)
    (room : length bytes ≤ length u.read_data) (own : u.conn_obj_num ≡ num) where
  -- A packet of at least a header, pushed for a connection whose ring and whose queue are empty, is what
  -- the next round of the thread hands to `packetIDTable`: with its id, its size and its sender, and
  -- with its bytes in front of `pData`.
  pub redis_thread_round-push_redis_packet :
      (info : PacketInfo) × (w' : State env) × IsInfoOf num bytes info
      × ((push_redis_packet env num (length bytes) bytes >> redis_thread_round env) w
          ≡ call_handler env info w')
  unfolding push_redis_packet redis_thread_round round process_packet handle_read user_at reach
      put_user
  redis_thread_round-push_redis_packet =
      let u' : ConnUser = (write_recv_data bytes (length bytes) u).1 in
      let (info, has, is) =
        read_recv_data-written num u bytes (replicate 1024 0) v empty header fits room own in
      let again : find_user num (insert_user num u' w.manager) ≡ some u' =
        ground (
          arith,
          find_user-insert_user num num u' w.manager (find_user-lt num w.manager u found),
        ) in
      let u'' : ConnUser = (read_recv_data (replicate 1024 0) (length bytes) u').1 in
      let w' : State env = record w {
        manager = insert_user num u'' (insert_user num u' w.manager);
        proc_skt_queue = [];
      } in
      (info, w', is, rw (found, idle) (rw again (rw has refl)))

  -- If a packet of at least a header, pushed for a connection whose ring and whose queue are empty, has
  -- any id but that of `USER_LOBBY_CONNECT_REQUEST`, the next round of the thread calls a null pointer.
  pub redis_thread_round_unregistered :
      (read_u16 bytes 2 == user_lobby_connect_request) ≡ false
      → (push_redis_packet env num (length bytes) bytes >> redis_thread_round env) w ≡ fault
  unfolding call_handler
  redis_thread_round_unregistered other =
      let (info, w', is, run) = redis_thread_round-push_redis_packet in
      let unknown : (info.packet_id == user_lobby_connect_request) ≡ false = rw is.id other in
      run ∙ rw unknown refl
