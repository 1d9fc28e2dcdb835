-- ===== src/ConnUser.antt =====
-- ConnUser.h: one connection object. Socket calls go out as requests, in order; what the system answers
-- is an argument.
pub mod Send
mod Friends
pub mod Threads
pub mod Samples
mod Tests
use outgame_lobby_server.Prelude.{
  ℕ, ◌+◌, Bool, true, false, List, [], ◌∷◌, ◌++◌, Option, none, some, Bytes, get_or, memcpy, length,
  leb, ltb, ◌==◌, if◌then◌else◌, ◌||◌, not, add16, sub16, replicate,
}
use outgame_lobby_server.CircularBuffer.{CircularBuffer, create}
use outgame_lobby_server.CircularBuffer
use outgame_lobby_server.Overlapped.{
  Overlapped, OverLappedManager, TaskType, accept, recv, send, new_recv, new_send, heap,
  accept_slot, zeroed, new_overlapped, get_ov_lap, max_recv_size,
}
use outgame_lobby_server.Packet.{PacketInfo, read_u16}

-- The requests that the server makes of the system.
pub data Request : Type 0 where
  wsa_send wsa_recv accept_ex : (socket : ℕ) → Overlapped → Request
  close_socket : ℕ → Request

-- `class ConnUser`
pub record ConnUser : Type 0 where
  pub read_data : Bytes
  pub send_queue : List Overlapped
  pub circular_buffer : CircularBuffer
  pub friend_pks : List ℕ
  pub accept_ovlap : Overlapped
  pub user_id : Bytes
  pub user_skt : ℕ
  pub user_pk : ℕ
  pub conn_obj_num : ℕ
  pub is_conn : Bool
  pub send_queue_size : ℕ

-- The constructor, given a fresh socket, the unset bytes of the ring and the unset `userPk`.
unfoldable pub create_user :
    (socket : ℕ) (storage : Bytes) (unset_pk buffer_size num : ℕ) → ConnUser
create_user socket storage unset_pk buffer_size num = record {
  read_data = replicate max_recv_size 0;
  send_queue = [];
  circular_buffer = create storage buffer_size;
  friend_pks = [];
  accept_ovlap = zeroed (accept_slot num);
  user_id = [];
  user_skt = socket;
  user_pk = unset_pk;
  conn_obj_num = num;
  is_conn = false;
  send_queue_size = 0;
}

-- `Reset`, given the new socket. Nothing but the socket and `isConn` is set anew.
unfoldable pub reset : ℕ → ConnUser → ConnUser × List Request
reset socket u = (record u { is_conn = false; user_skt = socket }, close_socket u.user_skt ∷ [])

unfoldable pub set_pk : ℕ → ConnUser → ConnUser
set_pk pk u = record u { user_pk = pk }

unfoldable pub set_id : Bytes → ConnUser → ConnUser
set_id id u = record u { user_id = id }

-- The friends are a set: a list without repetition.
unfoldable pub member : ℕ → List ℕ → Bool
member pk [] = false
member pk (x ∷ xs) = pk == x || member pk xs

unfoldable pub insert : ℕ → List ℕ → List ℕ
unfolding member
insert pk xs = if member pk xs then xs else xs ++ pk ∷ []

unfoldable pub insert_all : List ℕ → List ℕ → List ℕ
unfolding insert
insert_all [] xs = xs
insert_all (pk ∷ pks) xs = insert_all pks (insert pk xs)

unfoldable pub erase : ℕ → List ℕ → List ℕ
erase pk [] = []
erase pk (x ∷ xs) = if pk == x then xs else x ∷ erase pk xs

unfoldable pub set_friend_pks : List ℕ → ConnUser → ConnUser
unfolding insert_all
set_friend_pks pks u = record u { friend_pks = insert_all pks [] }

unfoldable pub del_friend_pks : ConnUser → ConnUser
del_friend_pks u = record u { friend_pks = [] }

unfoldable pub add_friend : ℕ → ConnUser → ConnUser
unfolding insert
add_friend pk u = record u { friend_pks = insert pk u.friend_pks }

unfoldable pub remove_friend : ℕ → ConnUser → ConnUser
unfolding erase
remove_friend pk u = record u { friend_pks = erase pk u.friend_pks }

-- `WriteRecvData`
unfoldable pub write_recv_data : Bytes → ℕ → ConnUser → Bool × ConnUser
write_recv_data bytes size u =
    let (done, buffer) = CircularBuffer.write u.circular_buffer bytes size in
    (done, record u { circular_buffer = buffer })

-- The header at the front of `readData`.
unfoldable pub packet_info : ConnUser → PacketInfo
packet_info u = record {
  packet_id = read_u16 u.read_data 2;
  data_size = read_u16 u.read_data 0;
  conn_obj_num = u.conn_obj_num;
  p_data = u.read_data;
}

-- `ReadRecvData`. `none` is undefined behaviour: a size beyond `readData` makes `CopyMemory` write past
-- it, and if the ring holds too little the function ends without a value.
unfoldable pub read_recv_data : Bytes → ℕ → ConnUser → Option PacketInfo × ConnUser
unfolding packet_info
read_recv_data bytes size u =
    let copied = memcpy u.read_data 0 bytes 0 size in
    let (done, out, buffer) = CircularBuffer.read u.circular_buffer copied size in
    let u' = record u { read_data = out; circular_buffer = buffer } in
    if ltb (length u.read_data) size
    then (none, u)
    else (if done then some (packet_info u') else none, u')

-- `PostAccept`, given whether `AcceptEx` succeeded or is pending.
unfoldable pub post_accept : Bool → ConnUser → Bool × ConnUser × List Request
post_accept answer u =
    let slot : Overlapped = record (zeroed (accept_slot u.conn_obj_num)) {
      task_type = accept;
      conn_obj_num = u.conn_obj_num;
    } in
    (answer, record u { accept_ovlap = slot }, accept_ex u.user_skt slot ∷ [])

-- An object made ready with a buffer of `MAX_RECV_SIZE` bytes.
abbrev pub load : TaskType → Bytes → ConnUser → Overlapped → Overlapped
load task buffer u o = record o {
  wsa_len = max_recv_size;
  wsa_buf = some buffer;
  task_type = task;
  conn_obj_num = u.conn_obj_num;
}

-- `ConnUserRecv`, given the unset bytes of the buffer and whether `WSARecv` succeeded or is pending.
-- On an empty pool a new object is made, and then the null `tempOvLap` is used: `none`.
unfoldable pub conn_user_recv :
    Bytes → Bool → OverLappedManager → ConnUser → Option (Bool × OverLappedManager × List Request)
conn_user_recv unset answer m u =
    let (found, m') = get_ov_lap m in
    elim found [
      | none ↦ none
      | some o ↦ some (answer, m', wsa_recv u.user_skt (load recv unset u o) ∷ [])
    ]

-- `ProcSend`
unfoldable pub send_front : List Overlapped → ConnUser → ConnUser × List Request
send_front [] u = (u, [])
send_front (o ∷ rest) u = (record u { send_queue = rest }, wsa_send u.user_skt o ∷ [])

unfoldable pub proc_send : ConnUser → ConnUser × List Request
unfolding send_front
proc_send u = send_front u.send_queue u

-- The test at the end of `PushSendMsg` and of `SendComplete`.
unfoldable pub send_if_single : ConnUser → ConnUser × List Request
send_if_single u = if u.send_queue_size == 1 then proc_send u else (u, [])

unfoldable pub enqueue : Overlapped → ConnUser → ConnUser × List Request
enqueue o u =
    send_if_single (record u {
      send_queue = u.send_queue ++ o ∷ [];
      send_queue_size = add16 u.send_queue_size 1;
    })

-- The object that `PushSendMsg` takes from the pool, or makes.
unfoldable pub send_object : Bytes → OverLappedManager → ConnUser → Overlapped × OverLappedManager
send_object buffer m u =
    let (found, m') = get_ov_lap m in
    elim found [
      | none ↦ let (o, m'') = new_overlapped m' in (load new_send buffer u o, m'')
      | some o ↦ (load send buffer u o, m')
    ]

-- `PushSendMsg`, given the unset bytes of the buffer. A message above `MAX_RECV_SIZE` would be
-- written past the buffer; here those bytes are dropped.
unfoldable pub push_send_msg :
    Bytes → ℕ → Bytes → OverLappedManager → ConnUser → OverLappedManager × ConnUser × List Request
push_send_msg unset size msg m u =
    let (o, m') = send_object (memcpy unset 0 msg 0 size) m u in
    let (u', requests) = enqueue o u in (m', u', requests)

-- `SendComplete`
unfoldable pub send_complete : ConnUser → ConnUser × List Request
send_complete u = send_if_single (record u { send_queue_size = sub16 u.send_queue_size 1 })
