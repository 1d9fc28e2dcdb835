-- ===== src/Overlapped.antt =====
-- Define.h and OverLappedManager.h/.cpp: the overlapped objects of the asynchronous socket calls and
-- their pool. A pointer to such an object is the object with its address.
pub mod Pool
mod Tests
use outgame_lobby_server.Prelude.{ℕ, zero, suc, ◌+◌, List, [], ◌∷◌, ◌++◌, Option, none, some, Bytes}

abbrev pub max_recv_size : ℕ
max_recv_size = 1024

abbrev pub max_circle_size : ℕ
max_circle_size = 8096

abbrev pub overlapped_queue_size : ℕ
overlapped_queue_size = 300

-- `enum class TaskType`
pub data TaskType : Type 0 where
  accept recv send new_recv new_send : TaskType

-- Where an object lies: allocated by `new`, or the member `acceptOvlap` of a connection object.
pub data Address : Type 0 where
  heap accept_slot : ℕ → Address

-- `struct OverlappedEx`. The system's own `wsaOverlapped` is left out; `none` is a null `wsaBuf.buf`.
pub record Overlapped : Type 0 where
  pub address : Address
  pub wsa_len : ℕ
  pub wsa_buf : Option Bytes
  pub task_type : TaskType
  pub conn_obj_num : ℕ

-- `ZeroMemory`: the task type with value 0 is `ACCEPT`.
abbrev pub zeroed : Address → Overlapped
zeroed address = record {
  address = address;
  wsa_len = 0;
  wsa_buf = none;
  task_type = accept;
  conn_obj_num = 0;
}

-- `class OverLappedManager`, with the number of objects that `new` has given so far.
pub record OverLappedManager : Type 0 where
  pub ov_lap_pool : List Overlapped
  pub allocated : ℕ

-- `new OverlappedEx` and `ZeroMemory`
unfoldable pub new_overlapped : OverLappedManager → Overlapped × OverLappedManager
new_overlapped m = (zeroed (heap m.allocated), record m { allocated = m.allocated + 1 })

-- The loop of `init`, with `n` rounds left.
unfoldable pub fill : ℕ → OverLappedManager → OverLappedManager
unfolding new_overlapped
fill zero m = m
fill (suc n) m =
    let (o, m') = new_overlapped m in fill n (record m' { ov_lap_pool = m'.ov_lap_pool ++ o ∷ [] })

unfoldable pub init : OverLappedManager → OverLappedManager
unfolding fill
init m = fill overlapped_queue_size m

-- `getOvLap`; `none` is a null pointer.
unfoldable pub take_front :
    List Overlapped → OverLappedManager → Option Overlapped × OverLappedManager
take_front [] m = (none, m)
take_front (o ∷ rest) m = (some o, record m { ov_lap_pool = rest })

unfoldable pub get_ov_lap : OverLappedManager → Option Overlapped × OverLappedManager
unfolding take_front
get_ov_lap m = take_front m.ov_lap_pool m

-- `returnOvLap`: the buffer is freed, the object zeroed and pushed.
unfoldable pub return_ov_lap : Overlapped → OverLappedManager → OverLappedManager
return_ov_lap o m = record m { ov_lap_pool = m.ov_lap_pool ++ zeroed o.address ∷ [] }

-- The destructor: the addresses that it deletes, in order, and the pool that is left.
unfoldable pub delete_all : List Overlapped → OverLappedManager → List Address × OverLappedManager
delete_all [] m = ([], m)
delete_all (o ∷ rest) m =
    let (addresses, m') = delete_all rest (record m { ov_lap_pool = rest }) in
    (o.address ∷ addresses, m')

unfoldable pub destroy : OverLappedManager → List Address × OverLappedManager
unfolding delete_all
destroy m = delete_all m.ov_lap_pool m
