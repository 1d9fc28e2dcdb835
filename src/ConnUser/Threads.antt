-- ===== src/ConnUser/Threads.antt =====
-- `PushSendMsg` and `SendComplete` as the threads of the server run them: each access to the queue, to
-- the count and to the socket is a step of its own, and the steps of the threads interleave.
pub mod Alone
pub mod Conserve
pub mod Stuck
pub mod Plays
pub mod Race
pub mod Order
mod Tests
use outgame_lobby_server.Prelude.{
  ℕ, suc, ◌+◌, ◌-◌, ◌<◌, ◌≡◌, List, [], ◌∷◌, ◌++◌, some, Bytes, memcpy, get_elem?, set, ◌==◌,
  if◌then◌else◌, add16, sub16,
}
use outgame_lobby_server.Overlapped.{Overlapped}
use outgame_lobby_server.ConnUser.{ConnUser, send_object}
use outgame_lobby_server.ConnUser.Send.{Line}

-- Where a thread is: outside both functions, or before the step that it takes next. `pushing` is before
-- `sendQueue.push`, `counting` before `fetch_add`, `uncounting` before `fetch_sub`, `testing` before
-- `load`, `popping` before `sendQueue.pop`, and `sending` before `WSASend`.
pub data Pc : Type 0 where
  idle counting uncounting testing popping : Pc
  pushing sending : Overlapped → Pc

-- A thread enters `PushSendMsg`: it takes an object from the pool, or makes one, and fills it.
unfoldable pub begin_push : Bytes → ℕ → Bytes → Line → Pc × Line
begin_push unset size msg s =
    let buffer = memcpy unset 0 msg 0 size in
    let (o, m) = send_object buffer s.manager s.user in
    (pushing o, record s { manager = m; pushed = s.pushed ++ buffer ∷ [] })

-- A worker has the completion of a send, and enters `SendComplete`.
unfoldable pub begin_complete : Line → Pc × Line
begin_complete s = (uncounting, record s { in_flight = s.in_flight - 1 })

unfoldable pub pop_front : List Overlapped → Line → Pc × Line
pop_front [] s = (idle, s)
pop_front (o ∷ rest) s = (sending o, record s { user = record s.user { send_queue = rest } })

-- The next step of a thread inside one of the functions.
unfoldable pub advance : Pc → Line → Pc × Line
unfolding pop_front
advance idle s = (idle, s)
advance (pushing o) s =
    (counting, record s { user = record s.user { send_queue = s.user.send_queue ++ o ∷ [] } })
advance counting s = (
  testing,
  record s { user = record s.user { send_queue_size = add16 s.user.send_queue_size 1 } },
)
advance uncounting s = (
  testing,
  record s { user = record s.user { send_queue_size = sub16 s.user.send_queue_size 1 } },
)
advance testing s = (if s.user.send_queue_size == 1 then popping else idle, s)
advance popping s = pop_front s.user.send_queue s
advance (sending o) s = (idle, record s { sent = s.sent ++ o ∷ []; in_flight = s.in_flight + 1 })

pub record Threads : Type 0 where
  pub line : Line
  pub pcs : List Pc

-- Thread `i` has moved.
abbrev pub turn : ℕ → Pc × Line → Threads → Threads
turn i r s = record { line = r.1; pcs = set s.pcs i r.0 }

-- Any thread may take its next step; one that is idle may enter a function, `SendComplete` if a
-- send is in flight.
pub data Step (s : Threads) : Threads → Type 0 where
  push :
      (i : ℕ) (unset : Bytes) (size : ℕ) (msg : Bytes)
      → get_elem? s.pcs i ≡ some idle
      → Step s (turn i (begin_push unset size msg s.line) s)
  complete :
      (i : ℕ)
      → get_elem? s.pcs i ≡ some idle
      → 0 < s.line.in_flight
      → Step s (turn i (begin_complete s.line) s)
  go : (i : ℕ) (p : Pc) → get_elem? s.pcs i ≡ some p → Step s (turn i (advance p s.line) s)

pub data Reach (s : Threads) : Threads → Type 0 where
  here : Reach s s
  next : {t u : Threads} → Reach s t → Step t u → Reach s u
