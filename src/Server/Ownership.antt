-- ===== src/Server/Ownership.antt =====
-- Who holds the overlapped objects that `new` made: the pool, the queue of a connection, or the system.
pub mod Counts
pub mod Rounds
pub mod Flights
mod Start
mod Tests
use outgame_lobby_server.Prelude.{
  ℕ, ◌+◌, Bool, true, false, List, [], ◌∷◌, Option, none, some, ltb, ◌==◌, if◌then◌else◌,
}
use outgame_lobby_server.Overlapped.{Overlapped, OverLappedManager, Address, heap, accept_slot}
use outgame_lobby_server.ConnUser.{ConnUser, Request, wsa_send, wsa_recv, accept_ex, close_socket}
use outgame_lobby_server.Server.{Lobby}

-- The address of the object `n` that `new` made.
abbrev pub is_heap : ℕ → Address → Bool
is_heap n (heap m) = m == n
is_heap n (accept_slot m) = false

-- How often the object `n` stands in a list.
abbrev pub count : ℕ → List Overlapped → ℕ
count n [] = 0
count n (o ∷ os) = (if is_heap n o.address then 1 else 0) + count n os

-- How often it waits in the queue of a connection.
abbrev pub waits : ℕ → List (Option ConnUser) → ℕ
waits n [] = 0
waits n (none ∷ users) = waits n users
waits n (some u ∷ users) = count n u.send_queue + waits n users

-- How often a request has carried it to the system.
abbrev pub asked : ℕ → List Request → ℕ
asked n [] = 0
asked n (wsa_send s o ∷ rest) = (if is_heap n o.address then 1 else 0) + asked n rest
asked n (wsa_recv s o ∷ rest) = (if is_heap n o.address then 1 else 0) + asked n rest
asked n (accept_ex s o ∷ rest) = (if is_heap n o.address then 1 else 0) + asked n rest
asked n (close_socket s ∷ rest) = asked n rest

-- In how many places of the pool it stands; an object that is not made yet stands in one.
abbrev pub pooled : ℕ → OverLappedManager → ℕ
pooled n m = count n m.ov_lap_pool + (if ltb n m.allocated then 0 else 1)

-- How often the server itself holds it.
abbrev pub held : ℕ → Lobby → ℕ
held n l = pooled n l.pool + waits n l.manager.conn_users

-- How often the server holds it or has handed it over.
abbrev pub total : ℕ → Lobby → ℕ
total n l = held n l + asked n l.requests
