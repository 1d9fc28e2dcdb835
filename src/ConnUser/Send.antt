-- ===== src/ConnUser/Send.antt =====
-- The send path of one connection as a system of steps: the server pushes messages, the system
-- completes sends.
pub mod Queue
pub mod Stall
use outgame_lobby_server.Prelude.{
  ℕ, ◌+◌, ◌-◌, ◌<◌, ◌≡◌, List, [], ◌∷◌, ◌++◌, map, Option, some, Bytes, memcpy, length, ◌==◌,
  if◌then◌else◌,
}
use outgame_lobby_server.Overlapped.{Overlapped, OverLappedManager}
use outgame_lobby_server.ConnUser.{
  Request, wsa_send, wsa_recv, accept_ex, close_socket, ConnUser, push_send_msg, send_complete,
}

-- A connection, the pool, the objects that `WSASend` was given so far, how many of those sends have not
-- completed, and the buffers that were pushed so far.
pub record Line : Type 0 where
  pub user : ConnUser
  pub manager : OverLappedManager
  pub sent : List Overlapped
  pub in_flight : ℕ
  pub pushed : List Bytes

abbrev pub sends_of : List Request → List Overlapped
sends_of [] = []
sends_of (wsa_send s o ∷ rest) = o ∷ sends_of rest
sends_of (wsa_recv s o ∷ rest) = sends_of rest
sends_of (accept_ex s o ∷ rest) = sends_of rest
sends_of (close_socket s ∷ rest) = sends_of rest

-- The objects that were sent on one socket.
abbrev pub sends_on : ℕ → List Request → List Overlapped
sends_on socket [] = []
sends_on socket (wsa_send s o ∷ rest) =
    if s == socket then o ∷ sends_on socket rest else sends_on socket rest
sends_on socket (wsa_recv s o ∷ rest) = sends_on socket rest
sends_on socket (accept_ex s o ∷ rest) = sends_on socket rest
sends_on socket (close_socket s ∷ rest) = sends_on socket rest

unfoldable pub after_push : Bytes → ℕ → Bytes → Line → Line
after_push unset size msg s =
    let (m, u, requests) = push_send_msg unset size msg s.manager s.user in
    record {
      user = u;
      manager = m;
      sent = s.sent ++ sends_of requests;
      in_flight = s.in_flight + length (sends_of requests);
      pushed = s.pushed ++ memcpy unset 0 msg 0 size ∷ [];
    }

unfoldable pub after_complete : Line → Line
after_complete s =
    let (u, requests) = send_complete s.user in
    record s {
      user = u;
      sent = s.sent ++ sends_of requests;
      in_flight = s.in_flight - 1 + length (sends_of requests);
    }

-- A completion needs a send in flight.
pub data Step (s : Line) (t : Line) : Type 0 where
  push : (unset : Bytes) (size : ℕ) (msg : Bytes) → t ≡ after_push unset size msg s → Step s t
  complete : 0 < s.in_flight → t ≡ after_complete s → Step s t

pub data Reach (s : Line) : Line → Type 0 where
  here : Reach s s
  next : {t u : Line} → Reach s t → Step t u → Reach s u
