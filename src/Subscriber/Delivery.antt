-- ===== src/Subscriber/Delivery.antt =====
-- Which connections get which messages in a run of the server.
pub mod Single
pub mod Compose
pub mod Events
use outgame_lobby_server.Prelude.{
  ℕ, ◌<◌, ◌≡◌, refl, ◌∙◌, sym, ap, List, [], ◌∷◌, ◌++◌, append_assoc, append-nil, map, some,
  Option-cases, inl, inr, ◌>>=◌ as result_bind, All, All-mono, u32_mod, ok, throw, Result, Bytes,
  false, ◌==◌, ==_iff, if◌then◌else◌, Bool-cases, none, memcpy, arith,
}
use mathlib.Core.List.{map-append}
use mathlib.Core.Path.{subst}
use outgame_lobby_server.Effects.{Outcome, returned, lift, ◌>>=◌}
use outgame_lobby_server.Overlapped.{Overlapped}
use outgame_lobby_server.Packet.{status_notify, status_notify_size}
use outgame_lobby_server.ConnUser.{ConnUser, Request, wsa_send, wsa_recv, accept_ex, close_socket}
use outgame_lobby_server.ConnUser.Send.{sends_on}
use outgame_lobby_server.ConnUser.Send.Queue.{payloads, pushes}
use outgame_lobby_server.ConnUsersManager.{ConnUsersManager, find_user, get_obj_num_by_pk, lookup}
use outgame_lobby_server.ConnUsersManager.Laws.{at, at_lem}
use outgame_lobby_server.Redis.World.{Environment, State}
use outgame_lobby_server.Redis.Users.{send_friend_status_to_user, obj_num_of}
use outgame_lobby_server.Redis.Push.{Pushes, push_to-Pushes, profile}
use outgame_lobby_server.Redis.Message.{online_message, offline_message, targeted_message}
use outgame_lobby_server.Subscriber.{send_friend_status, handle_lobby_event}
use outgame_lobby_server.Subscriber.RoundTrip.{
  AreWords, handle_lobby_event-online, handle_lobby_event-offline,
}
use outgame_lobby_server.Subscriber.Perform.{perform, perform_all, handle_message}

-- Two connections have two sockets.
abbrev pub HasApartSockets : ConnUsersManager → Type 0
HasApartSockets m =
    (j k : ℕ) (u v : ConnUser)
    → (j == k) ≡ false
    → find_user j m ≡ some u
    → find_user k m ≡ some v
    → (u.user_skt == v.user_skt) ≡ false

-- What the connection `k`, once `u`, got: the messages `texts`, in order, after what it had to send
-- already. Its profile and its socket are as they were.
pub record Gets (k : ℕ) (texts : List Bytes) (u : ConnUser) (new : List Request)
    (m : ConnUsersManager) : Type 0 where
  pub user : ConnUser
  pub found : find_user k m ≡ some user
  pub same_profile : profile user ≡ profile u
  pub same_socket : user.user_skt ≡ u.user_skt
  pub ordered :
      payloads (sends_on u.user_skt new ++ user.send_queue) ≡ payloads u.send_queue ++ pushes texts

-- One message for the connection `num`.
abbrev pub only : ℕ → Bytes → ℕ → List Bytes
only num text k = if num == k then text ∷ [] else []

-- The targets whose look-up gives the connection `k`, in their order.
abbrev pub aimed : (ℕ → ℕ) → ℕ → List ℕ → List ℕ
aimed look k [] = []
aimed look k (pk ∷ pks) = if look pk == k then pk ∷ aimed look k pks else aimed look k pks

-- The look-up of a key gives a connection that is there.
abbrev pub IsHeld : ConnUsersManager → ℕ → Type 0
IsHeld m pk = (u : ConnUser) × (find_user (at m pk) m ≡ some u)

module _ (env : Environment) where
  -- A run that returned: each connection `k` got the messages `texts k`. No connection came or went, and
  -- a look-up of any key finds what it did.
  pub record Delivers (texts : ℕ → List Bytes) (w : State env) (r : Outcome (State env) (Unit {0}))
      : Type 0 where
    pub after : State env
    pub returns : r ≡ returned tt after
    pub new : List Request
    pub requested : after.requests ≡ w.requests ++ new
    pub users :
        (k : ℕ) (u : ConnUser)
        → find_user k w.manager ≡ some u
        → Gets k (texts k) u new after.manager
    pub missing : (k : ℕ) → find_user k w.manager ≡ none → find_user k after.manager ≡ none
    pub lookups : (pk : ℕ) → at after.manager pk ≡ at w.manager pk

  -- The buffer of a notification.
  abbrev pub notice : ℕ → ℕ → Bytes
  notice friend_pk status =
      memcpy env.unset 0 (status_notify env.padding friend_pk status) 0 status_notify_size

  -- A notification for each target that `k` is to get.
  abbrev pub notices : ConnUsersManager → ℕ → ℕ → List ℕ → ℕ → List Bytes
  notices m user_pk status pks k = map (λ _. notice user_pk status) (aimed (at m) k pks)
