-- ===== src/Server/Notify.antt =====
-- A friend's event from the server that publishes it to the server that reads it: `PublishToUsers` of the
-- one, `HandleLobbyEvent` of the other.

pub mod Login
mod Tests
use outgame_lobby_server.Prelude.{
  ℕ, ◌<◌, ◌≡◌, ◌≢◌, refl, ap, List, [], ◌∷◌, ◌++◌, map, Option, none, some, Bytes, codes, All,
  u32_mod, Bool, true, false, Bool-cases, inl, inr, ok,
}
use mathlib.Core.Logic.Or
use mathlib.Core.List.{
  Mem, Mem-prop, not-mem-nil, mem-cons_self, mem-cons_of_mem, eq-or-mem_of_mem-cons,
  mem-append_right,
}
use mathlib.Core.Path.{subst}
use mathlib.Core.List.Memᴰ
use outgame_lobby_server.Effects.{returned, Outcome}
use outgame_lobby_server.Redis.Client.{Reply, answered, failed}
use outgame_lobby_server.Redis.World.{Groups, Environment, State, user_key, on_sql}
use outgame_lobby_server.Redis.Publish.{
  bytes_eq, group_targets, publish_to_users, notify_friend_online, notify_friend_offline,
  notify_listed,
}
use outgame_lobby_server.Redis.Publish.Targets.{located, targets_of, group_targets_lem, bytes_eq-eq}
use outgame_lobby_server.Redis.Published.{Records, addressed, posts, publish_to_users-posts}
use outgame_lobby_server.Subscriber.RoundTrip.{AreWords}
use outgame_lobby_server.Subscriber.Perform.{handle_message}
use outgame_lobby_server.Subscriber.Delivery.{HasApartSockets, IsHeld, Delivers, notices}
use outgame_lobby_server.Subscriber.Delivery.Events.{handle_message-online, handle_message-offline}
use outgame_lobby_server.Mysql.{get_user_friends_pks}
use outgame_lobby_server.Text.Decimal.{to_string}
use outgame_lobby_server.Redis.Message.{online_message, offline_message, targeted_message}
use outgame_lobby_server.Redis.Message.Shape.{targeted_message_lem}

-- A list that holds targets of a server holds the server's group.
targets_of-Mem :
    (server : Bytes) (groups : Groups)
    → targets_of server groups ≢ []
    → Mem (server, targets_of server groups) groups
unfolding targets_of
targets_of-Mem server [] ne = absurd (ne refl)
targets_of-Mem server ((name, pks) ∷ groups) ne = elim (Bool-cases (bytes_eq name server)) [
  | inl e ↦
      rw e
        (subst (λ x. Mem (x, pks) ((name, pks) ∷ groups)) (bytes_eq-eq name server e) mem-cons_self)
  | inr e ↦ rw e (mem-cons_of_mem (name, pks) (targets_of-Mem server groups (rw e at ne)))
]

posts-Mem :
    (front server : Bytes) (pks : List ℕ) (groups : Groups)
    → Mem (server, pks) groups
    → Mem (server ++ codes ":events", addressed front pks) (posts front groups)
posts-Mem front server pks [] h = absurd (not-mem-nil h)
posts-Mem front server pks ((name, other) ∷ groups) h =
    Or.elim Mem-prop (eq-or-mem_of_mem-cons h)
      (λ e. ∣ Memᴰ.head (ap (λ g. (g.0 ++ codes ":events", addressed front g.1)) e) ∣₁)
      (λ m. mem-cons_of_mem _ (posts-Mem front server pks groups m))

located-words :
    (server : Bytes) (pks : List ℕ) (replies : List (Reply (Option Bytes)))
    → AreWords pks
    → AreWords (located server pks replies)
unfolding located
located-words server [] replies h = tt
located-words server (pk ∷ pks) [] h = tt
located-words server (pk ∷ pks) (answered (some name) ∷ replies) h =
    elim (Bool-cases (bytes_eq name server)) [
      | inl e ↦ rw e (h.0, located-words server pks replies h.1)
      | inr e ↦ rw e (located-words server pks replies h.1)
    ]
located-words server (pk ∷ pks) (answered none ∷ replies) h = located-words server pks replies h.1
located-words server (pk ∷ pks) (failed ∷ replies) h = located-words server pks replies h.1

-- The iteration over an `unordered_map` visits every entry.
abbrev pub VisitsAll : (Groups → Groups) → Type 0
VisitsAll order =
    (server : Bytes) (pks : List ℕ) (groups : Groups)
    → Mem (server, pks) groups
    → Mem (server, pks) (order groups)

-- `NotifyFriendOnline` or `NotifyFriendOffline`: the event, and the status that it tells.
abbrev pub event : Bool → ℕ → Bytes
event true user_pk = online_message user_pk
event false user_pk = offline_message user_pk

abbrev pub status_of : Bool → ℕ
status_of true = 1
status_of false = 0

front-event :
    (online : Bool) (user_pk : ℕ) → (front : Bytes) × (event online user_pk ≡ front ++ codes "}}")
unfolding online_message offline_message
front-event true user_pk = (codes "{\"type\":1,\"data\":{\"userPk\":" ++ to_string user_pk, refl)
front-event false user_pk = (codes "{\"type\":2,\"data\":{\"userPk\":" ++ to_string user_pk, refl)

handle_message-event :
    (b : Environment) (online : Bool) (user_pk : ℕ) (pks : List ℕ) (v : State b) (text : Bytes)
    → targeted_message (event online user_pk) pks ≡ ok text
    → 0 < user_pk
    → user_pk < u32_mod
    → AreWords pks
    → HasApartSockets v.manager
    → All (IsHeld v.manager) pks
    → Delivers b (notices b v.manager user_pk (status_of online) pks) v (handle_message b text v)
handle_message-event b true user_pk pks v text e pos lt words apart held =
    rw e at (handle_message-online b user_pk pks v pos lt words apart held)
handle_message-event b false user_pk pks v text e pos lt words apart held =
    rw e at (handle_message-offline b user_pk pks v pos lt words apart held)

module _ (a : Environment) (published : a.redis.Store → List (Bytes × Bytes)) where
  -- The call returned and left a text on the channel of `server` from which the server `b` in the state
  -- `v` delivers the notifications of the targets `pks`.
  pub record Relays (server : Bytes) (user_pk status : ℕ) (pks : List ℕ) (w : State a)
      (r : Outcome (State a) (Unit {0})) (b : Environment) (v : State b) : Type 0 where
    pub store : a.redis.Store
    pub returns : r ≡ returned tt (record w { store = store })
    pub text : Bytes
    pub posted : Mem (server ++ codes ":events", text) (published store)
    pub delivered : Delivers b (notices b v.manager user_pk status pks) v (handle_message b text v)

  module _ (records : Records a.redis published) (visits : VisitsAll a.bucket_order) where
    publish_to_users-Relays :
        (online : Bool) (user_pk pk : ℕ) (pks : List ℕ) (replies : List (Reply (Option Bytes)))
        (server : Bytes) (w : State a) (b : Environment) (v : State b)
        → (a.redis.hget_all (map user_key (pk ∷ pks)) (codes "server") w.store).0 ≡ answered replies
        → 0 < user_pk
        → user_pk < u32_mod
        → AreWords (pk ∷ pks)
        → located server (pk ∷ pks) replies ≢ []
        → HasApartSockets v.manager
        → All (IsHeld v.manager) (located server (pk ∷ pks) replies)
        → Relays server user_pk
            (status_of online)
            (located server (pk ∷ pks) replies)
            w
            (publish_to_users a (pk ∷ pks) (event online user_pk) w)
            b
            v
    publish_to_users-Relays online user_pk pk pks replies server w b v found pos lt words
          some_target apart held =
        let (front, is_front) = front-event online user_pk in
        let targets : List ℕ = located server (pk ∷ pks) replies in
        let groups : Groups = group_targets (pk ∷ pks) replies [] in
        let listed : targets_of server groups ≡ targets =
          (group_targets_lem (pk ∷ pks) replies).0 server in
        let there : Mem (server, targets) groups =
          rw listed at (targets_of-Mem server groups (rw listed some_target)) in
        let (s, returns, posted) =
          publish_to_users-posts a published records front pk pks replies w found in
        record {
          store = s;
          returns = rw is_front returns;
          text = addressed front targets;
          posted = rw posted (
              mem-append_right (published w.store) (
                posts-Mem front server targets (a.bucket_order groups)
                  (visits server targets groups there)));
          delivered =
              handle_message-event b online user_pk targets v (addressed front targets)
                (rw is_front (targeted_message_lem front targets)) pos lt
                (located-words server (pk ∷ pks) replies words) apart held;
        }

    -- A user with a key from 1 and the friends `pk ∷ pks`, all `uint32_t` numbers. Redis answers, keeps
    -- what is published, and locates at least one of the friends on `server`; the iteration over the map
    -- visits every entry. Then `NotifyFriendOnline` returns, and on the channel `server:events` stands
    -- a text with this effect: a server that handles it, if its connections have apart sockets and
    -- its look-up of each friend located on `server` gives a connection, sends each connection, after
    -- what it had to send already, one notification with the status 1 for each of those friends
    -- whose look-up gives it, and nothing else.
    pub notify_friend_online-Relays :
        (user_pk pk : ℕ) (pks : List ℕ) (replies : List (Reply (Option Bytes))) (server : Bytes)
        (w : State a) (b : Environment) (v : State b)
        → (a.redis.hget_all (map user_key (pk ∷ pks)) (codes "server") w.store).0 ≡ answered replies
        → 0 < user_pk
        → user_pk < u32_mod
        → AreWords (pk ∷ pks)
        → located server (pk ∷ pks) replies ≢ []
        → HasApartSockets v.manager
        → All (IsHeld v.manager) (located server (pk ∷ pks) replies)
        → Relays server user_pk 1
            (located server (pk ∷ pks) replies)
            w
            (notify_friend_online a user_pk (pk ∷ pks) w)
            b
            v
    unfolding notify_friend_online
    notify_friend_online-Relays user_pk = publish_to_users-Relays true user_pk

    -- The same of `NotifyFriendOffline` with the status 0, where the database gives the friends `pk ∷ pks` and
    -- leaves the server in the state `w'`.
    pub notify_friend_offline-Relays :
        (user_pk pk : ℕ) (pks : List ℕ) (replies : List (Reply (Option Bytes))) (server : Bytes)
        (w w' : State a) (b : Environment) (v : State b)
        → on_sql a (get_user_friends_pks a.mysql a.row_fuel user_pk) w
          ≡ returned (some (pk ∷ pks)) w'
        → (a.redis.hget_all (map user_key (pk ∷ pks)) (codes "server") w'.store).0
          ≡ answered replies
        → 0 < user_pk
        → user_pk < u32_mod
        → AreWords (pk ∷ pks)
        → located server (pk ∷ pks) replies ≢ []
        → HasApartSockets v.manager
        → All (IsHeld v.manager) (located server (pk ∷ pks) replies)
        → Relays server user_pk 0
            (located server (pk ∷ pks) replies)
            w'
            (notify_friend_offline a user_pk w)
            b
            v
    unfolding notify_friend_offline notify_listed
    notify_friend_offline-Relays user_pk pk pks replies server w w' b v friends found pos lt words
          some_target apart held =
        rw friends (
          publish_to_users-Relays false user_pk pk pks replies server w' b v found pos lt words
            some_target apart held)
