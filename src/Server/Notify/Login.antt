-- ===== src/Server/Notify/Login.antt =====
-- A login on one server and the notifications of the friends on another: `UserConnect` of the one,
-- `HandleLobbyEvent` of the other.
use outgame_lobby_server.Prelude.{
  ℕ, ◌<◌, ◌≡◌, ◌≢◌, ap, List, [], ◌∷◌, ◌++◌, map, Option, some, Bytes, codes, All, u32_mod, true,
  length,
}
use mathlib.Core.List.{Mem}
use outgame_lobby_server.Effects.{returned, Outcome}
use outgame_lobby_server.Packet.{request_user_id, request_token, connect_response_size}
use outgame_lobby_server.ConnUser.{ConnUser, set_id, set_pk}
use outgame_lobby_server.ConnUsersManager.{find_user}
use outgame_lobby_server.Mysql.Friends.{Selects}
use outgame_lobby_server.Redis.Client.{Redis, Reply, answered}
use outgame_lobby_server.Redis.World.{Environment, State, user_key, ask, settle}
use outgame_lobby_server.Redis.Users.{user_connect, mark_online, reply_connect}
use outgame_lobby_server.Redis.Publish.{verify_user_token}
use outgame_lobby_server.Redis.Publish.Targets.{located}
use outgame_lobby_server.Redis.Published.{Records}
use outgame_lobby_server.Redis.Push.{Pushes, push_to-Pushes}
use outgame_lobby_server.Redis.Login.{user_connect-Enters}
use outgame_lobby_server.Redis.Login.Enter.{response, logged_in, returned-same}
use outgame_lobby_server.Subscriber.RoundTrip.{AreWords}
use outgame_lobby_server.Subscriber.Perform.{handle_message}
use outgame_lobby_server.Subscriber.Delivery.{HasApartSockets, IsHeld, Delivers, notices}
use outgame_lobby_server.Server.Notify.{VisitsAll, notify_friend_online-Relays}

-- A Redis that answers `HSET` and `EXPIRE`, which change nothing of what was published.
pub record Stores (redis : Redis) (published : redis.Store → List (Bytes × Bytes)) : Type 0 where
  pub sets :
      (key field text : Bytes) (s : redis.Store) → (redis.hset key field text s).0 ≡ answered tt
  pub expires :
      (key : Bytes) (seconds : ℕ) (s : redis.Store) → (redis.expire key seconds s).0 ≡ answered tt
  pub keeps :
      (key field text : Bytes) (s : redis.Store)
      → published (redis.hset key field text s).1 ≡ published s
  pub keeps_expiring :
      (key : Bytes) (seconds : ℕ) (s : redis.Store)
      → published (redis.expire key seconds s).1 ≡ published s

module _ (a : Environment) (published : a.redis.Store → List (Bytes × Bytes)) where
  -- A login, and what it left for the server `b` in the state `v`.
  pub record Announces (num : ℕ) (user : ConnUser) (server : Bytes) (targets : List ℕ)
      (r : Outcome (State a) (Unit {0})) (b : Environment) (v : State b) : Type 0 where
    pub after : State a
    pub found : find_user num after.manager ≡ some user
    pub pushed : Pushes a num connect_response_size (response a true) user after r
    pub text : Bytes
    pub posted : Mem (server ++ codes ":events", text) (published after.store)
    pub delivered :
        Delivers b (notices b v.manager user.user_pk 1 targets) v (handle_message b text v)

  module _ (records : Records a.redis published) (stores : Stores a.redis published)
      (visits : VisitsAll a.bucket_order) {rows : a.mysql.Db → List ℕ} {friend : ℕ}
      {friends : List ℕ} (selects : Selects a.mysql rows (friend ∷ friends))
      (fuel : length (friend ∷ friends) < a.row_fuel) where
    -- A login with a token that Redis holds for a key from 1, of a user whom MySQL gives the friends
    -- `friend ∷ friends`, all `uint32_t` numbers, while a connection and a permit are there. Redis
    -- answers, keeps what is published, and locates at least one of the friends on `server`; the
    -- iteration over the map visits every entry. Then the user is left with the key, the id and the
    -- friends and gets the response of success as the only message, and on the channel
    -- `server:events` stands a text with this effect: a server that handles it, if its connections have
    -- apart sockets and its look-up of each friend located on `server` gives a connection, sends each
    -- connection, after what it had to send already, one notification with the status 1 for each of
    -- those friends whose look-up gives it, and nothing else.
    pub user_connect-Announces :
        (num size pk : ℕ) (packet : Bytes) (u : ConnUser) (w w' : State a)
        (replies : List (Reply (Option Bytes))) (server : Bytes) (b : Environment) (v : State b)
        → find_user num w.manager ≡ some u
        → verify_user_token a (request_user_id packet) (request_token packet) w
          ≡ returned (some pk) w'
        → 0 < length w.sql.db_pool
        → 0 < w.sql.permits
        → (a.redis.hget_all (map user_key (friend ∷ friends)) (codes "server") w'.store).0
          ≡ answered replies
        → 0 < pk
        → pk < u32_mod
        → AreWords (friend ∷ friends)
        → located server (friend ∷ friends) replies ≢ []
        → HasApartSockets v.manager
        → All (IsHeld v.manager) (located server (friend ∷ friends) replies)
        → Announces num
            (logged_in (request_user_id packet) pk (friend ∷ friends) u)
            server
            (located server (friend ∷ friends) replies)
            (user_connect a num size packet w)
            b
            v
    unfolding mark_online ask settle reply_connect set_id set_pk
    user_connect-Announces num size pk packet u w w' replies server b v e verified some_left pos
          found pos_key lt words some_target apart held =
        let enters =
          user_connect-Enters a selects fuel num size pk packet u w w' e verified some_left pos in
        let (before, starts, told) = enters.told in
        let relays =
          notify_friend_online-Relays a published records visits pk friend friends replies server
            before b v (rw starts found) pos_key lt words some_target apart held in
        let same : relays.store ≡ enters.after.store =
          ap (λ (x : State a). x.store) (returned-same a _ _ _ _ _ relays.returns told).1 in
        let key : Bytes = user_key pk in
        let s₁ : a.redis.Store =
          (a.redis.hset key (codes "state") (codes "lobby") enters.after.store).1 in
        let after : State a = record enters.after { store = (a.redis.expire key 300 s₁).1 } in
        record {
          after = after;
          found = enters.found;
          pushed = rw enters.same (
              rw (stores.sets key (codes "state") (codes "lobby") enters.after.store) (
                rw (stores.expires key 300 s₁) (
                  push_to-Pushes a num connect_response_size (response a true) _ after
                    enters.found)));
          text = relays.text;
          posted = rw (stores.keeps_expiring key 300 s₁) (
              rw (stores.keeps key (codes "state") (codes "lobby") enters.after.store)
                (rw (← same) relays.posted));
          delivered = relays.delivered;
        }
