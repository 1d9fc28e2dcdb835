-- ===== src/Redis/Published.antt =====
-- What `NotifyFriendOnline` publishes.
pub mod Samples
mod Tests
use outgame_lobby_server.Prelude.{
  ℕ, ◌≡◌, refl, sym, ◌∙◌, ap, List, [], ◌∷◌, ◌++◌, map, append_assoc, append-nil, Option, Bytes,
  codes,
}
use outgame_lobby_server.Effects.{returned}
use outgame_lobby_server.Text.Decimal.{to_string}
use outgame_lobby_server.Text.Tokens.{joined}
use outgame_lobby_server.Redis.Client.{Redis, Reply, answered}
use outgame_lobby_server.Redis.Message.{online_message, targeted_message}
use outgame_lobby_server.Redis.Message.Shape.{decimals, targeted_message_lem}
use outgame_lobby_server.Redis.World.{Groups, Environment, State, ask, settle, user_key}
use outgame_lobby_server.Redis.Publish.{
  group_targets, publish_groups, publish_all, publish_to_users, notify_friend_online,
}

-- A Redis that answers every `PUBLISH`, and in whose store stands what was published; reading changes nothing of it.
pub record Records (redis : Redis) (published : redis.Store → List (Bytes × Bytes)) : Type 0 where
  pub answers :
      (channel message : Bytes) (s : redis.Store)
      → (redis.publish channel message s).0 ≡ answered tt
  pub recorded :
      (channel message : Bytes) (s : redis.Store)
      → published (redis.publish channel message s).1 ≡ published s ++ (channel, message) ∷ []
  pub reads :
      (keys : List Bytes) (field : Bytes) (s : redis.Store)
      → published (redis.hget_all keys field s).1 ≡ published s

-- The event `front` for some targets.
abbrev pub addressed : Bytes → List ℕ → Bytes
addressed front pks =
    front ++ (codes ",\"targets\":[" ++ (joined b',' (decimals pks) ++ codes "]}}"))

-- One message on the channel of each server.
abbrev pub posts : Bytes → Groups → List (Bytes × Bytes)
posts front [] = []
posts front ((server, pks) ∷ groups) =
    (server ++ codes ":events", addressed front pks) ∷ posts front groups

module _ (env : Environment) (published : env.redis.Store → List (Bytes × Bytes))
    (records : Records env.redis published) where
  open env use {redis}

  publish_groups-posts :
      (front : Bytes) (groups : Groups) (w : State env)
      → (s : redis.Store) × (publish_groups env (front ++ codes "}}") groups w
          ≡ returned tt (record w { store = s }))
        × (published s ≡ published w.store ++ posts front groups)
  unfolding publish_groups ask settle
  publish_groups-posts front [] w = (w.store, refl, sym (append-nil (published w.store)))
  publish_groups-posts front ((server, pks) ∷ groups) w =
      let channel : Bytes = server ++ codes ":events" in
      let text : Bytes = addressed front pks in
      let s₁ : redis.Store = (redis.publish channel text w.store).1 in
      let (s, returns, posted) = publish_groups-posts front groups (record w { store = s₁ }) in
      (
        s,
        rw (targeted_message_lem front pks) (rw (records.answers channel text w.store) returns),
        posted ∙ rw (records.recorded channel text w.store) (append_assoc (published w.store) _ _),
      )

  pub publish_to_users-posts :
      (front : Bytes) (pk : ℕ) (pks : List ℕ) (replies : List (Reply (Option Bytes)))
      (w : State env)
      → (redis.hget_all (map user_key (pk ∷ pks)) (codes "server") w.store).0 ≡ answered replies
      → (s : redis.Store) × (publish_to_users env (pk ∷ pks) (front ++ codes "}}") w
          ≡ returned tt (record w { store = s }))
        × (published s
            ≡ published w.store
              ++ posts front (env.bucket_order (group_targets (pk ∷ pks) replies [])))
  unfolding publish_to_users publish_all ask settle
  publish_to_users-posts front pk pks replies w found =
      let keys : List Bytes = map user_key (pk ∷ pks) in
      let s₁ : redis.Store = (redis.hget_all keys (codes "server") w.store).1 in
      let (s, returns, posted) =
        publish_groups-posts front (env.bucket_order (group_targets (pk ∷ pks) replies []))
          (record w { store = s₁ }) in
      (s, rw found (rw returns refl), rw (records.reads keys (codes "server") w.store) at posted)

  -- Over a Redis that answers every `PUBLISH` and the look-up of the friends' servers: `NotifyFriendOnline` publishes one
  -- message for each server on which a friend was found, on its channel, in the order of the map's buckets, with the
  -- friends there as its targets, and nothing else.
  pub notify_friend_online-posts :
      (user_pk pk : ℕ) (pks : List ℕ) (replies : List (Reply (Option Bytes))) (w : State env)
      → (redis.hget_all (map user_key (pk ∷ pks)) (codes "server") w.store).0 ≡ answered replies
      → (s : redis.Store) × (notify_friend_online env user_pk (pk ∷ pks) w
          ≡ returned tt (record w { store = s }))
        × (published s
            ≡ published w.store
              ++ posts
                  (codes "{\"type\":1,\"data\":{\"userPk\":" ++ to_string user_pk)
                  (env.bucket_order (group_targets (pk ∷ pks) replies [])))
  unfolding notify_friend_online online_message
  notify_friend_online-posts user_pk pk pks replies w found =
      publish_to_users-posts (codes "{\"type\":1,\"data\":{\"userPk\":" ++ to_string user_pk) pk pks
        replies w found
