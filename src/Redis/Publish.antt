-- ===== src/Redis/Publish.antt =====
-- `VerifyUserToken`, `PublishToUsers`, `NotifyFriendOnline` and `NotifyFriendOffline`.
pub mod Targets
use outgame_lobby_server.Prelude.{
  ℕ, Bool, true, false, ◌&&◌, List, [], ◌∷◌, ◌++◌, map, Option, none, some, Bytes, codes, ◌==◌,
  if◌then◌else◌,
}
use outgame_lobby_server.Effects.{M, pure, lift, try_catch, ◌>>=◌, ◌>>◌}
use outgame_lobby_server.Text.Decimal.{stoul}
use outgame_lobby_server.Mysql.{get_user_friends_pks}
use outgame_lobby_server.Redis.Client.{Redis, Reply, answered, failed}
use outgame_lobby_server.Redis.Message.{online_message, offline_message, targeted_message}
use outgame_lobby_server.Redis.World.{Groups, Environment, World, Server, ask, on_sql, user_key}

unfoldable pub bytes_eq : Bytes → Bytes → Bool
bytes_eq [] [] = true
bytes_eq [] (d ∷ t) = false
bytes_eq (c ∷ s) [] = false
bytes_eq (c ∷ s) (d ∷ t) = c == d && bytes_eq s t

-- `serverTargets[server].push_back(pk)`
unfoldable pub add_target : Bytes → ℕ → Groups → Groups
unfolding bytes_eq
add_target server pk [] = (server, pk ∷ []) ∷ []
add_target server pk ((name, pks) ∷ groups) =
    if bytes_eq name server
    then (name, pks ++ pk ∷ []) ∷ groups
    else (name, pks) ∷ add_target server pk groups

-- The loop over the replies: a user without a server, and a reply that throws, are passed over.
unfoldable pub group_targets : List ℕ → List (Reply (Option Bytes)) → Groups → Groups
unfolding add_target
group_targets [] replies groups = groups
group_targets (pk ∷ pks) [] groups = group_targets pks [] groups
group_targets (pk ∷ pks) (answered (some server) ∷ replies) groups =
    group_targets pks replies (add_target server pk groups)
group_targets (pk ∷ pks) (reply ∷ replies) groups = group_targets pks replies groups

-- The Redis key that holds the login tokens of a user.
abbrev pub token_key : Bytes → Bytes
token_key user_id = codes "jwtcheck:{" ++ user_id ++ codes "}"

module _ (env : Environment) where
  open env use {redis, mysql, bucket_order, row_fuel}

  -- `VerifyUserToken` once `HGET` has answered.
  unfoldable pub accept_token : Bytes → Option Bytes → Server env (Option ℕ)
  accept_token user_id none = pure none
  accept_token user_id (some text) = do
    pk ← lift (stoul text)
    ask env (redis.del (token_key user_id))
    pure (some pk)

  -- `VerifyUserToken`: the key of the user, or `none` where the function returns false.
  unfoldable pub verify_user_token : Bytes → Bytes → Server env (Option ℕ)
  unfolding accept_token
  verify_user_token user_id token =
      try_catch (ask env (redis.hget (token_key user_id) token) >>= accept_token user_id)
        (pure none)

  -- The loop over the servers.
  unfoldable pub publish_groups : Bytes → Groups → Server env (Unit {0})
  publish_groups event_message [] = pure tt
  publish_groups event_message ((server, pks) ∷ groups) = do
    message ← lift (targeted_message event_message pks)
    ask env (redis.publish (server ++ codes ":events") message)
    publish_groups event_message groups

  -- The `try` block of `PublishToUsers`.
  unfoldable pub publish_all : List ℕ → Bytes → Server env (Unit {0})
  publish_all pks event_message = do
    replies ← ask env (redis.hget_all (map user_key pks) (codes "server"))
    publish_groups event_message (bucket_order (group_targets pks replies []))

  -- `PublishToUsers`
  unfoldable pub publish_to_users : List ℕ → Bytes → Server env (Unit {0})
  unfolding publish_all publish_groups group_targets
  publish_to_users [] event_message = pure tt
  publish_to_users (pk ∷ pks) event_message =
      try_catch (publish_all (pk ∷ pks) event_message) (pure tt)

  -- `NotifyFriendOnline`
  unfoldable pub notify_friend_online : ℕ → List ℕ → Server env (Unit {0})
  notify_friend_online user_pk [] = pure tt
  notify_friend_online user_pk (pk ∷ pks) = publish_to_users (pk ∷ pks) (online_message user_pk)

  unfoldable pub notify_listed : ℕ → Option (List ℕ) → Server env (Unit {0})
  notify_listed user_pk none = pure tt
  notify_listed user_pk (some []) = pure tt
  notify_listed user_pk (some (pk ∷ pks)) = publish_to_users (pk ∷ pks) (offline_message user_pk)

  -- `NotifyFriendOffline`
  unfoldable pub notify_friend_offline : ℕ → Server env (Unit {0})
  unfolding notify_listed
  notify_friend_offline user_pk = do
    friends ← on_sql env (get_user_friends_pks mysql row_fuel user_pk)
    notify_listed user_pk friends
