-- ===== src/Redis/Quiet.antt =====
-- `PublishToUsers` and `VerifyUserToken` over any Redis.
use outgame_lobby_server.Prelude.{
  ℕ, ◌≡◌, refl, List, [], ◌∷◌, Option, none, some, Bytes, Result, ok, throw,
}
use outgame_lobby_server.Effects.{
  Outcome, returned, raised, fault, blocked, and_then, ◌>>=◌, lift, recover, pure,
}
use outgame_lobby_server.Text.Decimal.{stoul}
use outgame_lobby_server.Redis.Client.{Reply, answered, failed}
use outgame_lobby_server.Redis.Message.{online_message, targeted_message}
use outgame_lobby_server.Redis.World.{Groups, Environment, State, Server, ask, settle}
use outgame_lobby_server.Redis.Publish.{
  publish_groups, publish_all, publish_to_users, notify_friend_online, verify_user_token,
  accept_token,
}

module _ (env : Environment) where
  open env use {redis}

  -- Returned or thrown, with a change of the store at most.
  abbrev pub OnlyStore : {A : Type 0} → State env → Outcome (State env) A → Type 0
  OnlyStore w (returned a v) = (s : redis.Store) × (v ≡ record w { store = s })
  OnlyStore w (raised e v) = (s : redis.Store) × (v ≡ record w { store = s })
  OnlyStore w fault = ⊥
  OnlyStore w blocked = ⊥

  OnlyStore-bind :
      {A B : Type 0} (w : State env) (r : Outcome (State env) A) (f : A → Server env B)
      → OnlyStore w r
      → ((a : A) (s : redis.Store) → OnlyStore w (f a (record w { store = s })))
      → OnlyStore w (and_then r f)
  OnlyStore-bind w (returned a v) f (s, e) g = rw e (g a s)
  OnlyStore-bind w (raised e v) f h g = h
  OnlyStore-bind w fault f h g = absurd h
  OnlyStore-bind w blocked f h g = absurd h

  OnlyStore-settle :
      {A : Type 0} (r : Reply A) (w : State env) (s : redis.Store)
      → OnlyStore w (settle env r (record w { store = s }))
  unfolding settle
  OnlyStore-settle (answered a) w s = (s, refl)
  OnlyStore-settle failed w s = (s, refl)

  OnlyStore-ask :
      {A : Type 0} (command : redis.Store → Reply A × redis.Store) (w : State env) (s : redis.Store)
      → OnlyStore w (ask env command (record w { store = s }))
  unfolding ask
  OnlyStore-ask command w s = OnlyStore-settle (command s).0 w (command s).1

  OnlyStore-lift :
      {A : Type 0} (r : Result A) (w : State env) (s : redis.Store)
      → OnlyStore w (lift r (record w { store = s }))
  OnlyStore-lift (ok a) w s = (s, refl)
  OnlyStore-lift (throw e) w s = (s, refl)

  OnlyStore-publish_groups :
      (event_message : Bytes) (groups : Groups) (w : State env) (s : redis.Store)
      → OnlyStore w (publish_groups env event_message groups (record w { store = s }))
  unfolding publish_groups
  OnlyStore-publish_groups event_message [] w s = (s, refl)
  OnlyStore-publish_groups event_message ((server, pks) ∷ groups) w s =
      OnlyStore-bind w (lift (targeted_message event_message pks) (record w { store = s })) _
        (OnlyStore-lift (targeted_message event_message pks) w s)
        λ message s'.
          OnlyStore-bind w (ask env _ (record w { store = s' })) _ (OnlyStore-ask _ w s')
            λ _ s''. OnlyStore-publish_groups event_message groups w s''

  recovered :
      {A : Type 0} (w : State env) (d : A) (r : Outcome (State env) A)
      → OnlyStore w r
      → (a : A) × (s : redis.Store) × (recover r (pure d) ≡ returned a (record w { store = s }))
  recovered w d (returned a v) (s, e) = (a, s, rw e refl)
  recovered w d (raised x v) (s, e) = (d, s, rw e refl)
  recovered w d fault h = absurd h
  recovered w d blocked h = absurd h

  -- Whatever Redis answers, `PublishToUsers` returns, and changes nothing but Redis.
  pub publish_to_users-returns :
      (pks : List ℕ) (event_message : Bytes) (w : State env)
      → (s : redis.Store) × (publish_to_users env pks event_message w
          ≡ returned tt (record w { store = s }))
  unfolding publish_to_users
  publish_to_users-returns [] event_message w = (w.store, refl)
  publish_to_users-returns (pk ∷ pks) event_message w =
      let (_, s, e) = recovered w tt (publish_all env (pk ∷ pks) event_message w) (
        OnlyStore-bind w (ask env _ w) _ (OnlyStore-ask _ w w.store)
          λ replies s. OnlyStore-publish_groups event_message _ w s) in
      (s, e)

  pub notify_friend_online-returns :
      (user_pk : ℕ) (pks : List ℕ) (w : State env)
      → (s : redis.Store) × (notify_friend_online env user_pk pks w
          ≡ returned tt (record w { store = s }))
  unfolding notify_friend_online
  notify_friend_online-returns user_pk [] w = (w.store, refl)
  notify_friend_online-returns user_pk (pk ∷ pks) w =
      publish_to_users-returns (pk ∷ pks) (online_message user_pk) w

  OnlyStore-accept_token :
      (user_id : Bytes) (found : Option Bytes) (w : State env) (s : redis.Store)
      → OnlyStore w (accept_token env user_id found (record w { store = s }))
  unfolding accept_token
  OnlyStore-accept_token user_id none w s = (s, refl)
  OnlyStore-accept_token user_id (some text) w s =
      OnlyStore-bind w (lift (stoul text) (record w { store = s })) _
        (OnlyStore-lift (stoul text) w s)
        λ pk s'.
          OnlyStore-bind w (ask env _ (record w { store = s' })) _ (OnlyStore-ask _ w s')
            λ _ s''. (s'', refl)

  pub verify_user_token-returns :
      (user_id token : Bytes) (w : State env)
      → (pk : Option ℕ) × (s : redis.Store) × (verify_user_token env user_id token w
          ≡ returned pk (record w { store = s }))
  unfolding verify_user_token
  verify_user_token-returns user_id token w =
      recovered w none ((ask env _ >>= accept_token env user_id) w) (
        OnlyStore-bind w (ask env _ w) _ (OnlyStore-ask _ w w.store)
          λ found s. OnlyStore-accept_token user_id found w s)
