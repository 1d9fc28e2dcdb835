-- ===== src/Redis/Login.antt =====
-- `UserConnect` from the packet to the response.
pub mod Enter
mod Tests
use outgame_lobby_server.Prelude.{
  ℕ, ◌+◌, ◌<◌, ◌≡◌, refl, ◌∙◌, sym, ap, List, [], ◌∷◌, ◌++◌, Option, none, some, Bytes, codes,
  length, get_or, Bool, true, false, redis_error, arith, ◌==◌, if◌then◌else◌,
}
use outgame_lobby_server.Effects.{Outcome, returned, raised}
use outgame_lobby_server.Packet.{
  request_user_id, request_token, connect_response, connect_response_size,
}
use outgame_lobby_server.ConnUser.{ConnUser, Request, set_friend_pks, set_pk, set_id}
use outgame_lobby_server.ConnUsersManager.{find_user, insert_user}
use outgame_lobby_server.ConnUsersManager.Laws.{find_user-insert_user, find_user-lt}
use outgame_lobby_server.Mysql.{Manager, get_user_friends_pks}
use outgame_lobby_server.Mysql.Friends.{Selects, get_user_friends_pks-counted}
use outgame_lobby_server.Redis.Client.{answered, failed}
use outgame_lobby_server.Redis.World.{
  Environment, State, ask, settle, user_at, reach, put_user, user_key,
}
use outgame_lobby_server.Redis.Publish.{verify_user_token, notify_friend_online}
use outgame_lobby_server.Redis.Users.{
  change_user, reply_connect, value, mark_online, enter_lobby, connect_listed, connect_verified,
  user_connect,
}
use outgame_lobby_server.Redis.Push.{Pushes, push_to-Pushes}
use outgame_lobby_server.Redis.Quiet.{notify_friend_online-returns, verify_user_token-returns}
use outgame_lobby_server.Redis.Login.Enter.{
  response, logged_in, change_user_lem, returned-same, Enters, enter_lobby-Enters,
}

module _ (env : Environment) where
  -- If `VerifyUserToken` fails, the user is told so with a response, and has the profile that it had;
  -- Redis at most has changed.
  pub user_connect_refused :
      (num size : ℕ) (packet : Bytes) (u : ConnUser) (w w' : State env)
      → find_user num w.manager ≡ some u
      → verify_user_token env (request_user_id packet) (request_token packet) w ≡ returned none w'
      → (s : env.redis.Store) × (w' ≡ record w { store = s })
        × Pushes env num connect_response_size
            (response env false)
            u
            w'
            (user_connect env num size packet w)
  unfolding user_connect connect_verified reply_connect
  user_connect_refused num size packet u w w' e h =
      let (pk, s, r) =
        verify_user_token-returns env (request_user_id packet) (request_token packet) w in
      let same : record w { store = s } ≡ w' = (returned-same env _ pk none _ w' r h).1 in
      let e' : find_user num w'.manager ≡ some u =
        ap (λ (v : State env). find_user num v.manager) (sym same) ∙ e in
      (
        s,
        sym same,
        rw h (push_to-Pushes env num connect_response_size (response env false) u w' e'),
      )

  module _ {rows : env.mysql.Db → List ℕ} {pks : List ℕ} (selects : Selects env.mysql rows pks)
      (fuel : length pks < env.row_fuel) where
    module _ (num size pk : ℕ) (packet : Bytes) (u : ConnUser) (w w' : State env)
        (e : find_user num w.manager ≡ some u)
        (verified : verify_user_token env (request_user_id packet) (request_token packet) w
          ≡ returned (some pk) w')
        (some_left : 0 < length w.sql.db_pool) (pos : 0 < w.sql.permits) where
      pub user_connect-Enters :
          Enters env num pk pks
            (logged_in (request_user_id packet) pk pks u)
            w'.store
            w
            (user_connect env num size packet w)
      unfolding user_connect connect_verified connect_listed
      user_connect-Enters =
          let (_, s, r) =
            verify_user_token-returns env (request_user_id packet) (request_token packet) w in
          let same : record w { store = s } ≡ w' =
            (returned-same env _ _ (some pk) _ w' r verified).1 in
          let (sql, listed, same_length, same_permits) =
            get_user_friends_pks-counted env.mysql rows selects env.row_fuel pk w.sql some_left pos
              fuel in
          let v : State env = record w { store = s; sql = sql } in
          let enters =
            enter_lobby-Enters env selects fuel num pk (request_user_id packet) u v e (omega arith)
              (omega arith) in
          let (before, starts, told) = enters.told in
          record {
            after = enters.after;
            same = rw verified (rw (← same) (rw listed enters.same));
            found = enters.found;
            requested = enters.requested;
            connections = enters.connections ∙ same_length;
            permits = enters.permits ∙ same_permits;
            told = (before, starts ∙ ap (λ (x : State env). x.store) same, told);
          }

      -- A verified login over a MySQL that lists the friends and a Redis that takes the user's state: the
      -- user is left with the key, the id and the friends, and then gets the response of success as
      -- the only message; MySQL has its connections and permits.
      pub user_connect_succeeds :
          ((key field text : Bytes) (s : env.redis.Store)
            → (env.redis.hset key field text s).0 ≡ answered tt)
          → ((key : Bytes) (seconds : ℕ) (s : env.redis.Store)
              → (env.redis.expire key seconds s).0 ≡ answered tt)
          → (v : State env) × (find_user num v.manager
              ≡ some (logged_in (request_user_id packet) pk pks u))
            × (v.requests ≡ w.requests)
            × (length v.sql.db_pool ≡ length w.sql.db_pool)
            × (v.sql.permits ≡ w.sql.permits)
            × Pushes env num connect_response_size
                (response env true)
                (logged_in (request_user_id packet) pk pks u)
                v
                (user_connect env num size packet w)
      unfolding mark_online ask settle reply_connect
      user_connect_succeeds sets expires =
          let enters = user_connect-Enters in
          let a : State env = enters.after in
          let key : Bytes = user_key pk in
          let s₁ : env.redis.Store =
            (env.redis.hset key (codes "state") (codes "lobby") a.store).1 in
          let v : State env = record a { store = (env.redis.expire key 300 s₁).1 } in
          (
            v,
            enters.found,
            enters.requested,
            enters.connections,
            enters.permits,
            rw enters.same (
                rw (sets key (codes "state") (codes "lobby") a.store) (
                  rw (expires key 300 s₁) (
                    push_to-Pushes env num connect_response_size (response env true) _ v
                      enters.found))),
          )

      -- The same login over a Redis whose `HSET` fails: the user is left with the key, the id and the
      -- friends, no message is pushed, and the error leaves the handler.
      pub user_connect_raises :
          ((key field text : Bytes) (s : env.redis.Store)
            → (env.redis.hset key field text s).0 ≡ failed)
          → (v : State env) × (user_connect env num size packet w ≡ raised redis_error v)
            × (find_user num v.manager ≡ some (logged_in (request_user_id packet) pk pks u))
            × (v.requests ≡ w.requests)
      unfolding mark_online ask settle
      user_connect_raises fails =
          let enters = user_connect-Enters in
          let a : State env = enters.after in
          (
            record a {
              store = (env.redis.hset (user_key pk) (codes "state") (codes "lobby") a.store).1;
            },
            rw enters.same (rw (fails (user_key pk) (codes "state") (codes "lobby") a.store) refl),
            enters.found,
            enters.requested,
          )
