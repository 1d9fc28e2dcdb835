-- ===== src/Redis/Friends.antt =====
-- `ProcessFriendAccept` from the packet to the response.
use outgame_lobby_server.Prelude.{
  ℕ, ◌<◌, ◌≡◌, refl, List, [], ◌∷◌, ◌++◌, Option, none, some, Bytes, codes, Bool, true, false,
}
use outgame_lobby_server.Packet.{request_target_id, action_response, action_response_size}
use outgame_lobby_server.ConnUser.{ConnUser}
use outgame_lobby_server.ConnUsersManager.{find_user}
use outgame_lobby_server.Mysql.{Call}
use outgame_lobby_server.Mysql.Session.{Session, IsSettled, follow, unused, commit_failed}
use outgame_lobby_server.Mysql.Unconfirmed.{
  FailsToCommit, IsUnconfirmed, accept_friend-IsUnconfirmed,
}
use outgame_lobby_server.Mysql.Transactions.{accept_friend-Settles}
use outgame_lobby_server.Redis.Client.{answered}
use outgame_lobby_server.Redis.World.{Environment, State, ask, settle, user_at, reach, user_key}
use outgame_lobby_server.Redis.Users.{process_friend_accept, finish_accept, reply_action}
use outgame_lobby_server.Redis.Push.{Pushes, push_to-Pushes}

abbrev pub is_some : {A : Type 0} → Option A → Bool
is_some none = false
is_some (some a) = true

unconfirmed-some :
    (s : Session) (result : Option ℕ)
    → IsUnconfirmed s result
    → (is_some result ≡ true) × (s.stage ≡ commit_failed)
unconfirmed-some s none h = absurd h
unconfirmed-some s (some pk) h = (refl, h)

module _ (env : Environment)
    (answers : (key field : Bytes) (s : env.redis.Store)
      → (found : Option Bytes) × ((env.redis.hget key field s).0 ≡ answered found)) where
  finish_accept-Pushes :
      (num : ℕ) (target_id : Bytes) (result : Option ℕ) (u : ConnUser) (w : State env)
      → find_user num w.manager ≡ some u
      → (s : env.redis.Store) × Pushes env num action_response_size
          (action_response target_id (is_some result))
          u
          (record w { store = s })
          (finish_accept env num target_id result w)
  unfolding finish_accept reply_action ask settle
  finish_accept-Pushes num target_id none u w e =
      (w.store, push_to-Pushes env num action_response_size (action_response target_id false) u w e)
  finish_accept-Pushes num target_id (some pk) u w e =
      let s : env.redis.Store = (env.redis.hget (user_key pk) (codes "state") w.store).1 in
      (
        s,
        rw (answers (user_key pk) (codes "state") w.store).1 (
            push_to-Pushes env num action_response_size (action_response target_id true) u
              (record w { store = s }) e),
      )

  -- If a connection and a permit are there and Redis answers, whatever MySQL answers: the user that
  -- accepts a friend gets one response, which tells of success exactly if `COMMIT` was sent, whatever
  -- that returned; if it was not, `ROLLBACK` was sent or the transaction never started. The connection is back in the pool, the
  -- permit free, and no request was made before.
  pub process_friend_accept-Pushes :
      (num size : ℕ) (packet : Bytes) (u : ConnUser) (w : State env) (c : ℕ) (rest : List ℕ)
      → find_user num w.manager ≡ some u
      → w.sql.db_pool ≡ c ∷ rest
      → 0 < w.sql.permits
      → (result : Option ℕ) × (calls : List (ℕ × Call × ℕ)) × (v : State env) × (v.sql.log
          ≡ w.sql.log ++ calls)
        × IsSettled (follow unused calls) result
        × (v.sql.db_pool ≡ rest ++ c ∷ [])
        × (v.sql.permits ≡ w.sql.permits)
        × (v.requests ≡ w.requests)
        × Pushes env num action_response_size
            (action_response (request_target_id packet) (is_some result))
            u
            v
            (process_friend_accept env num size packet w)
  unfolding process_friend_accept user_at reach
  process_friend_accept-Pushes num size packet u w c rest e pool pos =
      let target_id : Bytes = request_target_id packet in
      let r = accept_friend-Settles env.mysql u.user_pk target_id w.sql c rest pool pos in
      let v : State env = record w { sql = r.after } in
      let (s, pushes) = finish_accept-Pushes num target_id r.result u v e in
      (
        r.result,
        r.calls,
        record v { store = s },
        r.logged,
        r.settled,
        r.same_pool,
        r.same_permits,
        refl,
        rw e (rw r.returns pushes),
      )

  -- If a connection and a permit are there, Redis answers, and MySQL carries out every call that
  -- `AcceptFriend` looks at and changes two rows, but fails at every `COMMIT`: the user that accepts a
  -- friend gets one response, and it tells of success, where the transaction has failed to commit.
  pub process_friend_accept_unconfirmed :
      (num size : ℕ) (packet : Bytes) (u : ConnUser) (w : State env) (c : ℕ) (rest : List ℕ)
      → FailsToCommit env.mysql
      → find_user num w.manager ≡ some u
      → w.sql.db_pool ≡ c ∷ rest
      → 0 < w.sql.permits
      → (calls : List (ℕ × Call × ℕ)) × (v : State env) × (v.sql.log ≡ w.sql.log ++ calls)
        × ((follow unused calls).stage ≡ commit_failed)
        × (v.requests ≡ w.requests)
        × Pushes env num action_response_size
            (action_response (request_target_id packet) true)
            u
            v
            (process_friend_accept env num size packet w)
  unfolding process_friend_accept user_at reach
  process_friend_accept_unconfirmed num size packet u w c rest lib e pool pos =
      let target_id : Bytes = request_target_id packet in
      let r = accept_friend-IsUnconfirmed env.mysql lib u.user_pk target_id w.sql c rest pool pos in
      let (success, stage) = unconfirmed-some (follow unused r.calls) r.result r.settled in
      let v : State env = record w { sql = r.after } in
      let (s, pushes) = finish_accept-Pushes num target_id r.result u v e in
      (
        r.calls,
        record v { store = s },
        r.logged,
        stage,
        refl,
        rw e (rw r.returns (rw success at pushes)),
      )
