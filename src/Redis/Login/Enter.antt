-- ===== src/Redis/Login/Enter.antt =====
-- `UserConnect` up to the point where the user's state goes to Redis.
use outgame_lobby_server.Prelude.{ℕ, ◌<◌, ◌≡◌, refl, List, some, Bytes, length, get_or, Bool, arith}
use outgame_lobby_server.Effects.{Outcome, returned}
use outgame_lobby_server.Packet.{connect_response}
use outgame_lobby_server.ConnUser.{ConnUser, set_friend_pks, set_pk, set_id}
use outgame_lobby_server.ConnUsersManager.{find_user, insert_user}
use outgame_lobby_server.ConnUsersManager.Laws.{find_user-insert_user, find_user-lt}
use outgame_lobby_server.Mysql.Friends.{Selects, get_user_friends_pks-counted}
use outgame_lobby_server.Redis.World.{Environment, State, user_at, reach, put_user}
use outgame_lobby_server.Redis.Users.{change_user, value, mark_online, enter_lobby}
use outgame_lobby_server.Redis.Publish.{notify_friend_online}
use outgame_lobby_server.Redis.Quiet.{notify_friend_online-returns}

-- What a user is after a login.
abbrev pub logged_in : Bytes → ℕ → List ℕ → ConnUser → ConnUser
logged_in user_id pk pks u = set_id user_id (set_pk pk (set_friend_pks pks u))

module _ (env : Environment) where
  -- The response of `UserConnect`.
  abbrev pub response : Bool → Bytes
  response = connect_response (get_or env.padding 0 0)

  pub change_user_lem :
      (num : ℕ) (change : ConnUser → ConnUser) (u : ConnUser) (w : State env)
      → find_user num w.manager ≡ some u
      → (change_user env num change w
          ≡ returned tt (record w { manager = insert_user num (change u) w.manager }))
        × (find_user num (insert_user num (change u) w.manager) ≡ some (change u))
  unfolding change_user user_at reach put_user
  change_user_lem num change u w e = (
    rw e refl,
    ground (
      arith,
      find_user-insert_user num num (change u) w.manager (find_user-lt num w.manager u e),
    ),
  )

  pub returned-same :
      {A : Type 0} (r : Outcome (State env) A) (a b : A) (v w : State env)
      → r ≡ returned a v
      → r ≡ returned b w
      → (a ≡ b) × (v ≡ w)
  returned-same r a b v w e f = (cc, cc)

  -- A run that is left with `mark_online`, once the user is set up: no request was made, and MySQL has
  -- its connections and permits. `NotifyFriendOnline` took the store `start` to the one that is left.
  pub record Enters (num pk : ℕ) (pks : List ℕ) (user : ConnUser) (start : env.redis.Store)
      (w : State env) (r : Outcome (State env) (Unit {0})) : Type 0 where
    pub after : State env
    pub same : r ≡ mark_online env num pk after
    pub found : find_user num after.manager ≡ some user
    pub requested : after.requests ≡ w.requests
    pub connections : length after.sql.db_pool ≡ length w.sql.db_pool
    pub permits : after.sql.permits ≡ w.sql.permits
    pub told :
        (v : State env) × (v.store ≡ start)
        × (notify_friend_online env pk pks v ≡ returned tt (record v { store = after.store }))

  module _ {rows : env.mysql.Db → List ℕ} {pks : List ℕ} (selects : Selects env.mysql rows pks)
      (fuel : length pks < env.row_fuel) where
    pub enter_lobby-Enters :
        (num pk : ℕ) (user_id : Bytes) (u : ConnUser) (w : State env)
        → find_user num w.manager ≡ some u
        → 0 < length w.sql.db_pool
        → 0 < w.sql.permits
        → Enters num pk pks
            (logged_in user_id pk pks u)
            w.store
            w
            (enter_lobby env num user_id pk w)
    unfolding enter_lobby value
    enter_lobby-Enters num pk user_id u w e some_left pos =
        let (sql, listed, same_length, same_permits) =
          get_user_friends_pks-counted env.mysql rows selects env.row_fuel pk w.sql some_left pos
            fuel in
        let v₀ : State env = record w { sql = sql } in
        let (c₁, f₁) = change_user_lem num (set_friend_pks pks) u v₀ e in
        let u₁ : ConnUser = set_friend_pks pks u in
        let v₁ : State env = record v₀ { manager = insert_user num u₁ w.manager } in
        let (s, told) = notify_friend_online-returns env pk pks v₁ in
        let v₂ : State env = record v₁ { store = s } in
        let (c₂, f₂) = change_user_lem num (set_pk pk) u₁ v₂ f₁ in
        let u₂ : ConnUser = set_pk pk u₁ in
        let v₃ : State env = record v₂ { manager = insert_user num u₂ v₁.manager } in
        let (c₃, f₃) = change_user_lem num (set_id user_id) u₂ v₃ f₂ in
        record {
          after = record v₃ { manager = insert_user num (set_id user_id u₂) v₃.manager };
          same = rw listed (rw c₁ (rw told (rw c₂ (rw c₃ refl))));
          found = f₃;
          requested = refl;
          connections = same_length;
          permits = same_permits;
          told = (v₁, refl, told);
        }
