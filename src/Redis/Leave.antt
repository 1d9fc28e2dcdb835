-- ===== src/Redis/Leave.antt =====
-- `UserDisConnect` as a whole.
use outgame_lobby_server.Prelude.{
  ℕ, ◌<◌, ◌≡◌, refl, List, [], ◌∷◌, ◌++◌, Option, none, some, ◌==◌, if◌then◌else◌, arith,
  Option-cases,
}
use outgame_lobby_server.Effects.{Outcome, returned}
use outgame_lobby_server.ConnUser.{ConnUser, del_friend_pks}
use outgame_lobby_server.ConnUsersManager.{
  ConnUsersManager, find_user, insert_user, del_pk_to_obj_num, get_obj_num_by_pk, lookup,
}
use outgame_lobby_server.ConnUsersManager.Laws.{at, at_lem, find_user-insert_user, find_user-lt}
use outgame_lobby_server.Mysql.Rows.{Ends, get_user_friends_pks-Leaves}
use outgame_lobby_server.Redis.Client.{answered}
use outgame_lobby_server.Redis.Message.{offline_message}
use outgame_lobby_server.Redis.World.{Environment, State, user_at, reach, ask, settle, put_user}
use outgame_lobby_server.Redis.Publish.{notify_listed, notify_friend_offline}
use outgame_lobby_server.Redis.Quiet.{publish_to_users-returns}
use outgame_lobby_server.Redis.Users.{user_dis_connect, change_user}

find_user-left :
    {v : ConnUser} (num k pk : ℕ) (u : ConnUser) (m : ConnUsersManager)
    → find_user num m ≡ some v
    → find_user k (del_pk_to_obj_num pk (insert_user num u m))
      ≡ (if num == k then some u else find_user k m)
unfolding del_pk_to_obj_num find_user
find_user-left {v} num k pk u m e = find_user-insert_user num k u m (find_user-lt num m v e)

at-insert_user :
    (num k : ℕ) (u : ConnUser) (m : ConnUsersManager) → at (insert_user num u m) k ≡ at m k
unfolding insert_user get_obj_num_by_pk
at-insert_user num k u m = ground (arith, Option-cases (lookup k m.pk_to_obj_num))

at-left :
    (num k pk : ℕ) (u : ConnUser) (m : ConnUsersManager)
    → at (del_pk_to_obj_num pk (insert_user num u m)) k ≡ (if pk == k then 0 else at m k)
at-left num k pk u m = rw (← at-insert_user num k u m) (at_lem pk 0 k (insert_user num u m)).1

module _ (env : Environment) where
  notify_listed-returns :
      (user_pk : ℕ) (friends : Option (List ℕ)) (w : State env)
      → (s : env.redis.Store) × (notify_listed env user_pk friends w
          ≡ returned tt (record w { store = s }))
  unfolding notify_listed
  notify_listed-returns user_pk none w = (w.store, refl)
  notify_listed-returns user_pk (some []) w = (w.store, refl)
  notify_listed-returns user_pk (some (pk ∷ pks)) w =
      publish_to_users-returns env (pk ∷ pks) (offline_message user_pk) w

  -- A user has left: the connection `num` is that of `u` without friends, its key is in no map, all else is as
  -- before but for Redis and the log of MySQL.
  pub record Left (num : ℕ) (u : ConnUser) (pool : List ℕ) (w : State env)
      (r : Outcome (State env) (Unit {0})) : Type 0 where
    pub after : State env
    pub returns : r ≡ returned tt after
    pub users :
        (k : ℕ)
        → find_user k after.manager
          ≡ (if num == k then some (del_friend_pks u) else find_user k w.manager)
    pub keys : (pk : ℕ) → at after.manager pk ≡ (if u.user_pk == pk then 0 else at w.manager pk)
    pub connections : after.sql.db_pool ≡ pool
    pub permits : after.sql.permits ≡ w.sql.permits
    pub requested : after.requests ≡ w.requests
    pub packets : after.proc_skt_queue ≡ w.proc_skt_queue

  -- If a connection and a permit are there, stored results end within the fuel, and Redis answers an empty pipeline:
  -- whatever else MySQL and Redis answer, the user that disconnects loses its friends and the entry of its key,
  -- no message is pushed, all other users and keys are as before, and the connection is back in the pool
  -- and the permit free.
  pub user_dis_connect-Left :
      (remaining : env.mysql.Db → ℕ) (num : ℕ) (u : ConnUser) (w : State env) (c : ℕ)
      (rest : List ℕ)
      → Ends env.mysql remaining env.row_fuel
      → ((s : env.redis.Store) → (env.redis.hget_all [] [] s).0 ≡ answered [])
      → find_user num w.manager ≡ some u
      → w.sql.db_pool ≡ c ∷ rest
      → 0 < w.sql.permits
      → Left num u (rest ++ c ∷ []) w (user_dis_connect env num w)
  unfolding user_dis_connect user_at reach notify_friend_offline ask settle change_user put_user
  user_dis_connect-Left remaining num u w c rest ends pipeline e pool pos =
      let r =
        get_user_friends_pks-Leaves env.mysql remaining ends u.user_pk w.sql c rest pool pos in
      let w' : State env = record w { sql = r.after } in
      let (s, quiet) = notify_listed-returns u.user_pk r.result w' in
      rw e (
        rw r.returns (
          rw quiet (
            rw (pipeline s) (
              rw e (record {
                after = _;
                returns = refl;
                users = λ k. find_user-left num k u.user_pk (del_friend_pks u) w.manager e;
                keys = λ pk. at-left num pk u.user_pk (del_friend_pks u) w.manager;
                connections = r.same_pool;
                permits = r.same_permits;
                requested = refl;
                packets = refl;
              })))))
