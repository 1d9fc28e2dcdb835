-- ===== src/Mysql/Exhaustion.antt =====
-- What the three queries do while the pool is empty, as it is before `init`, or after one that failed
-- at its first connection.
use outgame_lobby_server.Prelude.{
  ℕ, ◌-◌, ◌≡◌, List, [], ◌∷◌, Option, none, Bytes, ◌==◌, if◌then◌else◌, arith, length,
}
use outgame_lobby_server.Effects.{M, returned, blocked, pure, ◌>>=◌}
use outgame_lobby_server.Mysql.{
  Mysql, Manager, with_connection, run_with, acquire, get_connection, take_connection,
  accept_friend, remove_friend, get_user_friends_pks,
}

module _ (api : Mysql) where
  take_connection-empty :
      (pool : List ℕ) (m : Manager api) → pool ≡ [] → take_connection api pool m ≡ returned none m
  unfolding take_connection
  take_connection-empty pool m e = rw (e, take_connection)

  -- On an empty pool a call takes a permit and does not release it.
  with_connection-empty :
      {A : Type 0} (body : ℕ → M (Manager api) (Option A)) (m : Manager api)
      → m.db_pool ≡ []
      → with_connection api body m
        ≡ (if m.permits == 0 then blocked else returned none (record m { permits = m.permits - 1 }))
  unfolding with_connection get_connection run_with acquire
  with_connection-empty body m e =
      ground (arith, take_connection-empty m.db_pool (record m { permits = m.permits - 1 }) e)

  -- Any of the three queries, its result dropped.
  pub data Query : Type 0 where
    accepts removes : ℕ → Bytes → Query
    lists : ℕ → ℕ → Query

  pub issue : Query → M (Manager api) (Unit {0})
  issue (accepts user_pk target_id) = do _ ← accept_friend api user_pk target_id; pure tt
  issue (removes user_pk target_id) = do _ ← remove_friend api user_pk target_id; pure tt
  issue (lists fuel user_pk) = do _ ← get_user_friends_pks api fuel user_pk; pure tt

  pub issue_all : List Query → M (Manager api) (Unit {0})
  issue_all [] = pure tt
  issue_all (q ∷ qs) = issue q >>= λ _. issue_all qs

  issue-empty :
      (q : Query) (m : Manager api)
      → m.db_pool ≡ []
      → issue q m
        ≡ (if m.permits == 0 then blocked else returned tt (record m { permits = m.permits - 1 }))
  unfolding issue accept_friend remove_friend get_user_friends_pks
  issue-empty (accepts user_pk target_id) m e = rw (with_connection-empty _ m e) (ground arith)
  issue-empty (removes user_pk target_id) m e = rw (with_connection-empty _ m e) (ground arith)
  issue-empty (lists fuel user_pk) m e = rw (with_connection-empty _ m e) (ground arith)

  -- While the pool is empty, as many queries as there are permits find no connection and use the
  -- permits up; any query after them waits for ever.
  pub issue_all-blocked :
      (qs : List Query) (q : Query) (m : Manager api)
      → m.db_pool ≡ []
      → m.permits ≡ length qs
      → (issue_all qs m ≡ returned tt (record m { permits = 0 }))
        × ((issue_all qs >>= λ _. issue q) m ≡ blocked)
  unfolding issue_all
  issue_all-blocked [] q m e n =
      (λ i. returned tt (record m { permits = n i }), rw (issue-empty q m e) (ground arith))
  issue_all-blocked (p ∷ qs) q m e n =
      let m' : Manager api = record m { permits = m.permits - 1 } in
      let step : issue p m ≡ returned tt m' = rw (issue-empty p m e) (ground arith) in
      rw step (issue_all-blocked qs q m' e (omega arith))
