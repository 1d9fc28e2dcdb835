-- ===== src/Mysql/Transactions.antt =====
-- What `AcceptFriend` and `RemoveFriend` leave behind, whatever the library answers: the pool, the
-- permits, the transaction and the prepared statements.
use outgame_lobby_server.Prelude.{
  ℕ, ◌+◌, ◌-◌, ◌<◌, ◌≡◌, refl, inl, inr, Bool, List, [], ◌∷◌, ◌++◌, Option, none, some, Bytes,
  arith, ap,
}
use outgame_lobby_server.Effects.{M, returned}
use outgame_lobby_server.Mysql.{
  Mysql, start_transaction, commit, rollback, query, stmt_init, stmt_prepare, stmt_execute,
  stmt_close, stmt_fetch, stmt_store_result, stmt_affected_rows, bind_text, bind_numbers,
  bind_result, Manager, abandon, finish, change_rows, change_friends, with_connection, run_with,
  accept_friend, remove_friend, acquire, give_back, get_connection, take_connection,
}
use outgame_lobby_server.Mysql.Session.{
  started, Session, advance, unused, IsSettled, Ends, Settles, Runs, Runs-request, Runs-pure,
  Runs-require, commit_end-cases, rollback_end-cases,
}

module _ (api : Mysql) where
  abbrev pub in_transaction : ℕ → Session
  in_transaction n = record { stage = started; statements = n }

  Runs-abandon : (c : ℕ) → Runs api IsSettled (in_transaction 1) (abandon api c)
  unfolding abandon advance
  Runs-abandon c = Runs-request api IsSettled _ c (query rollback) _ λ a.
      Runs-request api IsSettled _ c stmt_close _
        λ b. Runs-pure api IsSettled _ none (inr (rollback_end-cases a.code), refl)

  Runs-finish : (c pk : ℕ) → Runs api IsSettled (in_transaction 1) (finish api c pk)
  unfolding finish advance
  Runs-finish c pk = Runs-request api IsSettled _ c stmt_close _ λ a.
      Runs-request api IsSettled _ c (query commit) _
        λ b. Runs-pure api IsSettled _ (some pk) (commit_end-cases b.code, refl)

  Runs-change_rows :
      (sql : Bytes) (rows_ok : ℕ → Bool) (user_pk target_pk c : ℕ)
      → Runs api IsSettled (in_transaction 0) (change_rows api sql rows_ok user_pk target_pk c)
  unfolding change_rows advance
  Runs-change_rows sql rows_ok user_pk target_pk c = Runs-request api IsSettled _ c stmt_init _ λ _.
      Runs-request api IsSettled _ c (stmt_prepare sql) _ λ prepared.
        Runs-require api IsSettled _ _ _ _ (λ _. Runs-abandon c)
          λ _. Runs-request api IsSettled _ c (bind_numbers _) _ λ bound.
            Runs-require api IsSettled _ _ _ _ (λ _. Runs-abandon c)
              λ _. Runs-request api IsSettled _ c stmt_execute _ λ executed.
                Runs-require api IsSettled _ _ _ _ (λ _. Runs-abandon c)
                  λ _. Runs-request api IsSettled _ c stmt_affected_rows _ λ affected.
                    Runs-require api IsSettled _ _ _ _ (λ _. Runs-abandon c)
                      λ _. Runs-finish c target_pk

  Runs-change_friends :
      (sql : Bytes) (rows_ok : ℕ → Bool) (user_pk : ℕ) (target_id : Bytes) (c : ℕ)
      → Runs api IsSettled unused (change_friends api sql rows_ok user_pk target_id c)
  unfolding change_friends advance
  Runs-change_friends sql rows_ok user_pk target_id c =
      Runs-request api IsSettled _ c (query start_transaction) _ λ start.
        Runs-require api IsSettled _ _ _ _
          (λ e. rw e (Runs-pure api IsSettled _ none (inl refl, refl)))
          λ e. rw e (
            Runs-request api IsSettled _ c stmt_init _ λ _.
              Runs-request api IsSettled _ c (stmt_prepare _) _ λ prepared.
                Runs-require api IsSettled _ _ _ _ (λ _. Runs-abandon c)
                  λ _. Runs-request api IsSettled _ c (bind_text _) _ λ _.
                    Runs-request api IsSettled _ c bind_result _ λ _.
                      Runs-request api IsSettled _ c stmt_execute _ λ _.
                        Runs-request api IsSettled _ c stmt_store_result _ λ _.
                          Runs-request api IsSettled _ c stmt_fetch _ λ fetched.
                            Runs-require api IsSettled _ _ _ _ (λ _. Runs-abandon c)
                              λ _.
                                Runs-request api IsSettled _ c stmt_close _
                                  λ _. Runs-change_rows sql rows_ok user_pk fetched.column c)

  -- The frame gives the connection back, at the end of the pool, and the permit.
  run_with-Ends :
      (Suits : Session → Option ℕ → Type 0) (s : Session) (body : ℕ → M (Manager api) (Option ℕ))
      (c : ℕ)
      → Runs api Suits s (body c)
      → (m : Manager api)
      → Ends api Suits s (m.db_pool ++ c ∷ []) (m.permits + 1) m.log (run_with api body (some c) m)
  unfolding run_with give_back
  run_with-Ends Suits s body c h m = record {
    result = r.result;
    after = record r.after { db_pool = r.after.db_pool ++ c ∷ []; permits = r.after.permits + 1 };
    calls = r.calls;
    returns = rw r.returns;
    same_pool = ap (λ pool. pool ++ c ∷ []) r.same_pool;
    same_permits = ap (λ n. n + 1) r.same_permits;
    logged = r.logged;
    settled = r.settled;
  }
    where
      r : Ends api Suits s m.db_pool m.permits m.log (body c m)
      r = h m

  acquire_lem :
      (m : Manager api)
      → 0 < m.permits
      → acquire api m ≡ returned tt (record m { permits = m.permits - 1 })
  unfolding acquire
  acquire_lem m pos = ground arith

  take_connection_lem :
      (pool : List ℕ) (c : ℕ) (rest : List ℕ) (m : Manager api)
      → pool ≡ c ∷ rest
      → take_connection api pool m ≡ returned (some c) (record m { db_pool = rest })
  unfolding take_connection
  take_connection_lem pool c rest m e = rw (e, take_connection)

  pub with_connection_lem :
      {A : Type 0} (body : ℕ → M (Manager api) (Option A)) (m : Manager api) (c : ℕ) (rest : List ℕ)
      → m.db_pool ≡ c ∷ rest
      → 0 < m.permits
      → with_connection api body m
        ≡ run_with api body (some c) (record m { permits = m.permits - 1; db_pool = rest })
  unfolding with_connection get_connection
  with_connection_lem body m c rest e pos = rw (
    acquire_lem m pos,
    take_connection_lem m.db_pool c rest (record m { permits = m.permits - 1 }) e,
  )

  pub with_connection-Ends :
      (Suits : Session → Option ℕ → Type 0) (s : Session) (body : ℕ → M (Manager api) (Option ℕ))
      (m : Manager api) (c : ℕ) (rest : List ℕ)
      → Runs api Suits s (body c)
      → m.db_pool ≡ c ∷ rest
      → 0 < m.permits
      → Ends api Suits s (rest ++ c ∷ []) m.permits m.log (with_connection api body m)
  with_connection-Ends Suits s body m c rest h e pos =
      let r =
        run_with-Ends Suits s body c h (record m { permits = m.permits - 1; db_pool = rest }) in
      let back : m.permits - 1 + 1 ≡ m.permits = omega arith in
      rw (with_connection_lem body m c rest e pos) (rw back at r)

  -- If a connection and a permit are there, whatever the library answers, `AcceptFriend` returns with
  -- the connection back in the pool and the permit free again, and with every statement closed. If it
  -- returns a key, its transaction was ended by one `COMMIT`: it is committed if that call returned 0,
  -- and has failed to commit if not. If it returns none, its transaction was never started, or was ended by
  -- one `ROLLBACK`: it is rolled back if that call returned 0, and has failed to roll back if not.
  pub accept_friend-Settles :
      (user_pk : ℕ) (target_id : Bytes) (m : Manager api) (c : ℕ) (rest : List ℕ)
      → m.db_pool ≡ c ∷ rest
      → 0 < m.permits
      → Settles api unused (rest ++ c ∷ []) m.permits m.log (accept_friend api user_pk target_id m)
  unfolding accept_friend
  accept_friend-Settles user_pk target_id m c rest e pos =
      with_connection-Ends IsSettled unused _ m c rest (Runs-change_friends _ _ user_pk target_id c)
        e pos

  -- If a connection and a permit are there, whatever the library answers, `RemoveFriend` returns with
  -- the connection back in the pool and the permit free again, and with every statement closed. If it
  -- returns a key, its transaction was ended by one `COMMIT`: it is committed if that call returned 0,
  -- and has failed to commit if not. If it returns none, its transaction was never started, or was ended by
  -- one `ROLLBACK`: it is rolled back if that call returned 0, and has failed to roll back if not.
  pub remove_friend-Settles :
      (user_pk : ℕ) (target_id : Bytes) (m : Manager api) (c : ℕ) (rest : List ℕ)
      → m.db_pool ≡ c ∷ rest
      → 0 < m.permits
      → Settles api unused (rest ++ c ∷ []) m.permits m.log (remove_friend api user_pk target_id m)
  unfolding remove_friend
  remove_friend-Settles user_pk target_id m c rest e pos =
      with_connection-Ends IsSettled unused _ m c rest (Runs-change_friends _ _ user_pk target_id c)
        e pos
