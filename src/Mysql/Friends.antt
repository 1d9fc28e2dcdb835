-- ===== src/Mysql/Friends.antt =====
-- `GetUserFriendsPks` returns the rows of its query.
use outgame_lobby_server.Prelude.{
  ◌⊎◌, inl, inr, length-append, ℕ, zero, suc, ◌+◌, ◌-◌, ◌<◌, ◌≡◌, refl, ◌∙◌, ap, sym, List, [], ◌∷◌,
  ◌++◌, append_assoc, append-nil, some, Bytes, false, length, ◌==◌, arith,
}
use outgame_lobby_server.Effects.{Outcome, returned, pure, ◌>>=◌}
use outgame_lobby_server.Mysql.{
  Mysql, Manager, stmt_prepare, stmt_execute, stmt_store_result, stmt_fetch, stmt_init, stmt_close,
  bind_numbers, bind_result, select_friends, request, require, fetch_rows, select_rows,
  get_user_friends_pks, run_with, give_back,
}
use outgame_lobby_server.Mysql.Transactions.{with_connection_lem}

nil-or-cons : (q : List ℕ) → (q ≡ []) ⊎ ((c : ℕ) × (rest : List ℕ) × (q ≡ c ∷ rest))
nil-or-cons [] = inl refl
nil-or-cons (c ∷ q) = inr (c, q, refl)

module _ (api : Mysql) (rows : api.Db → List ℕ) where
  -- A library that prepares and executes the query, whose stored result is `result`; a fetch takes one
  -- row, and returns a code that is not 0 when there is none left.
  pub record Selects (result : List ℕ) : Type 0 where
    pub prepares :
        (c : ℕ) (sql : Bytes) (db : api.Db) → (api.call c (stmt_prepare sql) db).0.code ≡ 0
    pub executes : (c : ℕ) (db : api.Db) → (api.call c stmt_execute db).0.code ≡ 0
    pub stores : (c : ℕ) (db : api.Db) → rows (api.call c stmt_store_result db).1 ≡ result
    pub fetches :
        (c x : ℕ) (xs : List ℕ) (db : api.Db)
        → rows db ≡ x ∷ xs
        → let (answer, db') = api.call c stmt_fetch db in
          (answer.code ≡ 0) × (answer.column ≡ x) × (rows db' ≡ xs)
    pub ends :
        (c : ℕ) (db : api.Db) → rows db ≡ [] → ((api.call c stmt_fetch db).0.code == 0) ≡ false

  -- A call that returned `a`, with this pool and these permits.
  pub record Gives {A : Type 0} (a : A) (pool : List ℕ) (permits : ℕ) (r : Outcome (Manager api) A)
      : Type 0 where
    pub after : Manager api
    pub returns : r ≡ returned a after
    pub same_pool : after.db_pool ≡ pool
    pub same_permits : after.permits ≡ permits

  module _ {result : List ℕ} (s : Selects result) where
    fetch_rows-Gives :
        (rs : List ℕ) (fuel c : ℕ) (pks : List ℕ) (m : Manager api)
        → rows m.database ≡ rs
        → length rs < fuel
        → Gives (pks ++ rs) m.db_pool m.permits (fetch_rows api fuel c pks m)
    unfolding fetch_rows request
    fetch_rows-Gives rs zero c pks m e h = absurd (omega arith)
    fetch_rows-Gives [] (suc fuel) c pks m e h = rw (s.ends c m.database e) (record {
      after = _;
      returns = ap (λ r. returned r _) (sym (append-nil pks));
      same_pool = refl;
      same_permits = refl;
    })
    fetch_rows-Gives (x ∷ rs) (suc fuel) c pks m e h =
        let (code, column, left) = s.fetches c x rs m.database e in
        rw (code, column)
          (rw (← append_assoc pks (x ∷ []) rs)
            (fetch_rows-Gives rs fuel c (pks ++ x ∷ []) _ left (omega arith)))

    finish_rows-Gives :
        (fuel c : ℕ) (m : Manager api)
        → rows m.database ≡ result
        → length result < fuel
        → Gives (some result) m.db_pool m.permits (
            (fetch_rows api fuel c [] >>= λ pks. request api c stmt_close >>= λ _. pure (some pks))
              m)
    unfolding request
    finish_rows-Gives fuel c m e h =
        let r = fetch_rows-Gives result fuel c [] m e h in
        rw r.returns (record {
          after = _;
          returns = refl;
          same_pool = r.same_pool;
          same_permits = r.same_permits;
        })

    select_rows-Gives :
        (fuel user_pk c : ℕ) (m : Manager api)
        → length result < fuel
        → Gives (some result) m.db_pool m.permits (select_rows api fuel user_pk c m)
    unfolding select_rows request require
    select_rows-Gives fuel user_pk c m h =
        let prepared : api.Db = (api.call c stmt_init m.database).1 in
        let bound : api.Db = (api.call c (stmt_prepare select_friends) prepared).1 in
        let executed : api.Db = (api.call c (bind_numbers (user_pk ∷ [])) bound).1 in
        let stored : api.Db = (api.call c bind_result (api.call c stmt_execute executed).1).1 in
        rw (s.prepares c select_friends prepared)
          (rw (s.executes c executed) (finish_rows-Gives fuel c _ (s.stores c stored) h))

    -- If a connection and a permit are there, the library selects rows without an error, and the fuel is
    -- more than their number: `GetUserFriendsPks` returns exactly the rows, in order, with the
    -- connection back in the pool and the permit free again.
    pub get_user_friends_pks-Gives :
        (fuel user_pk : ℕ) (m : Manager api) (c : ℕ) (rest : List ℕ)
        → m.db_pool ≡ c ∷ rest
        → 0 < m.permits
        → length result < fuel
        → Gives (some result) (rest ++ c ∷ []) m.permits (get_user_friends_pks api fuel user_pk m)
    unfolding get_user_friends_pks run_with give_back
    get_user_friends_pks-Gives fuel user_pk m c rest e pos h =
        let m' : Manager api = record m { permits = m.permits - 1; db_pool = rest } in
        let r = select_rows-Gives fuel user_pk c m' h in
        rw (with_connection_lem api (select_rows api fuel user_pk) m c rest e pos) (
          rw r.returns (record {
            after = _;
            returns = refl;
            same_pool = ap (λ pool. pool ++ c ∷ []) r.same_pool;
            same_permits = ap (λ n. n + 1) r.same_permits ∙ omega arith;
          }))

    -- The same with the connections counted: the call can be made again.
    pub get_user_friends_pks-counted :
        (fuel user_pk : ℕ) (m : Manager api)
        → 0 < length m.db_pool
        → 0 < m.permits
        → length result < fuel
        → (after : Manager api) × (get_user_friends_pks api fuel user_pk m
            ≡ returned (some result) after)
          × (length after.db_pool ≡ length m.db_pool)
          × (after.permits ≡ m.permits)
    get_user_friends_pks-counted fuel user_pk m some_left pos h = elim (nil-or-cons m.db_pool) [
      | inl e ↦ absurd (omega (arith, ap length e))
      | inr (c, rest, e) ↦
          let r = get_user_friends_pks-Gives fuel user_pk m c rest e pos h in
          (
            r.after,
            r.returns,
            omega (arith, ap length r.same_pool, ap length e, length-append rest (c ∷ [])),
            r.same_permits,
          )
    ]
