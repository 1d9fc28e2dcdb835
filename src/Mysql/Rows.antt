-- ===== src/Mysql/Rows.antt =====
-- The pool, the permits and the statements of `GetUserFriendsPks` on each of its branches.
use outgame_lobby_server.Prelude.{
  ℕ, zero, suc, ◌+◌, ◌-◌, ◌<◌, ◌≡◌, refl, inl, inr, Bool-cases, Bool, true, false, List, [], ◌∷◌,
  ◌++◌, append_assoc, append-nil, Option, none, some, arith, ap, sym, ◌∙◌, ◌==◌, ==_iff,
  if◌then◌else◌,
}
use outgame_lobby_server.Effects.{Outcome, returned, M, pure, ◌>>=◌}
use outgame_lobby_server.Mysql.{
  Mysql, Call, Answer, Manager, stmt_prepare, stmt_execute, stmt_store_result, stmt_fetch,
  stmt_init, stmt_close, bind_numbers, bind_result, select_friends, request, require, fetch_rows,
  select_rows, get_user_friends_pks, run_with, give_back,
}
use outgame_lobby_server.Mysql.Session.{Session, closed, advance, follow, unused}
use outgame_lobby_server.Mysql.Transactions.{with_connection_lem}

module _ (api : Mysql) where
  -- A call that returned: with this pool, these permits and this log before, and the session `s`, all
  -- statements are closed, and no transaction was touched.
  pub record Leaves (s : Session) (pool : List ℕ) (permits : ℕ) (log : List (ℕ × Call × ℕ))
      (r : Outcome (Manager api) (Option (List ℕ))) : Type 0 where
    pub result : Option (List ℕ)
    pub after : Manager api
    pub calls : List (ℕ × Call × ℕ)
    pub returns : r ≡ returned result after
    pub same_pool : after.db_pool ≡ pool
    pub same_permits : after.permits ≡ permits
    pub logged : after.log ≡ log ++ calls
    pub unchanged : (follow s calls).stage ≡ s.stage
    pub all_closed : (follow s calls).statements ≡ 0

  abbrev From : Session → Manager api → Outcome (Manager api) (Option (List ℕ)) → Type 0
  From s m r = Leaves s m.db_pool m.permits m.log r

  -- The manager after a call of the library.
  abbrev called : ℕ → Call → Manager api → Manager api
  called c k m =
      let (a, db) = api.call c k m.database in
      record m { database = db; log = m.log ++ (c, k, a.code) ∷ [] }

  Leaves-request :
      (s : Session) (c : ℕ) (k : Call) (f : Answer → M (Manager api) (Option (List ℕ)))
      (m : Manager api)
      → (advance s k (api.call c k m.database).0.code).stage ≡ s.stage
      → From
          (advance s k (api.call c k m.database).0.code)
          (called c k m)
          (f (api.call c k m.database).0 (called c k m))
      → From s m ((request api c k >>= f) m)
  unfolding request follow
  Leaves-request s c k f m same r = record {
    result = r.result;
    after = r.after;
    calls = (c, k, (api.call c k m.database).0.code) ∷ r.calls;
    returns = r.returns;
    same_pool = r.same_pool;
    same_permits = r.same_permits;
    logged = rw r.logged (append_assoc m.log _ r.calls);
    unchanged = r.unchanged ∙ same;
    all_closed = r.all_closed;
  }

  Leaves-pure :
      (s : Session) (r : Option (List ℕ)) (m : Manager api)
      → s.statements ≡ 0
      → From s m (returned r m)
  unfolding follow
  Leaves-pure s r m none_open = record {
    result = r;
    after = m;
    calls = [];
    returns = refl;
    same_pool = refl;
    same_permits = refl;
    logged = sym (append-nil m.log);
    unchanged = refl;
    all_closed = none_open;
  }

  abbrev open_one : Session
  open_one = record { stage = closed; statements = 1 }

  Leaves-close :
      (c : ℕ) (r : Option (List ℕ)) (m : Manager api)
      → From open_one m ((request api c stmt_close >>= λ _. pure r) m)
  unfolding advance
  Leaves-close c r m = Leaves-request open_one c stmt_close _ m refl (Leaves-pure _ r _ refl)

  -- Stored results end: `remaining` bounds how many more fetches succeed, and a stored result has fewer rows
  -- than `fuel`.
  pub record Ends (remaining : api.Db → ℕ) (fuel : ℕ) : Type 0 where
    pub stores : (c : ℕ) (db : api.Db) → remaining (api.call c stmt_store_result db).1 < fuel
    pub fetches :
        (c : ℕ) (db : api.Db)
        → (api.call c stmt_fetch db).0.code ≡ 0
        → remaining (api.call c stmt_fetch db).1 < remaining db

  module _ (remaining : api.Db → ℕ) {limit : ℕ} (ends : Ends remaining limit) where
    abbrev close_with : ℕ → List ℕ → M (Manager api) (Option (List ℕ))
    close_with c pks = request api c stmt_close >>= λ _. pure (some pks)

    fetch_rows-Leaves :
        (fuel c : ℕ) (pks : List ℕ) (m : Manager api)
        → remaining m.database < fuel
        → From open_one m ((fetch_rows api fuel c pks >>= close_with c) m)
    unfolding fetch_rows request advance
    fetch_rows-Leaves zero c pks m few = absurd (omega arith)
    fetch_rows-Leaves (suc fuel) c pks m few =
        Leaves-request open_one c stmt_fetch
          (λ a.
            (if a.code == 0 then fetch_rows api fuel c (pks ++ a.column ∷ []) else pure pks)
            >>= close_with c)
          m refl
          (elim (Bool-cases ((api.call c stmt_fetch m.database).0.code == 0)) [
            | inl e ↦ rw e (
                fetch_rows-Leaves fuel c _ _
                  (omega (arith, few, ends.fetches c m.database ((==_iff _ 0).0 e))))
            | inr e ↦ rw e (Leaves-close c (some pks) _)
          ])

    executed-Leaves :
        (c : ℕ) (m : Manager api)
        → From open_one m (
            (request api c bind_result >>= λ _.
            request api c stmt_store_result >>= λ _. fetch_rows api limit c [] >>= close_with c)
              m)
    unfolding advance
    executed-Leaves c m = Leaves-request open_one c bind_result _ m refl (
        Leaves-request open_one c stmt_store_result _ _ refl
          (fetch_rows-Leaves limit c [] _ (ends.stores c _)))

    Leaves-require :
        (c : ℕ) (test : Bool) (rest : M (Manager api) (Option (List ℕ))) (m : Manager api)
        → From open_one m (rest m)
        → From open_one m (require api test (request api c stmt_close >>= λ _. pure none) rest m)
    unfolding require
    Leaves-require c true rest m h = h
    Leaves-require c false rest m h = Leaves-close c none m

    select_rows-Leaves :
        (user_pk c : ℕ) (m : Manager api) → From unused m (select_rows api limit user_pk c m)
    unfolding select_rows advance
    select_rows-Leaves user_pk c m = Leaves-request unused c stmt_init _ m refl (
        Leaves-request open_one c (stmt_prepare select_friends) _ _ refl (
          Leaves-require c _ _ _ (
            Leaves-request open_one c (bind_numbers (user_pk ∷ [])) _ _ refl (
              Leaves-request open_one c stmt_execute _ _ refl
                (Leaves-require c _ _ _ (executed-Leaves c _))))))

    -- If a connection and a permit are there, and stored results end within the fuel: whatever the library answers,
    -- `GetUserFriendsPks` returns with the connection back in the pool and the permit free again, with every
    -- statement closed, and without a transaction.
    pub get_user_friends_pks-Leaves :
        (user_pk : ℕ) (m : Manager api) (c : ℕ) (rest : List ℕ)
        → m.db_pool ≡ c ∷ rest
        → 0 < m.permits
        → Leaves unused (rest ++ c ∷ []) m.permits m.log (get_user_friends_pks api limit user_pk m)
    unfolding get_user_friends_pks run_with give_back
    get_user_friends_pks-Leaves user_pk m c rest e pos =
        let m' : Manager api = record m { permits = m.permits - 1; db_pool = rest } in
        let r = select_rows-Leaves user_pk c m' in
        rw (with_connection_lem api (select_rows api limit user_pk) m c rest e pos) (
          rw r.returns (record {
            result = r.result;
            after = _;
            calls = r.calls;
            returns = refl;
            same_pool = ap (λ pool. pool ++ c ∷ []) r.same_pool;
            same_permits = ap (λ n. n + 1) r.same_permits ∙ omega arith;
            logged = r.logged;
            unchanged = r.unchanged;
            all_closed = r.all_closed;
          }))
