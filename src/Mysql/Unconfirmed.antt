-- ===== src/Mysql/Unconfirmed.antt =====
-- `AcceptFriend` over a library that carries out every call but the `COMMIT`.
use outgame_lobby_server.Prelude.{
  ℕ, ◌<◌, ◌≡◌, refl, List, [], ◌∷◌, ◌++◌, Option, none, some, Bytes, ◌==◌, false,
}
use outgame_lobby_server.Mysql.{
  Mysql, Answer, start_transaction, commit, query, stmt_init, stmt_prepare, stmt_execute,
  stmt_close, stmt_fetch, stmt_store_result, stmt_affected_rows, bind_text, bind_numbers,
  bind_result, Manager, finish, change_rows, change_friends, accept_friend, require,
}
use outgame_lobby_server.Mysql.Session.{
  commit_failed, Session, advance, unused, Ends, Runs, Runs-answered, Runs-request, Runs-pure,
}
use outgame_lobby_server.Mysql.Transactions.{in_transaction, with_connection-Ends}

-- The calls that `AcceptFriend` looks at succeed, and two rows change; but `COMMIT` fails.
pub record FailsToCommit (api : Mysql) : Type 0 where
  pub starts : (c : ℕ) (db : api.Db) → (api.call c (query start_transaction) db).0.code ≡ 0
  pub prepares : (c : ℕ) (sql : Bytes) (db : api.Db) → (api.call c (stmt_prepare sql) db).0.code ≡ 0
  pub binds : (c : ℕ) (pks : List ℕ) (db : api.Db) → (api.call c (bind_numbers pks) db).0.code ≡ 0
  pub executes : (c : ℕ) (db : api.Db) → (api.call c stmt_execute db).0.code ≡ 0
  pub fetches : (c : ℕ) (db : api.Db) → (api.call c stmt_fetch db).0.code ≡ 0
  pub changes : (c : ℕ) (db : api.Db) → (api.call c stmt_affected_rows db).0.code ≡ 2
  pub fails : (c : ℕ) (db : api.Db) → ((api.call c (query commit) db).0.code == 0) ≡ false

-- A key is returned, and the transaction has failed to commit.
abbrev pub IsUnconfirmed : Session → Option ℕ → Type 0
IsUnconfirmed s none = ⊥
IsUnconfirmed s (some pk) = s.stage ≡ commit_failed

abbrev Code : ℕ → Answer → Type 0
Code n a = a.code ≡ n

module _ (api : Mysql) (lib : FailsToCommit api) where
  Runs-finish : (c pk : ℕ) → Runs api IsUnconfirmed (in_transaction api 1) (finish api c pk)
  unfolding finish advance
  Runs-finish c pk = Runs-request api _ _ c stmt_close _ λ _.
      Runs-answered api _ (λ a. (a.code == 0) ≡ false) _ c (query commit) _ (lib.fails c)
        λ b e. Runs-pure api _ _ (some pk) (rw e refl)

  Runs-change_rows :
      (sql : Bytes) (user_pk target_pk c : ℕ)
      → Runs api IsUnconfirmed
          (in_transaction api 0)
          (change_rows api sql (λ rows. rows == 2) user_pk target_pk c)
  unfolding change_rows advance require
  Runs-change_rows sql user_pk target_pk c = Runs-request api _ _ c stmt_init _ λ _.
      Runs-answered api _ (Code 0) _ c (stmt_prepare sql) _ (lib.prepares c sql) λ prepared e.
        rw e (
          Runs-answered api _ (Code 0) _ c (bind_numbers _) _ (lib.binds c _) λ bound e. rw e (
            Runs-answered api _ (Code 0) _ c stmt_execute _ (lib.executes c) λ executed e. rw e (
              Runs-answered api _ (Code 2) _ c stmt_affected_rows _ (lib.changes c)
                λ affected e. rw e (Runs-finish c target_pk))))

  Runs-change_friends :
      (sql : Bytes) (user_pk : ℕ) (target_id : Bytes) (c : ℕ)
      → Runs api IsUnconfirmed unused
          (change_friends api sql (λ rows. rows == 2) user_pk target_id c)
  unfolding change_friends advance require
  Runs-change_friends sql user_pk target_id c =
      Runs-answered api _ (Code 0) _ c (query start_transaction) _ (lib.starts c) λ start e. rw e (
        Runs-request api _ _ c stmt_init _ λ _.
          Runs-answered api _ (Code 0) _ c (stmt_prepare _) _ (lib.prepares c _) λ prepared e.
            rw e (
              Runs-request api _ _ c (bind_text _) _ λ _. Runs-request api _ _ c bind_result _ λ _.
                Runs-request api _ _ c stmt_execute _ λ _.
                  Runs-request api _ _ c stmt_store_result _ λ _.
                    Runs-answered api _ (Code 0) _ c stmt_fetch _ (lib.fetches c) λ fetched e.
                      rw e (
                        Runs-request api _ _ c stmt_close _
                          λ _. Runs-change_rows sql user_pk fetched.column c)))

  -- If a connection and a permit are there, and the library carries out every call that `AcceptFriend` looks
  -- at and changes two rows, but fails at every `COMMIT`: `AcceptFriend` returns a key all the same,
  -- where its transaction has failed to commit, and gives back the connection and the permit.
  pub accept_friend-IsUnconfirmed :
      (user_pk : ℕ) (target_id : Bytes) (m : Manager api) (c : ℕ) (rest : List ℕ)
      → m.db_pool ≡ c ∷ rest
      → 0 < m.permits
      → Ends api IsUnconfirmed unused
          (rest ++ c ∷ [])
          m.permits
          m.log
          (accept_friend api user_pk target_id m)
  unfolding accept_friend
  accept_friend-IsUnconfirmed user_pk target_id m c rest e pos =
      with_connection-Ends api IsUnconfirmed unused _ m c rest
        (Runs-change_friends _ user_pk target_id c) e pos
