-- ===== src/Mysql.antt =====
-- DBConfig.h, MySQLManager.h and MySQLManager.cpp: the pool of connections and the friend queries.
-- The MySQL client library is a parameter: what each call answers, and what it makes of the database.
pub mod Session
pub mod Transactions
pub mod Unconfirmed
pub mod Exhaustion
pub mod Friends
pub mod Rows
pub mod Threads
pub mod Shutdown
pub mod Samples
mod Tests
use outgame_lobby_server.Prelude.{
  ℕ, zero, suc, ◌+◌, ◌-◌, Bool, true, false, List, [], ◌∷◌, ◌++◌, Option, none, some, Bytes, codes,
  ◌==◌, if◌then◌else◌, not,
}
use outgame_lobby_server.Effects.{M, returned, blocked, pure, ◌>>=◌, ◌>>◌, modify}

-- The constants of DBConfig.h.
abbrev db_host : Bytes
db_host = codes "127.0.0.1"

abbrev db_user : Bytes
db_user = codes "quokka"

abbrev db_password : Bytes
db_password = codes "1234"

abbrev db_name : Bytes
db_name = codes "outgame"

abbrev db_port : ℕ
db_port = 3306

abbrev pub db_connection_count : ℕ
db_connection_count = 5

-- The three texts that go to `mysql_query`.
pub data Control : Type 0 where
  start_transaction commit rollback : Control

-- The calls of the MySQL client library on a connection; one statement is in use at a time.
pub data Call : Type 0 where
  query : Control → Call
  stmt_prepare : Bytes → Call
  mysql_init : Call
  mysql_real_connect : (host user password name : Bytes) (port : ℕ) → Call
  stmt_init stmt_execute stmt_store_result stmt_fetch stmt_affected_rows stmt_close : Call
  bind_text : Bytes → Call
  bind_numbers : List ℕ → Call
  bind_result : Call
  mysql_close : Call

-- A call's return value, and the column that a fetch writes to the bound variable.
pub record Answer : Type 0 where
  pub code : ℕ
  pub column : ℕ

pub record Mysql : Type 1 where
  pub Db : Type 0
  pub call : ℕ → Call → Db → Answer × Db

-- `class MySQLManager`; connections are numbers, and `log` has the calls of the
-- library with the codes that they returned.
pub record MySqlManager (D : Type 0) : Type 0 where
  pub db_pool : List ℕ
  pub permits : ℕ
  pub database : D
  pub log : List (ℕ × Call × ℕ)

unfoldable pub create : {D : Type 0} → D → MySqlManager D
create db = record { db_pool = []; permits = db_connection_count; database = db; log = [] }

-- The texts that are prepared; the pieces of a string literal are joined.
abbrev select_user : Bytes
select_user = codes "SELECT user_pk FROM user WHERE user_id = ?"

abbrev update_friend : Bytes
update_friend =
    codes
      "UPDATE friend SET status = 1 WHERE (user_pk = ? AND friend_pk = ?)    OR (user_pk = ? AND friend_pk = ?)"

abbrev delete_friend : Bytes
delete_friend =
    codes
      "DELETE FROM friend WHERE (user_pk = ? AND friend_pk = ?)    OR (user_pk = ? AND friend_pk = ?)"

abbrev select_friends : Bytes
select_friends = codes "SELECT f.friend_pk FROM friend f WHERE f.user_pk = ?"

module _ (api : Mysql) where
  abbrev pub Manager : Type 0
  Manager = MySqlManager api.Db

  -- One call of the library.
  unfoldable pub request : ℕ → Call → M Manager Answer
  request c k m =
      let (answer, db) = api.call c k m.database in
      returned answer (record m { database = db; log = m.log ++ (c, k, answer.code) ∷ [] })

  -- `GetConnection`; `none` is a null pointer.
  take_connection : List ℕ → M Manager (Option ℕ)
  take_connection [] m = returned none m
  take_connection (c ∷ rest) m = returned (some c) (record m { db_pool = rest })

  unfoldable pub get_connection : M Manager (Option ℕ)
  unfolding take_connection
  get_connection m = take_connection m.db_pool m

  -- `semaphore.acquire()`
  unfoldable pub acquire : M Manager (Unit {0})
  acquire m = if m.permits == 0 then blocked else returned tt (record m { permits = m.permits - 1 })

  -- The destructor of `AutoConn`.
  unfoldable pub give_back : ℕ → M Manager (Unit {0})
  give_back c = modify λ m. record m { db_pool = m.db_pool ++ c ∷ []; permits = m.permits + 1 }

  -- The frame of the three queries. Without a connection the permit is not released. No call of the
  -- body throws, so `give_back` is what every way out of it runs.
  unfoldable pub run_with :
      {A : Type 0} → (ℕ → M Manager (Option A)) → Option ℕ → M Manager (Option A)
  run_with body none = pure none
  run_with body (some c) = do result ← body c; give_back c; pure result

  unfoldable pub with_connection : {A : Type 0} → (ℕ → M Manager (Option A)) → M Manager (Option A)
  unfolding run_with
  with_connection body = do acquire; found ← get_connection; run_with body found

  -- An early return of an open transaction.
  unfoldable pub abandon : {A : Type 0} → ℕ → M Manager (Option A)
  abandon c = do _ ← request c (query rollback); _ ← request c stmt_close; pure none

  -- `if (!test) return` with the clean-up before it.
  unfoldable pub require :
      {A : Type 0} → Bool → M Manager (Option A) → M Manager (Option A) → M Manager (Option A)
  require test cleanup rest = elim test [ true ↦ rest | false ↦ cleanup ]

  unfoldable pub require_true : Bool → M Manager Bool → M Manager Bool
  require_true test rest = elim test [ true ↦ rest | false ↦ pure false ]

  -- The end of a transaction, once the rows are known to be right.
  finish : ℕ → ℕ → M Manager (Option ℕ)
  finish c target_pk = do
    _ ← request c stmt_close
    _ ← request c (query commit)
    pure (some target_pk)

  -- The second statement of `AcceptFriend` and `RemoveFriend`, over both directions of the pair.
  change_rows : Bytes → (ℕ → Bool) → ℕ → ℕ → ℕ → M Manager (Option ℕ)
  change_rows sql rows_ok user_pk target_pk c = do
    _ ← request c stmt_init
    prepared ← request c (stmt_prepare sql)
    require (prepared.code == 0) (abandon c) do
      bound ← request c (bind_numbers (user_pk ∷ target_pk ∷ target_pk ∷ user_pk ∷ []))
      require (bound.code == 0) (abandon c) do
        executed ← request c stmt_execute
        require (executed.code == 0) (abandon c) do
          affected ← request c stmt_affected_rows
          require (rows_ok affected.code) (abandon c) (finish c target_pk)

  -- The body of both: the key of the target is looked up, then the rows are changed.
  change_friends : Bytes → (ℕ → Bool) → ℕ → Bytes → ℕ → M Manager (Option ℕ)
  change_friends sql rows_ok user_pk target_id c = do
    started ← request c (query start_transaction)
    require (started.code == 0) (pure none) do
      _ ← request c stmt_init
      prepared ← request c (stmt_prepare select_user)
      require (prepared.code == 0) (abandon c) do
        _ ← request c (bind_text target_id)
        _ ← request c bind_result
        _ ← request c stmt_execute
        _ ← request c stmt_store_result
        fetched ← request c stmt_fetch
        require (fetched.code == 0) (abandon c)
            do _ ← request c stmt_close; change_rows sql rows_ok user_pk fetched.column c

  -- `AcceptFriend`: exactly two rows must change.
  unfoldable pub accept_friend : ℕ → Bytes → M Manager (Option ℕ)
  unfolding change_friends change_rows abandon finish
  accept_friend user_pk target_id =
      with_connection (change_friends update_friend (λ rows. rows == 2) user_pk target_id)

  -- `RemoveFriend`: at least one row must go.
  unfoldable pub remove_friend : ℕ → Bytes → M Manager (Option ℕ)
  unfolding change_friends change_rows abandon finish
  remove_friend user_pk target_id =
      with_connection (change_friends delete_friend (λ rows. not (rows == 0)) user_pk target_id)

  -- The loop over the rows, on fuel; it does not return if the fuel runs out.
  fetch_rows : ℕ → ℕ → List ℕ → M Manager (List ℕ)
  fetch_rows zero c pks = λ m. blocked
  fetch_rows (suc fuel) c pks = do
    fetched ← request c stmt_fetch
    if fetched.code == 0 then fetch_rows fuel c (pks ++ fetched.column ∷ []) else pure pks

  -- The body of `GetUserFriendsPks`.
  select_rows : ℕ → ℕ → ℕ → M Manager (Option (List ℕ))
  select_rows fuel user_pk c = do
    _ ← request c stmt_init
    prepared ← request c (stmt_prepare select_friends)
    require (prepared.code == 0) (do _ ← request c stmt_close; pure none)
        do
          _ ← request c (bind_numbers (user_pk ∷ []))
          executed ← request c stmt_execute
          require (executed.code == 0) (do _ ← request c stmt_close; pure none)
              do
                _ ← request c bind_result
                _ ← request c stmt_store_result
                pks ← fetch_rows fuel c []
                _ ← request c stmt_close
                pure (some pks)

  -- `GetUserFriendsPks`
  unfoldable pub get_user_friends_pks : ℕ → ℕ → M Manager (Option (List ℕ))
  unfolding select_rows fetch_rows
  get_user_friends_pks fuel user_pk = with_connection (select_rows fuel user_pk)

  -- The loop of `init`, with `n` connections left to open. The code of `mysql_init` and of
  -- `mysql_real_connect` is 0 if the pointer is not null.
  open_connections : ℕ → ℕ → M Manager Bool
  open_connections zero c = pure true
  open_connections (suc n) c = do
    handle ← request c mysql_init
    require_true (handle.code == 0) do
      opened ← request c (mysql_real_connect db_host db_user db_password db_name db_port)
      require_true (opened.code == 0)
          do modify λ m. record m { db_pool = m.db_pool ++ c ∷ [] }; open_connections n (c + 1)

  -- `init`; the pool is not emptied if a connection fails.
  unfoldable pub init : M Manager Bool
  unfolding open_connections
  init = open_connections db_connection_count 0

  -- `Shutdown`: the pool is emptied from its front.
  unfoldable pub close_all : List ℕ → M Manager (Unit {0})
  close_all [] = pure tt
  close_all (c ∷ rest) = do
    modify λ m. record m { db_pool = rest }
    _ ← request c mysql_close
    close_all rest

  unfoldable pub shutdown : M Manager (Unit {0})
  unfolding close_all
  shutdown m = close_all m.db_pool m
