-- ===== src/Mysql/Threads.antt =====
-- The queries of several threads over one pool. `GetConnection` and the destructor of `AutoConn` hold
-- `dbPoolMutex`, so each of them is one step.
pub mod Shared
use outgame_lobby_server.Prelude.{ℕ, ◌≡◌, List, Option, none, some, get_elem?, set, replicate}
use outgame_lobby_server.Effects.{returned}
use outgame_lobby_server.Mysql.{
  Mysql, Call, Manager, MySqlManager, acquire, get_connection, give_back,
}

-- A thread is outside the queries, has a permit, or has a connection, too.
pub data Stage : Type 0 where
  outside permitted : Stage
  connected : ℕ → Stage

module _ (api : Mysql) where
  pub record Clients : Type 0 where
    pub manager : Manager api
    pub stages : List Stage

  abbrev pub at_start : ℕ → Manager api → Clients
  at_start n m = record { manager = m; stages = replicate n outside }

  -- Any thread may take its next step. One that finds the pool empty leaves with its permit used up.
  pub data Step (s : Clients) : Clients → Type 0 where
    enter :
        (i : ℕ) (m : Manager api)
        → get_elem? s.stages i ≡ some outside
        → acquire api s.manager ≡ returned tt m
        → Step s (record { manager = m; stages = set s.stages i permitted })
    connect :
        (i c : ℕ) (m : Manager api)
        → get_elem? s.stages i ≡ some permitted
        → get_connection api s.manager ≡ returned (some c) m
        → Step s (record { manager = m; stages = set s.stages i (connected c) })
    fail :
        (i : ℕ) (m : Manager api)
        → get_elem? s.stages i ≡ some permitted
        → get_connection api s.manager ≡ returned none m
        → Step s (record { manager = m; stages = set s.stages i outside })
    use_library :
        (i c : ℕ) (db : api.Db) (log : List (ℕ × Call × ℕ))
        → get_elem? s.stages i ≡ some (connected c)
        → Step s (record s { manager = record s.manager { database = db; log = log } })
    leave :
        (i c : ℕ) (m : Manager api)
        → get_elem? s.stages i ≡ some (connected c)
        → give_back api c s.manager ≡ returned tt m
        → Step s (record { manager = m; stages = set s.stages i outside })

  pub data Reach (s : Clients) : Clients → Type 0 where
    here : Reach s s
    next : {t u : Clients} → Reach s t → Step t u → Reach s u
