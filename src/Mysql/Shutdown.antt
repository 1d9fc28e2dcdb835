-- ===== src/Mysql/Shutdown.antt =====
-- What `Shutdown` closes.
use outgame_lobby_server.Prelude.{
  ℕ, ◌≡◌, refl, sym, ◌∙◌, List, [], ◌∷◌, ◌++◌, map, append-nil, append_assoc,
}
use mathlib.Core.List.{map-append}
use outgame_lobby_server.Effects.{returned}
use outgame_lobby_server.Mysql.{
  Mysql, Call, mysql_close, MySqlManager, close_all, shutdown, request,
}

-- The calls of a log, without their codes.
abbrev pub calls : List (ℕ × Call × ℕ) → List (ℕ × Call)
calls = map (λ e. (e.0, e.1))

abbrev pub closings : List ℕ → List (ℕ × Call)
closings = map (λ c. (c, mysql_close))

module _ (api : Mysql) where
  close_all-closings :
      (pool : List ℕ) (m : MySqlManager api.Db)
      → m.db_pool ≡ pool
      → (v : MySqlManager api.Db) × (close_all api pool m ≡ returned tt v)
        × (v.db_pool ≡ [])
        × (v.permits ≡ m.permits)
        × (calls v.log ≡ calls m.log ++ closings pool)
  unfolding close_all request
  close_all-closings [] m e = (m, refl, e, refl, sym (append-nil (calls m.log)))
  close_all-closings (c ∷ pool) m e =
      let answer = api.call c mysql_close m.database in
      let (v, returns, empty, permits, logged) =
        close_all-closings pool
          (record m {
            db_pool = pool;
            database = answer.1;
            log = m.log ++ (c, mysql_close, answer.0.code) ∷ [];
          })
          refl in
      (v, returns, empty, permits, logged ∙ rw (map-append, append_assoc) refl)

  -- Whatever the library answers, `Shutdown` returns with the pool empty; it has closed each connection of the
  -- pool once, in order, and done nothing else.
  pub shutdown-closings :
      (m : MySqlManager api.Db)
      → (v : MySqlManager api.Db) × (shutdown api m ≡ returned tt v)
        × (v.db_pool ≡ [])
        × (v.permits ≡ m.permits)
        × (calls v.log ≡ calls m.log ++ closings m.db_pool)
  unfolding shutdown
  shutdown-closings m = close_all-closings m.db_pool m refl
