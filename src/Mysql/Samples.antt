-- ===== src/Mysql/Samples.antt =====
-- A MySQL that the tests select friends from.
use outgame_lobby_server.Prelude.{◌<◌, ◌≡◌, length, arith, ℕ, refl, List, [], ◌∷◌}
use outgame_lobby_server.Mysql.{Mysql, Answer, Call, stmt_store_result, stmt_fetch, MySqlManager}
use outgame_lobby_server.Mysql.Rows.{Ends}
use outgame_lobby_server.Mysql.Friends.{Selects}

-- A library with the friends 14 and 15, whose database is what is left of the stored result.
abbrev pub fetch_from : List ℕ → Answer × List ℕ
fetch_from [] = (record { code = 100; column = 0 }, [])
fetch_from (x ∷ xs) = (record { code = 0; column = x }, xs)

abbrev pub listing_call : Call → List ℕ → Answer × List ℕ
listing_call stmt_store_result db = (record { code = 0; column = 0 }, 14 ∷ 15 ∷ [])
listing_call stmt_fetch db = fetch_from db
listing_call other db = (record { code = 0; column = 0 }, db)

abbrev pub listing : Mysql
listing = record { Db = List ℕ; call = λ c k db. listing_call k db }

pub listing-Selects : Selects listing (λ db. db) (14 ∷ 15 ∷ [])
listing-Selects = record {
  prepares = λ c sql db. refl;
  executes = λ c db. refl;
  stores = λ c db. refl;
  fetches = λ c x xs db e. rw e (refl, refl, refl);
  ends = λ c db e. rw e refl;
}

pub listing-Ends : Ends listing length 3
listing-Ends = record { stores = λ c db. omega arith; fetches = λ c db e. fetched_less db e }
  where
    fetched_less : (db : List ℕ) → (fetch_from db).0.code ≡ 0 → length (fetch_from db).1 < length db
    fetched_less [] e = absurd (omega (arith, e))
    fetched_less (x ∷ xs) e = omega arith

abbrev pub listed : MySqlManager (List ℕ)
listed = record { db_pool = 0 ∷ 1 ∷ []; permits = 2; database = []; log = [] }
