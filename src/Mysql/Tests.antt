-- ===== src/Mysql/Tests.antt =====
-- The queries against a library that answers every call with success.
use outgame_lobby_server.Prelude.{
  All, ℕ, ◌≡◌, refl, some, [], ◌∷◌, codes, arith, length, total, ◌+◌,
}
use outgame_lobby_server.Effects.{returned, blocked, ◌>>=◌}
use outgame_lobby_server.Mysql.{
  Mysql, Answer, Call, stmt_affected_rows, MySqlManager, accept_friend, remove_friend,
  get_user_friends_pks, acquire,
}
use outgame_lobby_server.Mysql.Session.{Settles, unused}
use outgame_lobby_server.Mysql.Transactions.{accept_friend-Settles, remove_friend-Settles}
use outgame_lobby_server.Mysql.Friends.{Gives, get_user_friends_pks-Gives}
use outgame_lobby_server.Mysql.Threads.{Clients, outside, permitted, here, next, enter}
use outgame_lobby_server.Mysql.Threads.Shared.{connections_of, Finds, shared_pool}
use outgame_lobby_server.Mysql.Rows.{Leaves, get_user_friends_pks-Leaves}
use outgame_lobby_server.Mysql.Samples.{listing, listing-Selects, listing-Ends, listed}
use outgame_lobby_server.Mysql.Exhaustion.{accepts, lists, issue, issue_all, issue_all-blocked}

-- Every call succeeds; a fetch finds key 9, and two rows are changed.
abbrev answer : Call → Answer
answer stmt_affected_rows = record { code = 2; column = 0 }
answer other = record { code = 0; column = 9 }

abbrev willing : Mysql
willing = record { Db = ℕ; call = λ c k db. (answer k, db) }

abbrev manager : MySqlManager ℕ
manager = record { db_pool = 0 ∷ 1 ∷ []; permits = 2; database = 0; log = [] }

accept_friend-Settles_example :
    Settles willing unused (1 ∷ 0 ∷ []) 2 [] (accept_friend willing 13 (codes "kim") manager)
accept_friend-Settles_example =
    accept_friend-Settles willing 13 (codes "kim") manager 0 (1 ∷ []) refl (omega arith)

remove_friend-Settles_example :
    Settles willing unused (1 ∷ 0 ∷ []) 2 [] (remove_friend willing 13 (codes "kim") manager)
remove_friend-Settles_example =
    remove_friend-Settles willing 13 (codes "kim") manager 0 (1 ∷ []) refl (omega arith)

abbrev unopened : MySqlManager ℕ
unopened = record { db_pool = []; permits = 1; database = 0; log = [] }

issue_all-blocked_example :
    (issue_all willing (lists 9 13 ∷ []) unopened ≡ returned tt (record unopened { permits = 0 }))
    × ((issue_all willing (lists 9 13 ∷ []) >>= λ _. issue willing (accepts 13 (codes "kim")))
          unopened
        ≡ blocked)
issue_all-blocked_example =
    issue_all-blocked willing (lists 9 13 ∷ []) (accepts 13 (codes "kim")) unopened refl refl

get_user_friends_pks-Gives_example :
    Gives listing
      (λ db. db)
      (some (14 ∷ 15 ∷ []))
      (1 ∷ 0 ∷ [])
      2
      (get_user_friends_pks listing 3 13 listed)
get_user_friends_pks-Gives_example =
    get_user_friends_pks-Gives listing (λ db. db) listing-Selects 3 13 listed 0 (1 ∷ []) refl
      (omega arith) (omega arith)

get_user_friends_pks-Leaves_example :
    Leaves listing unused (1 ∷ 0 ∷ []) 2 [] (get_user_friends_pks listing 3 13 listed)
get_user_friends_pks-Leaves_example =
    get_user_friends_pks-Leaves listing length listing-Ends 13 listed 0 (1 ∷ []) refl (omega arith)

abbrev ready : MySqlManager ℕ
ready = record { db_pool = 0 ∷ 1 ∷ 2 ∷ 3 ∷ 4 ∷ []; permits = 5; database = 0; log = [] }

-- The second of two threads has a permit.
abbrev entered : Clients willing
entered = record { manager = record ready { permits = 4 }; stages = outside ∷ permitted ∷ [] }

shared_pool_example :
    All (Finds willing entered.manager) entered.stages
    × (length entered.manager.db_pool + total connections_of entered.stages ≡ 5)
unfolding acquire
shared_pool_example =
    shared_pool willing 2 ready refl refl (next here (enter 1 entered.manager refl refl))
