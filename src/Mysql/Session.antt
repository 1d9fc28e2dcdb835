-- ===== src/Mysql/Session.antt =====
-- The use of one connection as an automaton over its library calls, and rules for code that uses it.
use outgame_lobby_server.Prelude.{
  ℕ, ◌+◌, ◌-◌, ◌≡◌, refl, ◌⊎◌, Bool, true, false, List, [], ◌∷◌, ◌++◌, append_assoc, append-nil,
  Option, none, some, ◌==◌, Bool-cases, inl, inr, if◌then◌else◌, sym,
}
use outgame_lobby_server.Effects.{M, Outcome, returned, pure, ◌>>=◌}
use outgame_lobby_server.Mysql.{
  Mysql, Call, Answer, start_transaction, commit, rollback, query, stmt_init, stmt_close, Manager,
  request, require,
}

-- How the transaction of a connection stands. `committed` and `rolled_back` are ends that the library
-- confirmed with the code 0, `commit_failed` and `rollback_failed` those that it did not, after which
-- nothing is known of the rows; `misused` is an end without a start, or the like.
pub data Stage : Type 0 where
  closed started committed rolled_back commit_failed rollback_failed misused : Stage

-- With it, how many prepared statements are not closed.
pub record Session : Type 0 where
  pub stage : Stage
  pub statements : ℕ

start_from : Stage → Stage
start_from closed = started
start_from other = misused

-- What an end comes to, by the code that it returns.
abbrev pub commit_end : ℕ → Stage
commit_end code = if code == 0 then committed else commit_failed

abbrev pub rollback_end : ℕ → Stage
rollback_end code = if code == 0 then rolled_back else rollback_failed

end_from : Stage → Stage → Stage
end_from end started = end
end_from end other = misused

unfoldable pub advance : Session → Call → ℕ → Session
unfolding start_from end_from
advance s (query start_transaction) code =
    if code == 0 then record s { stage = start_from s.stage } else s
advance s (query commit) code = record s { stage = end_from (commit_end code) s.stage }
advance s (query rollback) code = record s { stage = end_from (rollback_end code) s.stage }
advance s stmt_init code = record s { statements = s.statements + 1 }
advance s stmt_close code = record s { statements = s.statements - 1 }
advance s other code = s

unfoldable pub follow : Session → List (ℕ × Call × ℕ) → Session
unfolding advance
follow s [] = s
follow s ((c, k, code) ∷ calls) = follow (advance s k code) calls

abbrev pub unused : Session
unused = record { stage = closed; statements = 0 }

-- Every statement is closed; a key is returned after one `COMMIT`, whether it was confirmed or not, and
-- nothing after one `ROLLBACK` likewise or a transaction that did not start.
abbrev pub IsSettled : Session → Option ℕ → Type 0
IsSettled s none =
    ((s.stage ≡ closed) ⊎ ((s.stage ≡ rolled_back) ⊎ (s.stage ≡ rollback_failed)))
    × (s.statements ≡ 0)
IsSettled s (some pk) = ((s.stage ≡ committed) ⊎ (s.stage ≡ commit_failed)) × (s.statements ≡ 0)

pub commit_end-cases :
    (code : ℕ) → (commit_end code ≡ committed) ⊎ (commit_end code ≡ commit_failed)
commit_end-cases code = elim (Bool-cases (code == 0)) [
  | inl e ↦ inl (rw e refl)
  | inr e ↦ inr (rw e refl)
]

pub rollback_end-cases :
    (code : ℕ) → (rollback_end code ≡ rolled_back) ⊎ (rollback_end code ≡ rollback_failed)
rollback_end-cases code = elim (Bool-cases (code == 0)) [
  | inl e ↦ inl (rw e refl)
  | inr e ↦ inr (rw e refl)
]

module _ (api : Mysql) where
  -- A call that returns, keeps the pool and the permits, and takes the session `s` to one that suits its
  -- result.
  pub record Ends (Suits : Session → Option ℕ → Type 0) (s : Session) (pool : List ℕ) (permits : ℕ)
      (log : List (ℕ × Call × ℕ)) (r : Outcome (Manager api) (Option ℕ)) : Type 0 where
    pub result : Option ℕ
    pub after : Manager api
    pub calls : List (ℕ × Call × ℕ)
    pub returns : r ≡ returned result after
    pub same_pool : after.db_pool ≡ pool
    pub same_permits : after.permits ≡ permits
    pub logged : after.log ≡ log ++ calls
    pub settled : Suits (follow s calls) result

  abbrev pub Settles :
      Session → List ℕ → ℕ → List (ℕ × Call × ℕ) → Outcome (Manager api) (Option ℕ) → Type 0
  Settles = Ends IsSettled

  module _ (Suits : Session → Option ℕ → Type 0) where
    abbrev pub Runs : Session → M (Manager api) (Option ℕ) → Type 0
    Runs s p = (m : Manager api) → Ends Suits s m.db_pool m.permits m.log (p m)

    -- A call whose answers have the property `P`.
    pub Runs-answered :
        (P : Answer → Type 0) (s : Session) (c : ℕ) (k : Call)
        (f : Answer → M (Manager api) (Option ℕ))
        → ((db : api.Db) → P (api.call c k db).0)
        → ((a : Answer) → P a → Runs (advance s k a.code) (f a))
        → Runs s (request api c k >>= f)
    unfolding request follow
    Runs-answered P s c k f known h m = record {
      result = r.result;
      after = r.after;
      calls = (c, k, a.code) ∷ r.calls;
      returns = r.returns;
      same_pool = r.same_pool;
      same_permits = r.same_permits;
      logged = rw r.logged (append_assoc m.log _ r.calls);
      settled = r.settled;
    }
      where
        a : Answer
        a = (api.call c k m.database).0

        m' : Manager api
        m' = record m { database = (api.call c k m.database).1; log = m.log ++ (c, k, a.code) ∷ [] }

        r :
            Ends Suits
              (advance s k a.code)
              m.db_pool
              m.permits
              (m.log ++ (c, k, a.code) ∷ [])
              (f a m')
        r = h a (known m.database) m'

    pub Runs-request :
        (s : Session) (c : ℕ) (k : Call) (f : Answer → M (Manager api) (Option ℕ))
        → ((a : Answer) → Runs (advance s k a.code) (f a))
        → Runs s (request api c k >>= f)
    Runs-request s c k f h = Runs-answered (λ a. Unit {0}) s c k f (λ db. tt) (λ a known. h a)

    pub Runs-pure : (s : Session) (r : Option ℕ) → Suits s r → Runs s (pure r)
    unfolding follow
    Runs-pure s r h m = record {
      result = r;
      after = m;
      calls = [];
      returns = refl;
      same_pool = refl;
      same_permits = refl;
      logged = sym (append-nil m.log);
      settled = h;
    }

    pub Runs-require :
        (s : Session) (test : Bool) (cleanup rest : M (Manager api) (Option ℕ))
        → (test ≡ false → Runs s cleanup)
        → (test ≡ true → Runs s rest)
        → Runs s (require api test cleanup rest)
    unfolding require
    Runs-require s true cleanup rest no_way way = way refl
    Runs-require s false cleanup rest no_way way = no_way refl
