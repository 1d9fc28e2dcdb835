-- ===== src/Mysql/Threads/Shared.antt =====
-- The pool and the permits under any order of the threads' steps.
use outgame_lobby_server.Prelude.{
  ℕ, ◌+◌, ◌-◌, ◌<◌, ◌≤◌, ◌≡◌, refl, All, inl, inr, List, [], ◌∷◌, ◌++◌, none, some, length,
  length-append, total, total-set, total-replicate, arith, ap, Bool-cases, ◌==◌, sym,
}
use outgame_lobby_server.Effects.{returned, blocked}
use outgame_lobby_server.Mysql.{
  Mysql, Manager, acquire, get_connection, take_connection, give_back, db_connection_count,
}
use outgame_lobby_server.Mysql.Threads.{
  Stage, outside, permitted, connected, Clients, at_start, Step, enter, connect, fail, use_library,
  leave, Reach, here, next,
}

abbrev pub permits_of : Stage → ℕ
permits_of permitted = 1
permits_of outside = 0
permits_of (connected c) = 0

abbrev pub connections_of : Stage → ℕ
connections_of (connected c) = 1
connections_of outside = 0
connections_of permitted = 0

module _ (api : Mysql) where
  -- Each free connection has a permit, free or taken by a thread that is about to use it, and no
  -- connection is lost.
  pub record IsShared (s : Clients api) : Type 0 where
    pub matched : length s.manager.db_pool ≡ s.manager.permits + total permits_of s.stages
    pub complete : length s.manager.db_pool + total connections_of s.stages ≡ db_connection_count

  acquire-permits :
      (m m' : Manager api)
      → acquire api m ≡ returned tt m'
      → (m'.db_pool ≡ m.db_pool) × (m'.permits + 1 ≡ m.permits)
  unfolding acquire
  acquire-permits m m' e = elim (Bool-cases (m.permits == 0)) [
    | inl z ↦ let stuck : blocked ≡ returned tt m' = rw z at e in absurd (ground (arith, stuck))
    | inr z ↦
        let went : returned tt (record m { permits = m.permits - 1 }) ≡ returned tt m' =
          rw z at e in
        let same : record m { permits = m.permits - 1 } ≡ m' = cc in
        (
          ap (λ (v : Manager api). v.db_pool) (sym same),
          ground (arith, ap (λ (v : Manager api). v.permits) same, z),
        )
  ]

  take_connection-some :
      (q : List ℕ) (c : ℕ) (m m' : Manager api)
      → take_connection api q m ≡ returned (some c) m'
      → (length q ≡ length m'.db_pool + 1) × (m'.permits ≡ m.permits)
  unfolding take_connection
  take_connection-some [] c m m' e = absurd (ground (arith, e))
  take_connection-some (d ∷ q) c m m' e =
      let same : record m { db_pool = q } ≡ m' = cc in
      (
        omega (arith, ap (λ (v : Manager api). length v.db_pool) same),
        ap (λ (v : Manager api). v.permits) (sym same),
      )

  take_connection-none :
      (q : List ℕ) (m m' : Manager api) → take_connection api q m ≡ returned none m' → length q ≡ 0
  unfolding take_connection
  take_connection-none [] m m' e = refl
  take_connection-none (d ∷ q) m m' e = absurd (ground (arith, e))

  Step-IsShared : {s t : Clients api} → Step api s t → IsShared s → IsShared t
  unfolding get_connection give_back
  Step-IsShared {s} (enter i m e went) v =
      let (same_pool, fewer) = acquire-permits s.manager m went in
      record {
        matched = omega (
          arith,
          v.matched,
          fewer,
          ap length same_pool,
          total-set permits_of s.stages i outside permitted e,
        );
        complete = omega (
          arith,
          v.complete,
          ap length same_pool,
          total-set connections_of s.stages i outside permitted e,
        );
      }
  Step-IsShared {s} (connect i c m e found) v =
      let (taken, same_permits) = take_connection-some s.manager.db_pool c s.manager m found in
      record {
        matched = omega (
          arith,
          v.matched,
          taken,
          same_permits,
          total-set permits_of s.stages i permitted (connected c) e,
        );
        complete = omega (
          arith,
          v.complete,
          taken,
          total-set connections_of s.stages i permitted (connected c) e,
        );
      }
  Step-IsShared {s} (fail i m e found) v = absurd (
      omega (
        arith,
        v.matched,
        take_connection-none s.manager.db_pool s.manager m found,
        total-set permits_of s.stages i permitted outside e,
      ))
  Step-IsShared (use_library i c db log e) v = record { matched = v.matched; complete = v.complete }
  Step-IsShared {s} (leave i c m e gave) v =
      let same : record s.manager {
        db_pool = s.manager.db_pool ++ c ∷ [];
        permits = s.manager.permits + 1;
      }
          ≡ m =
        cc in
      record {
        matched = omega (
          arith,
          v.matched,
          ap (λ (v : Manager api). length v.db_pool) same,
          ap (λ (v : Manager api). v.permits) same,
          length-append s.manager.db_pool (c ∷ []),
          total-set permits_of s.stages i (connected c) outside e,
        );
        complete = omega (
          arith,
          v.complete,
          ap (λ (v : Manager api). length v.db_pool) same,
          length-append s.manager.db_pool (c ∷ []),
          total-set connections_of s.stages i (connected c) outside e,
        );
      }

  Reach-IsShared : {s t : Clients api} → IsShared s → Reach api s t → IsShared t
  Reach-IsShared v here = v
  Reach-IsShared v (next reach step) = Step-IsShared step (Reach-IsShared v reach)

  -- A thread that has a permit, and no connection yet, finds one.
  abbrev pub Finds : Manager api → Stage → Type 0
  Finds m permitted = (c : ℕ) × (m' : Manager api) × (get_connection api m ≡ returned (some c) m')
  Finds m outside = Unit {0}
  Finds m (connected c) = Unit {0}

  finds :
      (q : List ℕ) (m : Manager api)
      → 0 < length q
      → (c : ℕ) × (m' : Manager api) × (take_connection api q m ≡ returned (some c) m')
  unfolding take_connection
  finds [] m pos = absurd (omega arith)
  finds (c ∷ q) m pos = (c, _, refl)

  all_find :
      (m : Manager api) (stages : List Stage)
      → total permits_of stages ≤ length m.db_pool
      → All (Finds m) stages
  unfolding get_connection
  all_find m [] h = tt
  all_find m (outside ∷ stages) h = (tt, all_find m stages (omega (arith, h)))
  all_find m (connected c ∷ stages) h = (tt, all_find m stages (omega (arith, h)))
  all_find m (permitted ∷ stages) h =
      (finds m.db_pool m (omega (arith, h)), all_find m stages (omega (arith, h)))

  -- Once all connections are open, with as many permits: whatever queries any number of threads make, and in
  -- whatever order their steps come, every thread that has a permit and no connection yet finds one, and
  -- the free connections and those in use are always all of them.
  pub shared_pool :
      (n : ℕ) (m : Manager api) {t : Clients api}
      → length m.db_pool ≡ db_connection_count
      → m.permits ≡ db_connection_count
      → Reach api (at_start api n m) t
      → All (Finds t.manager) t.stages
        × (length t.manager.db_pool + total connections_of t.stages ≡ db_connection_count)
  shared_pool n m {t} full permits reach =
      let begun : IsShared (at_start api n m) = record {
        matched = omega (arith, full, permits, total-replicate permits_of n outside refl);
        complete = omega (arith, full, total-replicate connections_of n outside refl);
      } in
      let v = Reach-IsShared begun reach in
      (all_find t.manager t.stages (omega (arith, v.matched)), v.complete)
