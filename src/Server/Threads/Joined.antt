-- ===== src/Server/Threads/Joined.antt =====
-- The way of the threads from the start of `ServerEnd` to its joins.
use outgame_lobby_server.Prelude.{
  ℕ, zero, suc, ◌*◌, ◌≤◌, ◌≡◌, refl, inl, inr, ◌⊎◌, List, [], ◌∷◌, some, get_elem?, length, total,
  total-set, arith, All,
}
use outgame_lobby_server.Server.Threads.{
  Thread, testing, waiting, handling, checking, polling, left, Notice, null, socket_call, Crew,
  server_end, Move, leave, see_null, see_call, handled, stop_polling, polled, Step, move, post, Run,
}
use outgame_lobby_server.Server.Threads.Ending.{
  cost, waits, nulls, IsEnding, Run-IsEnding, cost-total, waits-total,
}

-- A thread that has not left.
record Active (ts : List Thread) : Type 0 where
  pub index : ℕ
  pub thread : Thread
  pub stands : get_elem? ts index ≡ some thread
  pub costs : 1 ≤ cost thread

Active-suc : {t : Thread} {ts : List Thread} → Active ts → Active (t ∷ ts)
Active-suc a = record { index = suc a.index; thread = a.thread; stands = a.stands; costs = a.costs }

Active-here : (t : Thread) (ts : List Thread) → 1 ≤ cost t → Active (t ∷ ts)
Active-here t ts pos = record { index = 0; thread = t; stands = refl; costs = pos }

find-Active : (ts : List Thread) → All (λ t. t ≡ left) ts ⊎ Active ts
find-Active [] = inl tt
find-Active (left ∷ ts) = elim (find-Active ts) [
  | inl all ↦ inl (refl, all)
  | inr a ↦ inr (Active-suc a)
]
find-Active (testing ∷ ts) = inr (Active-here testing ts (omega arith))
find-Active (waiting ∷ ts) = inr (Active-here waiting ts (omega arith))
find-Active (handling ∷ ts) = inr (Active-here handling ts (omega arith))
find-Active (checking ∷ ts) = inr (Active-here checking ts (omega arith))
find-Active (polling ∷ ts) = inr (Active-here polling ts (omega arith))

-- The thread that waits finds a completion in the port.
see :
    {c : Crew} (port : List Notice)
    → c.port ≡ port
    → 1 ≤ total nulls port
    → (q : Thread) × (d : Crew) × Move c waiting q d
see [] e pos = absurd (omega arith)
see (null ∷ rest) e pos = (testing, _, see_null rest e)
see (socket_call ∷ rest) e pos = (handling, _, see_call rest e)

moves_on :
    {c : Crew} (p : Thread)
    → IsEnding c
    → 1 ≤ cost p
    → waits p ≤ total nulls c.port
    → (q : Thread) × (d : Crew) × Move c p q d
moves_on testing v pos nulled = (left, _, leave v.stopped)
moves_on {c} waiting v pos nulled = see c.port refl nulled
moves_on handling v pos nulled = (testing, _, handled)
moves_on checking v pos nulled = (left, _, stop_polling v.closed)
moves_on polling v pos nulled = (checking, _, polled)
moves_on left v pos nulled = absurd (omega arith)

next_step :
    {c : Crew}
    → IsEnding c
    → (k : ℕ) → c.unposted ≡ k
    → (All (λ t. t ≡ left) c.work_threads × (c.unposted ≡ 0)) ⊎ ((d : Crew) × Step c d)
next_step v (suc n) e = inr (_, post n e)
next_step {c} v zero e = elim (find-Active c.work_threads) [
  | inl all ↦ inl (all, e)
  | inr a ↦
      let (q, d, m) = moves_on a.thread v a.costs (
        omega
          (arith, v.enough, e, total-set waits c.work_threads a.index a.thread left a.stands)) in
      inr (_, move a.index a.stands m)
]

-- After `ServerEnd` has begun, wherever its threads are and whatever is in the port: all of them take at most
-- four steps for each thread, the posts of `ServerEnd` included, and as long as a thread has not left or a post
-- is due, there is a step that can be taken.
pub server_end-terminates :
    (c : Crew) {d : Crew} {n : ℕ}
    → Run (server_end c) d n
    → (n ≤ 4 * length c.work_threads)
      × ((All (λ t. t ≡ left) d.work_threads × (d.unposted ≡ 0)) ⊎ ((e : Crew) × Step d e))
unfolding server_end
server_end-terminates c {d} run =
    let begun : IsEnding (server_end c) = record {
      stopped = refl;
      closed = refl;
      enough = omega (arith, waits-total c.work_threads);
    } in
    let (v, few) = Run-IsEnding run begun in
    (omega (arith, few, cost-total c.work_threads), next_step v d.unposted refl)
