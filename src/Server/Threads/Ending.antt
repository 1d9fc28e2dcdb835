-- ===== src/Server/Threads/Ending.antt =====
-- The threads and the completion port once `ServerEnd` has begun.
use outgame_lobby_server.Prelude.{
  Bool, ℕ, ◌+◌, ◌*◌, ◌≤◌, ◌≡◌, refl, false, List, [], ◌∷◌, length, total, total-append, total-set,
  arith,
}
use outgame_lobby_server.Server.Threads.{
  Thread, testing, waiting, handling, checking, polling, left, Notice, null, socket_call, Crew,
  Move, wait, leave, see_null, see_call, handled, poll, stop_polling, polled, Step, move, post, Run,
  here, stepped, arrived,
}

-- How many steps a thread may still take once the flags are cleared.
abbrev pub cost : Thread → ℕ
cost testing = 1
cost waiting = 3
cost handling = 2
cost checking = 1
cost polling = 2
cost left = 0

abbrev pub waits : Thread → ℕ
waits waiting = 1
waits testing = 0
waits handling = 0
waits checking = 0
waits polling = 0
waits left = 0

abbrev pub nulls : Notice → ℕ
nulls null = 1
nulls socket_call = 0

-- The flags are cleared, and there is a null completion, in the port or still to be posted, for each thread
-- that waits.
pub record IsEnding (c : Crew) : Type 0 where
  pub stopped : c.work_run ≡ false
  pub closed : c.accepter_run ≡ false
  pub enough : total waits c.work_threads ≤ total nulls c.port + c.unposted

abbrev pub steps_left : Crew → ℕ
steps_left c = total cost c.work_threads + c.unposted

-- What a step of a thread from `p` to `q` keeps.
record Ends (c : Crew) (p q : Thread) (d : Crew) : Type 0 where
  pub same_threads : d.work_threads ≡ c.work_threads
  pub same_unposted : d.unposted ≡ c.unposted
  pub stopped : d.work_run ≡ false
  pub closed : d.accepter_run ≡ false
  pub cheaper : cost q + 1 ≤ cost p
  pub enough : waits q + total nulls c.port ≤ waits p + total nulls d.port

-- A step that touches neither the port nor the flags.
quiet-Ends :
    {c : Crew} (p q : Thread)
    → c.work_run ≡ false
    → c.accepter_run ≡ false
    → cost q + 1 ≤ cost p
    → waits q ≤ waits p
    → Ends c p q c
quiet-Ends p q off closed cheaper enough = record {
  same_threads = refl;
  same_unposted = refl;
  stopped = off;
  closed = closed;
  cheaper = cheaper;
  enough = omega arith;
}

-- A thread that waits takes a completion from the port.
taken-Ends :
    {c : Crew} (q : Thread) (n : Notice) (rest : List Notice) (run : Bool)
    → run ≡ false
    → c.accepter_run ≡ false
    → c.port ≡ n ∷ rest
    → cost q + 1 ≤ 3
    → waits q + nulls n ≤ 1
    → Ends c waiting q (record c { work_run = run; port = rest })
taken-Ends q n rest run off closed e cheaper enough = record {
  same_threads = refl;
  same_unposted = refl;
  stopped = off;
  closed = closed;
  cheaper = cheaper;
  enough = rw e (omega arith);
}

Move-Ends :
    {c d : Crew} {p q : Thread}
    → Move c p q d
    → c.work_run ≡ false
    → c.accepter_run ≡ false
    → Ends c p q d
Move-Ends (wait on) off closed = absurd (ground (arith, on, off))
Move-Ends (leave e) off closed = quiet-Ends testing left off closed (omega arith) (omega arith)
Move-Ends (see_null rest e) off closed =
    taken-Ends testing null rest false refl closed e (omega arith) (omega arith)
Move-Ends {c} (see_call rest e) off closed =
    taken-Ends handling socket_call rest c.work_run off closed e (omega arith) (omega arith)
Move-Ends handled off closed = quiet-Ends handling testing off closed (omega arith) (omega arith)
Move-Ends (poll on) off closed = absurd (ground (arith, on, closed))
Move-Ends (stop_polling e) off closed =
    quiet-Ends checking left off closed (omega arith) (omega arith)
Move-Ends polled off closed = quiet-Ends polling checking off closed (omega arith) (omega arith)

Step-IsEnding :
    {c d : Crew} → Step c d → IsEnding c → IsEnding d × (steps_left d + 1 ≤ steps_left c)
Step-IsEnding {c} (move i {p} {q} {d} e m) v =
    let ends = Move-Ends m v.stopped v.closed in
    (
      record {
        stopped = ends.stopped;
        closed = ends.closed;
        enough =
            rw (ends.same_threads, ends.same_unposted)
              (omega (arith, v.enough, ends.enough, total-set waits c.work_threads i p q e));
      },
      rw (ends.same_threads, ends.same_unposted)
          (omega (arith, ends.cheaper, total-set cost c.work_threads i p q e)),
    )
Step-IsEnding {c} (post n e) v = (
  record {
    stopped = v.stopped;
    closed = v.closed;
    enough = omega (arith, v.enough, e, total-append nulls c.port (null ∷ []));
  },
  omega (arith, e),
)

pub Run-IsEnding :
    {c d : Crew} {n : ℕ} → Run c d n → IsEnding c → IsEnding d × (steps_left d + n ≤ steps_left c)
Run-IsEnding here v = (v, omega arith)
Run-IsEnding (stepped run step) v =
    let (w, few) = Run-IsEnding run v in
    let (x, fewer) = Step-IsEnding step w in (x, omega (arith, few, fewer))
Run-IsEnding (arrived {d} run) v =
    let (w, few) = Run-IsEnding run v in
    (
      record {
        stopped = w.stopped;
        closed = w.closed;
        enough = omega (arith, w.enough, total-append nulls d.port (socket_call ∷ []));
      },
      few,
    )

pub cost-total : (ts : List Thread) → total cost ts ≤ 3 * length ts
cost-total [] = omega arith
cost-total (testing ∷ ts) = omega (arith, cost-total ts)
cost-total (waiting ∷ ts) = omega (arith, cost-total ts)
cost-total (handling ∷ ts) = omega (arith, cost-total ts)
cost-total (checking ∷ ts) = omega (arith, cost-total ts)
cost-total (polling ∷ ts) = omega (arith, cost-total ts)
cost-total (left ∷ ts) = omega (arith, cost-total ts)

pub waits-total : (ts : List Thread) → total waits ts ≤ length ts
waits-total [] = omega arith
waits-total (testing ∷ ts) = omega (arith, waits-total ts)
waits-total (waiting ∷ ts) = omega (arith, waits-total ts)
waits-total (handling ∷ ts) = omega (arith, waits-total ts)
waits-total (checking ∷ ts) = omega (arith, waits-total ts)
waits-total (polling ∷ ts) = omega (arith, waits-total ts)
waits-total (left ∷ ts) = omega (arith, waits-total ts)
