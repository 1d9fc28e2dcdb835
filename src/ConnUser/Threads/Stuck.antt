-- ===== src/ConnUser/Threads/Stuck.antt =====
-- Connections on which messages wait while no thread is about to send.
use outgame_lobby_server.Prelude.{
  total, total-set, ℕ, ◌+◌, ◌^◌, ◌≤◌, ◌<◌, ◌≡◌, refl, List, [], ◌∷◌, some, Bytes, memcpy, length,
  length-append, arith, get_elem?, Bool-cases, inl, inr, ◌==◌, ap, ◌∙◌, ==_iff,
}
use outgame_lobby_server.Overlapped.{Overlapped}
use outgame_lobby_server.ConnUser.Send.{Line}
use outgame_lobby_server.ConnUser.Threads.{
  Pc, idle, counting, testing, uncounting, popping, pushing, sending, begin_push, begin_complete,
  advance, pop_front, Threads, turn, Step, push, complete, go, Reach, here, next,
}
use outgame_lobby_server.ConnUser.Threads.Conserve.{owes}

abbrev pub offers : Pc → ℕ
offers (pushing o) = 1
offers idle = 0
offers counting = 0
offers uncounting = 0
offers testing = 0
offers popping = 0
offers (sending o) = 0

-- Threads that may still send, or that carry out a completion.
abbrev pub moves : Pc → ℕ
moves uncounting = 1
moves popping = 1
moves (sending o) = 1
moves idle = 0
moves counting = 0
moves testing = 0
moves (pushing o) = 0

-- Messages wait, no send is in flight, and no thread is about to send.
pub record IsStuck (s : Threads) : Type 0 where
  pub quiet : s.line.in_flight ≡ 0
  pub unsent : total moves s.pcs ≡ 0
  pub many : 2 ≤ s.line.user.send_queue_size
  pub counted : s.line.user.send_queue_size + total owes s.pcs ≡ length s.line.user.send_queue
  pub pushed : length s.line.user.send_queue + total offers s.pcs ≤ length s.line.pushed

-- What the step of a thread from `p` to `r.0` keeps of a line that is stuck.
record Idles (p : Pc) (s : Line) (r : Pc × Line) : Type 0 where
  pub same_sent : r.1.sent ≡ s.sent
  pub quiet : r.1.in_flight ≡ 0
  pub unsent : moves r.0 ≡ 0
  pub more : s.user.send_queue_size ≤ r.1.user.send_queue_size
  pub counted :
      r.1.user.send_queue_size + owes r.0 + length s.user.send_queue
      ≡ s.user.send_queue_size + owes p + length r.1.user.send_queue
  pub pushed :
      length r.1.user.send_queue + offers r.0 + length s.pushed
      ≡ length s.user.send_queue + offers p + length r.1.pushed

turn-IsStuck :
    {s : Threads} {p : Pc} (i : ℕ) (r : Pc × Line)
    → get_elem? s.pcs i ≡ some p
    → Idles p s.line r
    → IsStuck s
    → IsStuck (turn i r s)
turn-IsStuck {s} {p} i r e m v = record {
  quiet = m.quiet;
  unsent = omega (arith, m.unsent, v.unsent, total-set moves s.pcs i p r.0 e);
  many = omega (arith, m.more, v.many);
  counted = omega (arith, m.counted, v.counted, total-set owes s.pcs i p r.0 e);
  pushed = omega (arith, m.pushed, v.pushed, total-set offers s.pcs i p r.0 e);
}

advance-Idles :
    (p : Pc) (s : Line)
    → s.in_flight ≡ 0
    → moves p ≡ 0
    → 2 ≤ s.user.send_queue_size
    → s.user.send_queue_size + owes p < 2 ^ 16
    → Idles p s (advance p s)
unfolding advance
advance-Idles idle s q m two lt = record {
  same_sent = refl;
  quiet = q;
  unsent = refl;
  more = omega arith;
  counted = refl;
  pushed = refl;
}
advance-Idles (pushing o) s q m two lt = record {
  same_sent = refl;
  quiet = q;
  unsent = refl;
  more = omega arith;
  counted = omega (arith, length-append s.user.send_queue (o ∷ []));
  pushed = omega (arith, length-append s.user.send_queue (o ∷ []));
}
advance-Idles counting s q m two lt = record {
  same_sent = refl;
  quiet = q;
  unsent = refl;
  more = omega arith;
  counted = omega arith;
  pushed = omega arith;
}
advance-Idles uncounting s q m two lt = absurd (omega arith)
advance-Idles testing s q m two lt = elim (Bool-cases (s.user.send_queue_size == 1)) [
  | inl e ↦ absurd (omega (arith, (==_iff s.user.send_queue_size 1).0 e))
  | inr e ↦ rw e (record {
    same_sent = refl;
    quiet = q;
    unsent = refl;
    more = omega arith;
    counted = refl;
    pushed = refl;
  })
]
advance-Idles popping s q m two lt = absurd (omega arith)
advance-Idles (sending o) s q m two lt = absurd (omega arith)

begin_push-Idles :
    (unset : Bytes) (size : ℕ) (msg : Bytes) (s : Line)
    → s.in_flight ≡ 0
    → Idles idle s (begin_push unset size msg s)
unfolding begin_push
begin_push-Idles unset size msg s q = record {
  same_sent = refl;
  quiet = q;
  unsent = refl;
  more = omega arith;
  counted = refl;
  pushed = omega (arith, length-append s.pushed (memcpy unset 0 msg 0 size ∷ []));
}

advance-pushed : (p : Pc) (s : Line) → (advance p s).1.pushed ≡ s.pushed
unfolding advance pop_front
advance-pushed idle s = refl
advance-pushed (pushing o) s = refl
advance-pushed counting s = refl
advance-pushed uncounting s = refl
advance-pushed testing s = refl
advance-pushed popping s = popped s.user.send_queue
  where
    popped : (q : List Overlapped) → (pop_front q s).1.pushed ≡ s.pushed
    popped [] = refl
    popped (o ∷ q) = refl
advance-pushed (sending o) s = refl

Step-pushed : {s t : Threads} → Step s t → length s.line.pushed ≤ length t.line.pushed
unfolding begin_push begin_complete
Step-pushed {s} (push i unset size msg e) =
    omega (arith, length-append s.line.pushed (memcpy unset 0 msg 0 size ∷ []))
Step-pushed (complete i e pos) = omega arith
Step-pushed {s} (go i p e) = omega (arith, ap length (advance-pushed p s.line))

Step-IsStuck :
    {s t : Threads}
    → Step s t
    → length t.line.pushed < 2 ^ 16
    → IsStuck s
    → IsStuck t × (t.line.sent ≡ s.line.sent)
Step-IsStuck {s} (push i unset size msg e) few v =
    let m = begin_push-Idles unset size msg s.line v.quiet in (turn-IsStuck i _ e m v, m.same_sent)
Step-IsStuck (complete i e pos) few v = absurd (omega (arith, v.quiet))
Step-IsStuck {s} (go i p e) few v =
    let m : Idles p s.line (advance p s.line) =
      advance-Idles p s.line v.quiet (omega (arith, v.unsent, total-set moves s.pcs i p idle e))
        v.many
        (omega (
          arith,
          v.counted,
          v.pushed,
          total-set owes s.pcs i p idle e,
          ap length (advance-pushed p s.line),
        )) in
    (turn-IsStuck i (advance p s.line) e m v, m.same_sent)

-- A stuck connection sends nothing more, whatever the threads do, while fewer than 2^16 messages were
-- pushed to it in all.
pub Reach-IsStuck :
    {s t : Threads}
    → IsStuck s
    → Reach s t
    → length t.line.pushed < 2 ^ 16
    → IsStuck t × (t.line.sent ≡ s.line.sent)
Reach-IsStuck v here few = (v, refl)
Reach-IsStuck v (next reach step) few =
    let (w, same) = Reach-IsStuck v reach (omega (arith, Step-pushed step)) in
    let (x, again) = Step-IsStuck step few w in (x, again ∙ same)
