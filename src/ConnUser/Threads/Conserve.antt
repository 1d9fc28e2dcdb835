-- ===== src/ConnUser/Threads/Conserve.antt =====
-- The messages and the count of a connection under any order of the threads' steps.
use outgame_lobby_server.Prelude.{
  total, total-append, total-set, ℕ, ◌+◌, ◌%◌, ◌≡◌, refl, List, [], ◌∷◌, Option, some, Bytes,
  memcpy, length, length-append, arith, get_elem?, Bool-cases, inl, inr, ◌==◌, u16_mod, ap, ◌<◌,
}
use outgame_lobby_server.Overlapped.{Overlapped}
use outgame_lobby_server.ConnUser.Send.{Line}
use outgame_lobby_server.ConnUser.Send.Queue.{send_object-wsa_buf}
use outgame_lobby_server.ConnUser.Threads.{
  Pc, idle, counting, testing, uncounting, popping, pushing, sending, begin_push, begin_complete,
  advance, pop_front, Threads, turn, Step, push, complete, go, Reach, here, next,
}

-- A weight of the messages that a thread holds.
abbrev pub held : (Overlapped → ℕ) → Pc → ℕ
held f (pushing o) = f o
held f (sending o) = f o
held f idle = 0
held f counting = 0
held f uncounting = 0
held f testing = 0
held f popping = 0

-- What the step of a thread that is there still adds to the count.
abbrev pub owes : Pc → ℕ
owes counting = 1
owes idle = 0
owes uncounting = 0
owes testing = 0
owes popping = 0
owes (pushing o) = 0
owes (sending o) = 0

-- The messages that the count has, and that neither the queue nor the sends in flight have.
abbrev pub carries : Pc → ℕ
carries uncounting = 1
carries (sending o) = 1
carries idle = 0
carries counting = 0
carries testing = 0
carries popping = 0
carries (pushing o) = 0

module _ (g : Option Bytes → ℕ) where
  abbrev pub weight : Overlapped → ℕ
  weight o = g o.wsa_buf

  abbrev pub placed : Line → ℕ
  placed s = total weight s.user.send_queue + total weight s.sent

  abbrev pub asked : Line → ℕ
  asked s = total (λ b. g (some b)) s.pushed

abbrev pub flying : Line → ℕ
flying s = length s.user.send_queue + s.in_flight

-- However messages are weighed, those that were pushed weigh what those do that wait, that are in the hands of
-- a thread, and that were sent; and up to the operations under way the count has the messages that wait and
-- those in flight.
pub record Conserves (s : Threads) : Type 0 where
  pub kept :
      (g : Option Bytes → ℕ) → asked g s.line ≡ placed g s.line + total (held (weight g)) s.pcs
  pub counted :
      (s.line.user.send_queue_size + total owes s.pcs) % u16_mod
      ≡ (flying s.line + total carries s.pcs) % u16_mod

-- A thread goes from `p` to `r.0`, the line from `s` to `r.1`.
record Moves (p : Pc) (s : Line) (r : Pc × Line) : Type 0 where
  pub kept :
      (g : Option Bytes → ℕ)
      → asked g r.1 + placed g s + held (weight g) p
        ≡ asked g s + placed g r.1 + held (weight g) r.0
  pub counted :
      (r.1.user.send_queue_size + owes r.0 + (flying s + carries p)) % u16_mod
      ≡ (s.user.send_queue_size + owes p + (flying r.1 + carries r.0)) % u16_mod

turn-Conserves :
    {s : Threads} {p : Pc} (i : ℕ) (r : Pc × Line)
    → get_elem? s.pcs i ≡ some p
    → Moves p s.line r
    → Conserves s
    → Conserves (turn i r s)
turn-Conserves {s} {p} i r e m v = record {
  kept = λ g. omega (arith, m.kept g, v.kept g, total-set (held (weight g)) s.pcs i p r.0 e);
  counted = omega (
    arith,
    m.counted,
    v.counted,
    total-set owes s.pcs i p r.0 e,
    total-set carries s.pcs i p r.0 e,
  );
}

pop_front-Moves :
    (q : List Overlapped) (s : Line) → s.user.send_queue ≡ q → Moves popping s (pop_front q s)
unfolding pop_front
pop_front-Moves [] s e = record { kept = λ g. omega arith; counted = refl }
pop_front-Moves (o ∷ q) s e = record {
  kept = λ g. rw e (omega arith);
  counted = rw e (omega arith);
}

advance-Moves : (p : Pc) (s : Line) → Moves p s (advance p s)
unfolding advance
advance-Moves idle s = record { kept = λ g. refl; counted = refl }
advance-Moves (pushing o) s = record {
  kept = λ g. omega (arith, total-append (weight g) s.user.send_queue (o ∷ []));
  counted = omega (arith, length-append s.user.send_queue (o ∷ []));
}
advance-Moves counting s = record { kept = λ g. refl; counted = omega arith }
advance-Moves uncounting s = record { kept = λ g. refl; counted = omega arith }
advance-Moves testing s = elim (Bool-cases (s.user.send_queue_size == 1)) [
  | inl e ↦ rw e (record { kept = λ g. refl; counted = refl })
  | inr e ↦ rw e (record { kept = λ g. refl; counted = refl })
]
advance-Moves popping s = pop_front-Moves s.user.send_queue s refl
advance-Moves (sending o) s = record {
  kept = λ g. omega (arith, total-append (weight g) s.sent (o ∷ []));
  counted = omega arith;
}

begin_push-Moves :
    (unset : Bytes) (size : ℕ) (msg : Bytes) (s : Line) → Moves idle s (begin_push unset size msg s)
unfolding begin_push
begin_push-Moves unset size msg s =
    let buffer : Bytes = memcpy unset 0 msg 0 size in
    record {
      kept = λ g. omega (
        arith,
        total-append (λ b. g (some b)) s.pushed (buffer ∷ []),
        ap g (send_object-wsa_buf buffer s.manager s.user),
      );
      counted = refl;
    }

begin_complete-Moves : (s : Line) → 0 < s.in_flight → Moves idle s (begin_complete s)
unfolding begin_complete
begin_complete-Moves s pos = record { kept = λ g. refl; counted = omega arith }

pub Step-Conserves : {s t : Threads} → Step s t → Conserves s → Conserves t
Step-Conserves {s} (push i unset size msg e) v =
    turn-Conserves i (begin_push unset size msg s.line) e (begin_push-Moves unset size msg s.line) v
Step-Conserves {s} (complete i e pos) v =
    turn-Conserves i (begin_complete s.line) e (begin_complete-Moves s.line pos) v
Step-Conserves {s} (go i p e) v = turn-Conserves i (advance p s.line) e (advance-Moves p s.line) v

-- Whatever the threads push and complete, in whatever order their steps come: no message is lost or sent
-- twice, and the count is that of the messages that wait or are in flight, up to the operations under way.
pub Reach-Conserves : {s t : Threads} → Conserves s → Reach s t → Conserves t
Reach-Conserves v here = v
Reach-Conserves v (next reach step) = Step-Conserves step (Reach-Conserves v reach)
