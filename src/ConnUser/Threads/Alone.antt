-- ===== src/ConnUser/Threads/Alone.antt =====
-- One thread that nobody interrupts, against `push_send_msg` and `send_complete`.
use outgame_lobby_server.Prelude.{
  ℕ, zero, suc, ◌≡◌, refl, inl, inr, List, [], ◌∷◌, append-nil, Bytes, arith, Bool-cases, ◌==◌, ap,
  sym,
}
use mathlib.Core.Path.{ap₂}
use outgame_lobby_server.Overlapped.{Overlapped}
use outgame_lobby_server.ConnUser.{
  ConnUser, push_send_msg, send_complete, enqueue, send_if_single, proc_send, send_front,
}
use outgame_lobby_server.ConnUser.Send.{Line, after_push, after_complete}
use outgame_lobby_server.ConnUser.Send.Queue.{kick}
use outgame_lobby_server.ConnUser.Threads.{
  Pc, idle, testing, begin_push, begin_complete, advance, pop_front,
}

-- The next `n` steps of one thread.
unfoldable pub run : ℕ → Pc × Line → Pc × Line
run zero r = r
run (suc n) r = run n (advance r.0 r.1)

kick-none : (s : Line) (u : ConnUser) → kick s (u, []) ≡ record s { user = u }
kick-none s u =
    ap₂ (λ os n. record s { user = u; sent = os; in_flight = n }) (append-nil s.sent) (omega arith)

pop_front-kick :
    (q : List Overlapped) (s : Line) → run 1 (pop_front q s) ≡ (idle, kick s (send_front q s.user))
unfolding run advance pop_front send_front
pop_front-kick [] s = ap (λ t. (idle, t)) (sym (kick-none s s.user))
pop_front-kick (o ∷ q) s = refl

testing-kick : (s : Line) → run 3 (testing, s) ≡ (idle, kick s (send_if_single s.user))
unfolding run advance send_if_single proc_send
testing-kick s = elim (Bool-cases (s.user.send_queue_size == 1)) [
  | inl e ↦ rw e (pop_front-kick s.user.send_queue s)
  | inr e ↦ rw e (ap (λ t. (idle, t)) (sym (kick-none s s.user)))
]

-- Five steps of one thread alone through `PushSendMsg`, and four through `SendComplete`, leave the
-- function, with the line that the function as a whole makes.
pub alone :
    (s : Line) (unset : Bytes) (size : ℕ) (msg : Bytes)
    → (run 5 (begin_push unset size msg s) ≡ (idle, after_push unset size msg s))
      × (run 4 (begin_complete s) ≡ (idle, after_complete s))
unfolding begin_push begin_complete run advance after_push after_complete push_send_msg
    send_complete enqueue
alone s unset size msg = (testing-kick _, testing-kick _)
