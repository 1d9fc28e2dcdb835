-- ===== src/ConnUser/Threads/Race.antt =====
-- Two pushes at once on an idle connection.
use outgame_lobby_server.Prelude.{
  total-replicate, ℕ, ◌≡◌, refl, List, [], ◌∷◌, ◌++◌, some, Bytes, memcpy, length-append, arith,
  replicate,
}
use outgame_lobby_server.Overlapped.{Overlapped, OverLappedManager}
use outgame_lobby_server.ConnUser.{ConnUser, send_object}
use outgame_lobby_server.ConnUser.Send.Queue.{payloads, send_object-wsa_buf}
use outgame_lobby_server.ConnUser.Threads.{
  idle, counting, testing, pushing, begin_push, advance, Threads, turn, push, Reach, here, next,
}
use outgame_lobby_server.ConnUser.Threads.Plays.{played, Reach-played}
use outgame_lobby_server.ConnUser.Threads.Conserve.{owes}
use outgame_lobby_server.ConnUser.Threads.Stuck.{offers, moves, IsStuck}

-- `n + 2` threads outside both functions, and a connection without messages.
abbrev pub at_rest : ℕ → ConnUser → OverLappedManager → List Overlapped → List Bytes → Threads
at_rest n u m sent pushed = record {
  line = record {
    user = record u { send_queue = []; send_queue_size = 0 };
    manager = m;
    sent = sent;
    in_flight = 0;
    pushed = pushed;
  };
  pcs = idle ∷ idle ∷ replicate n idle;
}

-- On a connection at rest two threads push a message each. Then the following can happen: both messages are
-- in the queue, both threads have left `PushSendMsg`, nothing has been sent, and the connection is stuck.
pub pushed_at_once :
    (n : ℕ) (u : ConnUser) (m : OverLappedManager) (sent : List Overlapped) (pushed : List Bytes)
    (unset msg unset' msg' : Bytes) (size size' : ℕ)
    → (t : Threads) × Reach (at_rest n u m sent pushed) t
      × (payloads t.line.user.send_queue
          ≡ some (memcpy unset 0 msg 0 size) ∷ some (memcpy unset' 0 msg' 0 size') ∷ [])
      × (t.pcs ≡ idle ∷ idle ∷ replicate n idle)
      × (t.line.sent ≡ sent)
      × IsStuck t
unfolding begin_push advance
pushed_at_once n u m sent pushed unset msg unset' msg' size size' =
    let buffer : Bytes = memcpy unset 0 msg 0 size in
    let buffer' : Bytes = memcpy unset' 0 msg' 0 size' in
    let s₀ : Threads = at_rest n u m sent pushed in
    let (o, m₁) = send_object buffer m s₀.line.user in
    let (o', m₂) = send_object buffer' m₁ s₀.line.user in
    let s₁ : Threads = turn 0 (begin_push unset size msg s₀.line) s₀ in
    let s₂ : Threads = turn 1 (begin_push unset' size' msg' s₁.line) s₁ in
    let turns =
      (0, pushing o)
      ∷ (1, pushing o')
      ∷ (0, counting)
      ∷ (1, counting)
      ∷ (0, testing)
      ∷ (1, testing)
      ∷ [] in
    let s₃ : Threads = played turns s₂ in
    let stuck : IsStuck s₃ = record {
      quiet = refl;
      unsent = omega (arith, total-replicate moves n idle refl);
      many = omega arith;
      counted = omega (arith, total-replicate owes n idle refl);
      pushed = omega (
        arith,
        total-replicate offers n idle refl,
        length-append pushed (buffer ∷ []),
        length-append (pushed ++ buffer ∷ []) (buffer' ∷ []),
      );
    } in
    (
      s₃,
      Reach-played turns
          (next (next here (push 0 unset size msg refl)) (push 1 unset' size' msg' refl))
          (refl, (refl, (refl, (refl, (refl, (refl, tt)))))),
      rw (send_object-wsa_buf buffer m s₀.line.user, send_object-wsa_buf buffer' m₁ s₀.line.user)
          refl,
      refl,
      refl,
      stuck,
    )
