-- ===== src/ConnUser/Threads/Order.antt =====
-- A completion and two pushes at once.
use outgame_lobby_server.Prelude.{
  ℕ, ◌≡◌, refl, List, [], ◌∷◌, ◌++◌, some, Bytes, memcpy, replicate, arith,
}
use outgame_lobby_server.Overlapped.{Overlapped, OverLappedManager}
use outgame_lobby_server.ConnUser.{ConnUser, send_object}
use outgame_lobby_server.ConnUser.Send.Queue.{send_object-wsa_buf}
use outgame_lobby_server.ConnUser.Threads.Plays.{played, Reach-played}
use outgame_lobby_server.ConnUser.Threads.{
  idle, counting, uncounting, testing, popping, pushing, sending, begin_push, begin_complete,
  advance, pop_front, Threads, turn, push, complete, Reach, here, next,
}

-- `n + 3` threads outside both functions, one send in flight, and no message that waits.
abbrev pub flying : ℕ → ConnUser → OverLappedManager → List Overlapped → List Bytes → Threads
flying n u m sent pushed = record {
  line = record {
    user = record u { send_queue = []; send_queue_size = 1 };
    manager = m;
    sent = sent;
    in_flight = 1;
    pushed = pushed;
  };
  pcs = idle ∷ idle ∷ idle ∷ replicate n idle;
}

-- The send in flight completes while two threads push a message each. Then the following can happen: all three
-- threads are through, the second message was sent before the first, and both are in flight at once.
pub sent_out_of_order :
    (n : ℕ) (u : ConnUser) (m : OverLappedManager) (sent : List Overlapped) (pushed : List Bytes)
    (unset msg unset' msg' : Bytes) (size size' : ℕ)
    → (t : Threads) × (o : Overlapped) × (o' : Overlapped) × Reach (flying n u m sent pushed) t
      × (t.line.pushed
          ≡ (pushed ++ memcpy unset 0 msg 0 size ∷ []) ++ memcpy unset' 0 msg' 0 size' ∷ [])
      × (o.wsa_buf ≡ some (memcpy unset 0 msg 0 size))
      × (o'.wsa_buf ≡ some (memcpy unset' 0 msg' 0 size'))
      × (t.line.sent ≡ (sent ++ o' ∷ []) ++ o ∷ [])
      × (t.line.in_flight ≡ 2)
      × (t.pcs ≡ idle ∷ idle ∷ idle ∷ replicate n idle)
unfolding begin_push begin_complete advance pop_front
sent_out_of_order n u m sent pushed unset msg unset' msg' size size' =
    let s₀ : Threads = flying n u m sent pushed in
    let s₁ : Threads = played ((0, uncounting) ∷ []) (turn 0 (begin_complete s₀.line) s₀) in
    let o : Overlapped = (send_object (memcpy unset 0 msg 0 size) m s₁.line.user).0 in
    let s₂ : Threads = turn 1 (begin_push unset size msg s₁.line) s₁ in
    let both_test = (1, pushing o) ∷ (1, counting) ∷ (0, testing) ∷ (1, testing) ∷ [] in
    let s₃ : Threads = played both_test s₂ in
    let o' : Overlapped =
      (send_object (memcpy unset' 0 msg' 0 size') s₃.line.manager s₃.line.user).0 in
    let s₄ : Threads = turn 2 (begin_push unset' size' msg' s₃.line) s₃ in
    let both_send =
      (2, pushing o')
      ∷ (0, popping)
      ∷ (1, popping)
      ∷ (1, sending o')
      ∷ (0, sending o)
      ∷ (2, counting)
      ∷ (2, testing)
      ∷ [] in
    let r₁ =
      Reach-played ((0, uncounting) ∷ []) (next here (complete 0 refl (omega arith))) (refl, tt) in
    let r₃ =
      Reach-played both_test (next r₁ (push 1 unset size msg refl))
        (refl, (refl, (refl, (refl, tt)))) in
    (
      played both_send s₄,
      o,
      o',
      Reach-played both_send (next r₃ (push 2 unset' size' msg' refl))
          (refl, (refl, (refl, (refl, (refl, (refl, (refl, tt))))))),
      refl,
      send_object-wsa_buf (memcpy unset 0 msg 0 size) m s₁.line.user,
      send_object-wsa_buf (memcpy unset' 0 msg' 0 size') s₃.line.manager s₃.line.user,
      refl,
      refl,
      refl,
    )
