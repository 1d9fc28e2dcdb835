-- ===== src/ConnUser/Send/Stall.antt =====
-- `SendComplete` sends the next message only if exactly one is left.
use outgame_lobby_server.Prelude.{
  ℕ, ◌+◌, ◌^◌, ◌≤◌, ◌<◌, ◌≡◌, refl, ap, ◌∙◌, List, [], ◌∷◌, ◌++◌, append-nil, Bytes, length, memcpy,
  ◌≢◌, length-append, arith, sub16, add16,
}
use outgame_lobby_server.Overlapped.{Overlapped, OverLappedManager}
use outgame_lobby_server.ConnUser.{
  ConnUser, push_send_msg, send_complete, send_object, enqueue, send_if_single, Request, reset,
}
use outgame_lobby_server.ConnUser.Send.{
  Line, sends_of, after_push, after_complete, Step, push, complete, Reach, here, next,
}
use outgame_lobby_server.ConnUser.Send.Queue.{
  Inv, Inv-total, Kicked, send_if_single-Kicked, Reach-Inv, pushed-Step, pushed-after_push,
}

-- Messages wait, and no send is in flight whose completion could start the next.
pub record IsStalled (s : Line) : Type 0 where
  pub idle : s.in_flight ≡ 0
  pub waiting : 2 ≤ length s.user.send_queue

nil_of_length : (os : List Overlapped) → length os ≡ 0 → os ≡ []
nil_of_length [] e = refl
nil_of_length (o ∷ os) e = absurd (omega arith)

Kicked-quiet :
    {u : ConnUser} {r : ConnUser × List Request}
    → Kicked u r
    → u.send_queue_size ≢ 1
    → (sends_of r.1 ≡ []) × (r.0.send_queue ≡ u.send_queue)
Kicked-quiet {r} k many =
    let e : sends_of r.1 ≡ [] = nil_of_length (sends_of r.1) (ground (arith, k.amount)) in
    (e, rw e at k.order)

Kicked-sends :
    {u : ConnUser} {r : ConnUser × List Request}
    → Kicked u r
    → u.send_queue_size ≡ 1
    → length u.send_queue ≡ 1
    → (sends_of r.1 ≡ u.send_queue) × (r.0.send_queue ≡ [])
Kicked-sends {u} {r} k one single =
    let e : r.0.send_queue ≡ [] =
      nil_of_length r.0.send_queue (
        ground (arith, k.amount, ap length k.order, length-append (sends_of r.1) r.0.send_queue)) in
    (rw (e, append-nil) at k.order, e)

-- The first send completes while at least two messages wait: nothing is sent, and the line is stalled.
pub after_complete-IsStalled :
    {s : Line}
    → Inv s
    → s.in_flight ≡ 1
    → 2 ≤ length s.user.send_queue
    → IsStalled (after_complete s) × ((after_complete s).sent ≡ s.sent)
unfolding after_complete send_complete
after_complete-IsStalled {s} v one two =
    let u : ConnUser = record s.user { send_queue_size = sub16 s.user.send_queue_size 1 } in
    let (quiet, kept) =
      Kicked-quiet (send_if_single-Kicked u) (omega (arith, v.counted, Inv-total v)) in
    (record { idle = rw quiet (omega arith); waiting = rw kept two }, rw quiet (append-nil s.sent))

-- The first send completes while exactly one message waits: it is sent.
pub after_complete-sends :
    {s : Line}
    → Inv s
    → s.in_flight ≡ 1
    → length s.user.send_queue ≡ 1
    → ((after_complete s).sent ≡ s.sent ++ s.user.send_queue) × ((after_complete s).in_flight ≡ 1)
unfolding after_complete send_complete
after_complete-sends {s} v one single =
    let u : ConnUser = record s.user { send_queue_size = sub16 s.user.send_queue_size 1 } in
    let (sends, none_left) =
      Kicked-sends (send_if_single-Kicked u) (omega (arith, v.counted)) single in
    (rw sends, rw sends (omega arith))

after_push-IsStalled :
    (unset : Bytes) (size : ℕ) (msg : Bytes) {s : Line}
    → length s.pushed + 1 < 2 ^ 16
    → Inv s
    → IsStalled s
    → IsStalled (after_push unset size msg s) × ((after_push unset size msg s).sent ≡ s.sent)
unfolding after_push push_send_msg enqueue
after_push-IsStalled unset size msg {s} room v st =
    let o : Overlapped = (send_object (memcpy unset 0 msg 0 size) s.manager s.user).0 in
    let u : ConnUser = record s.user {
      send_queue = s.user.send_queue ++ o ∷ [];
      send_queue_size = add16 s.user.send_queue_size 1;
    } in
    let (quiet, kept) =
      Kicked-quiet (send_if_single-Kicked u) (omega (arith, v.counted, Inv-total v)) in
    (
      record {
        idle = rw quiet (omega arith);
        waiting = rw kept (omega (arith, length-append s.user.send_queue (o ∷ [])));
      },
      rw quiet (append-nil s.sent),
    )

Step-IsStalled :
    {s t : Line}
    → Step s t
    → length t.pushed < 2 ^ 16
    → Inv s
    → IsStalled s
    → IsStalled t × (t.sent ≡ s.sent)
Step-IsStalled {s} (push unset size msg e) room v st = rw e (
    after_push-IsStalled unset size msg
      (omega (arith, ap (λ (r : Line). length r.pushed) e, pushed-after_push unset size msg s)) v
      st)
Step-IsStalled (complete flying e) room v st = absurd (omega arith)

-- A stalled line that carries fewer than 2^16 messages sends nothing more, whatever is pushed to it.
pub Reach-IsStalled :
    {s t : Line}
    → Reach s t
    → length t.pushed < 2 ^ 16
    → Inv s
    → IsStalled s
    → IsStalled t × (t.sent ≡ s.sent)
Reach-IsStalled here room v st = (st, refl)
Reach-IsStalled (next {t = u} r step) room v st =
    let small : length u.pushed < 2 ^ 16 = omega (arith, pushed-Step step) in
    let (stalled, same) = Reach-IsStalled r small v st in
    let (stalled', same') = Step-IsStalled step room (Reach-Inv r small v) stalled in
    (stalled', same' ∙ same)

-- `Reset` keeps the count of a send that was in flight: the next connection of the object gets no
-- send started by its messages.
pub push_send_msg-reset :
    (unset : Bytes) (size : ℕ) (msg : Bytes) (m : OverLappedManager) (u : ConnUser) (socket : ℕ)
    → 0 < u.send_queue_size
    → u.send_queue_size + 1 < 2 ^ 16
    → (push_send_msg unset size msg m (reset socket u).0).2 ≡ []
unfolding push_send_msg enqueue reset send_if_single
push_send_msg-reset unset size msg m u socket pos room = ground arith
