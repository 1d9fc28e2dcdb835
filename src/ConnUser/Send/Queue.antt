-- ===== src/ConnUser/Send/Queue.antt =====
-- Order and count: messages leave in the order in which they were pushed, one at a time.
use outgame_lobby_server.Prelude.{
  ℕ, suc, ◌+◌, ◌-◌, ◌^◌, ◌≤◌, ◌<◌, ◌≡◌, refl, ap, inl, inr, List, [], ◌∷◌, ◌++◌, map, append_assoc,
  Option, some, Bytes, memcpy, length, length-append, arith, Option-cases, Bool-cases, ==_iff,
  add16, sub16, ltb, ◌==◌, ◌&&◌, if◌then◌else◌, sym,
}
use mathlib.Core.List.{map-append}
use outgame_lobby_server.Overlapped.{Overlapped, OverLappedManager, get_ov_lap}
use outgame_lobby_server.ConnUser.{
  ConnUser, push_send_msg, send_complete, send_object, enqueue, send_if_single, proc_send,
  send_front, Request,
}
use outgame_lobby_server.ConnUser.Send.{
  Line, sends_of, after_push, after_complete, Step, push, complete, Reach, here, next,
}

abbrev pub payloads : List Overlapped → List (Option Bytes)
payloads = map (λ o. o.wsa_buf)

abbrev pub pushes : List Bytes → List (Option Bytes)
pushes = map some

pub record Inv (s : Line) : Type 0 where
  pub bounded : length s.pushed < 2 ^ 16
  pub counted : s.user.send_queue_size ≡ s.in_flight + length s.user.send_queue
  pub single : s.in_flight ≤ 1
  pub flown : s.in_flight ≤ length s.sent
  pub ordered : payloads (s.sent ++ s.user.send_queue) ≡ pushes s.pushed

pub send_object-wsa_buf :
    (buffer : Bytes) (m : OverLappedManager) (u : ConnUser)
    → (send_object buffer m u).0.wsa_buf ≡ some buffer
unfolding send_object
send_object-wsa_buf buffer m u = elim (Option-cases (get_ov_lap m).0) [
  | inl e ↦ rw (e, send_object)
  | inr (o, e) ↦ rw (e, send_object)
]

-- What the test at the end of both operations does: it sends the front of the queue if the count is 1.
pub record Kicked (u : ConnUser) (r : ConnUser × List Request) : Type 0 where
  pub order : sends_of r.1 ++ r.0.send_queue ≡ u.send_queue
  pub size : r.0.send_queue_size ≡ u.send_queue_size
  pub amount :
      length (sends_of r.1)
      ≡ (if u.send_queue_size == 1 && ltb 0 (length u.send_queue) then 1 else 0)

send_front-Kicked :
    (q : List Overlapped) (u : ConnUser)
    → u.send_queue ≡ q
    → u.send_queue_size ≡ 1
    → Kicked u (send_front q u)
unfolding send_front
send_front-Kicked [] u e one = record { order = refl; size = refl; amount = rw (e, one) }
send_front-Kicked (o ∷ q) u e one = record {
  order = sym e;
  size = refl;
  amount = rw (e, one) (ground arith);
}

pub send_if_single-Kicked : (u : ConnUser) → Kicked u (send_if_single u)
unfolding send_if_single proc_send
send_if_single-Kicked u = elim (Bool-cases (u.send_queue_size == 1)) [
  | inl e ↦ rw e (send_front-Kicked u.send_queue u refl ((==_iff _ 1).0 e))
  | inr e ↦ rw e (record { order = refl; size = refl; amount = rw e })
]

length-payloads : (os : List Overlapped) → length (payloads os) ≡ length os
length-payloads [] = refl
length-payloads (o ∷ os) = ap suc (length-payloads os)

length-pushes : (bs : List Bytes) → length (pushes bs) ≡ length bs
length-pushes [] = refl
length-pushes (b ∷ bs) = ap suc (length-pushes bs)

-- What was pushed has been sent or waits.
pub Inv-total : {s : Line} → Inv s → length s.sent + length s.user.send_queue ≡ length s.pushed
Inv-total {s} v = omega (
  arith,
  ap length v.ordered,
  length-payloads (s.sent ++ s.user.send_queue),
  length-pushes s.pushed,
  length-append s.sent s.user.send_queue,
)

-- The line after the test at the end of an operation.
abbrev pub kick : Line → ConnUser × List Request → Line
kick s r = record s {
  user = r.0;
  sent = s.sent ++ sends_of r.1;
  in_flight = s.in_flight + length (sends_of r.1);
}

kick-Inv : {s : Line} → Inv s → (r : ConnUser × List Request) → Kicked s.user r → Inv (kick s r)
kick-Inv {s} v r k =
    let total : length (sends_of r.1) + length r.0.send_queue ≡ length s.user.send_queue =
      omega (arith, ap length k.order, length-append (sends_of r.1) r.0.send_queue) in
    record {
      bounded = v.bounded;
      counted = rw k.size (omega (arith, total, v.counted));
      single = ground (arith, k.amount, v.counted);
      flown = omega (arith, length-append s.sent (sends_of r.1));
      ordered = rw (append_assoc, k.order) v.ordered;
    }

-- The steps keep the invariant.
after_complete-Inv : {s : Line} → 0 < s.in_flight → Inv s → Inv (after_complete s)
unfolding after_complete send_complete
after_complete-Inv {s} flying v = kick-Inv before (send_if_single u) (send_if_single-Kicked u)
  where
    u : ConnUser
    u = record s.user { send_queue_size = sub16 s.user.send_queue_size 1 }

    before : Inv (record s { user = u; in_flight = s.in_flight - 1 })
    before = record {
      bounded = v.bounded;
      counted = omega (arith, Inv-total v);
      single = omega arith;
      flown = omega arith;
      ordered = v.ordered;
    }

after_push-Inv :
    (unset : Bytes) (size : ℕ) (msg : Bytes) {s : Line}
    → length s.pushed + 1 < 2 ^ 16
    → Inv s
    → Inv (after_push unset size msg s)
unfolding after_push push_send_msg enqueue
after_push-Inv unset size msg {s} room v =
    kick-Inv before (send_if_single u) (send_if_single-Kicked u)
  where
    buffer : Bytes
    buffer = memcpy unset 0 msg 0 size

    o : Overlapped
    o = (send_object buffer s.manager s.user).0

    u : ConnUser
    u = record s.user {
      send_queue = s.user.send_queue ++ o ∷ [];
      send_queue_size = add16 s.user.send_queue_size 1;
    }

    before : Inv (record s {
      user = u;
      manager = (send_object buffer s.manager s.user).1;
      pushed = s.pushed ++ buffer ∷ [];
    })
    before = record {
      bounded = omega (arith, length-append s.pushed (buffer ∷ []));
      counted = omega (arith, Inv-total v, length-append s.user.send_queue (o ∷ []));
      single = v.single;
      flown = v.flown;
      ordered = rw (
        ← append_assoc s.sent s.user.send_queue (o ∷ []),
        map-append (λ (p : Overlapped). p.wsa_buf) (s.sent ++ s.user.send_queue) (o ∷ []),
        v.ordered,
        map-append {B = Option Bytes} some s.pushed (buffer ∷ []),
        send_object-wsa_buf buffer s.manager s.user,
      );
    }

pub pushed-after_push :
    (unset : Bytes) (size : ℕ) (msg : Bytes) (s : Line)
    → length (after_push unset size msg s).pushed ≡ length s.pushed + 1
unfolding after_push
pushed-after_push unset size msg s = length-append s.pushed _

pushed-after_complete : (s : Line) → length (after_complete s).pushed ≡ length s.pushed
unfolding after_complete
pushed-after_complete s = refl

pub Step-Inv : {s t : Line} → Step s t → length t.pushed < 2 ^ 16 → Inv s → Inv t
Step-Inv {s} (push unset size msg e) room v = rw e (
    after_push-Inv unset size msg
      (omega (arith, ap (λ (r : Line). length r.pushed) e, pushed-after_push unset size msg s)) v)
Step-Inv (complete flying e) room v = rw e (after_complete-Inv flying v)

pub pushed-Step : {s t : Line} → Step s t → length s.pushed ≤ length t.pushed
pushed-Step {s} (push unset size msg e) =
    omega (arith, ap (λ (r : Line). length r.pushed) e, pushed-after_push unset size msg s)
pushed-Step (complete flying e) =
    omega (arith, ap (λ (r : Line). length r.pushed) e, pushed-after_complete _)

-- The calls of `PushSendMsg` and `SendComplete` on one connection run whole, one after another, in any order in
-- which each completion has its send. From a line where it holds, and while fewer than 2^16 messages
-- were pushed: `sendQueueSize` counts the sends in flight and
-- the queue, at most one send is in flight, and what was sent, then what waits, is what was pushed.
pub Reach-Inv : {s t : Line} → Reach s t → length t.pushed < 2 ^ 16 → Inv s → Inv t
Reach-Inv here room v = v
Reach-Inv (next r st) room v = Step-Inv st room (Reach-Inv r (omega (arith, pushed-Step st)) v)
