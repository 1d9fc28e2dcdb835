-- ===== src/ConnUser/Tests.antt =====
-- A connection at concrete states.
use outgame_lobby_server.Prelude.{ℕ, ◌≡◌, refl, [], ◌∷◌, some, true, arith}
use outgame_lobby_server.Overlapped.{Overlapped, heap, send}
use outgame_lobby_server.ConnUser.{
  ConnUser, push_send_msg, enqueue, send_if_single, proc_send, reset, member, insert_all, insert,
}
use outgame_lobby_server.ConnUser.Samples.{quiet_user, empty_pool}
use mathlib.Core.Quot
use outgame_lobby_server.ConnUser.Friends.{
  fill_with, add, remove, apply_calls, amends, distinct, friends, has, apply_calls_lem,
}
use outgame_lobby_server.ConnUser.Send.{
  Line, after_push, after_complete, here, next, push, complete,
}
use outgame_lobby_server.ConnUser.Send.Queue.{Inv, Reach-Inv}
use outgame_lobby_server.ConnUser.Send.Stall.{
  IsStalled, after_complete-IsStalled, after_complete-sends, Reach-IsStalled, push_send_msg-reset,
}

abbrev parcel : ℕ → Overlapped
parcel n = record {
  address = heap n;
  wsa_len = 1024;
  wsa_buf = some (n ∷ []);
  task_type = send;
  conn_obj_num = 0;
}

abbrev quiet_line : Line
quiet_line = record {
  user = quiet_user;
  manager = empty_pool;
  sent = [];
  in_flight = 0;
  pushed = [];
}

-- One send in flight, and one message waits.
abbrev single_line : Line
single_line = record quiet_line {
  user = record quiet_user { send_queue = parcel 1 ∷ []; send_queue_size = 2 };
  sent = parcel 0 ∷ [];
  in_flight = 1;
  pushed = (0 ∷ []) ∷ (1 ∷ []) ∷ [];
}

-- One send in flight, and two messages wait.
abbrev busy_line : Line
busy_line = record quiet_line {
  user = record quiet_user { send_queue = parcel 1 ∷ parcel 2 ∷ []; send_queue_size = 3 };
  sent = parcel 0 ∷ [];
  in_flight = 1;
  pushed = (0 ∷ []) ∷ (1 ∷ []) ∷ (2 ∷ []) ∷ [];
}

abbrev stalled_line : Line
stalled_line = record busy_line {
  user = record busy_line.user { send_queue_size = 2 };
  in_flight = 0;
}

quiet-Inv : Inv quiet_line
quiet-Inv = record {
  bounded = omega arith;
  counted = refl;
  single = omega arith;
  flown = omega arith;
  ordered = refl;
}

single-Inv : Inv single_line
single-Inv = record {
  bounded = omega arith;
  counted = refl;
  single = omega arith;
  flown = omega arith;
  ordered = refl;
}

busy-Inv : Inv busy_line
busy-Inv = record {
  bounded = omega arith;
  counted = refl;
  single = omega arith;
  flown = omega arith;
  ordered = refl;
}

stalled-Inv : Inv stalled_line
stalled-Inv = record {
  bounded = omega arith;
  counted = refl;
  single = omega arith;
  flown = omega arith;
  ordered = refl;
}

Reach-Inv_example : Inv (after_complete (after_push (0 ∷ []) 1 (7 ∷ []) quiet_line))
unfolding after_push after_complete push_send_msg enqueue send_if_single proc_send
Reach-Inv_example =
    Reach-Inv (next (next here (push (0 ∷ []) 1 (7 ∷ []) refl)) (complete (omega arith) refl))
      (omega arith) quiet-Inv

after_complete-IsStalled_example :
    IsStalled (after_complete busy_line) × ((after_complete busy_line).sent ≡ parcel 0 ∷ [])
after_complete-IsStalled_example = after_complete-IsStalled busy-Inv refl (omega arith)

after_complete-sends_example :
    ((after_complete single_line).sent ≡ parcel 0 ∷ parcel 1 ∷ [])
    × ((after_complete single_line).in_flight ≡ 1)
after_complete-sends_example = after_complete-sends single-Inv refl refl

Reach-IsStalled_example :
    IsStalled (after_push (0 ∷ []) 1 (7 ∷ []) stalled_line)
    × ((after_push (0 ∷ []) 1 (7 ∷ []) stalled_line).sent ≡ parcel 0 ∷ [])
unfolding after_push
Reach-IsStalled_example =
    Reach-IsStalled (next here (push (0 ∷ []) 1 (7 ∷ []) refl)) (omega arith) stalled-Inv
      (record { idle = refl; waiting = omega arith })

push_send_msg-reset_example :
    (push_send_msg
      (0 ∷ [])
      1
      (7 ∷ [])
      empty_pool
      (reset 6 (record quiet_user { send_queue_size = 1 })).0).2
    ≡ []
push_send_msg-reset_example =
    push_send_msg-reset (0 ∷ []) 1 (7 ∷ []) empty_pool (record quiet_user { send_queue_size = 1 }) 6
      (omega arith) (omega arith)

insert_all_test : insert_all (3 ∷ 4 ∷ 3 ∷ []) [] ≡ 3 ∷ 4 ∷ []
unfolding insert_all insert member
insert_all_test = refl

abbrev befriended_3_4 : ConnUser
befriended_3_4 = record quiet_user { friend_pks = 3 ∷ 4 ∷ [] }

abbrev befriended_4_3 : ConnUser
befriended_4_3 = record quiet_user { friend_pks = 4 ∷ 3 ∷ [] }

apply_calls_lem_example :
    (distinct
        (apply_calls (fill_with (5 ∷ 6 ∷ 5 ∷ []) ∷ add 7 ∷ remove 5 ∷ []) befriended_3_4).friend_pks
      ≡ true)
    × ((k : ℕ)
        → has
            (friends
              (apply_calls (fill_with (5 ∷ 6 ∷ 5 ∷ []) ∷ add 7 ∷ remove 5 ∷ []) befriended_3_4))
            k
          ≡ amends
              (fill_with (5 ∷ 6 ∷ 5 ∷ []) ∷ add 7 ∷ remove 5 ∷ [])
              (has (friends befriended_3_4))
              k)
unfolding member
apply_calls_lem_example =
    apply_calls_lem (fill_with (5 ∷ 6 ∷ 5 ∷ []) ∷ add 7 ∷ remove 5 ∷ []) befriended_3_4 refl

same_friends : friends befriended_3_4 ≡ friends befriended_4_3
unfolding friends member
same_friends = Quot.sound (λ k. ground arith)
