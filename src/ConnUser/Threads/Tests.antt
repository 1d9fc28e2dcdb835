-- ===== src/ConnUser/Threads/Tests.antt =====
-- Threads at a concrete connection.
use outgame_lobby_server.Prelude.{◌≡◌, refl, [], ◌∷◌, some, codes, arith, memcpy}
use outgame_lobby_server.ConnUser.{send_object}
use outgame_lobby_server.ConnUser.Samples.{quiet_user, empty_pool}
use outgame_lobby_server.ConnUser.Send.{after_push, after_complete}
use outgame_lobby_server.ConnUser.Send.Queue.{payloads}
use outgame_lobby_server.ConnUser.Threads.{
  Threads, idle, turn, begin_push, begin_complete, Reach, here, next, push,
}
use outgame_lobby_server.ConnUser.Threads.Alone.{run, alone}
use outgame_lobby_server.ConnUser.Threads.Conserve.{Conserves, Reach-Conserves}
use outgame_lobby_server.ConnUser.Threads.Stuck.{IsStuck, Reach-IsStuck}
use outgame_lobby_server.Overlapped.{Overlapped}
use outgame_lobby_server.ConnUser.Threads.Order.{flying, sent_out_of_order}
use outgame_lobby_server.ConnUser.Threads.Race.{at_rest, pushed_at_once}

abbrev rest : Threads
rest = at_rest 0 quiet_user empty_pool [] []

-- Thread 1 is in the middle of `PushSendMsg`.
abbrev midway : Threads
midway = turn 1 (begin_push [] 2 (codes "hi") rest.line) rest

rest-Conserves : Conserves rest
rest-Conserves = record { kept = λ g. refl; counted = refl }

Reach-Conserves_example : Conserves midway
Reach-Conserves_example = Reach-Conserves rest-Conserves (next here (push 1 [] 2 (codes "hi") refl))

alone_example :
    (run 5 (begin_push [] 2 (codes "hi") rest.line)
      ≡ (idle, after_push [] 2 (codes "hi") rest.line))
    × (run 4 (begin_complete rest.line) ≡ (idle, after_complete rest.line))
alone_example = alone rest.line [] 2 (codes "hi")

pushed_at_once_example :
    (t : Threads) × Reach rest t
    × (payloads t.line.user.send_queue ≡ some (codes "a") ∷ some (codes "b") ∷ [])
    × (t.pcs ≡ idle ∷ idle ∷ [])
    × (t.line.sent ≡ [])
    × IsStuck t
unfolding memcpy
pushed_at_once_example =
    pushed_at_once 0 quiet_user empty_pool [] [] (0 ∷ []) (codes "a") (0 ∷ []) (codes "b") 1 1

-- Two messages of a connection wait, nothing is in flight, and no thread sends.
abbrev stuck : Threads
stuck = record {
  line = record {
    user = record quiet_user {
      send_queue =
          (send_object (codes "a") empty_pool quiet_user).0
          ∷ (send_object (codes "b") empty_pool quiet_user).0
          ∷ [];
      send_queue_size = 2;
    };
    manager = empty_pool;
    sent = [];
    in_flight = 0;
    pushed = codes "a" ∷ codes "b" ∷ [];
  };
  pcs = idle ∷ idle ∷ [];
}

-- A third message is pushed.
abbrev stuck_later : Threads
stuck_later = turn 0 (begin_push [] 2 (codes "hi") stuck.line) stuck

stuck-IsStuck : IsStuck stuck
stuck-IsStuck = record {
  quiet = refl;
  unsent = refl;
  many = omega arith;
  counted = refl;
  pushed = omega arith;
}

Reach-IsStuck_example : IsStuck stuck_later × (stuck_later.line.sent ≡ [])
unfolding begin_push
Reach-IsStuck_example =
    Reach-IsStuck stuck-IsStuck (next here (push 0 [] 2 (codes "hi") refl)) (omega arith)

sent_out_of_order_example :
    (t : Threads) × (o : Overlapped) × (o' : Overlapped) × Reach
      (flying 0 quiet_user empty_pool [] [])
      t
    × (t.line.pushed ≡ codes "a" ∷ codes "b" ∷ [])
    × (o.wsa_buf ≡ some (codes "a"))
    × (o'.wsa_buf ≡ some (codes "b"))
    × (t.line.sent ≡ o' ∷ o ∷ [])
    × (t.line.in_flight ≡ 2)
    × (t.pcs ≡ idle ∷ idle ∷ idle ∷ [])
unfolding memcpy
sent_out_of_order_example =
    sent_out_of_order 0 quiet_user empty_pool [] [] (0 ∷ []) (codes "a") (0 ∷ []) (codes "b") 1 1
