-- ===== src/Heartbeat/Tests.antt =====
-- The heartbeat over a store with one key.
use outgame_lobby_server.Prelude.{
  ℕ, ◌-◌, ◌≤◌, ◌≡◌, refl, Bool, true, false, List, [], ◌∷◌, Bytes, codes, arith, inl, inr,
}
use outgame_lobby_server.Text.Decimal.{to_string}
use outgame_lobby_server.Redis.Client.{Reply, answered, failed}
use outgame_lobby_server.Heartbeat.{
  Client, LobbyHeartbeat, create, start, on_user_disconnected, int_to_string, connected,
  disconnected, stopped, Round, going, ended, status_key, heartbeat_loop, rounds, beats,
  after_round, beat, changes, change, on_user_connected,
}
use outgame_lobby_server.Heartbeat.Stop.{heartbeat_loop-ended, stops}
use outgame_lobby_server.Heartbeat.Alive.{Expires, IsSteady, heartbeat_loop-alive}

-- How long the key has to live, what it holds, and which commands are answered, the next one first.
record Timed : Type 0 where
  pub left : ℕ
  pub value : Bytes
  pub answers : List Bool

abbrev set_timed : List Bool → Bytes → ℕ → Timed → Reply (Unit {0}) × Timed
set_timed [] value seconds t = (answered tt, record t { left = seconds; value = value })
set_timed (true ∷ bs) value seconds t =
    (answered tt, record { left = seconds; value = value; answers = bs })
set_timed (false ∷ bs) value seconds t = (failed, record t { answers = bs })

abbrev timed_client : Client
timed_client = record {
  Store = Timed;
  set = λ key value seconds t. set_timed t.answers value seconds t;
  del = λ key t. (answered tt, record t { left = 0 });
  pass = λ seconds t. record t { left = t.left - seconds };
}

timed_client-Expires : Expires timed_client (λ key t. t.left)
timed_client-Expires = record {
  set-answered = λ key value seconds t e. answered_left t.answers value seconds t e;
  set-failed = λ key value seconds t e. inl (failed_left t.answers value seconds t e);
  ttl-pass = λ key seconds t. refl;
}
  where
    answered_left :
        (bs : List Bool) (value : Bytes) (seconds : ℕ) (t : Timed)
        → (set_timed bs value seconds t).0 ≡ answered tt
        → (set_timed bs value seconds t).1.left ≡ seconds
    answered_left [] value seconds t e = refl
    answered_left (true ∷ bs) value seconds t e = refl
    answered_left (false ∷ bs) value seconds t e = absurd (ground (arith, e))

    failed_left :
        (bs : List Bool) (value : Bytes) (seconds : ℕ) (t : Timed)
        → (set_timed bs value seconds t).0 ≡ failed
        → (set_timed bs value seconds t).1.left ≡ t.left
    failed_left [] value seconds t e = absurd (ground (arith, e))
    failed_left (true ∷ bs) value seconds t e = absurd (ground (arith, e))
    failed_left (false ∷ bs) value seconds t e = refl

-- Nothing is stored yet, and the second command will fail.
abbrev flaky : Timed
flaky = record { left = 0; value = []; answers = true ∷ false ∷ [] }

abbrev beating : LobbyHeartbeat
beating = start (create 1)

abbrev arrival : Round
arrival = record { seconds = 5; events = connected ∷ connected ∷ disconnected ∷ [] }

abbrev quiet : Round
quiet = record { seconds = 6; events = [] }

abbrev last_round : Round
last_round = record { seconds = 5; events = stopped ∷ [] }

negative_test : int_to_string (on_user_disconnected (create 1)).user_count ≡ codes "-1"
unfolding int_to_string on_user_disconnected to_string
negative_test = refl

key_test : status_key beating ≡ codes "lobby:1:status"
unfolding status_key int_to_string to_string
key_test = refl

heartbeat_loop-ended_example :
    heartbeat_loop timed_client (arrival ∷ last_round ∷ quiet ∷ []) beating flaky
    ≡ ended
        (record { server_id = 1; running = false; user_count = 1 })
        (record { left = 0; value = codes "0"; answers = [] })
unfolding heartbeat_loop rounds beats after_round beat changes change on_user_connected
    on_user_disconnected int_to_string to_string status_key stops
heartbeat_loop-ended_example =
    heartbeat_loop-ended timed_client (arrival ∷ []) last_round (quiet ∷ []) beating flaky refl
      (refl, tt) refl

heartbeat_loop-alive_example :
    (h : LobbyHeartbeat) × (t : Timed) × (heartbeat_loop timed_client
        (arrival ∷ quiet ∷ [])
        beating
        flaky
      ≡ going h t)
    × (1 ≤ t.left)
unfolding IsSteady after_round beat stops
heartbeat_loop-alive_example =
    heartbeat_loop-alive timed_client (λ key t. t.left) timed_client-Expires arrival (quiet ∷ [])
      beating flaky refl (refl, (refl, tt)) (omega arith, (omega arith, tt))
      (inl (refl, inr (refl, refl, tt)))
