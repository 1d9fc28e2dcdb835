-- ===== src/Heartbeat/Stop.antt =====
-- `Stop` and the end of `HeartbeatLoop`.
use outgame_lobby_server.Prelude.{
  ◌≡◌, refl, Bool, true, false, List, [], ◌∷◌, ◌++◌, Bytes, arith, All, ◌∙◌, ◌&&◌, not,
}
use outgame_lobby_server.Heartbeat.{
  Client, LobbyHeartbeat, Change, connected, disconnected, stopped, change, changes, Round, going,
  ended, status_key, after_round, beats, rounds, heartbeat_loop, on_user_connected,
  on_user_disconnected, stop,
}

-- `Stop` is among the events.
unfoldable pub stops : List Change → Bool
stops [] = false
stops (connected ∷ cs) = stops cs
stops (disconnected ∷ cs) = stops cs
stops (stopped ∷ cs) = true

pub changes-running :
    (h : LobbyHeartbeat) (cs : List Change) → (changes h cs).running ≡ h.running && not (stops cs)
unfolding changes change stops on_user_connected on_user_disconnected
changes-running h [] = ground arith
changes-running h (connected ∷ cs) = changes-running (on_user_connected h) cs
changes-running h (disconnected ∷ cs) = changes-running (on_user_disconnected h) cs
changes-running h (stopped ∷ cs) = changes-running (stop h) cs ∙ ground arith

module _ (client : Client) where
  open client use {Store}

  pub rounds-going :
      (key : Bytes) (calm : List Round) (h : LobbyHeartbeat) (s : Store)
      → h.running ≡ true
      → All (λ r. stops r.events ≡ false) calm
      → rounds client key calm h s
        ≡ going (beats client key calm h s).0 (beats client key calm h s).1
  unfolding rounds beats after_round
  rounds-going key [] h s on all = rw on refl
  rounds-going key (r ∷ calm) h s on all = simp on (
      rounds-going key calm (changes h r.events) _
        (ground (arith, changes-running h r.events, all.0)) all.1)

  rounds-off :
      (key : Bytes) (rs : List Round) (h : LobbyHeartbeat) (s : Store)
      → h.running ≡ false
      → rounds client key rs h s ≡ ended h (client.del key s).1
  unfolding rounds
  rounds-off key [] h s off = rw off refl
  rounds-off key (r ∷ rs) h s off = rw off refl

  rounds-ended :
      (key : Bytes) (calm : List Round) (last : Round) (later : List Round) (h : LobbyHeartbeat)
      (s : Store)
      → h.running ≡ true
      → All (λ r. stops r.events ≡ false) calm
      → stops last.events ≡ true
      → let (h', s') = beats client key (calm ++ last ∷ []) h s in
        rounds client key (calm ++ last ∷ later) h s ≡ ended h' (client.del key s').1
  unfolding rounds beats after_round
  rounds-ended key [] last later h s on all off = simp on (
      rounds-off key later (changes h last.events) _
        (ground (arith, changes-running h last.events)))
  rounds-ended key (r ∷ calm) last later h s on all off = simp on (
      rounds-ended key calm last later (changes h r.events) _
        (ground (arith, changes-running h r.events, all.0)) all.1 off)

  -- Whatever Redis answers: if nobody calls `Stop` in the first rounds of a loop that runs, and somebody in
  -- the round after them, the loop ends with that round; `DEL` is its last command.
  pub heartbeat_loop-ended :
      (calm : List Round) (last : Round) (later : List Round) (h : LobbyHeartbeat) (s : Store)
      → h.running ≡ true
      → All (λ r. stops r.events ≡ false) calm
      → stops last.events ≡ true
      → let key = status_key h in
        let (h', s') = beats client key (calm ++ last ∷ []) h s in
        heartbeat_loop client (calm ++ last ∷ later) h s ≡ ended h' (client.del key s').1
  unfolding heartbeat_loop
  heartbeat_loop-ended calm last later h s on all off =
      rounds-ended (status_key h) calm last later h s on all off
