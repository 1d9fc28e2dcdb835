-- ===== src/Heartbeat.antt =====
-- LobbyHeartbeat.h, LobbyHeartbeat.cpp: the thread that keeps a key of Redis alive while the server
-- runs, with the number of users as its value.
pub mod Alive
pub mod Stop
mod Tests
use outgame_lobby_server.Prelude.{
  ℕ, ◌+◌, ◌-◌, Bool, true, false, List, [], ◌∷◌, ◌++◌, Bytes, codes, ltb, if◌then◌else◌, add32,
  sub32, u32_mod,
}
use outgame_lobby_server.Text.Decimal.{to_string}
use outgame_lobby_server.Redis.Client.{Reply}

abbrev pub interval_sec : ℕ
interval_sec = 5

abbrev pub ttl_sec : ℕ
ttl_sec = 15

-- What the thread uses of redis++, and the time that passes while it sleeps.
pub record Client : Type 1 where
  pub Store : Type 0
  pub set : (key value : Bytes) (seconds : ℕ) → Store → Reply (Unit {0}) × Store
  pub del : (key : Bytes) → Store → Reply (Unit {0}) × Store
  pub pass : (seconds : ℕ) → Store → Store

-- `class LobbyHeartbeat`; `user_count` and `server_id` are the 32-bit patterns of an `int`.
pub record LobbyHeartbeat : Type 0 where
  pub server_id : ℕ
  pub running : Bool
  pub user_count : ℕ

abbrev pub create : ℕ → LobbyHeartbeat
create server_id = record { server_id = server_id; running = false; user_count = 0 }

-- `Start` and `Stop`, without the thread itself.
abbrev pub start : LobbyHeartbeat → LobbyHeartbeat
start h = record h { running = true }

abbrev pub stop : LobbyHeartbeat → LobbyHeartbeat
stop h = record h { running = false }

unfoldable pub on_user_connected : LobbyHeartbeat → LobbyHeartbeat
on_user_connected h = record h { user_count = add32 h.user_count 1 }

unfoldable pub on_user_disconnected : LobbyHeartbeat → LobbyHeartbeat
on_user_disconnected h = record h { user_count = sub32 h.user_count 1 }

-- `std::to_string(int)`
unfoldable pub int_to_string : ℕ → Bytes
int_to_string n = if ltb n 0x80000000 then to_string n else b'-' ∷ to_string (u32_mod - n)

-- What other threads do while this one sleeps.
pub data Change : Type 0 where
  connected disconnected stopped : Change

unfoldable pub change : LobbyHeartbeat → Change → LobbyHeartbeat
unfolding on_user_connected on_user_disconnected
change h connected = on_user_connected h
change h disconnected = on_user_disconnected h
change h stopped = stop h

unfoldable pub changes : LobbyHeartbeat → List Change → LobbyHeartbeat
changes h [] = h
changes h (c ∷ cs) = changes (change h c) cs

-- A round of the loop: how long it took, and what happened in the mean time.
pub record Round : Type 0 where
  pub seconds : ℕ
  pub events : List Change

-- The loop has gone through all rounds, or has left before.
pub data Loop (S : Type 0) : Type 0 where
  going ended : LobbyHeartbeat → S → Loop S

unfoldable pub status_key : LobbyHeartbeat → Bytes
unfolding int_to_string
status_key h = codes "lobby:" ++ int_to_string h.server_id ++ codes ":status"

module _ (client : Client) where
  open client use {Store}

  -- `redis.set` of the round. A failure is caught.
  unfoldable pub beat : Bytes → LobbyHeartbeat → Store → Reply (Unit {0}) × Store
  unfolding int_to_string
  beat key h s = client.set key (int_to_string h.user_count) ttl_sec s

  unfoldable pub after_round : Bytes → Round → LobbyHeartbeat → Store → LobbyHeartbeat × Store
  unfolding beat changes change
  after_round key r h s = (changes h r.events, client.pass r.seconds (beat key h s).1)

  -- `while (running)`, and the `DEL` behind it, whose failure is caught.
  unfoldable pub rounds : Bytes → List Round → LobbyHeartbeat → Store → Loop Store
  unfolding after_round
  rounds key [] h s = if h.running then going h s else ended h (client.del key s).1
  rounds key (r ∷ rs) h s =
      let (h', s') = after_round key r h s in
      let rest = rounds key rs h' s' in if h.running then rest else ended h (client.del key s).1

  -- `HeartbeatLoop`, once `GetRedis` has given the client.
  unfoldable pub heartbeat_loop : List Round → LobbyHeartbeat → Store → Loop Store
  unfolding rounds status_key
  heartbeat_loop rs h s = rounds (status_key h) rs h s

  -- What all of some rounds make of the state, while the loop runs.
  unfoldable pub beats : Bytes → List Round → LobbyHeartbeat → Store → LobbyHeartbeat × Store
  beats key [] h s = (h, s)
  beats key (r ∷ rs) h s = let (h', s') = after_round key r h s in beats key rs h' s'
