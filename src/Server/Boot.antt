-- ===== src/Server/Boot.antt =====
-- `OutGameLobbyServer::init`: what it asks of the system, in order, up to the first failure.
pub mod Order
mod Tests
use outgame_lobby_server.Prelude.{
  ℕ, Bool, true, false, List, [], ◌∷◌, ◌++◌, Option, none, some, ◌≡◌, refl, length, arith,
  if◌then◌else◌, ◌&&◌, All,
}
use outgame_lobby_server.Overlapped.{Overlapped, OverLappedManager, max_recv_size}
use outgame_lobby_server.Overlapped
use outgame_lobby_server.Heartbeat.{LobbyHeartbeat, start, stop}
use outgame_lobby_server.Server.Channels.{ServerAddress, login_server, server_address_map, access}
use outgame_lobby_server.Server.Threads.{max_thread_count}

-- The calls that may fail.
pub data Call : Type 0 where
  wsa_startup wsa_socket : Call
  bind : (port : ℕ) → Call
  listen : Call
  create_port : (threads : ℕ) → Call
  associate_port : Call
  close_handle close_socket wsa_cleanup : Call

-- Which calls succeed, and what becomes of Redis and of the pool of MySQL.
pub record Machine : Type 0 where
  pub starts : Bool
  pub has_socket : Bool
  pub binds : Bool
  pub listens : Bool
  pub has_port : Bool
  pub associates : Bool
  pub redis_connected : Bool
  pub mysql_ready : Bool

-- The members that `init` sets, and the calls that it has made.
pub record Boot : Type 0 where
  pub calls : List Call
  pub max_thread_cnt : ℕ
  pub overlapped : Option OverLappedManager
  pub heartbeat : LobbyHeartbeat
  pub subscribing : Bool

-- `init` returns, or `GetRedis` throws.
pub data Booted : Type 0 where
  returns : Bool → Boot → Booted
  throws : Boot → Booted

-- A call, and `return false` if it fails.
abbrev check : Call → Bool → Boot → (Boot → Booted) → Booted
check call ok b rest =
    let b' : Boot = record b { calls = b.calls ++ call ∷ [] } in
    if ok then rest b' else returns false b'

abbrev new_pool : OverLappedManager
new_pool = record { ov_lap_pool = []; allocated = 0 }

-- The end of `init`, from `new OverLappedManager` on. The result of MySQL is not looked at.
unfoldable pub finish_init : Machine → Boot → Booted
finish_init m b =
    let b' : Boot = record b { overlapped = some (Overlapped.init new_pool) } in
    if m.redis_connected
    then returns true (record b' { heartbeat = start b.heartbeat; subscribing = true })
    else throws b'

unfoldable pub init : Machine → Boot → Booted
unfolding finish_init access
init m b =
    let port = (access (record { ip = []; port = 0 }) login_server server_address_map).0.port in
    check wsa_startup m.starts (record b { max_thread_cnt = max_thread_count })
      λ b. check wsa_socket m.has_socket b λ b. check (bind port) m.binds b λ b.
        check listen m.listens b λ b.
          check (create_port b.max_thread_cnt) m.has_port b
            λ b. check associate_port m.associates b λ b. finish_init m b

-- The end of `ServerEnd`, after its joins.
unfoldable pub end_server : Boot → Boot
end_server b = record b {
  heartbeat = stop b.heartbeat;
  subscribing = false;
  calls = b.calls ++ close_handle ∷ close_socket ∷ wsa_cleanup ∷ [];
}
