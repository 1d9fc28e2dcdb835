-- ===== src/Redis/Stream.antt =====
-- The packets that `PushRedisPacket` has taken and `RedisThread` has not yet: their descriptors in
-- `procSktQueue`, and their bytes in the rings of their connections.
pub mod Ring
pub mod Steps
pub mod Keeps
pub mod Handlers
pub mod Fifo
mod Refused
mod Tests
use outgame_lobby_server.Prelude.{
  ℕ, ◌≤◌, ◌≡◌, List, [], ◌∷◌, ◌++◌, map, some, Bytes, length, ◌==◌, if◌then◌else◌, All,
}
use outgame_lobby_server.Overlapped.{max_recv_size}
use outgame_lobby_server.CircularBuffer.Invariant.{IsValid}
use outgame_lobby_server.CircularBuffer.Contents.{contents}
use outgame_lobby_server.Packet.{DataPacket}
use outgame_lobby_server.ConnUser.{ConnUser}
use outgame_lobby_server.ConnUsersManager.{find_user}
use outgame_lobby_server.Redis.World.{Environment, State}

-- A packet: the number of its connection, and its bytes.
abbrev pub Parcel : Type 0
Parcel = ℕ × Bytes

-- The bytes of the packets of one connection, one behind another.
abbrev pub stream : ℕ → List Parcel → Bytes
stream k [] = []
stream k ((num, bytes) ∷ ps) = if num == k then bytes ++ stream k ps else stream k ps

abbrev pub descriptor : Parcel → DataPacket
descriptor (num, bytes) = record { data_size = length bytes; conn_obj_num = num }

-- A header at least, and at most what `readData` takes.
abbrev pub IsSized : Parcel → Type 0
IsSized (num, bytes) = (4 ≤ length bytes) × (length bytes ≤ max_recv_size)

-- The connection `k` holds the bytes `bytes` in its ring.
pub record Holds (k : ℕ) (bytes : Bytes) (u : ConnUser) : Type 0 where
  pub valid : IsValid u.circular_buffer
  pub full : contents u.circular_buffer ≡ bytes
  pub own : u.conn_obj_num ≡ k
  pub room : length u.read_data ≡ max_recv_size

module _ (env : Environment) where
  -- The packets `ps` are under way: the queue lists them, and each ring holds those of its connection.
  -- Behind them the queue has the descriptors `ds`, whose bytes no ring holds.
  pub record Carries (ps : List Parcel) (ds : List DataPacket) (w : State env) : Type 0 where
    pub queue : w.proc_skt_queue ≡ map descriptor ps ++ ds
    pub rings : (k : ℕ) (u : ConnUser) → find_user k w.manager ≡ some u → Holds k (stream k ps) u
    pub sized : All IsSized ps
    pub present : All (λ p. (u : ConnUser) × (find_user p.0 w.manager ≡ some u)) ps
