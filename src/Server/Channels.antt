-- ===== src/Server/Channels.antt =====
-- ServerChannelEnum.h: the servers, their addresses and their names. A `ServerType` is its number, since
-- a member of the type that is not initialised may hold any `uint16_t`.
use outgame_lobby_server.Prelude.{
  ℕ, List, [], ◌∷◌, ◌++◌, Option, none, some, Bytes, codes, ◌==◌, if◌then◌else◌,
}

abbrev pub login_server : ℕ
login_server = 0

abbrev pub lobby_server01 : ℕ
lobby_server01 = 1

abbrev pub lobby_server02 : ℕ
lobby_server02 = 2

-- `struct ServerAddress`
pub record ServerAddress : Type 0 where
  pub ip : Bytes
  pub port : ℕ

unfoldable pub entry : {A : Type 0} → ℕ → List (ℕ × A) → Option A
entry k [] = none
entry k ((k', a) ∷ rest) = if k' == k then some a else entry k rest

-- `operator[]` of an `unordered_map`: a key that is not there gets the default value.
unfoldable pub access : {A : Type 0} → A → ℕ → List (ℕ × A) → A × List (ℕ × A)
unfolding entry
access default k entries = elim (entry k entries) [
  | none ↦ (default, entries ++ (k, default) ∷ [])
  | some a ↦ (a, entries)
]

abbrev pub server_address_map : List (ℕ × ServerAddress)
server_address_map =
    (login_server, record { ip = codes "127.0.0.1"; port = 9001 })
    ∷ (lobby_server01, record { ip = codes "127.0.0.1"; port = 9011 })
    ∷ (lobby_server02, record { ip = codes "127.0.0.1"; port = 9012 })
    ∷ []

abbrev pub server_names_map : List (ℕ × Bytes)
server_names_map =
    (login_server, codes "LoginServer")
    ∷ (lobby_server01, codes "LobbyServer01")
    ∷ (lobby_server02, codes "LobbyServer02")
    ∷ []

-- `GetServerName`, with what it makes of `ServerNamesMap`.
unfoldable pub get_server_name : ℕ → List (ℕ × Bytes) → Bytes × List (ℕ × Bytes)
unfolding access
get_server_name server_type names = access [] server_type names

-- The channel of `SubscribeLoop`.
unfoldable pub channel : ℕ → List (ℕ × Bytes) → Bytes
unfolding get_server_name
channel server_type names = (get_server_name server_type names).0 ++ codes ":events"
