-- ===== src/Packet.antt =====
-- Packet.h and UserTypes.h: the packets and where their fields lie. The server is x86-64 Windows:
-- little-endian, with natural alignment.
pub mod Layout
pub mod Requests
pub mod Types
mod Tests
use outgame_lobby_server.Prelude.{
  ℕ, ◌+◌, ◌*◌, ◌/◌, ◌%◌, Bool, true, false, [], ◌∷◌, ◌++◌, Bytes, get_or, take, drop, replicate,
  length, ◌-◌, ◌==◌, if◌then◌else◌,
}

abbrev pub max_user_id_len : ℕ
max_user_id_len = 21

abbrev pub max_jwt_token_len : ℕ
max_jwt_token_len = 257

-- `enum class PACKET_ID`
abbrev pub user_lobby_connect_request : ℕ
user_lobby_connect_request = 1

abbrev pub user_lobby_connect_response : ℕ
user_lobby_connect_response = 2

abbrev pub friend_status_notify : ℕ
friend_status_notify = 30

abbrev pub friend_action_request : ℕ
friend_action_request = 31

abbrev pub friend_action_response : ℕ
friend_action_response = 32

-- `struct DataPacket`
pub record DataPacket : Type 0 where
  pub data_size : ℕ
  pub conn_obj_num : ℕ

-- `struct PacketInfo`; `pData` is what it points to.
pub record PacketInfo : Type 0 where
  pub packet_id : ℕ
  pub data_size : ℕ
  pub conn_obj_num : ℕ
  pub p_data : Bytes

unfoldable pub read_u16 : Bytes → ℕ → ℕ
read_u16 bytes at = get_or bytes at 0 + 256 * get_or bytes (at + 1) 0

unfoldable pub read_u32 : Bytes → ℕ → ℕ
unfolding read_u16
read_u32 bytes at = read_u16 bytes at + 65536 * read_u16 bytes (at + 2)

unfoldable pub write_u16 : ℕ → Bytes
write_u16 n = n % 256 ∷ n / 256 % 256 ∷ []

unfoldable pub write_u32 : ℕ → Bytes
unfolding write_u16
write_u32 n = write_u16 (n % 65536) ++ write_u16 (n / 65536)

-- `struct PACKET_HEADER`: `PacketLength` and `PacketId`
abbrev pub packet_header : (packet_length packet_id : ℕ) → Bytes
packet_header packet_length packet_id = write_u16 packet_length ++ write_u16 packet_id

-- A C string: the bytes before the first zero.
unfoldable pub c_string : Bytes → Bytes
c_string [] = []
c_string (c ∷ s) = if c == 0 then [] else c ∷ c_string s

unfoldable pub bool_byte : Bool → ℕ
bool_byte true = 1
bool_byte false = 0

-- A text in a `char` array of `size` bytes that starts out as zeros.
unfoldable pub char_array : (size : ℕ) → Bytes → Bytes
char_array size text = text ++ replicate (size - length text) 0

abbrev pub connect_request_size : ℕ
connect_request_size = 282

-- `USER_LOBBY_CONNECT_REQUEST`
unfoldable pub connect_request : (token user_id : Bytes) → Bytes
unfolding char_array
connect_request token user_id =
    packet_header connect_request_size user_lobby_connect_request
    ++ (char_array max_jwt_token_len token ++ char_array max_user_id_len user_id)

-- `token` and `userId` of a `USER_LOBBY_CONNECT_REQUEST`
unfoldable pub request_token : Bytes → Bytes
request_token packet = c_string (drop 4 packet)

unfoldable pub request_user_id : Bytes → Bytes
request_user_id packet = c_string (drop 261 packet)

-- `targetId` of a `FRIEND_ACTION_REQUEST`
unfoldable pub request_target_id : Bytes → Bytes
request_target_id packet = c_string (drop 4 packet)

abbrev pub connect_response_size : ℕ
connect_response_size = 6

-- `USER_LOBBY_CONNECT_RESPONSE`, with its byte of padding.
unfoldable pub connect_response : ℕ → Bool → Bytes
connect_response padding is_success =
    packet_header connect_response_size user_lobby_connect_response
    ++ bool_byte is_success ∷ padding ∷ []

abbrev pub status_notify_size : ℕ
status_notify_size = 12

-- `FRIEND_STATUS_NOTIFY`, with its three bytes of padding. `onlineStatus` is a `uint8_t`.
unfoldable pub status_notify : Bytes → (friend_pk status : ℕ) → Bytes
status_notify padding friend_pk status =
    (packet_header status_notify_size friend_status_notify ++ write_u32 friend_pk)
    ++ status % 256 ∷ take 3 padding

abbrev pub action_response_size : ℕ
action_response_size = 26

-- `strncpy_s` with `_TRUNCATE` into a zeroed `targetId`.
unfoldable pub target_field : Bytes → Bytes
target_field id =
    let text = take (max_user_id_len - 1) id in text ++ replicate (max_user_id_len - length text) 0

-- `FRIEND_ACTION_RESPONSE`
unfoldable pub action_response : Bytes → Bool → Bytes
action_response target_id is_success =
    packet_header action_response_size friend_action_response
    ++ (target_field target_id ++ bool_byte is_success ∷ [])
