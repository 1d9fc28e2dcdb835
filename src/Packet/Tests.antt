-- ===== src/Packet/Tests.antt =====
-- Packets with concrete fields.
use outgame_lobby_server.Prelude.{
  ℕ, zero, suc, ◌≡◌, ◌≢◌, [], ◌∷◌, ◌++◌, All, replicate, true, codes, length, take, get_or, arith,
}
use outgame_lobby_server.Packet.{
  connect_request, request_token, request_user_id, user_lobby_connect_request, read_u16, read_u32,
  bool_byte, request_target_id, status_notify, friend_status_notify, action_response,
  friend_action_response,
}
use outgame_lobby_server.Packet.Layout.{status_notify_lem, action_response_lem}
use outgame_lobby_server.Packet.Requests.{connect_request_lem}

status_notify_lem_example :
    let packet = status_notify (7 ∷ 7 ∷ 7 ∷ []) 70000 1 in
    (length packet ≡ read_u16 packet 0)
    × (read_u16 packet 2 ≡ friend_status_notify)
    × (read_u32 packet 4 ≡ 70000)
    × (get_or packet 8 0 ≡ 1)
status_notify_lem_example =
    status_notify_lem (7 ∷ 7 ∷ 7 ∷ []) 70000 1 (omega arith) (omega arith) (omega arith)

action_response_lem_example :
    let packet = action_response (codes "a_user_with_a_long_identifier") true in
    (length packet ≡ read_u16 packet 0)
    × (read_u16 packet 2 ≡ friend_action_response)
    × (request_target_id packet ≡ take 20 (codes "a_user_with_a_long_identifier"))
    × (get_or packet 25 0 ≡ bool_byte true)
action_response_lem_example =
    action_response_lem (codes "a_user_with_a_long_identifier") true (omega arith)

letters : (n : ℕ) → All {A = ℕ} (λ c. c ≢ 0) (replicate n 97)
letters zero = tt
letters (suc n) = (omega arith, letters n)

connect_request_lem_example :
    let packet = connect_request (replicate 257 97) (codes "kim") in
    (length packet ≡ read_u16 packet 0)
    × (read_u16 packet 2 ≡ user_lobby_connect_request)
    × (request_token packet ≡ replicate 257 97 ++ codes "kim")
    × (request_user_id packet ≡ codes "kim")
connect_request_lem_example =
    connect_request_lem (replicate 257 97) (codes "kim") (omega arith) (omega arith) (letters 257)
      (omega arith)
