-- ===== src/Packet/Layout.antt =====
-- The packets that the server writes, read back by their layout.
use outgame_lobby_server.Prelude.{
  ℕ, zero, suc, ◌-◌, ◌^◌, ◌≤◌, ◌<◌, ◌≡◌, ◌≢◌, refl, [], ◌∷◌, ◌++◌, append_assoc, Bool, Bytes,
  length, length-append, length-take, length-replicate, take, replicate, get_or, get_or-append, All,
  arith,
}
use outgame_lobby_server.Packet.{
  read_u16, read_u32, write_u16, write_u32, c_string, bool_byte, request_target_id, status_notify,
  friend_status_notify, action_response, friend_action_response, target_field, max_user_id_len,
}

-- A status notification of a `uint32_t` key and a status below 256 is as long as its header says, and a
-- client reads the header, the key and the status back from it.
pub status_notify_lem :
    (padding : Bytes) (friend_pk status : ℕ)
    → 3 ≤ length padding
    → friend_pk < 2 ^ 32
    → status < 256
    → let packet = status_notify padding friend_pk status in
      (length packet ≡ read_u16 packet 0)
      × (read_u16 packet 2 ≡ friend_status_notify)
      × (read_u32 packet 4 ≡ friend_pk)
      × (get_or packet 8 0 ≡ status)
unfolding status_notify write_u16 write_u32 read_u16 read_u32
status_notify_lem padding pk status p small low =
    (omega (arith, length-take 3 padding), omega arith, omega arith, omega arith)

pub c_string-append : (s t : Bytes) → All (λ c. c ≢ 0) s → c_string (s ++ 0 ∷ t) ≡ s
unfolding c_string
c_string-append [] t h = refl
c_string-append (c ∷ s) t h = ground (arith, c_string-append s t h.1)

All-take : (n : ℕ) (s : Bytes) → All (λ c. c ≢ 0) s → All (λ c. c ≢ 0) (take n s)
All-take zero s h = tt
All-take (suc n) [] h = tt
All-take (suc n) (c ∷ s) h = (h.0, All-take n s h.1)

-- `targetId` ends in a zero, whatever was copied to it.
target_field-zero :
    (id : Bytes) → target_field id ≡ take 20 id ++ 0 ∷ replicate (20 - length (take 20 id)) 0
unfolding target_field
target_field-zero id =
    let e : 21 - length (take 20 id) ≡ suc (20 - length (take 20 id)) =
      omega (arith, length-take 20 id) in
    rw e refl

length-target_field : (id : Bytes) → length (target_field id) ≡ max_user_id_len
unfolding target_field
length-target_field id = omega (
  arith,
  length-append (take 20 id) (replicate (21 - length (take 20 id)) 0),
  length-replicate {A = ℕ} (21 - length (take 20 id)) 0,
  length-take 20 id,
)

-- A response to a friend request for an id without zero bytes is as long as its header says. Read back
-- by its layout it has the first 20 bytes of the id, cut off inside the field, and the flag.
pub action_response_lem :
    (id : Bytes) (is_success : Bool)
    → All (λ c. c ≢ 0) id
    → let packet = action_response id is_success in
      (length packet ≡ read_u16 packet 0)
      × (read_u16 packet 2 ≡ friend_action_response)
      × (request_target_id packet ≡ take 20 id)
      × (get_or packet 25 0 ≡ bool_byte is_success)
unfolding action_response write_u16 read_u16 request_target_id
action_response_lem id ok h = (
  omega (arith, length-append (target_field id) (bool_byte ok ∷ []), length-target_field id),
  omega arith,
  rw (target_field-zero id) (rw append_assoc (c_string-append (take 20 id) _ (All-take 20 id h))),
  ground (arith, get_or-append (target_field id) (bool_byte ok ∷ []) 21 0, length-target_field id),
)
