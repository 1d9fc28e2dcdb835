-- ===== src/Packet/Requests.antt =====
-- What the handlers read from a `USER_LOBBY_CONNECT_REQUEST`.
use outgame_lobby_server.Prelude.{
  ◌==◌, ==_iff, if◌then◌else◌, Bool-cases, inl, inr, ℕ, suc, ◌-◌, ◌≤◌, ◌<◌, ◌≡◌, ◌≢◌, refl, sym, ap,
  ◌∙◌, [], ◌∷◌, ◌++◌, append_assoc, append-nil, Bytes, length, length-append, length-replicate,
  replicate, drop, All, All-append, arith,
}
use outgame_lobby_server.Text.Find.{drop-append}
use outgame_lobby_server.Packet.{
  read_u16, write_u16, c_string, request_token, request_user_id, connect_request,
  user_lobby_connect_request, char_array, max_jwt_token_len, max_user_id_len,
}
use outgame_lobby_server.Packet.Layout.{c_string-append}

-- A text that is shorter than its array ends in a zero.
char_array-zero :
    (size : ℕ) (text rest : Bytes)
    → length text < size
    → char_array size text ++ rest ≡ text ++ 0 ∷ (replicate (size - length text - 1) 0 ++ rest)
unfolding char_array
char_array-zero size text rest h =
    let e : size - length text ≡ suc (size - length text - 1) = omega arith in
    append_assoc text (replicate (size - length text) 0) rest
    ∙ ap (λ n. text ++ (replicate n 0 ++ rest)) e

length-char_array :
    (size : ℕ) (text : Bytes) → length text ≤ size → length (char_array size text) ≡ size
unfolding char_array
length-char_array size text h = omega (
  arith,
  length-append text (replicate (size - length text) 0),
  length-replicate {A = ℕ} (size - length text) 0,
)

-- `userId` stands behind the header and `token`.
drop-connect_request :
    (token user_id : Bytes)
    → length token ≤ max_jwt_token_len
    → drop 261 (connect_request token user_id) ≡ char_array max_user_id_len user_id
unfolding connect_request write_u16
drop-connect_request token user_id h =
    drop-append (char_array max_jwt_token_len token) (char_array max_user_id_len user_id) 0 257
      (omega (arith, length-char_array max_jwt_token_len token h))

connect_request-read :
    (token user_id : Bytes)
    → length token ≤ max_jwt_token_len
    → length user_id ≤ 20
    → All (λ c. c ≢ 0) user_id
    → let packet = connect_request token user_id in
      (length packet ≡ read_u16 packet 0)
      × (read_u16 packet 2 ≡ user_lobby_connect_request)
      × (request_user_id packet ≡ user_id)
unfolding connect_request write_u16 read_u16 request_user_id
connect_request-read token user_id fits brief i = (
  omega (
    arith,
    length-append (char_array 257 token) (char_array 21 user_id),
    length-char_array 257 token fits,
    length-char_array 21 user_id (omega arith),
  ),
  refl,
  ap c_string (
        drop-connect_request token user_id fits
        ∙ sym (append-nil (char_array 21 user_id))
        ∙ char_array-zero 21 user_id [] (omega arith))
      ∙ c_string-append user_id _ i,
)

connect_request-short_token :
    (token user_id : Bytes)
    → length token < max_jwt_token_len
    → All (λ c. c ≢ 0) token
    → request_token (connect_request token user_id) ≡ token
unfolding connect_request write_u16 request_token
connect_request-short_token token user_id short t =
    rw (char_array-zero 257 token (char_array 21 user_id) short) (c_string-append token _ t)

-- A token that fills its array of 257 bytes without a zero byte: what the server takes for the token is the token and the
-- id behind it, for an id of at most 20 bytes without a zero byte.
connect_request-full_token :
    (token user_id : Bytes)
    → length token ≡ max_jwt_token_len
    → length user_id ≤ 20
    → All (λ c. c ≢ 0) token
    → All (λ c. c ≢ 0) user_id
    → request_token (connect_request token user_id) ≡ token ++ user_id
unfolding connect_request write_u16 request_token
connect_request-full_token token user_id full brief t i =
    let over : 257 - length token ≡ 0 = omega (arith, full) in
    let none_left : char_array 257 token ≡ token =
      ap (λ n. token ++ replicate n 0) over ∙ append-nil token in
    rw none_left (
      ap (λ s. c_string (token ++ s))
        (sym (append-nil (char_array 21 user_id)) ∙ char_array-zero 21 user_id [] (omega arith))
      ∙ ap c_string (sym (append_assoc token user_id _))
      ∙ c_string-append (token ++ user_id) _ (All-append _ token user_id t i))

-- A request with a token of at most 257 bytes and an id of at most 20, neither with a zero byte: it is as
-- long as its header says, has its id, and the server reads the id of the user back. It reads the token back
-- if the token is shorter than its array of 257 bytes; if not, it takes the token and the id behind
-- it for the token.
pub connect_request_lem :
    (token user_id : Bytes)
    → length token ≤ max_jwt_token_len
    → length user_id ≤ 20
    → All (λ c. c ≢ 0) token
    → All (λ c. c ≢ 0) user_id
    → let packet = connect_request token user_id in
      (length packet ≡ read_u16 packet 0)
      × (read_u16 packet 2 ≡ user_lobby_connect_request)
      × (request_token packet
          ≡ (if length token == max_jwt_token_len then token ++ user_id else token))
      × (request_user_id packet ≡ user_id)
connect_request_lem token user_id fits brief t i =
    let (size, id, user) = connect_request-read token user_id fits brief i in
    (
      size,
      id,
      elim (Bool-cases (length token == 257)) [
        | inl e ↦
            rw e
              (connect_request-full_token token user_id ((==_iff (length token) 257).0 e) brief t i)
        | inr e ↦ rw e (
            connect_request-short_token token user_id (ground (arith, ==_iff (length token) 257)) t)
      ],
      user,
    )
