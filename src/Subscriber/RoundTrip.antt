-- ===== src/Subscriber/RoundTrip.antt =====
-- What `PublishToUsers` sends is what the subscriber of another server reads.
use mathlib.Core.Option
use outgame_lobby_server.Prelude.{
  ℕ, ◌+◌, ◌-◌, ◌<◌, ◌≡◌, ◌≢◌, refl, ap, List, [], ◌∷◌, ◌++◌, map, append-nil, Bool, true, false,
  some, Bytes, codes, length, drop, ok, ◌>>=◌, arith, All, All-append, u32_mod, ◌==◌,
}
use outgame_lobby_server.Text.Find.{find, find_from, substr, find-skip, drop-append, take-append}
use outgame_lobby_server.Text.Decimal.{
  to_string, stoul, stoi, IsDigit, to_string-IsDigit, to_string-ne-nil, stoul-to_string,
}
use outgame_lobby_server.Text.Tokens.{joined, separated, IsToken, tokens-joined}
use outgame_lobby_server.Redis.Message.{online_message, offline_message, targeted_message}
use outgame_lobby_server.Redis.Message.Shape.{decimals, targeted_message_lem}
use outgame_lobby_server.Subscriber.{
  send_friend_status, parse_uint_field, parse_targets, collect_targets, handle_lobby_event,
  handle_friend_online, handle_friend_offline, notify_targets, event_type,
}

All-digits : (b : ℕ) (ds : Bytes) → ¬ IsDigit b → All IsDigit ds → All (λ c. c ≢ b) ds
All-digits b [] nb h = tt
All-digits b (c ∷ ds) nb h = (ground arith, All-digits b ds nb h.1)

AreTokens : (pks : List ℕ) → All (IsToken b',') (decimals pks)
AreTokens [] = tt
AreTokens (pk ∷ pks) = (
  (to_string-ne-nil pk, All-digits b',' (to_string pk) (omega arith) (to_string-IsDigit pk)),
  AreTokens pks,
)

separated-no_bracket : (pks : List ℕ) → All (λ c. c ≢ b']') (separated b',' (decimals pks))
separated-no_bracket [] = tt
separated-no_bracket (pk ∷ pks) = (
  omega arith,
  All-append _ (to_string pk) _
      (All-digits b']' (to_string pk) (omega arith) (to_string-IsDigit pk))
      (separated-no_bracket pks),
)

joined-no_bracket : (pks : List ℕ) → All (λ c. c ≢ b']') (joined b',' (decimals pks))
joined-no_bracket [] = tt
joined-no_bracket (pk ∷ pks) =
    All-append _ (to_string pk) _
      (All-digits b']' (to_string pk) (omega arith) (to_string-IsDigit pk))
      (separated-no_bracket pks)

nonzero : (n : ℕ) → 0 < n → (n == 0) ≡ false
nonzero n h = ground arith

abbrev pub AreWords : List ℕ → Type 0
AreWords = All (λ pk. pk < u32_mod)

collect_targets-cons :
    (t : Bytes) (rest : List Bytes) (pk : ℕ) (pks : List ℕ)
    → t ≢ []
    → stoul t ≡ ok pk
    → collect_targets rest ≡ ok pks
    → collect_targets (t ∷ rest) ≡ ok (pk ∷ pks)
unfolding collect_targets
collect_targets-cons [] rest pk pks ne e h = absurd (ne refl)
collect_targets-cons (c ∷ t) rest pk pks ne e h = rw (e, h)

stoul-print : (n : ℕ) → n < u32_mod → stoul (to_string n) ≡ ok n
stoul-print n h = rw append-nil at (stoul-to_string n [] h tt)

collect_targets-decimals : (pks : List ℕ) → AreWords pks → collect_targets (decimals pks) ≡ ok pks
collect_targets-decimals [] h = unfold collect_targets in refl
collect_targets-decimals (pk ∷ pks) h =
    collect_targets-cons (to_string pk) (decimals pks) pk pks (to_string-ne-nil pk)
      (stoul-print pk h.0) (collect_targets-decimals pks h.1)

-- A text with targets put in behind `front`.
abbrev targeted : Bytes → List ℕ → Bytes
targeted front pks =
    front ++ (codes ",\"targets\":[" ++ (joined b',' (decimals pks) ++ codes "]}}"))

drop-targeted :
    (front : Bytes) (pks : List ℕ)
    → drop (length front + 1 + 11) (targeted front pks) ≡ joined b',' (decimals pks) ++ codes "]}}"
drop-targeted front pks =
    drop-append front (codes ",\"targets\":[" ++ (joined b',' (decimals pks) ++ codes "]}}")) 12 _
      (omega arith)

find_from-bracket :
    (front : Bytes) (pks : List ℕ)
    → find_from (codes "]") (targeted front pks) (length front + 1 + 11)
      ≡ some (length front + 1 + 11 + length (joined b',' (decimals pks)))
unfolding find_from
find_from-bracket front pks =
    rw
      (
        drop-targeted front pks,
        find-skip b']' [] (joined b',' (decimals pks)) (codes "]}}") (joined-no_bracket pks),
      )
      (unfold find in ap some (omega arith))

parse_targets-targeted :
    (front : Bytes) (pks : List ℕ)
    → AreWords pks
    → find (codes "\"targets\":[") (targeted front pks) ≡ some (length front + 1)
    → parse_targets (targeted front pks) ≡ ok pks
unfolding substr parse_targets
parse_targets-targeted front pks words found =
    rw (found, parse_targets)
      (rw (find_from-bracket front pks, parse_targets)
        (rw
          (
            drop-targeted front pks,
            take-append (joined b',' (decimals pks)) (codes "]}}")
                (length front
                  + 1
                  + 11
                  + length (joined b',' (decimals pks))
                  - (length front + 1 + 11))
                (omega arith),
            tokens-joined b',' (decimals pks) (AreTokens pks),
          )
          (collect_targets-decimals pks words)))

-- The text before the targets: of an online event, or of an offline event.
abbrev front_text : Bool → ℕ → Bytes
front_text true user_pk = codes "{\"type\":1,\"data\":{\"userPk\":" ++ to_string user_pk
front_text false user_pk = codes "{\"type\":2,\"data\":{\"userPk\":" ++ to_string user_pk

quote-skip :
    (user_pk : ℕ) (s : Bytes)
    → find (codes "\"targets\":[") (to_string user_pk ++ s)
      ≡ Option.map (λ i. length (to_string user_pk) + i) (find (codes "\"targets\":[") s)
quote-skip user_pk s =
    find-skip b'"' (codes "targets\":[") (to_string user_pk) s
      (All-digits b'"' (to_string user_pk) (omega arith) (to_string-IsDigit user_pk))

find-targets :
    (online : Bool) (user_pk : ℕ) (pks : List ℕ)
    → find (codes "\"targets\":[") (targeted (front_text online user_pk) pks)
      ≡ some (length (front_text online user_pk) + 1)
find-targets true user_pk pks = unfold find in rw (quote-skip user_pk _) (ap some (omega arith))
find-targets false user_pk pks = unfold find in rw (quote-skip user_pk _) (ap some (omega arith))

parse_uint_field-user_pk :
    (online : Bool) (user_pk : ℕ) (pks : List ℕ)
    → user_pk < u32_mod
    → parse_uint_field (targeted (front_text online user_pk) pks) (codes "userPk") ≡ ok user_pk
unfolding parse_uint_field find
parse_uint_field-user_pk true user_pk pks h = stoul-to_string user_pk _ h (omega arith)
parse_uint_field-user_pk false user_pk pks h = stoul-to_string user_pk _ h (omega arith)

parse_targets-front_text :
    (online : Bool) (user_pk : ℕ) (pks : List ℕ)
    → AreWords pks
    → parse_targets (targeted (front_text online user_pk) pks) ≡ ok pks
parse_targets-front_text online user_pk pks words =
    parse_targets-targeted (front_text online user_pk) pks words (find-targets online user_pk pks)

notify_targets-front_text :
    (online : Bool) (status user_pk : ℕ) (pks : List ℕ)
    → 0 < user_pk
    → user_pk < u32_mod
    → AreWords pks
    → notify_targets status (targeted (front_text online user_pk) pks)
      ≡ ok (map (λ target_pk. send_friend_status target_pk user_pk status) pks)
unfolding notify_targets
notify_targets-front_text online status user_pk pks pos lt words =
    rw
      (
        parse_uint_field-user_pk online user_pk pks lt,
        parse_targets-front_text online user_pk pks words,
      )
      (rw (nonzero user_pk pos) refl)

-- The online event of a user with a key from 1, targeted at `pks`, all `uint32_t` numbers: the server
-- that reads it notifies each of them of the status 1, in order, and does nothing else.
pub handle_lobby_event-online :
    (user_pk : ℕ) (pks : List ℕ)
    → 0 < user_pk
    → user_pk < u32_mod
    → AreWords pks
    → (targeted_message (online_message user_pk) pks >>= handle_lobby_event)
      ≡ ok (map (λ target_pk. send_friend_status target_pk user_pk 1) pks)
unfolding online_message handle_lobby_event event_type handle_friend_online find stoi
handle_lobby_event-online user_pk pks pos lt words =
    rw (targeted_message_lem (front_text true user_pk) pks)
      (notify_targets-front_text true 1 user_pk pks pos lt words)

-- The offline event of a user with a key from 1, targeted at `pks`, all `uint32_t` numbers: the server
-- that reads it notifies each of them of the status 0, in order, and does nothing else.
pub handle_lobby_event-offline :
    (user_pk : ℕ) (pks : List ℕ)
    → 0 < user_pk
    → user_pk < u32_mod
    → AreWords pks
    → (targeted_message (offline_message user_pk) pks >>= handle_lobby_event)
      ≡ ok (map (λ target_pk. send_friend_status target_pk user_pk 0) pks)
unfolding offline_message handle_lobby_event event_type handle_friend_offline find stoi
handle_lobby_event-offline user_pk pks pos lt words =
    rw (targeted_message_lem (front_text false user_pk) pks)
      (notify_targets-front_text false 0 user_pk pks pos lt words)
