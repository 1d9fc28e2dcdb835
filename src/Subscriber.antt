-- ===== src/Subscriber.antt =====
-- LobbyRedisSubscriber.h and LobbyRedisSubscriber.cpp: the messages of the lobby's channel, parsed and
-- dispatched. What a handler does to the rest of the server is the list of its effects.
pub mod RoundTrip
pub mod Loop
pub mod Lifecycle
pub mod Perform
pub mod Delivery
mod Tests
use outgame_lobby_server.Prelude.{
  ℕ, ◌+◌, ◌-◌, ◌%◌, Bool, ◌||◌, List, [], ◌∷◌, ◌++◌, map, none, some, Bytes, codes, length, drop,
  Result, ok, throw, ◌>>=◌, ◌==◌, if◌then◌else◌,
}
use outgame_lobby_server.Text.Find.{find, find_from, substr}
use outgame_lobby_server.Text.Decimal.{stoul, stoi}
use outgame_lobby_server.Text.Tokens.{tokens}

-- `enum class LobbyEventType : uint8_t`. A value without a name is possible too.
pub data LobbyEventType : Type 0 where
  unknown friend_online friend_offline costume_change party_update match_start : LobbyEventType
  friend_accepted friend_removed : LobbyEventType
  unnamed : ℕ → LobbyEventType

-- `static_cast<LobbyEventType>` of an `int`, given by its bit pattern.
unfoldable pub event_type : ℕ → LobbyEventType
event_type n =
    let code = n % 256 in
    if code == 0
    then unknown
    else if code == 1
    then friend_online
    else if code == 2
    then friend_offline
    else if code == 3
    then costume_change
    else if code == 4
    then party_update
    else if code == 5
    then match_start
    else if code == 6
    then friend_accepted
    else if code == 7
    then friend_removed
    else unnamed code

-- What the handlers do: a call of `SendFriendStatusToUser`, or a line of the log.
pub data Effect : Type 0 where
  send_friend_status : (target_pk friend_pk status : ℕ) → Effect
  log_costume_change : (user_pk slot item_code : ℕ) → Effect
  log_friend_accepted log_friend_removed : (target_pk sender_pk : ℕ) → Effect
  log_invalid_message log_unknown_type : Bytes → Effect

abbrev pub search_key : Bytes → Bytes
search_key key = codes "\"" ++ key ++ codes "\":"

-- `ParseUintField`; `std::stoul` may throw.
unfoldable pub parse_uint_field : Bytes → Bytes → Result ℕ
parse_uint_field message key = elim (find (search_key key) message) [
  | none ↦ ok 0
  | some pos ↦ stoul (drop (pos + length (search_key key)) message)
]

-- The loop of `ParseTargets` over its tokens.
collect_targets : List Bytes → Result (List ℕ)
collect_targets [] = ok []
collect_targets ([] ∷ rest) = collect_targets rest
collect_targets ((c ∷ token) ∷ rest) = do
  pk ← stoul (c ∷ token)
  pks ← collect_targets rest
  ok (pk ∷ pks)

-- `ParseTargets`
unfoldable pub parse_targets : Bytes → Result (List ℕ)
unfolding collect_targets
parse_targets message = elim (find (codes "\"targets\":[") message) [
  | none ↦ ok []
  | some start ↦
      let pos = start + 11 in
      elim (find_from (codes "]") message pos) [
        | none ↦ ok []
        | some end ↦ collect_targets (tokens b',' (substr message pos (end - pos)))
      ]
]

-- The common body of `HandleFriendOnline` (status 1) and `HandleFriendOffline` (status 0).
notify_targets : ℕ → Bytes → Result (List Effect)
notify_targets status message = do
  user_pk ← parse_uint_field message (codes "userPk")
  targets ← (if user_pk == 0 then ok [] else parse_targets message)
  ok (map (λ target_pk. send_friend_status target_pk user_pk status) targets)

unfoldable pub handle_friend_online : Bytes → Result (List Effect)
unfolding notify_targets
handle_friend_online message = notify_targets 1 message

unfoldable pub handle_friend_offline : Bytes → Result (List Effect)
unfolding notify_targets
handle_friend_offline message = notify_targets 0 message

unfoldable pub handle_costume_change : Bytes → Result (List Effect)
handle_costume_change message = do
  user_pk ← parse_uint_field message (codes "userPk")
  slot ← parse_uint_field message (codes "slot")
  item_code ← parse_uint_field message (codes "itemCode")
  ok (
      if user_pk == 0 || slot == 0 || item_code == 0
      then []
      else log_costume_change user_pk slot item_code ∷ [])

unfoldable pub handle_friend_accepted : Bytes → Result (List Effect)
handle_friend_accepted message = do
  target_pk ← parse_uint_field message (codes "targetPk")
  sender_pk ← parse_uint_field message (codes "senderPk")
  ok (if target_pk == 0 || sender_pk == 0 then [] else log_friend_accepted target_pk sender_pk ∷ [])

unfoldable pub handle_friend_removed : Bytes → Result (List Effect)
handle_friend_removed message = do
  target_pk ← parse_uint_field message (codes "targetPk")
  sender_pk ← parse_uint_field message (codes "senderPk")
  ok (if target_pk == 0 || sender_pk == 0 then [] else log_friend_removed target_pk sender_pk ∷ [])

-- The `switch` of `HandleLobbyEvent`.
unfoldable pub dispatch : LobbyEventType → Bytes → Result (List Effect)
dispatch friend_online message = handle_friend_online message
dispatch friend_offline message = handle_friend_offline message
dispatch costume_change message = handle_costume_change message
dispatch friend_accepted message = handle_friend_accepted message
dispatch friend_removed message = handle_friend_removed message
dispatch other message = ok (log_unknown_type message ∷ [])

-- `HandleLobbyEvent`; `std::stoi` may throw.
unfoldable pub handle_lobby_event : Bytes → Result (List Effect)
unfolding dispatch
handle_lobby_event message = elim (find (codes "\"type\":") message) [
  | none ↦ ok (log_invalid_message message ∷ [])
  | some pos ↦ do code ← stoi (drop (pos + 7) message); dispatch (event_type code) message
]

-- What one round of the loop in `SubscribeLoop` meets in `sub.consume()`.
pub data Consumed : Type 0 where
  message : Bytes → Consumed
  timeout redis_failure : Consumed

-- How the loop ends: `running_` is off, the inner handler breaks, or an exception leaves it.
pub data End : Type 0 where
  stopped broken off : End

-- A round that handled a message, before what later rounds do. An exception of a handler passes both
-- inner `catch` clauses, and the outer one ends the thread.
unfoldable pub after_message : Result (List Effect) → List Effect × End → List Effect × End
after_message (ok effects) (later, end) = (effects ++ later, end)
after_message (throw e) rest = ([], off)

-- The loop of `SubscribeLoop`, over the rounds that it makes while `running_` is set.
unfoldable pub subscribe_loop : List Consumed → List Effect × End
unfolding after_message
subscribe_loop [] = ([], stopped)
subscribe_loop (timeout ∷ rounds) = subscribe_loop rounds
subscribe_loop (redis_failure ∷ rounds) = ([], broken)
subscribe_loop (message text ∷ rounds) =
    after_message (handle_lobby_event text) (subscribe_loop rounds)
