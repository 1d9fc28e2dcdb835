-- ===== src/Subscriber/Tests.antt =====
-- The subscriber at concrete messages.
use outgame_lobby_server.Prelude.{◌≢◌, ◌≡◌, refl, [], ◌∷◌, codes, ok, ◌>>=◌, arith}
use outgame_lobby_server.Text.Find.{find, rfind, insert_at, find_from, substr}
use outgame_lobby_server.Text.Decimal.{to_string, stoul, stoi}
use outgame_lobby_server.Text.Tokens.{tokens}
use outgame_lobby_server.Redis.Message.{
  online_message, offline_message, targeted_message, targets_text,
}
use outgame_lobby_server.Subscriber.{
  send_friend_status, log_costume_change, log_unknown_type, handle_lobby_event,
  handle_friend_online, handle_costume_change, parse_targets, parse_uint_field, event_type, message,
  timeout, stopped, subscribe_loop,
}
use outgame_lobby_server.Subscriber.RoundTrip.{
  handle_lobby_event-online, handle_lobby_event-offline,
}
use outgame_lobby_server.Subscriber.Lifecycle.{subscribed, start, create, subscribed-apart}
use outgame_lobby_server.Subscriber.Loop.{
  subscribe_loop-no_number, subscribe_loop-Served, none_left, waited, handled,
}

published_test :
    targeted_message (online_message 13) (14 ∷ 15 ∷ [])
    ≡ ok (codes "{\"type\":1,\"data\":{\"userPk\":13,\"targets\":[14,15]}}")
unfolding targeted_message online_message rfind insert_at to_string targets_text
published_test = refl

handled_test :
    handle_lobby_event (codes "{\"type\":1,\"data\":{\"userPk\":13,\"targets\":[14,15]}}")
    ≡ ok (send_friend_status 14 13 1 ∷ send_friend_status 15 13 1 ∷ [])
unfolding handle_lobby_event handle_friend_online parse_uint_field parse_targets find find_from
    substr tokens stoi stoul event_type
handled_test = refl

costume_test :
    handle_lobby_event (codes "{\"type\":3,\"data\":{\"userPk\":13,\"slot\":1,\"itemCode\":1024}}")
    ≡ ok (log_costume_change 13 1 1024 ∷ [])
unfolding handle_lobby_event handle_costume_change parse_uint_field find stoi stoul event_type
costume_test = refl

handle_lobby_event-online_example :
    (targeted_message (online_message 13) (14 ∷ 15 ∷ []) >>= handle_lobby_event)
    ≡ ok (send_friend_status 14 13 1 ∷ send_friend_status 15 13 1 ∷ [])
handle_lobby_event-online_example =
    handle_lobby_event-online 13 (14 ∷ 15 ∷ []) (omega arith) (omega arith) (omega arith)

handle_lobby_event-offline_example :
    (targeted_message (offline_message 13) (14 ∷ []) >>= handle_lobby_event)
    ≡ ok (send_friend_status 14 13 0 ∷ [])
handle_lobby_event-offline_example =
    handle_lobby_event-offline 13 (14 ∷ []) (omega arith) (omega arith) (omega arith)

subscribe_loop-no_number_example :
    subscribe_loop (timeout ∷ message (codes "{\"type\":x}") ∷ message (codes "{}") ∷ [])
    ≡ subscribe_loop (timeout ∷ message (codes "{\"type\":x}") ∷ [])
subscribe_loop-no_number_example =
    subscribe_loop-no_number (timeout ∷ []) (message (codes "{}") ∷ []) b'x' (codes "}")
      (omega arith)

unknown_handled :
    handle_lobby_event (codes "{\"type\":9}") ≡ ok (log_unknown_type (codes "{\"type\":9}") ∷ [])
unfolding handle_lobby_event find stoi event_type
unknown_handled = refl

subscribe_loop-Served_example :
    subscribe_loop (timeout ∷ message (codes "{\"type\":9}") ∷ [])
    ≡ (log_unknown_type (codes "{\"type\":9}") ∷ [], stopped)
subscribe_loop-Served_example =
    subscribe_loop-Served (waited (handled unknown_handled refl none_left))

subscribed-apart_example :
    (subscribed (start (create 52685 1)) ≡ codes ":events")
    × (subscribed (start (create 52685 1)) ≢ codes "LobbyServer01:events")
subscribed-apart_example =
    subscribed-apart 52685 1 (codes "LobbyServer01") (omega arith) (λ e. absurd (ground (arith, e)))
