-- ===== src/Subscriber/Perform.antt =====
-- The effects of an event, carried out on the state of the server.
use outgame_lobby_server.Prelude.{List, [], ◌∷◌, Bytes}
use outgame_lobby_server.Effects.{pure, lift, ◌>>=◌, ◌>>◌}
use outgame_lobby_server.Redis.World.{Environment, Server}
use outgame_lobby_server.Redis.Users.{send_friend_status_to_user}
use outgame_lobby_server.Subscriber.{Effect, send_friend_status, handle_lobby_event}

module _ (env : Environment) where
  -- All but the notification of a user are lines on the console.
  unfoldable pub perform : Effect → Server env (Unit {0})
  perform (send_friend_status target_pk friend_pk status) =
      send_friend_status_to_user env target_pk friend_pk status
  perform other = pure tt

  unfoldable pub perform_all : List Effect → Server env (Unit {0})
  perform_all [] = pure tt
  perform_all (effect ∷ effects) = do perform effect; perform_all effects

  -- `HandleLobbyEvent` on the server. Each handler has parsed all of its message before its first effect.
  unfoldable pub handle_message : Bytes → Server env (Unit {0})
  handle_message text = do effects ← lift (handle_lobby_event text); perform_all effects
