-- ===== src/Redis/Published/Tests.antt =====
-- The login of the user 13, whose friends 14 and 15 are on one server.
use outgame_lobby_server.Prelude.{◌≡◌, refl, List, [], ◌∷◌, some, Bytes, codes}
use outgame_lobby_server.Effects.{returned}
use outgame_lobby_server.Text.Decimal.{to_string}
use outgame_lobby_server.Redis.Client.{answered}
use outgame_lobby_server.Redis.Publish.{notify_friend_online, group_targets, add_target}
use outgame_lobby_server.Redis.Published.{notify_friend_online-posts}
use outgame_lobby_server.Redis.Published.Samples.{env, world, recorder-Records}

notify_friend_online-posts_example :
    (s : List (Bytes × Bytes)) × (notify_friend_online env 13 (14 ∷ 15 ∷ []) world
      ≡ returned tt (record world { store = s }))
    × (s
        ≡ (
          codes "LobbyServer01:events",
          codes "{\"type\":1,\"data\":{\"userPk\":13,\"targets\":[14,15]}}",
        )
          ∷ [])
unfolding group_targets add_target to_string
notify_friend_online-posts_example =
    notify_friend_online-posts env (λ s. s) recorder-Records 13 14 (15 ∷ [])
      (answered (some (codes "LobbyServer01")) ∷ answered (some (codes "LobbyServer01")) ∷ []) world
      refl
