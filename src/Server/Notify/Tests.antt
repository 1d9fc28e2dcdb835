-- ===== src/Server/Notify/Tests.antt =====
-- The login of the user 13, whose friends 14 and 15 are on one server, on two connections.
use outgame_lobby_server.Prelude.{
  ℕ, zero, suc, ◌+◌, ◌≡◌, refl, [], ◌∷◌, ◌++◌, some, Bytes, codes, replicate, arith,
}
use outgame_lobby_server.Effects.{returned, lift, ◌>>=◌}
use outgame_lobby_server.ConnUser.{ConnUser}
use outgame_lobby_server.ConnUsersManager.{ConnUsersManager, find_user, get_obj_num_by_pk, lookup}
use outgame_lobby_server.Redis.Client.{Redis, answered}
use outgame_lobby_server.Redis.Samples
use outgame_lobby_server.Redis.Samples.{user}
use outgame_lobby_server.Redis.World.{Environment, State, ask, settle}
use outgame_lobby_server.Redis.Publish.{
  notify_friend_online, bytes_eq, verify_user_token, accept_token,
}
use outgame_lobby_server.Redis.Users.{user_connect}
use outgame_lobby_server.Redis.Login.Enter.{logged_in}
use outgame_lobby_server.Redis.Publish.Targets.{located}
use outgame_lobby_server.Redis.Message.{online_message, targeted_message}
use outgame_lobby_server.Redis.Published.{Records}
use outgame_lobby_server.Redis.Published.Samples.{env, world, recorder, recorder-Records}
use outgame_lobby_server.Text.Decimal.{stoul}
use outgame_lobby_server.Packet.{request_user_id, request_token}
use outgame_lobby_server.ConnUser.Samples.{empty_pool}
use outgame_lobby_server.Mysql.Samples.{listing, listing-Selects, listed}
use outgame_lobby_server.Subscriber.Perform.{handle_message}
use outgame_lobby_server.Subscriber.Delivery.{HasApartSockets, Delivers, notices}
use outgame_lobby_server.Subscriber.Delivery.Events.{handle_message-online}
use outgame_lobby_server.Server.Notify.{Relays, notify_friend_online-Relays}
use outgame_lobby_server.Server.Notify.Login.{Stores, Announces, user_connect-Announces}

-- The users 14 and 15 on the connections 0 and 1.
abbrev pair : ConnUsersManager
pair = record {
  pk_to_obj_num = (14, 0) ∷ (15, 1) ∷ [];
  conn_users = some user ∷ some (record user { user_skt = 6; conn_obj_num = 1 }) ∷ [];
}

abbrev reader : State Samples.env
reader = record Samples.world { manager = pair }

pair_socket : (j : ℕ) (u : ConnUser) → find_user j pair ≡ some u → u.user_skt ≡ j + 5
unfolding find_user
pair_socket zero u e = cc
pair_socket (suc zero) u e = cc
pair_socket (suc (suc j)) u e = let nobody : ⊥ = cc in absurd nobody

pair-HasApartSockets : HasApartSockets pair
pair-HasApartSockets j k u v ne ej ek = ground (arith, pair_socket j u ej, pair_socket k v ek)

handle_message-online_example :
    Delivers Samples.env (notices Samples.env pair 13 1 (14 ∷ 15 ∷ [])) reader (
      (lift (targeted_message (online_message 13) (14 ∷ 15 ∷ [])) >>= handle_message Samples.env)
        reader)
unfolding find_user get_obj_num_by_pk lookup
handle_message-online_example =
    handle_message-online Samples.env 13 (14 ∷ 15 ∷ []) reader (omega arith) (omega arith)
      (omega arith) pair-HasApartSockets ((_, refl), ((_, refl), tt))

notify_friend_online-Relays_example :
    Relays env
      (λ s. s)
      (codes "LobbyServer01")
      13
      1
      (14 ∷ 15 ∷ [])
      world
      (notify_friend_online env 13 (14 ∷ 15 ∷ []) world)
      Samples.env
      reader
unfolding find_user get_obj_num_by_pk lookup located bytes_eq
notify_friend_online-Relays_example =
    notify_friend_online-Relays env (λ s. s) recorder-Records (λ server pks groups m. m) 13 14
      (15 ∷ [])
      (answered (some (codes "LobbyServer01")) ∷ answered (some (codes "LobbyServer01")) ∷ [])
      (codes "LobbyServer01") world Samples.env reader refl (omega arith) (omega arith)
      (omega arith) (λ e. absurd (let bad : ⊥ = cc in bad)) pair-HasApartSockets
      ((_, refl), ((_, refl), tt))

-- The same Redis, which holds the key 13 as the text of every token.
abbrev token_recorder : Redis
token_recorder = record recorder { hget = λ key field s. (answered (some (codes "13")), s) }

abbrev login_env : Environment
login_env = record env { redis = token_recorder; mysql = listing; row_fuel = 3 }

abbrev login_world : State login_env
login_world = record {
  manager = record { pk_to_obj_num = []; conn_users = some user ∷ [] };
  pool = empty_pool;
  requests = [];
  proc_skt_queue = [];
  store = [];
  sql = listed;
}

abbrev packet : Bytes
packet = replicate 4 0 ++ (codes "t" ++ (replicate 256 0 ++ (codes "kim" ++ replicate 18 0)))

verified :
    verify_user_token login_env (request_user_id packet) (request_token packet) login_world
    ≡ returned (some 13) login_world
unfolding verify_user_token accept_token ask settle stoul
verified = refl

token_recorder-Records : Records token_recorder (λ s. s)
token_recorder-Records = record {
  answers = λ channel message s. refl;
  recorded = λ channel message s. refl;
  reads = λ keys field s. refl;
}

token_recorder-Stores : Stores token_recorder (λ s. s)
token_recorder-Stores = record {
  sets = λ key field text s. refl;
  expires = λ key seconds s. refl;
  keeps = λ key field text s. refl;
  keeps_expiring = λ key seconds s. refl;
}

user_connect-Announces_example :
    Announces login_env
      (λ s. s)
      0
      (logged_in (request_user_id packet) 13 (14 ∷ 15 ∷ []) user)
      (codes "LobbyServer01")
      (14 ∷ 15 ∷ [])
      (user_connect login_env 0 282 packet login_world)
      Samples.env
      reader
unfolding find_user get_obj_num_by_pk lookup located bytes_eq
user_connect-Announces_example =
    user_connect-Announces login_env (λ s. s) token_recorder-Records token_recorder-Stores
      (λ server pks groups m. m) listing-Selects (omega arith) 0 282 13 packet user login_world
      login_world
      (answered (some (codes "LobbyServer01")) ∷ answered (some (codes "LobbyServer01")) ∷ [])
      (codes "LobbyServer01") Samples.env reader refl verified (omega arith) (omega arith) refl
      (omega arith) (omega arith) (omega arith) (λ e. absurd (let bad : ⊥ = cc in bad))
      pair-HasApartSockets ((_, refl), ((_, refl), tt))
