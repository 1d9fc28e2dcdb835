-- ===== src/Redis/Login/Tests.antt =====
-- Logins and the leave of the user `kim` with the token `t`, over MySQL with the friends 14 and 15.
use outgame_lobby_server.Prelude.{
  ℕ, ◌≡◌, refl, [], ◌∷◌, ◌++◌, none, some, Bytes, codes, replicate, length, true, false,
  redis_error, arith, ◌==◌, if◌then◌else◌,
}
use outgame_lobby_server.Effects.{returned, raised}
use outgame_lobby_server.Text.Decimal.{stoul}
use outgame_lobby_server.Packet.{request_user_id, request_token, connect_response_size}
use outgame_lobby_server.ConnUser.Samples.{empty_pool}
use outgame_lobby_server.ConnUsersManager.{find_user}
use outgame_lobby_server.Mysql.Samples.{listing, listing-Selects, listing-Ends, listed}
use outgame_lobby_server.Redis.Client.{Redis, answered, failed}
use outgame_lobby_server.Redis.Samples.{quiet_redis, user}
use outgame_lobby_server.Redis.World.{Environment, State, ask, settle}
use outgame_lobby_server.Redis.Publish.{verify_user_token, accept_token}
use outgame_lobby_server.Redis.Users.{user_connect, user_dis_connect}
use outgame_lobby_server.Redis.Leave.{Left, user_dis_connect-Left}
use outgame_lobby_server.Redis.Push.{Pushes}
use outgame_lobby_server.Redis.Login.{
  user_connect_refused, user_connect_succeeds, user_connect_raises,
}
use outgame_lobby_server.Redis.Login.Enter.{response, logged_in}

-- It holds the key 13 as the text of every token, until a `DEL`.
abbrev token_redis : Redis
token_redis = record quiet_redis {
  hget = λ key field s. (if s == 0 then answered (some (codes "13")) else answered none, s);
  del = λ key s. (answered tt, 1);
}

abbrev env : Environment
env = record {
  redis = token_redis;
  mysql = listing;
  unset = [];
  padding = [];
  bucket_order = λ groups. groups;
  row_fuel = 3;
}

-- The same services, but that `HSET` fails.
abbrev failing_env : Environment
failing_env = record env { redis = record token_redis { hset = λ key field value s. (failed, s) } }

abbrev world : State env
world = record {
  manager = record { pk_to_obj_num = []; conn_users = some user ∷ [] };
  pool = empty_pool;
  requests = [];
  proc_skt_queue = [];
  store = 0;
  sql = listed;
}

abbrev packet : Bytes
packet = replicate 4 0 ++ (codes "t" ++ (replicate 256 0 ++ (codes "kim" ++ replicate 18 0)))

abbrev spent : State env
spent = record world { store = 1 }

abbrev failing_world : State failing_env
failing_world = record {
  manager = world.manager;
  pool = empty_pool;
  requests = [];
  proc_skt_queue = [];
  store = 0;
  sql = listed;
}

abbrev failing_spent : State failing_env
failing_spent = record failing_world { store = 1 }

refused :
    verify_user_token env (request_user_id packet) (request_token packet) spent
    ≡ returned none spent
unfolding verify_user_token accept_token ask settle
refused = refl

user_connect_refused_example :
    (s : ℕ) × (spent ≡ record spent { store = s })
    × Pushes env 0 connect_response_size
        (response env false)
        user
        spent
        (user_connect env 0 282 packet spent)
unfolding find_user
user_connect_refused_example = user_connect_refused env 0 282 packet user spent spent refl refused

verified :
    verify_user_token env (request_user_id packet) (request_token packet) world
    ≡ returned (some 13) spent
unfolding verify_user_token accept_token ask settle stoul
verified = refl

user_connect_succeeds_example :
    (v : State env) × (find_user 0 v.manager
      ≡ some (logged_in (request_user_id packet) 13 (14 ∷ 15 ∷ []) user))
    × (v.requests ≡ [])
    × (length v.sql.db_pool ≡ 2)
    × (v.sql.permits ≡ 2)
    × Pushes env 0 connect_response_size
        (response env true)
        (logged_in (request_user_id packet) 13 (14 ∷ 15 ∷ []) user)
        v
        (user_connect env 0 282 packet world)
unfolding find_user
user_connect_succeeds_example =
    user_connect_succeeds env listing-Selects (omega arith) 0 282 13 packet user world spent refl
      verified (omega arith) (omega arith) (λ key field text s. refl) (λ key seconds s. refl)

failing_verified :
    verify_user_token failing_env (request_user_id packet) (request_token packet) failing_world
    ≡ returned (some 13) failing_spent
unfolding verify_user_token accept_token ask settle stoul
failing_verified = refl

user_connect_raises_example :
    (v : State failing_env) × (user_connect failing_env 0 282 packet failing_world
      ≡ raised redis_error v)
    × (find_user 0 v.manager ≡ some (logged_in (request_user_id packet) 13 (14 ∷ 15 ∷ []) user))
    × (v.requests ≡ [])
unfolding find_user
user_connect_raises_example =
    user_connect_raises failing_env listing-Selects (omega arith) 0 282 13 packet user failing_world
      failing_spent refl failing_verified (omega arith) (omega arith) (λ key field text s. refl)

-- The user 13 is on the connection 0.
abbrev online : State env
online = record world {
  manager = record {
    pk_to_obj_num = (13, 0) ∷ [];
    conn_users = some (logged_in (codes "kim") 13 (14 ∷ 15 ∷ []) user) ∷ [];
  };
}

user_dis_connect-Left_example :
    Left env 0
      (logged_in (codes "kim") 13 (14 ∷ 15 ∷ []) user)
      (1 ∷ 0 ∷ [])
      online
      (user_dis_connect env 0 online)
unfolding find_user
user_dis_connect-Left_example =
    user_dis_connect-Left env length 0 (logged_in (codes "kim") 13 (14 ∷ 15 ∷ []) user) online 0
      (1 ∷ []) listing-Ends (λ s. refl) refl refl (omega arith)
