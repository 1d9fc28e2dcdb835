-- ===== src/Redis/Tests.antt =====
-- The grouping of targets at concrete replies.
use outgame_lobby_server.Prelude.{
  true, ◌++◌, ◌==◌, if◌then◌else◌, ℕ, ◌≡◌, List, [], ◌∷◌, Option, replicate, refl, arith, none,
  some, Bytes, codes,
}
use outgame_lobby_server.Redis.Client.{Redis, Reply, answered, failed}
use outgame_lobby_server.Effects.{fault, returned, ◌>>◌}
use outgame_lobby_server.CircularBuffer.{create}
use outgame_lobby_server.CircularBuffer.Invariant.{IsValid, create-IsValid}
use outgame_lobby_server.Packet.{PacketInfo, read_u16}
use outgame_lobby_server.ConnUsersManager.{find_user}
use outgame_lobby_server.Redis.Samples.{quiet_redis, user, env, world}
use outgame_lobby_server.Redis.World.{Environment, State, ask, settle}
use outgame_lobby_server.Redis.Thread.{push_redis_packet, redis_thread_round, call_handler}
use outgame_lobby_server.Redis.Delivery.{
  IsInfoOf, redis_thread_round-push_redis_packet, redis_thread_round_unregistered,
}
use outgame_lobby_server.Text.Decimal.{stoul}
use outgame_lobby_server.Redis.Token.{verify_user_token_once}
use outgame_lobby_server.Mysql.Session.{follow, unused, IsSettled, commit_failed}
use outgame_lobby_server.Mysql.Unconfirmed.{FailsToCommit}
use outgame_lobby_server.ConnUser.Samples.{empty_pool}
use outgame_lobby_server.Mysql.{Mysql, Call, Answer, query, commit, stmt_affected_rows}
use outgame_lobby_server.Packet.{request_target_id, action_response, action_response_size}
use outgame_lobby_server.Redis.Users.{process_friend_accept}
use outgame_lobby_server.Redis.Push.{Pushes}
use outgame_lobby_server.Redis.Friends.{
  is_some, process_friend_accept-Pushes, process_friend_accept_unconfirmed,
}
use outgame_lobby_server.Redis.Quiet.{publish_to_users-returns}
use outgame_lobby_server.Redis.Publish.{
  publish_to_users, verify_user_token, accept_token, group_targets,
}
use outgame_lobby_server.Redis.Publish.Targets.{targets_of, located, AreDistinct, group_targets_lem}

-- Two users on the first server with one on the second between them, one user on none, and one whose
-- command failed.
abbrev places : List (Reply (Option Bytes))
places =
    answered (some (codes "a"))
    ∷ answered (some (codes "b"))
    ∷ answered none
    ∷ failed
    ∷ answered (some (codes "a"))
    ∷ []

abbrev friends : List ℕ
friends = 4 ∷ 7 ∷ 8 ∷ 9 ∷ 12 ∷ []

group_targets_lem_example :
    ((server : Bytes)
      → targets_of server (group_targets friends places []) ≡ located server friends places)
    × AreDistinct (group_targets friends places [])
group_targets_lem_example = group_targets_lem friends places

user-IsValid : IsValid user.circular_buffer
user-IsValid = create-IsValid (replicate 8 0) 8 refl (omega arith) (omega arith)

-- A `FRIEND_ACTION_REQUEST`, cut short: its length, and its id 31.
abbrev action_packet : Bytes
action_packet = 4 ∷ 0 ∷ 31 ∷ 0 ∷ []

redis_thread_round-push_redis_packet_example :
    (info : PacketInfo) × (w : State env) × IsInfoOf 0 action_packet info
    × ((push_redis_packet env 0 4 action_packet >> redis_thread_round env) world
        ≡ call_handler env info w)
unfolding find_user create
redis_thread_round-push_redis_packet_example =
    redis_thread_round-push_redis_packet env 0 action_packet user world refl refl user-IsValid refl
      (omega arith) (omega arith) (omega arith) refl

redis_thread_round_unregistered_example :
    (push_redis_packet env 0 4 action_packet >> redis_thread_round env) world ≡ fault
unfolding find_user create read_u16
redis_thread_round_unregistered_example =
    redis_thread_round_unregistered env 0 action_packet user world refl refl user-IsValid refl
      (omega arith) (omega arith) (omega arith) refl refl

-- A Redis that holds the key 13 as the text of every token, until a `DEL`.
abbrev token_redis : Redis
token_redis = record quiet_redis {
  hget = λ key field s. (if s == 0 then answered (some (codes "13")) else answered none, s);
  del = λ key s. (answered tt, 1);
}

abbrev token_env : Environment
token_env = record env { redis = token_redis }

abbrev after_login : State token_env
after_login = record world { store = 1 }

verified :
    verify_user_token token_env (codes "kim") (codes "t") world ≡ returned (some 13) after_login
unfolding verify_user_token accept_token ask settle stoul
verified = refl

verify_user_token_once_example :
    (w : State token_env) × (verify_user_token token_env (codes "kim") (codes "t") after_login
      ≡ returned none w)
verify_user_token_once_example =
    verify_user_token_once token_env (λ key field s e. refl) (codes "kim") (codes "t") (codes "t")
      13 world after_login verified

-- A MySQL manager with a connection.
abbrev served : State env
served = record world { sql = record world.sql { db_pool = 0 ∷ [] } }

abbrev accept_packet : Bytes
accept_packet = replicate 4 0 ++ (codes "kim" ++ replicate 19 0)

process_friend_accept-Pushes_example :
    (result : Option ℕ) × (calls : List (ℕ × Call × ℕ)) × (v : State env) × (v.sql.log
      ≡ [] ++ calls)
    × IsSettled (follow unused calls) result
    × (v.sql.db_pool ≡ 0 ∷ [])
    × (v.sql.permits ≡ 5)
    × (v.requests ≡ [])
    × Pushes env 0 action_response_size
        (action_response (request_target_id accept_packet) (is_some result))
        user
        v
        (process_friend_accept env 0 26 accept_packet served)
unfolding find_user
process_friend_accept-Pushes_example =
    process_friend_accept-Pushes env (λ key field s. (none, refl)) 0 26 accept_packet user served 0
      [] refl refl (omega arith)

-- Every call succeeds, and two rows are changed, but `COMMIT` fails.
abbrev declining_answer : Call → Answer
declining_answer stmt_affected_rows = record { code = 2; column = 0 }
declining_answer (query commit) = record { code = 1; column = 0 }
declining_answer other = record { code = 0; column = 9 }

abbrev declining : Mysql
declining = record { Db = ℕ; call = λ c k db. (declining_answer k, db) }

declining-FailsToCommit : FailsToCommit declining
declining-FailsToCommit = record {
  starts = λ c db. refl;
  prepares = λ c sql db. refl;
  binds = λ c pks db. refl;
  executes = λ c db. refl;
  fetches = λ c db. refl;
  changes = λ c db. refl;
  fails = λ c db. refl;
}

abbrev declining_env : Environment
declining_env = record env { mysql = declining }

abbrev declining_world : State declining_env
declining_world = record {
  manager = record { pk_to_obj_num = []; conn_users = some user ∷ [] };
  pool = empty_pool;
  requests = [];
  proc_skt_queue = [];
  store = 0;
  sql = record { db_pool = 0 ∷ []; permits = 1; database = 0; log = [] };
}

process_friend_accept_unconfirmed_example :
    (calls : List (ℕ × Call × ℕ)) × (v : State declining_env) × (v.sql.log ≡ [] ++ calls)
    × ((follow unused calls).stage ≡ commit_failed)
    × (v.requests ≡ [])
    × Pushes declining_env 0 action_response_size
        (action_response (request_target_id accept_packet) true)
        user
        v
        (process_friend_accept declining_env 0 26 accept_packet declining_world)
unfolding find_user
process_friend_accept_unconfirmed_example =
    process_friend_accept_unconfirmed declining_env (λ key field s. (none, refl)) 0 26 accept_packet
      user declining_world 0 [] declining-FailsToCommit refl refl (omega arith)

publish_to_users-returns_example :
    (s : ℕ) × (publish_to_users env friends (codes "{}") world
      ≡ returned tt (record world { store = s }))
publish_to_users-returns_example = publish_to_users-returns env friends (codes "{}") world
