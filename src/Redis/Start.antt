-- ===== src/Redis/Start.antt =====
-- RedisManager.cpp: `Init`, `RedisRun`, `CreateRedisThread` and `GetRedis`.
use outgame_lobby_server.Prelude.{
  ℕ, zero, suc, ◌+◌, Bool, true, false, List, [], Option, none, some, Bytes, codes, ◌∷◌,
  redis_error, if◌then◌else◌, ◌≡◌, refl, arith, runtime_error, ap, ◌∙◌,
}
use outgame_lobby_server.Effects.{M, returned, raised, pure, modify, ◌>>=◌, ◌>>◌}
use outgame_lobby_server.Packet.{user_lobby_connect_request}

-- `host` and `port`
abbrev redis_host : Bytes
redis_host = codes "127.0.0.1"

abbrev redis_port : ℕ
redis_port = 6379

-- What `RedisRun` sets of `sw::redis::ConnectionOptions`; the time-out is in seconds.
pub record ConnectionOptions : Type 0 where
  pub host : Bytes
  pub port : ℕ
  pub socket_timeout : ℕ
  pub keep_alive : Bool

abbrev connection_options : ConnectionOptions
connection_options = record {
  host = redis_host;
  port = redis_port;
  socket_timeout = 10;
  keep_alive = true;
}

-- The members of `RedisManager` that the start sets: the ids with an entry in `packetIDTable`, the
-- client object by its options, whether the table of connections is there, and the threads of
-- `redisThreads`.
pub record Setup : Type 0 where
  pub packet_id_table : List ℕ
  pub redis : Option ConnectionOptions
  pub has_users : Bool
  pub redis_threads : ℕ
  pub redis_run : Bool

-- `n` rounds of `emplace_back`, given whether a thread can be created beside so many others.
unfoldable pub add_threads : (ℕ → Bool) → ℕ → ℕ → Bool × ℕ
add_threads can_create zero threads = (true, threads)
add_threads can_create (suc n) threads =
    let more = add_threads can_create n (threads + 1) in
    if can_create threads then more else (false, threads)

unfoldable pub create_redis_thread : (ℕ → Bool) → ℕ → M Setup Bool
unfolding add_threads
create_redis_thread can_create n s =
    let (done, threads) = add_threads can_create n s.redis_threads in
    returned done (record s { redis_run = true; redis_threads = threads })

-- `RedisRun`, given whether the server answers the `PING`. The result of `CreateRedisThread` is not
-- looked at; the error of Redis is thrown again.
unfoldable pub redis_run : (answers : Bool) → (ℕ → Bool) → ℕ → M Setup (Unit {0})
unfolding create_redis_thread
redis_run true can_create n = do
  modify λ s. record s { redis = some connection_options }
  _ ← create_redis_thread can_create n
  pure tt
redis_run false can_create n =
    λ s. raised redis_error (record s { redis = some connection_options })

-- `SetConnUsersManager`
unfoldable pub set_conn_users_manager : Setup → Setup
set_conn_users_manager s = record s { has_users = true }

-- The destructor, once the threads have left.
unfoldable pub destroy : Setup → Setup
destroy s = record s { redis_run = false; redis_threads = 0 }

-- `GetRedis`
unfoldable pub get_redis : M Setup ConnectionOptions
get_redis s = elim s.redis [ none ↦ raised runtime_error s | some client ↦ returned client s ]

-- `Init`
unfoldable pub init : (answers : Bool) → (ℕ → Bool) → ℕ → M Setup (Unit {0})
unfolding redis_run
init answers can_create n = do
  modify λ s. record s { packet_id_table = user_lobby_connect_request ∷ [] }
  redis_run answers can_create n

add_threads_all :
    (can_create : ℕ → Bool) (n threads : ℕ)
    → ((k : ℕ) → can_create k ≡ true)
    → add_threads can_create n threads ≡ (true, threads + n)
unfolding add_threads
add_threads_all can_create zero threads all = ap (λ k. (true, k)) (omega arith)
add_threads_all can_create (suc n) threads all =
    rw (all threads)
      (add_threads_all can_create n (threads + 1) all ∙ ap (λ k. (true, k)) (omega arith))

-- With threads that can be created and a Redis that answers, `Init` leaves one id with a handler, and
-- `n` threads more; without an answer it throws, and `GetRedis` returns all the same.
pub init_lem :
    (can_create : ℕ → Bool) (n : ℕ) (s : Setup)
    → ((k : ℕ) → can_create k ≡ true)
    → (init true can_create n s
        ≡ returned tt (record {
          packet_id_table = user_lobby_connect_request ∷ [];
          redis = some connection_options;
          has_users = s.has_users;
          redis_threads = s.redis_threads + n;
          redis_run = true;
        }))
      × ((v : Setup) × (init false can_create n s ≡ raised redis_error v)
          × (get_redis v ≡ returned connection_options v))
unfolding init redis_run create_redis_thread get_redis
init_lem can_create n s all =
    (rw (add_threads_all can_create n s.redis_threads all) refl, (_, refl, refl))
