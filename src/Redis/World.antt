-- ===== src/Redis/World.antt =====
-- The state that the packet handlers work on, and the access to its parts.
use outgame_lobby_server.Prelude.{ℕ, List, ◌++◌, Option, none, some, Bytes, codes, redis_error}
use outgame_lobby_server.Effects.{M, returned, raised, fault, zoom, modify, ◌>>=◌}
use outgame_lobby_server.Overlapped.{OverLappedManager}
use outgame_lobby_server.Packet.{DataPacket}
use outgame_lobby_server.ConnUser.{ConnUser, Request, push_send_msg}
use outgame_lobby_server.ConnUsersManager.{ConnUsersManager, find_user, insert_user}
use outgame_lobby_server.Mysql.{Mysql, MySqlManager}
use outgame_lobby_server.Text.Decimal.{to_string}
use outgame_lobby_server.Redis.Client.{Redis, Reply, answered, failed}

-- The servers of the targets of an event, with the targets of each.
abbrev pub Groups : Type 0
Groups = List (Bytes × List ℕ)

-- What the program does not fix: the two services, the unset bytes of a new buffer, the padding of a
-- packet, the iteration order of an `unordered_map`, and fuel for the rows of a query.
pub record Environment : Type 1 where
  pub redis : Redis
  pub mysql : Mysql
  pub unset : Bytes
  pub padding : Bytes
  pub bucket_order : Groups → Groups
  pub row_fuel : ℕ

pub record World (S D : Type 0) : Type 0 where
  pub manager : ConnUsersManager
  pub pool : OverLappedManager
  pub requests : List Request
  pub proc_skt_queue : List DataPacket
  pub store : S
  pub sql : MySqlManager D

-- The Redis key of a user.
unfoldable pub user_key : ℕ → Bytes
user_key pk = codes "user:" ++ to_string pk

module _ (env : Environment) where
  abbrev pub State : Type 0
  State = World env.redis.Store env.mysql.Db

  abbrev pub Server : Type 0 → Type 0
  Server A = M State A

  -- A command of Redis; a failure is thrown.
  unfoldable pub settle : {A : Type 0} → Reply A → Server A
  settle (answered a) w = returned a w
  settle failed w = raised redis_error w

  unfoldable pub ask : {A : Type 0} → (env.redis.Store → Reply A × env.redis.Store) → Server A
  unfolding settle
  ask command w = let (reply, store) = command w.store in settle reply (record w { store = store })

  abbrev pub on_sql : {A : Type 0} → M (MySqlManager env.mysql.Db) A → Server A
  on_sql = zoom (λ (w : State). w.sql) (λ sql w. record w { sql = sql })

  -- The object behind `FindUser`; the code goes through the pointer without a test.
  unfoldable pub reach : Option ConnUser → Server ConnUser
  reach none w = fault
  reach (some u) w = returned u w

  unfoldable pub user_at : ℕ → Server ConnUser
  unfolding reach
  user_at num w = reach (find_user num w.manager) w

  unfoldable pub put_user : ℕ → ConnUser → Server (Unit {0})
  put_user num u = modify λ w. record w { manager = insert_user num u w.manager }

  -- `PushSendMsg` of the object `u` with number `num`.
  unfoldable pub send_from : (num size : ℕ) → Bytes → ConnUser → Server (Unit {0})
  send_from num size packet u w =
      let (pool, u', requests) = push_send_msg env.unset size packet w.pool u in
      returned tt (record w {
        pool = pool;
        manager = insert_user num u' w.manager;
        requests = w.requests ++ requests;
      })

  -- `FindUser(num)->PushSendMsg(size, packet)`
  unfoldable pub push_to : (num size : ℕ) → Bytes → Server (Unit {0})
  unfolding send_from
  push_to num size packet = do u ← user_at num; send_from num size packet u
