-- ===== src/Redis/Samples.antt =====
-- Services and a connection that the tests start from.
use outgame_lobby_server.Prelude.{some, ℕ, [], ◌∷◌, none, replicate}
use outgame_lobby_server.CircularBuffer.{create}
use outgame_lobby_server.ConnUser.{ConnUser}
use outgame_lobby_server.ConnUser.Samples.{quiet_user}
use outgame_lobby_server.Mysql.{Mysql}
use outgame_lobby_server.ConnUser.Samples.{empty_pool}
use outgame_lobby_server.Redis.World.{Environment, State}
use outgame_lobby_server.Redis.Client.{Redis, answered}

-- A Redis that answers every command, and a MySQL that answers every call.
abbrev pub quiet_redis : Redis
quiet_redis = record {
  Store = ℕ;
  hget = λ key field s. (answered none, s);
  hget_all = λ keys field s. (answered [], s);
  hset = λ key field value s. (answered tt, s);
  expire = λ key seconds s. (answered tt, s);
  del = λ key s. (answered tt, s);
  publish = λ channel message s. (answered tt, s);
}

abbrev pub quiet_mysql : Mysql
quiet_mysql = record { Db = ℕ; call = λ c k db. (record { code = 0; column = 0 }, db) }

-- A connection with an empty ring of eight bytes.
abbrev pub user : ConnUser
user = record quiet_user { read_data = replicate 16 0; circular_buffer = create (replicate 8 0) 8 }

abbrev pub env : Environment
env = record {
  redis = quiet_redis;
  mysql = quiet_mysql;
  unset = [];
  padding = [];
  bucket_order = λ groups. groups;
  row_fuel = 1;
}

abbrev pub world : State env
world = record {
  manager = record { pk_to_obj_num = []; conn_users = some user ∷ [] };
  pool = empty_pool;
  requests = [];
  proc_skt_queue = [];
  store = 0;
  sql = record { db_pool = []; permits = 5; database = 0; log = [] };
}
