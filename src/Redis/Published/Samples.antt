-- ===== src/Redis/Published/Samples.antt =====
-- A Redis that keeps what is published, and a server on it.
use outgame_lobby_server.Prelude.{refl, List, [], ◌∷◌, ◌++◌, map, some, Bytes, codes}
use outgame_lobby_server.ConnUser.Samples.{empty_pool}
use outgame_lobby_server.Redis.Client.{Redis, answered}
use outgame_lobby_server.Redis.Samples.{quiet_mysql}
use outgame_lobby_server.Redis.World.{Environment, State}
use outgame_lobby_server.Redis.Published.{Records}

-- A Redis that finds every user on one server, and keeps what is published.
abbrev pub recorder : Redis
recorder = record {
  Store = List (Bytes × Bytes);
  hget = λ key field s. (answered (some (codes "LobbyServer01")), s);
  hget_all =
      λ keys field s. (answered (map (λ _. answered (some (codes "LobbyServer01"))) keys), s);
  hset = λ key field value s. (answered tt, s);
  expire = λ key seconds s. (answered tt, s);
  del = λ key s. (answered tt, s);
  publish = λ channel message s. (answered tt, s ++ (channel, message) ∷ []);
}

abbrev pub env : Environment
env = record {
  redis = recorder;
  mysql = quiet_mysql;
  unset = [];
  padding = [];
  bucket_order = λ groups. groups;
  row_fuel = 1;
}

abbrev pub world : State env
world = record {
  manager = record { pk_to_obj_num = []; conn_users = [] };
  pool = empty_pool;
  requests = [];
  proc_skt_queue = [];
  store = [];
  sql = record { db_pool = []; permits = 5; database = 0; log = [] };
}

pub recorder-Records : Records recorder (λ s. s)
recorder-Records = record {
  answers = λ channel message s. refl;
  recorded = λ channel message s. refl;
  reads = λ keys field s. refl;
}
