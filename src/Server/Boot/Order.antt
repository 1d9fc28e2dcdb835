-- ===== src/Server/Boot/Order.antt =====
-- How far `init` comes.
use outgame_lobby_server.Prelude.{
  ℕ, Bool, true, false, List, [], ◌∷◌, none, some, ◌≡◌, refl, if◌then◌else◌, ◌&&◌,
}
use outgame_lobby_server.Overlapped
use outgame_lobby_server.Heartbeat.{create}
use outgame_lobby_server.Server.Threads.{max_thread_count}
use outgame_lobby_server.Server.Boot.{
  Call, wsa_startup, wsa_socket, bind, listen, create_port, associate_port, Machine, Boot, Booted,
  returns, throws, new_pool, init, finish_init,
}

-- The calls of a start without failures, and whether each succeeds.
abbrev pub plan : Machine → List (Call × Bool)
plan m =
    (wsa_startup, m.starts)
    ∷ (wsa_socket, m.has_socket)
    ∷ (bind 9001, m.binds)
    ∷ (listen, m.listens)
    ∷ (create_port max_thread_count, m.has_port)
    ∷ (associate_port, m.associates)
    ∷ []

-- The calls up to the first that fails.
abbrev pub attempted : List (Call × Bool) → List Call
attempted [] = []
attempted ((call, true) ∷ rest) = call ∷ attempted rest
attempted ((call, false) ∷ rest) = call ∷ []

abbrev pub all_succeed : List (Call × Bool) → Bool
all_succeed [] = true
all_succeed ((call, true) ∷ rest) = all_succeed rest
all_succeed ((call, false) ∷ rest) = false

abbrev pub succeeds : Booted → Bool
succeeds (returns ok b) = ok
succeeds (throws b) = false

abbrev pub after : Booted → Boot
after (returns ok b) = b
after (throws b) = b

-- The server before `init`.
abbrev pub fresh : ℕ → Boot
fresh server_id = record {
  calls = [];
  max_thread_cnt = 0;
  overlapped = none;
  heartbeat = create server_id;
  subscribing = false;
}

-- What `init` comes to on the machine `m`.
pub record Comes (m : Machine) (r : Booted) : Type 0 where
  pub called : (after r).calls ≡ attempted (plan m)
  pub succeeded : succeeds r ≡ (all_succeed (plan m) && m.redis_connected)
  pub pooled :
      (after r).overlapped
      ≡ (if all_succeed (plan m) then some (Overlapped.init new_pool) else none)
  pub beating : (after r).heartbeat.running ≡ succeeds r
  pub subscribed : (after r).subscribing ≡ succeeds r

abbrev machine :
    (starts has_socket binds listens has_port associates redis_connected mysql_ready : Bool)
    → Machine
machine s h b l p a r q = record {
  starts = s;
  has_socket = h;
  binds = b;
  listens = l;
  has_port = p;
  associates = a;
  redis_connected = r;
  mysql_ready = q;
}

init-Comes_cases :
    (s h b l p a r q : Bool) (id : ℕ)
    → Comes (machine s h b l p a r q) (init (machine s h b l p a r q) (fresh id))
unfolding init finish_init
init-Comes_cases false h b l p a r q id = record {
  called = refl;
  succeeded = refl;
  pooled = refl;
  beating = refl;
  subscribed = refl;
}
init-Comes_cases true false b l p a r q id = record {
  called = refl;
  succeeded = refl;
  pooled = refl;
  beating = refl;
  subscribed = refl;
}
init-Comes_cases true true false l p a r q id = record {
  called = refl;
  succeeded = refl;
  pooled = refl;
  beating = refl;
  subscribed = refl;
}
init-Comes_cases true true true false p a r q id = record {
  called = refl;
  succeeded = refl;
  pooled = refl;
  beating = refl;
  subscribed = refl;
}
init-Comes_cases true true true true false a r q id = record {
  called = refl;
  succeeded = refl;
  pooled = refl;
  beating = refl;
  subscribed = refl;
}
init-Comes_cases true true true true true false r q id = record {
  called = refl;
  succeeded = refl;
  pooled = refl;
  beating = refl;
  subscribed = refl;
}
init-Comes_cases true true true true true true false q id = record {
  called = refl;
  succeeded = refl;
  pooled = refl;
  beating = refl;
  subscribed = refl;
}
init-Comes_cases true true true true true true true q id = record {
  called = refl;
  succeeded = refl;
  pooled = refl;
  beating = refl;
  subscribed = refl;
}

-- Whatever succeeds: `init` makes the calls of the system in order, up to the first that fails, binding the
-- port 9001. It returns true exactly if all succeed and Redis is connected; only then are the heartbeat and the
-- subscriber started. The pool of overlapped objects is made once all calls have succeeded.
pub init-Comes : (m : Machine) (id : ℕ) → Comes m (init m (fresh id))
init-Comes m id =
    init-Comes_cases m.starts m.has_socket m.binds m.listens m.has_port m.associates
      m.redis_connected m.mysql_ready id
