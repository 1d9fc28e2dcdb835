-- ===== src/Server/Ownership/Start.antt =====
-- `OverLappedManager::init` and `StartWork`: who holds the objects at first.
use outgame_lobby_server.Prelude.{
  ℕ, zero, suc, ◌+◌, ◌≡◌, refl, ap, ◌∙◌, List, [], ◌∷◌, ◌++◌, Option, none, some, arith, set,
  replicate, true, Bool-cases, inl, inr, ◌==◌,
}
use outgame_lobby_server.Overlapped.{
  OverLappedManager, fill, init, new_overlapped, overlapped_queue_size,
}
use outgame_lobby_server.ConnUser.{ConnUser, create_user}
use outgame_lobby_server.ConnUsersManager.{create_manager, insert_user}
use outgame_lobby_server.Server.{
  Lobby, Supply, start_work, create_users, start_user, add_user, new_user,
}
use outgame_lobby_server.Server.Ownership.{waits, pooled}
use outgame_lobby_server.Server.Ownership.Counts.{count-append, new_overlapped-pooled}
use outgame_lobby_server.Server.Ownership.Flights.{
  Traffic, Reach, HaveOneHolder, Reach-HaveOneHolder, Once-HaveOneHolder,
}

-- A pool before `init`.
abbrev pub empty_pool : OverLappedManager
empty_pool = record { ov_lap_pool = []; allocated = 0 }

pooled-fill : (n k : ℕ) (m : OverLappedManager) → pooled n (fill k m) ≡ pooled n m
unfolding fill
pooled-fill n zero m = refl
pooled-fill n (suc k) m =
    let (o, m') = new_overlapped m in
    pooled-fill n k (record m' { ov_lap_pool = m'.ov_lap_pool ++ o ∷ [] })
    ∙ omega (arith, new_overlapped-pooled n m, count-append n m'.ov_lap_pool (o ∷ []))

waits-none : (n k : ℕ) → waits n (replicate k none) ≡ 0
waits-none n zero = refl
waits-none n (suc k) = waits-none n k

waits-new :
    (n k : ℕ) (v : ConnUser) (users : List (Option ConnUser))
    → v.send_queue ≡ []
    → waits n users ≡ 0
    → waits n (set users k (some v)) ≡ 0
waits-new n k v [] e h = refl
waits-new n zero v (none ∷ users) e h = rw e (omega (arith, h))
waits-new n zero v (some u ∷ users) e h = rw e (omega (arith, h))
waits-new n (suc k) v (none ∷ users) e h = waits-new n k v users e h
waits-new n (suc k) v (some u ∷ users) e h =
    omega (arith, h, waits-new n k v users e (omega (arith, h)))

waits-start_user :
    (s : Supply) (n i : ℕ) (l : Lobby)
    → waits n l.manager.conn_users ≡ 0
    → waits n (start_user s i l).manager.conn_users ≡ 0
unfolding start_user add_user insert_user create_user
waits-start_user s n i l h = elim (Bool-cases (i == 11)) [
  | inl e ↦ rw e h
  | inr e ↦ rw e (waits-new n i (new_user s i) l.manager.conn_users refl h)
]

waits-create_users :
    (s : Supply) (n k i : ℕ) (l : Lobby)
    → waits n l.manager.conn_users ≡ 0
    → waits n (create_users s k i l).manager.conn_users ≡ 0
unfolding create_users
waits-create_users s n zero i l h = h
waits-create_users s n (suc k) i l h =
    waits-create_users s n k (i + 1) (start_user s i l) (waits-start_user s n i l h)

create_users-pool : (s : Supply) (k i : ℕ) (l : Lobby) → (create_users s k i l).pool ≡ l.pool
unfolding create_users start_user add_user
create_users-pool s zero i l = refl
create_users-pool s (suc k) i l =
    create_users-pool s k (i + 1) (start_user s i l)
    ∙ elim (Bool-cases (i == 11)) [ inl e ↦ rw e refl | inr e ↦ rw e refl ]

-- A server as `init` and `StartWork` leave it.
abbrev pub started : Supply → Lobby → Traffic
started s l = record {
  lobby = (start_work s true true (record l { pool = init empty_pool })).1;
  in_flight = [];
}

fresh-HaveOneHolder :
    (l : Lobby)
    → ((n : ℕ) → pooled n l.pool ≡ 1)
    → ((n : ℕ) → waits n l.manager.conn_users ≡ 0)
    → HaveOneHolder (record { lobby = l; in_flight = [] })
fresh-HaveOneHolder l p w =
    Once-HaveOneHolder (record { lobby = l; in_flight = [] }) (λ n. omega (arith, p n, w n))

-- An object that is not made stands in its one place.
pooled-init : (n : ℕ) → pooled n (init empty_pool) ≡ 1
unfolding init
pooled-init n = pooled-fill n overlapped_queue_size empty_pool ∙ ground arith

started-HaveOneHolder : (s : Supply) (l : Lobby) → HaveOneHolder (started s l)
unfolding start_work create_manager
started-HaveOneHolder s l =
    let before : Lobby = record l {
      pool = init empty_pool;
      manager = create_manager l.max_client_count;
      work_run = true;
      accepter_run = true;
    } in
    fresh-HaveOneHolder (create_users s l.max_client_count 0 before)
      (λ n. ap (pooled n) (create_users-pool s l.max_client_count 0 before) ∙ pooled-init n)
      (λ n. waits-create_users s n l.max_client_count 0 before (waits-none n l.max_client_count))

-- On a server that `OverLappedManager::init` and a successful `StartWork` have started, whatever the threads
-- do, in whatever order, while the system finishes with an object once each time that it took it up: each object
-- that `new` made stands in one place at most, and once, of the pool, the queues of the
-- connections and the objects in flight, and one that is not made yet stands in none.
pub Reach_started-HaveOneHolder :
    (s : Supply) (l : Lobby) {t : Traffic} → Reach (started s l) t → HaveOneHolder t
Reach_started-HaveOneHolder s l r = Reach-HaveOneHolder r (started-HaveOneHolder s l)
