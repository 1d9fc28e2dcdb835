-- ===== src/Server/Start.antt =====
-- `StartWork` makes a connection object for every number of the table but 11, and the server is in order.
use outgame_lobby_server.Prelude.{
  ℕ, zero, suc, ◌+◌, ◌≤◌, ◌<◌, ◌≡◌, ◌≢◌, refl, ◌∙◌, [], ◌∷◌, none, some, All-append, All-mono,
  length, length-set, length-replicate, arith, ◌==◌, leb, ltb, ◌&&◌, not, if◌then◌else◌, Bool, true,
  Bool-cases, inl, inr,
}
use outgame_lobby_server.ConnUser.{ConnUser, create_user}
use outgame_lobby_server.ConnUsersManager.{ConnUsersManager, create_manager, find_user, insert_user}
use outgame_lobby_server.ConnUsersManager.Laws.{find_user-insert_user}
use outgame_lobby_server.Server.{
  Lobby, Supply, new_user, add_user, start_user, create_users, start_work,
}
use outgame_lobby_server.Server.Users.{
  IsKnown, IsOwn, IsServing, CarriesKnown-mono, insert_user-IsKnown, insert_user-IsOwn,
}

-- The numbers from `i` on, `n` of them, but for 11.
abbrev pub is_made : ℕ → ℕ → ℕ → Bool
is_made i n k = leb i k && ltb k (i + n) && not (k == 11)

module _ (s : Supply) where
  find_user-add_user :
      (i k : ℕ) (l : Lobby)
      → i < length l.manager.conn_users
      → find_user k (add_user s i l).manager
        ≡ (if i == k then some (new_user s i) else find_user k l.manager)
  unfolding add_user
  find_user-add_user i k l h = find_user-insert_user i k (new_user s i) l.manager h

  length-add_user :
      (i : ℕ) (l : Lobby) → length (add_user s i l).manager.conn_users ≡ length l.manager.conn_users
  unfolding add_user insert_user
  length-add_user i l = length-set l.manager.conn_users i _

  find_user-start_user :
      (i k : ℕ) (l : Lobby)
      → i < length l.manager.conn_users
      → find_user k (start_user s i l).manager
        ≡ (if i == k && not (k == 11) then some (new_user s k) else find_user k l.manager)
  unfolding start_user
  find_user-start_user i k l h = ground (arith, find_user-add_user i k l h)

  length-start_user :
      (i : ℕ) (l : Lobby)
      → length (start_user s i l).manager.conn_users ≡ length l.manager.conn_users
  unfolding start_user
  length-start_user i l = ground (arith, length-add_user i l)

  find_user-create_users :
      (n i k : ℕ) (l : Lobby)
      → i + n ≤ length l.manager.conn_users
      → find_user k (create_users s n i l).manager
        ≡ (if is_made i n k then some (new_user s k) else find_user k l.manager)
  unfolding create_users
  find_user-create_users zero i k l h = ground arith
  find_user-create_users (suc n) i k l h =
      rw
        (
          find_user-create_users n (i + 1) k (start_user s i l)
              (omega (arith, length-start_user i l)),
          find_user-start_user i k l (omega arith),
        )
        (ground arith)

  new_user-IsOwn : (i : ℕ) → IsOwn i (new_user s i)
  unfolding create_user
  new_user-IsOwn i = record { numbered = refl; queued = tt }

  add_user-IsServing :
      (i : ℕ) (l : Lobby)
      → i < length l.manager.conn_users
      → IsServing l
      → IsServing (add_user s i l)
  unfolding add_user
  add_user-IsServing i l h v =
      let m : ConnUsersManager = insert_user i (new_user s i) l.manager in
      let keep : (k : ℕ) → IsKnown l.manager k → IsKnown m k =
        λ k. insert_user-IsKnown i k (new_user s i) l.manager h in
      record {
        waiting = All-append _ l.accept_queue (i ∷ []) (All-mono keep l.accept_queue v.waiting) (
          (new_user s i, ground (arith, find_user-insert_user i i (new_user s i) l.manager h)),
          tt,
        );
        carried = All-mono (CarriesKnown-mono l.manager m keep) l.requests v.carried;
        own = insert_user-IsOwn i (new_user s i) l.manager h (new_user-IsOwn i) v.own;
      }

  start_user-IsServing :
      (i : ℕ) (l : Lobby)
      → i < length l.manager.conn_users
      → IsServing l
      → IsServing (start_user s i l)
  unfolding start_user
  start_user-IsServing i l h v = elim (Bool-cases (i == 11)) [
    | inl e ↦ rw e v
    | inr e ↦ rw e (add_user-IsServing i l h v)
  ]

  create_users-IsServing :
      (n i : ℕ) (l : Lobby)
      → i + n ≤ length l.manager.conn_users
      → IsServing l
      → IsServing (create_users s n i l)
  unfolding create_users
  create_users-IsServing zero i l h v = v
  create_users-IsServing (suc n) i l h v =
      create_users-IsServing n (i + 1) (start_user s i l) (omega (arith, length-start_user i l))
        (start_user-IsServing i l (omega arith) v)

find_user-create_manager : (n k : ℕ) → find_user k (create_manager n) ≡ none
unfolding find_user create_manager
find_user-create_manager zero k = refl
find_user-create_manager (suc n) zero = refl
find_user-create_manager (suc n) (suc k) = find_user-create_manager n k

length-create_manager : (n : ℕ) → length (create_manager n).conn_users ≡ n
unfolding create_manager
length-create_manager n = length-replicate n none

none-some : (u : ConnUser) → none ≢ some u
none-some u e = cc

-- With threads that could be created, `StartWork` succeeds: `FindUser` finds a fresh object with its
-- number for every number below `maxClientCount` but 11, and no other, and the server is in order.
pub start_work_lem :
    (s : Supply) (l : Lobby)
    → l.accept_queue ≡ []
    → l.requests ≡ []
    → let (done, l') = start_work s true true l in
      (done ≡ true)
      × ((k : ℕ)
          → find_user k l'.manager
            ≡ (if is_made 0 l.max_client_count k then some (new_user s k) else none))
      × IsServing l'
unfolding start_work
start_work_lem s l no_queue no_requests = (
  refl,
  λ k.
      find_user-create_users s l.max_client_count 0 k l₀ fits
      ∙ rw (find_user-create_manager l.max_client_count k) refl,
  create_users-IsServing s l.max_client_count 0 l₀ fits fresh,
)
  where
    l₀ : Lobby
    l₀ = record l {
      manager = create_manager l.max_client_count;
      work_run = true;
      accepter_run = true;
    }

    fits : 0 + l.max_client_count ≤ length l₀.manager.conn_users
    fits = omega (arith, length-create_manager l.max_client_count)

    fresh : IsServing l₀
    fresh = record {
      waiting = rw no_queue tt;
      carried = rw no_requests tt;
      own = λ n u e. absurd (none-some u (rw (find_user-create_manager l.max_client_count n) at e));
    }
