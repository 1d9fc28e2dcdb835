-- ===== src/Server/Users.antt =====
-- What holds of the connection objects, the accept queue and the requests while the server runs.
use outgame_lobby_server.Prelude.{
  ℕ, ◌<◌, ◌≡◌, refl, List, ◌++◌, some, All, All-append, All-mono, length, arith, ◌==◌, ==_iff,
  Bool-cases, inl, inr,
}
use outgame_lobby_server.Overlapped.{Overlapped}
use outgame_lobby_server.ConnUser.{ConnUser, Request, wsa_send, wsa_recv, accept_ex, close_socket}
use outgame_lobby_server.ConnUsersManager.{ConnUsersManager, find_user, insert_user}
use outgame_lobby_server.ConnUsersManager.Laws.{find_user-insert_user, find_user-lt}
use outgame_lobby_server.Server.{Lobby}

-- A number that `FindUser` knows.
abbrev pub IsKnown : ConnUsersManager → ℕ → Type 0
IsKnown m n = (u : ConnUser) × (find_user n m ≡ some u)

abbrev pub NamesOne : ConnUsersManager → Overlapped → Type 0
NamesOne m o = IsKnown m o.conn_obj_num

-- The object that a request carries names a known user.
abbrev pub CarriesKnown : ConnUsersManager → Request → Type 0
CarriesKnown m (wsa_send s o) = NamesOne m o
CarriesKnown m (wsa_recv s o) = NamesOne m o
CarriesKnown m (accept_ex s o) = NamesOne m o
CarriesKnown m (close_socket s) = Unit {0}

-- An object has its place in the table for a number, and so do the objects that it wants to send.
pub record IsOwn (n : ℕ) (u : ConnUser) : Type 0 where
  pub numbered : u.conn_obj_num ≡ n
  pub queued : All (λ (o : Overlapped). o.conn_obj_num ≡ n) u.send_queue

-- Every number in the queue, and every number that a request names, belongs to an object.
pub record IsServing (l : Lobby) : Type 0 where
  pub waiting : All (IsKnown l.manager) l.accept_queue
  pub carried : All (CarriesKnown l.manager) l.requests
  pub own : (n : ℕ) (u : ConnUser) → find_user n l.manager ≡ some u → IsOwn n u

-- An object put in the table makes no number unknown.
pub insert_user-IsKnown :
    (n k : ℕ) (u : ConnUser) (m : ConnUsersManager)
    → n < length m.conn_users
    → IsKnown m k
    → IsKnown (insert_user n u m) k
insert_user-IsKnown n k u m h (v, e) = elim (Bool-cases (n == k)) [
  | inl t ↦ (u, rw (find_user-insert_user n k u m h, t) refl)
  | inr t ↦ (v, rw (find_user-insert_user n k u m h, t) e)
]

pub insert_user-IsOwn :
    (n : ℕ) (u : ConnUser) (m : ConnUsersManager)
    → n < length m.conn_users
    → IsOwn n u
    → ((k : ℕ) (v : ConnUser) → find_user k m ≡ some v → IsOwn k v)
    → (k : ℕ) (v : ConnUser) → find_user k (insert_user n u m) ≡ some v
    → IsOwn k v
insert_user-IsOwn n u m h o own k v e =
    let found = find_user-insert_user n k u m h in
    elim (Bool-cases (n == k)) [
      | inl t ↦ let same : u ≡ v = ground (arith, found) in rw (← same, ← (==_iff n k).0 t) o
      | inr t ↦ own k v (ground (arith, found))
    ]

pub CarriesKnown-mono :
    (m m' : ConnUsersManager)
    → ((k : ℕ) → IsKnown m k → IsKnown m' k)
    → (r : Request) → CarriesKnown m r
    → CarriesKnown m' r
CarriesKnown-mono m m' h (wsa_send s o) c = h _ c
CarriesKnown-mono m m' h (wsa_recv s o) c = h _ c
CarriesKnown-mono m m' h (accept_ex s o) c = h _ c
CarriesKnown-mono m m' h (close_socket s) c = c

-- A method of the object `n` has run: the object is still in its place, and the new requests name
-- numbers that were known.
pub stored-IsServing :
    (n : ℕ) (u : ConnUser) (requests : List Request) {l : Lobby}
    → IsKnown l.manager n
    → IsOwn n u
    → All (CarriesKnown l.manager) requests
    → IsServing l
    → IsServing
        (record l { manager = insert_user n u l.manager; requests = l.requests ++ requests })
stored-IsServing n u requests {l} h o c v =
    let lt : n < length l.manager.conn_users = find_user-lt n l.manager h.0 h.1 in
    let m' : ConnUsersManager = insert_user n u l.manager in
    let keep : (k : ℕ) → IsKnown l.manager k → IsKnown m' k =
      λ k. insert_user-IsKnown n k u l.manager lt in
    record {
      waiting = All-mono keep l.accept_queue v.waiting;
      carried =
          All-append _ l.requests requests
            (All-mono (CarriesKnown-mono l.manager m' keep) l.requests v.carried)
            (All-mono (CarriesKnown-mono l.manager m' keep) requests c);
      own = insert_user-IsOwn n u l.manager lt o v.own;
    }
