-- ===== src/Server/Ownership/Counts.antt =====
-- How the operations on the pool and on a connection move the objects.
use outgame_lobby_server.Prelude.{
  ℕ, zero, suc, ◌+◌, ◌≡◌, refl, List, [], ◌∷◌, ◌++◌, Option, none, some, Bytes, get_elem?, set,
  arith, Option-cases, Bool-cases, inl, inr, ◌⊎◌, ◌==◌,
}
use outgame_lobby_server.Overlapped.{
  Overlapped, OverLappedManager, get_ov_lap, take_front, new_overlapped, return_ov_lap,
}
use outgame_lobby_server.ConnUser.{
  ConnUser, Request, wsa_send, wsa_recv, accept_ex, close_socket, send_object, send_if_single,
  proc_send, send_front,
}
use outgame_lobby_server.ConnUsersManager.{ConnUsersManager, find_user, insert_user}
use outgame_lobby_server.Server.Ownership.{count, waits, asked, pooled}

pub count-append : (n : ℕ) (os ps : List Overlapped) → count n (os ++ ps) ≡ count n os + count n ps
count-append n [] ps = omega arith
count-append n (o ∷ os) ps = omega (arith, count-append n os ps)

pub asked-append : (n : ℕ) (rs qs : List Request) → asked n (rs ++ qs) ≡ asked n rs + asked n qs
asked-append n [] qs = omega arith
asked-append n (wsa_send s o ∷ rs) qs = omega (arith, asked-append n rs qs)
asked-append n (wsa_recv s o ∷ rs) qs = omega (arith, asked-append n rs qs)
asked-append n (accept_ex s o ∷ rs) qs = omega (arith, asked-append n rs qs)
asked-append n (close_socket s ∷ rs) qs = asked-append n rs qs

waits-set :
    (n k : ℕ) (u v : ConnUser) (users : List (Option ConnUser))
    → get_elem? users k ≡ some (some u)
    → waits n (set users k (some v)) + count n u.send_queue ≡ waits n users + count n v.send_queue
waits-set n k u v [] e = absurd (let nobody : ⊥ = cc in nobody)
waits-set n zero u v (o ∷ users) e = let same : o ≡ some u = cc in rw same (omega arith)
waits-set n (suc k) u v (none ∷ users) e = waits-set n k u v users e
waits-set n (suc k) u v (some x ∷ users) e = omega (arith, waits-set n k u v users e)

-- A changed object in the table.
pub waits-insert_user :
    (n k : ℕ) (u v : ConnUser) (m : ConnUsersManager)
    → find_user k m ≡ some u
    → waits n (insert_user k v m).conn_users + count n u.send_queue
      ≡ waits n m.conn_users + count n v.send_queue
unfolding find_user insert_user
waits-insert_user n k u v m e = elim (Option-cases (get_elem? m.conn_users k)) [
  | inl q ↦ let none_there : none ≡ some u = rw q at e in let nobody : ⊥ = cc in absurd nobody
  | inr (o, q) ↦ let held : o ≡ some u = rw q at e in waits-set n k u v m.conn_users (rw held at q)
]

pool-cases :
    (q : List Overlapped)
    → (q ≡ []) ⊎ ((o : Overlapped) × (rest : List Overlapped) × (q ≡ o ∷ rest))
pool-cases [] = inl refl
pool-cases (o ∷ rest) = inr (o, rest, refl)

get_ov_lap-nil : (m : OverLappedManager) → m.ov_lap_pool ≡ [] → get_ov_lap m ≡ (none, m)
unfolding get_ov_lap take_front
get_ov_lap-nil m e = rw e refl

get_ov_lap-cons :
    (m : OverLappedManager) (o : Overlapped) (rest : List Overlapped)
    → m.ov_lap_pool ≡ o ∷ rest
    → get_ov_lap m ≡ (some o, record m { ov_lap_pool = rest })
unfolding get_ov_lap take_front
get_ov_lap-cons m o rest e = rw e refl

-- `getOvLap` gives an object of the pool.
pub get_ov_lap-some :
    (n : ℕ) (m : OverLappedManager) (o : Overlapped)
    → (get_ov_lap m).0 ≡ some o
    → pooled n (get_ov_lap m).1 + count n (o ∷ []) ≡ pooled n m
get_ov_lap-some n m o e = elim (pool-cases m.ov_lap_pool) [
  | inl q ↦
      let none_there : none ≡ some o = rw (get_ov_lap-nil m q) at e in
      let nobody : ⊥ = cc in absurd nobody
  | inr (p, rest, q) ↦
      let same : some p ≡ some o = rw (get_ov_lap-cons m p rest q) at e in
      let po : p ≡ o = cc in rw (get_ov_lap-cons m p rest q, q, po) (omega arith)
]

pub new_overlapped-pooled :
    (n : ℕ) (m : OverLappedManager)
    → pooled n (new_overlapped m).1 + count n ((new_overlapped m).0 ∷ []) ≡ pooled n m
unfolding new_overlapped
new_overlapped-pooled n m = ground arith

-- The object that `PushSendMsg` puts into the queue leaves the pool, or is new.
pub send_object-pooled :
    (n : ℕ) (buffer : Bytes) (m : OverLappedManager) (u : ConnUser)
    → let (o, m') = send_object buffer m u in pooled n m' + count n (o ∷ []) ≡ pooled n m
unfolding send_object new_overlapped get_ov_lap
send_object-pooled n buffer m u = elim (pool-cases m.ov_lap_pool) [
  | inl q ↦
      rw (get_ov_lap-nil m q, send_object) (rw (get_ov_lap-nil m q) (new_overlapped-pooled n m))
  | inr (p, rest, q) ↦ rw (get_ov_lap-cons m p rest q, send_object) (rw q (omega arith))
]

pub return_ov_lap-pooled :
    (n : ℕ) (o : Overlapped) (m : OverLappedManager)
    → pooled n (return_ov_lap o m) ≡ pooled n m + count n (o ∷ [])
unfolding return_ov_lap
return_ov_lap-pooled n o m = omega (arith, count-append n m.ov_lap_pool)

send_front-asked :
    (n : ℕ) (q : List Overlapped) (u : ConnUser)
    → u.send_queue ≡ q
    → count n (send_front q u).0.send_queue + asked n (send_front q u).1 ≡ count n u.send_queue
unfolding send_front
send_front-asked n [] u e = rw e (omega arith)
send_front-asked n (o ∷ q) u e = rw e (omega arith)

-- What is sent leaves the queue.
pub send_if_single-asked :
    (n : ℕ) (u : ConnUser)
    → count n (send_if_single u).0.send_queue + asked n (send_if_single u).1 ≡ count n u.send_queue
unfolding send_if_single proc_send
send_if_single-asked n u = elim (Bool-cases (u.send_queue_size == 1)) [
  | inl e ↦ rw e (send_front-asked n u.send_queue u refl)
  | inr e ↦ rw e (omega arith)
]
