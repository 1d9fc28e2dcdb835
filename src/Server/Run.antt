-- ===== src/Server/Run.antt =====
-- The server as a system of steps: rounds of the worker and accepter threads, and messages that the
-- handlers push.
use outgame_lobby_server.Prelude.{
  ℕ, ◌≡◌, refl, ◌∙◌, List, [], ◌∷◌, Option, none, some, All, All-append, Option-cases, ◌⊎◌, inl,
  inr, Bool, true, Bytes, memcpy,
}
use outgame_lobby_server.Effects.{Outcome, returned, raised, fault, blocked}
use outgame_lobby_server.Overlapped.{Overlapped, OverLappedManager, get_ov_lap}
use outgame_lobby_server.ConnUser.{
  ConnUser, Request, wsa_send, wsa_recv, accept_ex, close_socket, push_send_msg, send_object,
  enqueue,
}
use outgame_lobby_server.ConnUsersManager.{ConnUsersManager, find_user}
use outgame_lobby_server.Server.{
  Lobby, Completion, Answers, store_user, work_round, accepter_round, accept_front,
}
use outgame_lobby_server.Server.Users.{IsKnown, IsOwn, IsServing, CarriesKnown, NamesOne}
use outgame_lobby_server.Server.Serves.{Serves, Kept, Kept-send_if_single, Serves-store_user}
use outgame_lobby_server.Server.Progress.{work_round-Serves, accepter_round-Serves}

abbrev pub IsAmong : Overlapped → List Overlapped → Type 0
IsAmong o [] = ⊥
IsAmong o (p ∷ os) = (o ≡ p) ⊎ IsAmong o os

-- The objects that the requests carry.
abbrev pub objects : List Request → List Overlapped
objects [] = []
objects (wsa_send s o ∷ rest) = o ∷ objects rest
objects (wsa_recv s o ∷ rest) = o ∷ objects rest
objects (accept_ex s o ∷ rest) = o ∷ objects rest
objects (close_socket s ∷ rest) = objects rest

-- What the system may give to a worker: an object that some request carried, with any bytes in its
-- buffer, any size and any success; or the completion that `ServerEnd` posts.
pub data IsDelivered (l : Lobby) (c : Completion) : Type 0 where
  carried :
      (o : Overlapped) (buffer : Option Bytes)
      → IsAmong o (objects l.requests)
      → c.overlapped ≡ some (record o { wsa_buf = buffer })
      → IsDelivered l c
  stop : c ≡ record { success = true; io_size = 0; overlapped = none } → IsDelivered l c

-- A message that a handler pushes to a user.
unfoldable pub after_message : Bytes → ℕ → Bytes → ℕ → ConnUser → Lobby → Outcome Lobby (Unit {0})
after_message unset size msg num u l =
    let (pool, u', requests) = push_send_msg unset size msg l.pool u in
    store_user num (u', requests) (record l { pool = pool })

pub data Step (l t : Lobby) : Type 0 where
  works :
      (a : Answers) (c : Completion) → IsDelivered l c → work_round a c l ≡ returned tt t → Step l t
  accepts : (answer : Bool) → accepter_round answer l ≡ returned tt t → Step l t
  tells :
      (unset : Bytes) (size : ℕ) (msg : Bytes) (num : ℕ) (u : ConnUser)
      → find_user num l.manager ≡ some u
      → after_message unset size msg num u l ≡ returned tt t
      → Step l t

pub data Reach (s : Lobby) : Lobby → Type 0 where
  here : Reach s s
  next : {t u : Lobby} → Reach s t → Step t u → Reach s u

-- A round returns and keeps the server, or goes through a null pointer, and then `P` holds.
abbrev pub Keeps : Type 0 → Outcome Lobby (Unit {0}) → Type 0
Keeps P (returned a l) = IsServing l
Keeps P (raised e l) = ⊥
Keeps P fault = P
Keeps P blocked = ⊥

Serves-Keeps : (P : Type 0) (n : ℕ) (r : Outcome Lobby (Unit {0})) → Serves P n r → Keeps P r
Serves-Keeps P n (returned a l) h = h.0
Serves-Keeps P n (raised e l) h = h
Serves-Keeps P n fault h = h
Serves-Keeps P n blocked h = h

carried-NamesOne :
    (m : ConnUsersManager) (rs : List Request) (o : Overlapped)
    → All (CarriesKnown m) rs
    → IsAmong o (objects rs)
    → NamesOne m o
carried-NamesOne m [] o h i = absurd i
carried-NamesOne m (wsa_send s p ∷ rs) o h (inl e) = rw e h.0
carried-NamesOne m (wsa_send s p ∷ rs) o h (inr i) = carried-NamesOne m rs o h.1 i
carried-NamesOne m (wsa_recv s p ∷ rs) o h (inl e) = rw e h.0
carried-NamesOne m (wsa_recv s p ∷ rs) o h (inr i) = carried-NamesOne m rs o h.1 i
carried-NamesOne m (accept_ex s p ∷ rs) o h (inl e) = rw e h.0
carried-NamesOne m (accept_ex s p ∷ rs) o h (inr i) = carried-NamesOne m rs o h.1 i
carried-NamesOne m (close_socket s ∷ rs) o h i = carried-NamesOne m rs o h.1 i

-- On a server in order, a round of a worker, on anything that the system may deliver, returns and
-- leaves the server in order; it goes through a null pointer only if the pool of overlapped objects is
-- empty.
pub work_round-Keeps :
    (a : Answers) (c : Completion) (l : Lobby)
    → IsServing l
    → IsDelivered l c
    → Keeps (l.pool.ov_lap_pool ≡ []) (work_round a c l)
work_round-Keeps a c l v (carried o buffer i e) =
    let known : NamesOne l.manager o = carried-NamesOne l.manager l.requests o v.carried i in
    Serves-Keeps (l.pool.ov_lap_pool ≡ []) o.conn_obj_num (work_round a c l)
      (rw e (work_round-Serves a c.success c.io_size (record o { wsa_buf = buffer }) l v known))
work_round-Keeps a c l v (stop e) =
    rw e (unfold work_round in record { waiting = v.waiting; carried = v.carried; own = v.own })

queue-cases : (q : List ℕ) → (q ≡ []) ⊎ ((num : ℕ) × (rest : List ℕ) × (q ≡ num ∷ rest))
queue-cases [] = inl refl
queue-cases (num ∷ rest) = inr (num, rest, refl)

-- On a server in order, a round of an accepter returns and leaves the server in order.
pub accepter_round-Keeps :
    (answer : Bool) (l : Lobby) → IsServing l → Keeps ⊥ (accepter_round answer l)
unfolding accepter_round accept_front
accepter_round-Keeps answer l v = elim (queue-cases l.accept_queue) [
  | inl e ↦ rw e (record { waiting = tt; carried = v.carried; own = v.own })
  | inr (num, rest, e) ↦
      Serves-Keeps _ num (accepter_round answer l) (accepter_round-Serves answer num rest l v e)
]

send_object-numbered :
    (buffer : Bytes) (m : OverLappedManager) (u : ConnUser)
    → (send_object buffer m u).0.conn_obj_num ≡ u.conn_obj_num
unfolding send_object
send_object-numbered buffer m u = elim (Option-cases (get_ov_lap m).0) [
  | inl e ↦ rw (e, send_object)
  | inr (o, e) ↦ rw (e, send_object)
]

enqueue-Kept :
    (m : ConnUsersManager) (n : ℕ) (o : Overlapped) (u : ConnUser)
    → IsKnown m n
    → IsOwn n u
    → o.conn_obj_num ≡ n
    → Kept m n (enqueue o u)
unfolding enqueue
enqueue-Kept m n o u h own e =
    Kept-send_if_single m n _ h
      (record { numbered = own.numbered; queued = All-append _ u.send_queue _ own.queued (e, tt) })

after_message-Keeps :
    (unset : Bytes) (size : ℕ) (msg : Bytes) (num : ℕ) (u : ConnUser) (l : Lobby)
    → IsServing l
    → find_user num l.manager ≡ some u
    → Keeps ⊥ (after_message unset size msg num u l)
unfolding after_message push_send_msg
after_message-Keeps unset size msg num u l v e =
    let buffer : Bytes = memcpy unset 0 msg 0 size in
    let own : IsOwn num u = v.own num u e in
    Serves-Keeps ⊥ num (after_message unset size msg num u l) (
      Serves-store_user ⊥ num (record l { pool = (send_object buffer l.pool u).1 }) _
        (record { waiting = v.waiting; carried = v.carried; own = v.own }) (u, e)
        (enqueue-Kept l.manager num _ u (u, e) own
          (send_object-numbered buffer l.pool u ∙ own.numbered)))

-- A server that was in order is in order after any steps.
pub Reach-IsServing : {s t : Lobby} → Reach s t → IsServing s → IsServing t
Reach-IsServing here v = v
Reach-IsServing (next {t} {u} r st) v = Step-IsServing t u st (Reach-IsServing r v)
  where
    Step-IsServing : (l m : Lobby) → Step l m → IsServing l → IsServing m
    Step-IsServing l m (works a c d e) v = rw e at (work_round-Keeps a c l v d)
    Step-IsServing l m (accepts answer e) v = rw e at (accepter_round-Keeps answer l v)
    Step-IsServing l m (tells unset size msg num u f e) v =
        rw e at (after_message-Keeps unset size msg num u l v f)
