-- ===== src/Server/Serves.antt =====
-- The parts of a round keep the objects in their places, and go through no null pointer but the one that
-- `ConnUserRecv` leaves when the pool is empty.
use outgame_lobby_server.Prelude.{
  ℕ, ◌≡◌, refl, List, [], ◌∷◌, All, All-append, Bool-cases, inl, inr, Bool, ◌==◌,
}
use outgame_lobby_server.Effects.{M, Outcome, returned, raised, fault, blocked, and_then}
use outgame_lobby_server.Overlapped.{Overlapped, TaskType, accept, recv, send, new_recv, new_send}
use outgame_lobby_server.ConnUser.{
  ConnUser, Request, reset, post_accept, send_complete, send_if_single, proc_send, send_front,
}
use outgame_lobby_server.ConnUsersManager.{ConnUsersManager}
use outgame_lobby_server.Server.{
  Lobby, user_at, store_user, push_accept, give_back, requeue, complete_send, release, reach,
}
use outgame_lobby_server.ConnUsersManager.Laws.{find_user-lt}
use outgame_lobby_server.Server.Users.{
  IsKnown, IsOwn, IsServing, CarriesKnown, stored-IsServing, insert_user-IsKnown,
}

-- A round returns and keeps the server and the number `n`, or it goes through a null pointer, and then
-- `P` holds.
abbrev pub Serves : Type 0 → ℕ → {A : Type 0} → Outcome Lobby A → Type 0
Serves P n (returned a l) = IsServing l × IsKnown l.manager n
Serves P n (raised e l) = ⊥
Serves P n fault = P
Serves P n blocked = ⊥

-- What the methods of an object leave, and what their requests name.
abbrev pub Kept : ConnUsersManager → ℕ → ConnUser × List Request → Type 0
Kept m n (u, requests) = IsOwn n u × All (CarriesKnown m) requests

Kept-send_front :
    (m : ConnUsersManager) (n : ℕ) (q : List Overlapped) (u : ConnUser)
    → IsKnown m n
    → u.send_queue ≡ q
    → IsOwn n u
    → Kept m n (send_front q u)
unfolding send_front
Kept-send_front m n [] u h e o = (o, tt)
Kept-send_front m n (x ∷ q) u h e o =
    let q' : All (λ (p : Overlapped). p.conn_obj_num ≡ n) (x ∷ q) = rw e at o.queued in
    (record { numbered = o.numbered; queued = q'.1 }, (rw q'.0 h, tt))

pub Kept-send_if_single :
    (m : ConnUsersManager) (n : ℕ) (u : ConnUser)
    → IsKnown m n
    → IsOwn n u
    → Kept m n (send_if_single u)
unfolding send_if_single proc_send
Kept-send_if_single m n u h o = elim (Bool-cases (u.send_queue_size == 1)) [
  | inl e ↦ rw e (Kept-send_front m n u.send_queue u h refl o)
  | inr e ↦ rw e ((o, tt))
]

pub Kept-send_complete :
    (m : ConnUsersManager) (n : ℕ) (u : ConnUser)
    → IsKnown m n
    → IsOwn n u
    → Kept m n (send_complete u)
unfolding send_complete
Kept-send_complete m n u h o =
    Kept-send_if_single m n _ h (record { numbered = o.numbered; queued = o.queued })

pub Kept-reset :
    (m : ConnUsersManager) (n : ℕ) (u : ConnUser) (socket : ℕ)
    → IsOwn n u
    → Kept m n (reset socket u)
unfolding reset
Kept-reset m n u socket o = (record { numbered = o.numbered; queued = o.queued }, (tt, tt))

pub Kept-post_accept :
    (answer : Bool) (m : ConnUsersManager) (n : ℕ) (u : ConnUser)
    → IsKnown m n
    → IsOwn n u
    → Kept m n ((post_accept answer u).1, (post_accept answer u).2)
unfolding post_accept
Kept-post_accept answer m n u h o =
    (record { numbered = o.numbered; queued = o.queued }, (rw o.numbered h, tt))

module _ (P : Type 0) (n : ℕ) where
  pub Serves-bind :
      {A B : Type 0} (r : Outcome Lobby A) (f : A → M Lobby B)
      → Serves P n r
      → ((a : A) (l : Lobby) → IsServing l → IsKnown l.manager n → Serves P n (f a l))
      → Serves P n (and_then r f)
  Serves-bind (returned a l) f h g = g a l h.0 h.1
  Serves-bind (raised e l) f h g = absurd h
  Serves-bind fault f h g = h
  Serves-bind blocked f h g = absurd h

  pub Serves-user_at :
      {A : Type 0} (l : Lobby) (f : ConnUser → M Lobby A)
      → IsServing l
      → IsKnown l.manager n
      → ((u : ConnUser) → IsOwn n u → Serves P n (f u l))
      → Serves P n (and_then (user_at n l) f)
  unfolding user_at reach
  Serves-user_at l f v (u, e) g = rw e (g u (v.own n u e))

  pub Serves-store_user :
      (l : Lobby) (r : ConnUser × List Request)
      → IsServing l
      → IsKnown l.manager n
      → Kept l.manager n r
      → Serves P n (store_user n r l)
  unfolding store_user
  Serves-store_user l (u, requests) v h (o, c) = (
    stored-IsServing n u requests h o c v,
    insert_user-IsKnown n n u l.manager (find_user-lt n l.manager h.0 h.1) h,
  )

  pub Serves-push_accept :
      (l : Lobby) → IsServing l → IsKnown l.manager n → Serves P n (push_accept n l)
  unfolding push_accept
  Serves-push_accept l v h = (
    record {
      waiting = All-append _ l.accept_queue (n ∷ []) v.waiting (h, tt);
      carried = v.carried;
      own = v.own;
    },
    h,
  )

  pub Serves-give_back :
      (l : Lobby) (o : Overlapped) → IsServing l → IsKnown l.manager n → Serves P n (give_back o l)
  unfolding give_back
  Serves-give_back l o v h = (record { waiting = v.waiting; carried = v.carried; own = v.own }, h)

  pub Serves-requeue :
      (l : Lobby) (socket : ℕ) → IsServing l → IsKnown l.manager n → Serves P n (requeue socket n l)
  unfolding requeue
  Serves-requeue l socket v h = Serves-user_at l _ v h λ u o.
      Serves-bind (store_user n (reset socket u) l) _
        (Serves-store_user l _ v h (Kept-reset l.manager n u socket o))
        (λ _ l'. Serves-push_accept l')

  pub Serves-complete_send :
      (l : Lobby) → IsServing l → IsKnown l.manager n → Serves P n (complete_send n l)
  unfolding complete_send
  Serves-complete_send l v h =
      Serves-user_at l _ v h λ u o. Serves-store_user l _ v h (Kept-send_complete l.manager n u h o)

  pub Serves-release :
      (l : Lobby) (t : TaskType) (o : Overlapped)
      → IsServing l
      → IsKnown l.manager n
      → Serves P n (release t o l)
  unfolding release
  Serves-release l accept o v h = Serves-give_back l o v h
  Serves-release l recv o v h = Serves-give_back l o v h
  Serves-release l send o v h = Serves-give_back l o v h
  Serves-release l new_recv o v h = (v, h)
  Serves-release l new_send o v h = (v, h)
