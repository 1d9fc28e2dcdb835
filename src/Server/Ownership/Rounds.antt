-- ===== src/Server/Ownership/Rounds.antt =====
-- How the rounds of the threads move the objects.
use outgame_lobby_server.Prelude.{
  ℕ, ◌+◌, ◌≤◌, ◌≡◌, List, [], ◌∷◌, ◌++◌, some, Bytes, Bool, true, false, memcpy, arith, add16,
  Option-cases, Bool-cases, inl, inr, not, ◌&&◌, ◌==◌,
}
use outgame_lobby_server.Effects.{
  M, Outcome, returned, raised, fault, blocked, and_then, when, ◌>>=◌,
}
use outgame_lobby_server.Overlapped.{
  Overlapped, TaskType, accept, recv, send, new_recv, new_send, get_ov_lap,
}
use outgame_lobby_server.ConnUser.{
  ConnUser, Request, wsa_recv, send_object, send_if_single, reset, post_accept, conn_user_recv,
  send_complete, push_send_msg, enqueue, load,
}
use outgame_lobby_server.ConnUsersManager.{find_user}
use outgame_lobby_server.Server.{
  Lobby, Completion, Answers, user_at, reach, store_user, push_accept, give_back, requeue,
  after_receive, start_receive, complete_send, release, disconnect, finish_task, handle, is_lost,
  work_round, repost, accept_front, accepter_round,
}
use outgame_lobby_server.Server.Run.{after_message}
use outgame_lobby_server.Server.Ownership.{count, asked, total}
use outgame_lobby_server.Server.Ownership.Counts.{
  count-append, asked-append, waits-insert_user, get_ov_lap-some, send_object-pooled,
  return_ov_lap-pooled, send_if_single-asked,
}

-- A run makes no object stand in more places than before, but for the objects `extra`.
abbrev pub Spends : {A : Type 0} → (ℕ → ℕ) → Lobby → Outcome Lobby A → Type 0
Spends extra l (returned a m) = (n : ℕ) → total n m ≤ total n l + extra n
Spends extra l (raised e m) = (n : ℕ) → total n m ≤ total n l + extra n
Spends extra l fault = Unit {0}
Spends extra l blocked = Unit {0}

-- Nothing but what is there.
abbrev pub nothing : ℕ → ℕ
nothing n = 0

-- The object of a completion.
abbrev pub one : Overlapped → ℕ → ℕ
one o n = count n (o ∷ [])

Spends-after :
    {B : Type 0} (e e₁ e₂ : ℕ → ℕ) (l m : Lobby) (q : Outcome Lobby B)
    → ((n : ℕ) → e₁ n + e₂ n ≤ e n)
    → ((n : ℕ) → total n m ≤ total n l + e₁ n)
    → Spends e₂ m q
    → Spends e l q
Spends-after e e₁ e₂ l m (returned b x) le h k = λ n. omega (arith, h n, k n, le n)
Spends-after e e₁ e₂ l m (raised x y) le h k = λ n. omega (arith, h n, k n, le n)
Spends-after e e₁ e₂ l m fault le h k = tt
Spends-after e e₁ e₂ l m blocked le h k = tt

Spends-bind :
    {A B : Type 0} (e e₁ e₂ : ℕ → ℕ) (l : Lobby) (r : Outcome Lobby A) (f : A → M Lobby B)
    → ((n : ℕ) → e₁ n + e₂ n ≤ e n)
    → Spends e₁ l r
    → ((a : A) (m : Lobby) → Spends e₂ m (f a m))
    → Spends e l (and_then r f)
Spends-bind e e₁ e₂ l (returned a m) f le h g = Spends-after e e₁ e₂ l m (f a m) le h (g a m)
Spends-bind e e₁ e₂ l (raised x m) f le h g = λ n. omega (arith, h n, le n)
Spends-bind e e₁ e₂ l fault f le h g = tt
Spends-bind e e₁ e₂ l blocked f le h g = tt

-- A call through the object `num`.
Spends-user :
    {B : Type 0} (e : ℕ → ℕ) (num : ℕ) (f : ConnUser → M Lobby B) (l : Lobby)
    → ((u : ConnUser) → find_user num l.manager ≡ some u → Spends e l (f u l))
    → Spends e l ((user_at num >>= f) l)
unfolding user_at reach
Spends-user e num f l h = elim (Option-cases (find_user num l.manager)) [
  | inl q ↦ rw q tt
  | inr (u, q) ↦ rw q (h u q)
]

-- A method that sends what it takes off the queue.
Spends-store_user :
    (e : ℕ → ℕ) (num : ℕ) (u v : ConnUser) (requests : List Request) (l : Lobby)
    → find_user num l.manager ≡ some u
    → ((n : ℕ) → count n v.send_queue + asked n requests ≤ count n u.send_queue + e n)
    → Spends e l (store_user num (v, requests) l)
unfolding store_user
Spends-store_user e num u v requests l found le n =
    omega
      (arith, le n, waits-insert_user n num u v l.manager found, asked-append n l.requests requests)

Spends-give_back : (o : Overlapped) (l : Lobby) → Spends (one o) l (give_back o l)
unfolding give_back
Spends-give_back o l n = omega (arith, return_ov_lap-pooled n o l.pool)

Spends-push_accept : (num : ℕ) (l : Lobby) → Spends nothing l (push_accept num l)
unfolding push_accept
Spends-push_accept num l n = omega arith

Spends-requeue : (socket num : ℕ) (l : Lobby) → Spends nothing l (requeue socket num l)
unfolding requeue reset
Spends-requeue socket num l = Spends-user nothing num _ l λ u found.
    Spends-bind nothing nothing nothing l (store_user num (reset socket u) l) _ (λ n. omega arith)
      (Spends-store_user nothing num u _ _ l found (λ n. omega arith))
      λ _ m. Spends-push_accept num m

Spends-complete_send : (num : ℕ) (l : Lobby) → Spends nothing l (complete_send num l)
unfolding complete_send send_complete
Spends-complete_send num l = Spends-user nothing num _ l λ u found.
    Spends-store_user nothing num u _ _ l found (λ n. omega (arith, send_if_single-asked n _))

Spends-start_receive :
    (a : Answers) (u : ConnUser) (l : Lobby) → Spends nothing l (start_receive a u l)
unfolding start_receive conn_user_recv after_receive
Spends-start_receive a u l = elim (Option-cases (get_ov_lap l.pool).0) [
  | inl q ↦ rw (q, conn_user_recv) tt
  | inr (o, q) ↦
      rw (q, conn_user_recv)
        (λ n. omega (
          arith,
          get_ov_lap-some n l.pool o q,
          asked-append n l.requests (wsa_recv u.user_skt (load recv a.unset u o) ∷ []),
        ))
]

Spends-release : (t : TaskType) (o : Overlapped) (l : Lobby) → Spends (one o) l (release t o l)
unfolding release
Spends-release new_recv o l = λ n. omega arith
Spends-release new_send o l = λ n. omega arith
Spends-release accept o l = Spends-give_back o l
Spends-release recv o l = Spends-give_back o l
Spends-release send o l = Spends-give_back o l

Spends-disconnect : (a : Answers) (o : Overlapped) (l : Lobby) → Spends (one o) l (disconnect a o l)
unfolding disconnect
Spends-disconnect a o l =
    Spends-bind (one o) (one o) nothing l (release o.task_type o l) _ (λ n. omega arith)
      (Spends-release o.task_type o l) λ _ m. Spends-requeue a.socket o.conn_obj_num m

Spends-when :
    (b : Bool) (m : M Lobby (Unit {0})) (l : Lobby)
    → Spends nothing l (m l)
    → Spends nothing l (when b m l)
Spends-when true m l h = h
Spends-when false m l h = λ n. omega arith

Spends-finish_task :
    (t : TaskType) (a : Answers) (u : ConnUser) (o : Overlapped) (l : Lobby)
    → Spends (one o) l (finish_task t a u o l)
unfolding finish_task
Spends-finish_task accept a u o l =
    Spends-bind (one o) nothing nothing l (start_receive a u l) _ (λ n. omega arith)
      (Spends-start_receive a u l)
      λ receives m.
        Spends-when (not receives) (requeue a.socket o.conn_obj_num) m
          (Spends-requeue a.socket o.conn_obj_num m)
Spends-finish_task recv a u o l =
    Spends-bind (one o) nothing (one o) l (start_receive a u l) _ (λ n. omega arith)
      (Spends-start_receive a u l) λ _ m. Spends-give_back o m
Spends-finish_task send a u o l =
    Spends-bind (one o) (one o) nothing l (give_back o l) _ (λ n. omega arith)
      (Spends-give_back o l) λ _ m. Spends-complete_send o.conn_obj_num m
Spends-finish_task new_recv a u o l =
    Spends-bind (one o) nothing nothing l (start_receive a u l) _ (λ n. omega arith)
      (Spends-start_receive a u l) λ _ m n. omega arith
Spends-finish_task new_send a u o l =
    Spends-after (one o) nothing nothing l l (complete_send o.conn_obj_num l) (λ n. omega arith)
      (λ n. omega arith) (Spends-complete_send o.conn_obj_num l)

Spends-handle :
    (a : Answers) (c : Completion) (o : Overlapped) (l : Lobby)
    → Spends (one o) l (handle a c (some o) l)
unfolding handle
Spends-handle a c o l = Spends-user (one o) o.conn_obj_num _ l λ u found.
    elim (Bool-cases (is_lost c o)) [
      | inl e ↦ rw e (Spends-disconnect a o l)
      | inr e ↦ rw e (Spends-finish_task o.task_type a u o l)
    ]

-- A round of a worker puts at most the object of its completion in a place.
pub Spends-work_round :
    (a : Answers) (c : Completion) (o : Overlapped) (l : Lobby)
    → c.overlapped ≡ some o
    → Spends (one o) l (work_round a c l)
unfolding work_round handle is_lost
Spends-work_round a c o l e = rw e (elim (Bool-cases (c.success && c.io_size == 0 && false)) [
  | inl q ↦ rw q (λ n. omega arith)
  | inr q ↦ rw q (Spends-handle a c o l)
])

Spends-accept_front :
    (answer : Bool) (q : List ℕ) (l : Lobby) → Spends nothing l (accept_front answer q l)
unfolding accept_front repost post_accept
Spends-accept_front answer [] l = λ n. omega arith
Spends-accept_front answer (num ∷ rest) l =
    Spends-after nothing nothing nothing l (record l { accept_queue = rest }) _ (λ n. omega arith)
      (λ n. omega arith)
      (Spends-user nothing num _ (record l { accept_queue = rest })
        λ u found.
          Spends-bind nothing nothing nothing (record l { accept_queue = rest })
            (store_user num _ (record l { accept_queue = rest })) _ (λ n. omega arith)
            (Spends-store_user nothing num u _ _ (record l { accept_queue = rest }) found
              (λ n. omega arith))
            λ _ m. Spends-when (not answer) (push_accept num) m (Spends-push_accept num m))

-- A round of an accepter puts no object anywhere.
pub Spends-accepter_round : (answer : Bool) (l : Lobby) → Spends nothing l (accepter_round answer l)
unfolding accepter_round
Spends-accepter_round answer l = Spends-accept_front answer l.accept_queue l

pub Spends-after_message :
    (unset : Bytes) (size : ℕ) (msg : Bytes) (num : ℕ) (u : ConnUser) (l : Lobby)
    → find_user num l.manager ≡ some u
    → Spends nothing l (after_message unset size msg num u l)
unfolding after_message push_send_msg enqueue store_user
Spends-after_message unset size msg num u l found =
    let buffer : Bytes = memcpy unset 0 msg 0 size in
    let (o, pool) = send_object buffer l.pool u in
    let u' : ConnUser = record u {
      send_queue = u.send_queue ++ o ∷ [];
      send_queue_size = add16 u.send_queue_size 1;
    } in
    let stored =
      Spends-store_user (one o) num u (send_if_single u').0 (send_if_single u').1
        (record l { pool = pool }) found
        (λ n. omega (arith, send_if_single-asked n u', count-append n u.send_queue (o ∷ []))) in
    λ n. omega (arith, stored n, send_object-pooled n buffer l.pool u)
