-- ===== src/Server/Lost.antt =====
-- What a worker does with the completions of a lost connection.
use outgame_lobby_server.Prelude.{
  ℕ, ◌≡◌, refl, ◌∙◌, ap, List, [], ◌∷◌, ◌++◌, sym, some, All, true, ◌==◌,
}
use outgame_lobby_server.Effects.{Outcome, returned, ◌>>◌}
use outgame_lobby_server.Overlapped.{
  Overlapped, accept, recv, send, new_recv, new_send, TaskType, accept_slot, heap, zeroed,
  OverLappedManager, return_ov_lap,
}
use outgame_lobby_server.Overlapped.Pool.{IsClean, IsPooled}
use outgame_lobby_server.ConnUser.{reset}
use outgame_lobby_server.Server.{
  Lobby, Completion, Answers, work_round, handle, disconnect, release, requeue, give_back, is_lost,
  user_at, reach, store_user, push_accept,
}
use outgame_lobby_server.Server.Progress.{never_null}
use outgame_lobby_server.ConnUsersManager.Laws.{find_user-lt}
use outgame_lobby_server.Server.Users.{IsKnown, insert_user-IsKnown}

-- A round that returned: it left `pool`, it put the number `num` in the accept queue, and `num` is still known.
pub record Requeues (num : ℕ) (queue : List ℕ) (pool : OverLappedManager)
    (r : Outcome Lobby (Unit {0})) : Type 0 where
  pub after : Lobby
  pub returns : r ≡ returned tt after
  pub queued : after.accept_queue ≡ queue ++ num ∷ []
  pub pooled : after.pool ≡ pool
  pub known : IsKnown after.manager num

requeue-Requeues :
    (socket num : ℕ) (l : Lobby)
    → IsKnown l.manager num
    → Requeues num l.accept_queue l.pool (requeue socket num l)
unfolding requeue user_at reach store_user push_accept reset
requeue-Requeues socket num l (u, e) = rw e (record {
  after = _;
  returns = refl;
  queued = refl;
  pooled = refl;
  known = insert_user-IsKnown num num _ l.manager (find_user-lt num l.manager u e) (u, e);
})

-- The pool after the object of a lost connection is given back, or deleted.
abbrev pub released : TaskType → Overlapped → OverLappedManager → OverLappedManager
released new_recv o m = m
released new_send o m = m
released other o m = return_ov_lap o m

disconnect-Requeues :
    (a : Answers) (t : TaskType) (o : Overlapped) (l : Lobby)
    → IsKnown l.manager o.conn_obj_num
    → Requeues o.conn_obj_num l.accept_queue
        (released t o l.pool)
        ((release t o >> requeue a.socket o.conn_obj_num) l)
unfolding release give_back
disconnect-Requeues a accept o l h =
    requeue-Requeues a.socket o.conn_obj_num (record l { pool = return_ov_lap o l.pool }) h
disconnect-Requeues a recv o l h =
    requeue-Requeues a.socket o.conn_obj_num (record l { pool = return_ov_lap o l.pool }) h
disconnect-Requeues a send o l h =
    requeue-Requeues a.socket o.conn_obj_num (record l { pool = return_ov_lap o l.pool }) h
disconnect-Requeues a new_recv o l h = requeue-Requeues a.socket o.conn_obj_num l h
disconnect-Requeues a new_send o l h = requeue-Requeues a.socket o.conn_obj_num l h

-- A completion of the object `o` that tells of a lost connection.
pub record IsLoss (c : Completion) (o : Overlapped) : Type 0 where
  pub delivers : c.overlapped ≡ some o
  pub lost : is_lost c o ≡ true

work_round-Requeues :
    (a : Answers) (c : Completion) (o : Overlapped) (l : Lobby)
    → IsLoss c o
    → IsKnown l.manager o.conn_obj_num
    → Requeues o.conn_obj_num l.accept_queue (released o.task_type o l.pool) (work_round a c l)
unfolding work_round handle user_at reach disconnect is_lost
work_round-Requeues a c o l loss (u, e) =
    rw (loss.delivers, never_null c.success (c.io_size == 0))
      (rw e (rw loss.lost (disconnect-Requeues a o.task_type o l (u, e))))

-- Two completions that tell of the loss of the same known connection, for instance of its receive and
-- of a send: both are handled, and its number stands in the accept queue twice.
pub lost_twice :
    (a b : Answers) (c d : Completion) (o p : Overlapped) (l : Lobby)
    → IsLoss c o
    → IsLoss d p
    → p.conn_obj_num ≡ o.conn_obj_num
    → IsKnown l.manager o.conn_obj_num
    → Requeues o.conn_obj_num
        (l.accept_queue ++ o.conn_obj_num ∷ [])
        (released p.task_type p (released o.task_type o l.pool))
        ((work_round a c >> work_round b d) l)
lost_twice a b c d o p l loss loss' e h =
    let r = work_round-Requeues a c o l loss h in
    let s = work_round-Requeues b d p r.after loss' (rw e r.known) in
    rw r.returns (rw (← r.queued, ← r.pooled, ← e) s)

last_clean :
    (m : OverLappedManager) (o : Overlapped) (os : List Overlapped)
    → All (IsPooled m.allocated) (os ++ o ∷ [])
    → IsPooled m.allocated o
last_clean m o [] h = h.0
last_clean m o (p ∷ os) h = last_clean m o os h.1

after-same :
    (r : Outcome Lobby (Unit {0})) (s t : Lobby) → r ≡ returned tt s → r ≡ returned tt t → s ≡ t
after-same r s t e f = cc

not_heap : (n k : ℕ) → ¬ (accept_slot n ≡ heap k)
not_heap n k e = cc

-- An `AcceptEx` that fails later leaves a pool that holds the `acceptOvlap` member of a connection
-- object, which `new` did not make.
pub work_round-unclean :
    (a : Answers) (c : Completion) (o : Overlapped) (n : ℕ) (l t : Lobby)
    → IsLoss c o
    → o.task_type ≡ accept
    → o.address ≡ accept_slot n
    → IsKnown l.manager o.conn_obj_num
    → work_round a c l ≡ returned tt t
    → ¬ IsClean t.pool
unfolding return_ov_lap IsPooled
work_round-unclean a c o n l t loss task place h e clean =
    let r = work_round-Requeues a c o l loss h in
    let same : r.after ≡ t = after-same (work_round a c l) r.after t r.returns e in
    let pool : t.pool ≡ return_ov_lap o l.pool =
      ap (λ (k : Lobby). k.pool) (sym same) ∙ r.pooled ∙ rw task refl in
    let clean' : IsClean (return_ov_lap o l.pool) = rw pool at clean in
    let (k, lt, e') =
      last_clean (return_ov_lap o l.pool) (zeroed o.address) l.pool.ov_lap_pool clean' in
    not_heap n k (sym place ∙ ap (λ (p : Overlapped). p.address) e')
