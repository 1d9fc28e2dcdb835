-- ===== src/Redis/Push.antt =====
-- What `FindUser(num)->PushSendMsg(size, packet)` leaves.
use outgame_lobby_server.Prelude.{
  ℕ, ◌≡◌, refl, ap, ◌∙◌, List, [], ◌∷◌, ◌++◌, some, Bytes, memcpy, Bool-cases, inl, inr, ◌==◌,
  false, add16, if◌then◌else◌, arith,
}
use mathlib.Core.List.{map-append}
use outgame_lobby_server.Effects.{Outcome, returned}
use outgame_lobby_server.Overlapped.{Overlapped}
use outgame_lobby_server.ConnUser.{
  ConnUser, Request, push_send_msg, send_object, enqueue, send_if_single, proc_send, send_front,
}
use outgame_lobby_server.ConnUser.Send.{sends_of, sends_on}
use outgame_lobby_server.ConnUser.Send.Queue.{payloads, send_if_single-Kicked, send_object-wsa_buf}
use outgame_lobby_server.ConnUsersManager.{find_user, insert_user}
use outgame_lobby_server.ConnUsersManager.Laws.{find_user-insert_user, find_user-lt}
use outgame_lobby_server.Redis.World.{Environment, State, push_to, send_from, user_at, reach}

-- The profile of a user: what the handlers set.
abbrev pub profile : ConnUser → ℕ × Bytes × List ℕ
profile u = (u.user_pk, u.user_id, u.friend_pks)

send_front-profile : (q : List Overlapped) (u : ConnUser) → profile (send_front q u).0 ≡ profile u
unfolding send_front
send_front-profile [] u = refl
send_front-profile (o ∷ q) u = refl

send_front-sends_on :
    (q : List Overlapped) (u : ConnUser) (s : ℕ)
    → sends_on s (send_front q u).1 ≡ (if u.user_skt == s then sends_of (send_front q u).1 else [])
unfolding send_front
send_front-sends_on [] u s = ground arith
send_front-sends_on (o ∷ q) u s = ground arith

send_front-user_skt :
    (q : List Overlapped) (u : ConnUser) → (send_front q u).0.user_skt ≡ u.user_skt
unfolding send_front
send_front-user_skt [] u = refl
send_front-user_skt (o ∷ q) u = refl

-- A connection sends on its own socket only.
send_if_single-sends_on :
    (u : ConnUser)
    → ((s : ℕ)
        → sends_on s (send_if_single u).1
          ≡ (if u.user_skt == s then sends_of (send_if_single u).1 else []))
      × ((send_if_single u).0.user_skt ≡ u.user_skt)
unfolding send_if_single proc_send
send_if_single-sends_on u = elim (Bool-cases (u.send_queue_size == 1)) [
  | inl e ↦ rw e (send_front-sends_on u.send_queue u, send_front-user_skt u.send_queue u)
  | inr e ↦ rw e ((λ s. ground arith), refl)
]

send_if_single-profile : (u : ConnUser) → profile (send_if_single u).0 ≡ profile u
unfolding send_if_single proc_send
send_if_single-profile u = elim (Bool-cases (u.send_queue_size == 1)) [
  | inl e ↦ rw e (send_front-profile u.send_queue u)
  | inr e ↦ rw e refl
]

module _ (env : Environment) where
  -- The message `text` was pushed to the user `u` with number `num`: it went to the end of what the user
  -- has to send, the profile of the user and every other user are as they were, and so is all else
  -- but the pool of overlapped objects.
  pub record Pushes (num size : ℕ) (text : Bytes) (u : ConnUser) (w : State env)
      (r : Outcome (State env) (Unit {0})) : Type 0 where
    pub after : State env
    pub returns : r ≡ returned tt after
    pub user : ConnUser
    pub found : find_user num after.manager ≡ some user
    pub same_profile : profile user ≡ profile u
    pub others : (k : ℕ) → (num == k) ≡ false → find_user k after.manager ≡ find_user k w.manager
    pub new : List Request
    pub requested : after.requests ≡ w.requests ++ new
    pub ordered :
        payloads (sends_of new ++ user.send_queue)
        ≡ payloads u.send_queue ++ some (memcpy env.unset 0 text 0 size) ∷ []
    pub same_socket : user.user_skt ≡ u.user_skt
    pub on_socket : (s : ℕ) → sends_on s new ≡ (if u.user_skt == s then sends_of new else [])
    pub same_map : after.manager.pk_to_obj_num ≡ w.manager.pk_to_obj_num
    pub same_store : after.store ≡ w.store
    pub same_sql : after.sql ≡ w.sql
    pub same_packets : after.proc_skt_queue ≡ w.proc_skt_queue

  pub push_to-Pushes :
      (num size : ℕ) (text : Bytes) (u : ConnUser) (w : State env)
      → find_user num w.manager ≡ some u
      → Pushes num size text u w (push_to env num size text w)
  unfolding push_to send_from user_at reach push_send_msg enqueue
  push_to-Pushes num size text u w e =
      let buffer : Bytes = memcpy env.unset 0 text 0 size in
      let o : Overlapped = (send_object buffer w.pool u).0 in
      let u' : ConnUser = record u {
        send_queue = u.send_queue ++ o ∷ [];
        send_queue_size = add16 u.send_queue_size 1;
      } in
      let k = send_if_single-Kicked u' in
      let at : (j : ℕ) → _ = λ j.
        find_user-insert_user num j (send_if_single u').0 w.manager
          (find_user-lt num w.manager u e) in
      rw e (record {
        after = _;
        returns = refl;
        user = (send_if_single u').0;
        found = ground (arith, at num);
        same_profile = send_if_single-profile u';
        others = λ j ne. ground (arith, at j);
        new = (send_if_single u').1;
        requested = refl;
        ordered =
            ap payloads k.order
            ∙ map-append _ u.send_queue (o ∷ [])
            ∙ ap (λ b. payloads u.send_queue ++ b ∷ []) (send_object-wsa_buf buffer w.pool u);
        same_socket = (send_if_single-sends_on u').1;
        on_socket = (send_if_single-sends_on u').0;
        same_map = unfold insert_user in refl;
        same_store = refl;
        same_sql = refl;
        same_packets = refl;
      })
