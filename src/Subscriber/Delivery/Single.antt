-- ===== src/Subscriber/Delivery/Single.antt =====
-- `SendFriendStatusToUser`: one message to one connection.
use outgame_lobby_server.Prelude.{
  ℕ, ◌≡◌, refl, ◌∙◌, sym, ap, [], ◌∷◌, append-nil, some, inl, inr, Bytes, ◌==◌, ==_iff, Bool-cases,
  none, memcpy,
}
use mathlib.Core.Path.{subst}
use outgame_lobby_server.Effects.{Outcome}
use outgame_lobby_server.Packet.{status_notify, status_notify_size}
use outgame_lobby_server.ConnUser.{ConnUser}
use outgame_lobby_server.ConnUser.Send.Queue.{payloads}
use outgame_lobby_server.ConnUsersManager.{ConnUsersManager, find_user, get_obj_num_by_pk}
use outgame_lobby_server.ConnUsersManager.Laws.{at, at_lem, find_user-get_obj_num_by_pk, at-same}
use outgame_lobby_server.Redis.World.{Environment, State}
use outgame_lobby_server.Redis.Users.{send_friend_status_to_user, obj_num_of}
use outgame_lobby_server.Redis.Push.{Pushes, push_to-Pushes}
use outgame_lobby_server.Subscriber.Delivery.{HasApartSockets, Gets, Delivers, notice, only}

module _ (env : Environment) where
  Pushes-target :
      (num size : ℕ) (text : Bytes) (v : ConnUser) (w : State env)
      (r : Outcome (State env) (Unit {0})) (p : Pushes env num size text v w r)
      → Gets num (memcpy env.unset 0 text 0 size ∷ []) v p.new p.after.manager
  Pushes-target num size text v w r p = record {
    user = p.user;
    found = p.found;
    same_profile = p.same_profile;
    same_socket = p.same_socket;
    ordered = rw (p.on_socket v.user_skt, (==_iff v.user_skt v.user_skt).1 refl) p.ordered;
  }

  Pushes-Gets :
      (num size : ℕ) (text : Bytes) (v : ConnUser) (w : State env)
      (r : Outcome (State env) (Unit {0})) (p : Pushes env num size text v w r)
      → HasApartSockets w.manager
      → find_user num w.manager ≡ some v
      → (k : ℕ) (u : ConnUser) → find_user k w.manager ≡ some u
      → Gets k (only num (memcpy env.unset 0 text 0 size) k) u p.new p.after.manager
  Pushes-Gets num size text v w r p apart at_num k u found = elim (Bool-cases (num == k)) [
    | inl e ↦
        let q : num ≡ k = (==_iff num k).0 e in
        let same : some v ≡ some u = sym at_num ∙ ap (λ j. find_user j w.manager) q ∙ found in
        let vu : v ≡ u = cc in
        let sent : Bytes = memcpy env.unset 0 text 0 size in
        rw e (
          subst (λ x. Gets k (sent ∷ []) x p.new p.after.manager) vu
            (subst (λ j. Gets j (sent ∷ []) v p.new p.after.manager) q
              (Pushes-target num size text v w r p)))
    | inr e ↦ record {
      user = u;
      found = p.others k e ∙ found;
      same_profile = refl;
      same_socket = refl;
      ordered =
          rw (e, p.on_socket u.user_skt, apart num k v u e at_num found)
            (sym (append-nil (payloads u.send_queue)));
    }
  ]

  -- A look-up of a missing user fails as before.
  Pushes-missing :
      (num size : ℕ) (text : Bytes) (v : ConnUser) (w : State env)
      (r : Outcome (State env) (Unit {0})) (p : Pushes env num size text v w r)
      → find_user num w.manager ≡ some v
      → (k : ℕ) → find_user k w.manager ≡ none
      → find_user k p.after.manager ≡ none
  Pushes-missing num size text v w r p at_num k gone = elim (Bool-cases (num == k)) [
    | inl e ↦
        let q : num ≡ k = (==_iff num k).0 e in
        let same : some v ≡ none = sym at_num ∙ ap (λ j. find_user j w.manager) q ∙ gone in cc
    | inr e ↦ p.others k e ∙ gone
  ]

  pub send_friend_status_to_user-Delivers :
      (target_pk friend_pk status : ℕ) (v : ConnUser) (w : State env)
      → HasApartSockets w.manager
      → find_user (at w.manager target_pk) w.manager ≡ some v
      → Delivers env
          (only (at w.manager target_pk) (notice env friend_pk status))
          w
          (send_friend_status_to_user env target_pk friend_pk status w)
  unfolding send_friend_status_to_user obj_num_of
  send_friend_status_to_user-Delivers target_pk friend_pk status v w apart found =
      let num : ℕ = at w.manager target_pk in
      let m : ConnUsersManager = (get_obj_num_by_pk target_pk w.manager).1 in
      let x : State env = record w { manager = m } in
      let same : (k : ℕ) → find_user k m ≡ find_user k w.manager =
        λ k. find_user-get_obj_num_by_pk target_pk k w.manager in
      let at_num = same num ∙ found in
      let text = status_notify env.padding friend_pk status in
      let p = push_to-Pushes env num status_notify_size text v x at_num in
      record {
        after = p.after;
        returns = p.returns;
        new = p.new;
        requested = p.requested;
        users = λ k u e.
            Pushes-Gets num status_notify_size text v x _ p
              (λ j l a b ne ea eb. apart j l a b ne (sym (same j) ∙ ea) (sym (same l) ∙ eb)) at_num
              k u (same k ∙ e);
        missing = λ k e. Pushes-missing num status_notify_size text v x _ p at_num k (same k ∙ e);
        lookups =
            λ pk. at-same p.after.manager m p.same_map pk ∙ (at_lem target_pk 0 pk w.manager).2;
      }
