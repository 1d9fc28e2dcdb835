-- ===== src/Redis/Stream/Handlers.antt =====
-- The packet handlers and the packets that are under way.
use outgame_lobby_server.Prelude.{
  ℕ, ◌≡◌, refl, sym, ◌∙◌, List, Option, none, some, Bytes, Bool-cases, inl, inr, All-mono, ◌==◌,
}
use outgame_lobby_server.Effects.{M}
use outgame_lobby_server.Packet.{
  DataPacket, request_token, request_user_id, PacketInfo, user_lobby_connect_request,
  connect_response_size, status_notify, status_notify_size,
}
use outgame_lobby_server.ConnUser.{set_pk, set_id, set_friend_pks}
use outgame_lobby_server.ConnUsersManager.{find_user, get_obj_num_by_pk}
use outgame_lobby_server.Mysql.{MySqlManager, get_user_friends_pks}
use outgame_lobby_server.Redis.World.{Environment, State, ask, on_sql}
use outgame_lobby_server.Redis.Publish.{notify_friend_online}
use outgame_lobby_server.Redis.Quiet.{notify_friend_online-returns, verify_user_token-returns}
use outgame_lobby_server.Redis.Users.{
  change_user, reply_connect, value, mark_online, enter_lobby, connect_listed, connect_verified,
  user_connect, send_friend_status_to_user, obj_num_of,
}
use outgame_lobby_server.Redis.Thread.{call_handler}
use outgame_lobby_server.ConnUsersManager.Laws.{find_user-get_obj_num_by_pk}
use outgame_lobby_server.Redis.Stream.{Parcel, Carries}
use outgame_lobby_server.Redis.Stream.Keeps.{
  Keeps, Keeps-bind, Keeps-ask, Keeps-on_sql, Keeps-change_user, Keeps-push_to, Carries-same,
}

module _ (env : Environment) (ps : List Parcel) (ds : List DataPacket) where
  Keeps-mark_online :
      (num user_pk : ℕ) (w : State env)
      → Carries env ps ds w
      → Keeps env ps ds (mark_online env num user_pk w)
  unfolding mark_online reply_connect
  Keeps-mark_online num user_pk w c =
      Keeps-bind env ps ds (ask env _ w) _ (Keeps-ask env ps ds _ w c) λ _ v d.
        Keeps-bind env ps ds (ask env _ v) _ (Keeps-ask env ps ds _ v d)
          λ _ x e. Keeps-push_to env ps ds num connect_response_size _ x e

  Keeps-value :
      {A : Type 0} (o : Option A) (w : State env)
      → Carries env ps ds w
      → Keeps env ps ds (value env o w)
  unfolding value
  Keeps-value none w c = c
  Keeps-value (some a) w c = c

  abbrev listing : ℕ → M (MySqlManager env.mysql.Db) (Option (List ℕ))
  listing user_pk = get_user_friends_pks env.mysql env.row_fuel user_pk

  Keeps-enter_lobby :
      (num : ℕ) (user_id : Bytes) (user_pk : ℕ) (w : State env)
      → Carries env ps ds w
      → Keeps env ps ds (enter_lobby env num user_id user_pk w)
  unfolding enter_lobby
  Keeps-enter_lobby num user_id user_pk w c =
      Keeps-bind env ps ds (on_sql env (listing user_pk) w) _
        (Keeps-on_sql env ps ds (listing user_pk) w c)
        λ friends w₁ c₁.
          Keeps-bind env ps ds (value env friends w₁) _ (Keeps-value friends w₁ c₁) λ pks w₂ c₂.
            Keeps-bind env ps ds (change_user env num (set_friend_pks pks) w₂) _
              (Keeps-change_user env ps ds num (set_friend_pks pks) w₂
                (λ u. unfold set_friend_pks in refl) c₂)
              λ _ w₃ c₃.
                Keeps-bind env ps ds (notify_friend_online env user_pk pks w₃) _
                  (let (s, e) = notify_friend_online-returns env user_pk pks w₃ in
                    rw e (Carries-same env ps ds w₃ _ c₃ refl refl))
                  λ _ w₄ c₄.
                    Keeps-bind env ps ds (change_user env num (set_pk user_pk) w₄) _
                      (Keeps-change_user env ps ds num (set_pk user_pk) w₄
                        (λ u. unfold set_pk in refl) c₄)
                      λ _ w₅ c₅.
                        Keeps-bind env ps ds (change_user env num (set_id user_id) w₅) _
                          (Keeps-change_user env ps ds num (set_id user_id) w₅
                            (λ u. unfold set_id in refl) c₅)
                          λ _ w₆ c₆. Keeps-mark_online num user_pk w₆ c₆

  Keeps-connect_listed :
      (num : ℕ) (user_id : Bytes) (user_pk : ℕ) (friends : Option (List ℕ)) (w : State env)
      → Carries env ps ds w
      → Keeps env ps ds (connect_listed env num user_id user_pk friends w)
  unfolding connect_listed reply_connect
  Keeps-connect_listed num user_id user_pk none w c =
      Keeps-push_to env ps ds num connect_response_size _ w c
  Keeps-connect_listed num user_id user_pk (some pks) w c =
      Keeps-enter_lobby num user_id user_pk w c

  Keeps-connect_verified :
      (num : ℕ) (user_id : Bytes) (verified : Option ℕ) (w : State env)
      → Carries env ps ds w
      → Keeps env ps ds (connect_verified env num user_id verified w)
  unfolding connect_verified reply_connect
  Keeps-connect_verified num user_id none w c =
      Keeps-push_to env ps ds num connect_response_size _ w c
  Keeps-connect_verified num user_id (some user_pk) w c =
      Keeps-bind env ps ds (on_sql env (listing user_pk) w) _
        (Keeps-on_sql env ps ds (listing user_pk) w c)
        λ friends v d. Keeps-connect_listed num user_id user_pk friends v d

  pub Keeps-call_handler :
      (info : PacketInfo) (w : State env)
      → Carries env ps ds w
      → Keeps env ps ds (call_handler env info w)
  unfolding call_handler user_connect
  Keeps-call_handler info w c = elim (Bool-cases (info.packet_id == user_lobby_connect_request)) [
    | inl e ↦ rw e (
        let user_id : Bytes = request_user_id info.p_data in
        let (pk, s, r) = verify_user_token-returns env user_id (request_token info.p_data) w in
        rw r (
          Keeps-connect_verified info.conn_obj_num user_id pk (record w { store = s })
            (Carries-same env ps ds w _ c refl refl)))
    | inr e ↦ rw e tt
  ]

  pub Keeps-send_friend_status_to_user :
      (target_pk friend_pk status : ℕ) (w : State env)
      → Carries env ps ds w
      → Keeps env ps ds (send_friend_status_to_user env target_pk friend_pk status w)
  unfolding send_friend_status_to_user obj_num_of
  Keeps-send_friend_status_to_user target_pk friend_pk status w c =
      let same : (k : ℕ)
          → find_user k (get_obj_num_by_pk target_pk w.manager).1 ≡ find_user k w.manager =
        λ k. find_user-get_obj_num_by_pk target_pk k w.manager in
      let num : ℕ = (get_obj_num_by_pk target_pk w.manager).0 in
      Keeps-push_to env ps ds num status_notify_size (status_notify env.padding friend_pk status)
        (record w { manager = (get_obj_num_by_pk target_pk w.manager).1 })
        (record {
          queue = c.queue;
          rings = λ k u e. c.rings k u (sym (same k) ∙ e);
          sized = c.sized;
          present = All-mono (λ p h. (h.0, same p.0 ∙ h.1)) ps c.present;
        })
