-- ===== src/Redis/Users.antt =====
-- The handlers of RedisManager.cpp: `UserConnect`, `UserDisConnect`, `ProcessFriendAccept` and
-- `SendFriendStatusToUser`. The lines that they log are left out.
use outgame_lobby_server.Prelude.{
  ℕ, Bool, true, false, List, [], Option, none, some, Bytes, codes, bad_optional_access, get_or,
}
use outgame_lobby_server.Effects.{returned, raised, modify, ◌>>=◌, ◌>>◌}
use outgame_lobby_server.Packet.{
  request_token, request_user_id, request_target_id, connect_response, connect_response_size,
  status_notify, status_notify_size, action_response, action_response_size,
}
use outgame_lobby_server.ConnUser.{ConnUser, set_pk, set_id, set_friend_pks, del_friend_pks}
use outgame_lobby_server.ConnUsersManager.{get_obj_num_by_pk, del_pk_to_obj_num}
use outgame_lobby_server.Mysql.{get_user_friends_pks, accept_friend}
use outgame_lobby_server.Redis.World.{
  Environment, Server, ask, on_sql, user_at, put_user, push_to, user_key,
}
use outgame_lobby_server.Redis.Publish.{
  verify_user_token, notify_friend_online, notify_friend_offline,
}

module _ (env : Environment) where
  open env use {redis, mysql, padding, row_fuel}

  -- A call of a setter of the object `num`.
  unfoldable pub change_user : ℕ → (ConnUser → ConnUser) → Server env (Unit {0})
  change_user num change = do u ← user_at env num; put_user env num (change u)

  unfoldable pub reply_connect : ℕ → Bool → Server env (Unit {0})
  reply_connect num is_success =
      push_to env num connect_response_size (connect_response (get_or padding 0 0) is_success)

  -- `optional::value()`
  unfoldable pub value : {A : Type 0} → Option A → Server env A
  value none w = raised bad_optional_access w
  value (some a) w = returned a w

  -- The end of `UserConnect`.
  unfoldable pub mark_online : ℕ → ℕ → Server env (Unit {0})
  mark_online num user_pk = do
    ask env (redis.hset (user_key user_pk) (codes "state") (codes "lobby"))
    ask env (redis.expire (user_key user_pk) 300)
    reply_connect num true

  -- `UserConnect` once the user's key is known, and the friends have been read once.
  unfoldable pub enter_lobby : ℕ → Bytes → ℕ → Server env (Unit {0})
  enter_lobby num user_id user_pk = do
    friends ← on_sql env (get_user_friends_pks mysql row_fuel user_pk)
    pks ← value friends
    change_user num (set_friend_pks pks)
    notify_friend_online env user_pk pks
    change_user num (set_pk user_pk)
    change_user num (set_id user_id)
    mark_online num user_pk

  unfoldable pub connect_listed : ℕ → Bytes → ℕ → Option (List ℕ) → Server env (Unit {0})
  connect_listed num user_id user_pk none = reply_connect num false
  connect_listed num user_id user_pk (some pks) = enter_lobby num user_id user_pk

  unfoldable pub connect_verified : ℕ → Bytes → Option ℕ → Server env (Unit {0})
  unfolding connect_listed
  connect_verified num user_id none = reply_connect num false
  connect_verified num user_id (some user_pk) = do
    friends ← on_sql env (get_user_friends_pks mysql row_fuel user_pk)
    connect_listed num user_id user_pk friends

  -- `UserConnect`
  unfoldable pub user_connect : ℕ → ℕ → Bytes → Server env (Unit {0})
  unfolding connect_verified
  user_connect num size packet = do
    verified ← verify_user_token env (request_user_id packet) (request_token packet)
    connect_verified num (request_user_id packet) verified

  -- `UserDisConnect`; its pipeline holds no command.
  unfoldable pub user_dis_connect : ℕ → Server env (Unit {0})
  user_dis_connect num = do
    u ← user_at env num
    notify_friend_offline env u.user_pk
    _ ← ask env (redis.hget_all [] [])
    change_user num del_friend_pks
    modify λ w. record w { manager = del_pk_to_obj_num u.user_pk w.manager }

  unfoldable pub reply_action : ℕ → Bytes → Bool → Server env (Unit {0})
  reply_action num target_id is_success =
      push_to env num action_response_size (action_response target_id is_success)

  unfoldable pub finish_accept : ℕ → Bytes → Option ℕ → Server env (Unit {0})
  unfolding reply_action
  finish_accept num target_id none = reply_action num target_id false
  finish_accept num target_id (some target_pk) = do
    _ ← ask env (redis.hget (user_key target_pk) (codes "state"))
    reply_action num target_id true

  -- `ProcessFriendAccept`. The message that it builds for a target that is online goes nowhere.
  unfoldable pub process_friend_accept : ℕ → ℕ → Bytes → Server env (Unit {0})
  unfolding finish_accept
  process_friend_accept num size packet = do
    u ← user_at env num
    target ← on_sql env (accept_friend mysql u.user_pk (request_target_id packet))
    finish_accept num (request_target_id packet) target

  -- `GetObjNumByPk` on the state.
  unfoldable pub obj_num_of : ℕ → Server env ℕ
  obj_num_of pk w =
      let (num, manager) = get_obj_num_by_pk pk w.manager in
      returned num (record w { manager = manager })

  -- `SendFriendStatusToUser`
  unfoldable pub send_friend_status_to_user :
      (target_pk friend_pk status : ℕ) → Server env (Unit {0})
  unfolding obj_num_of
  send_friend_status_to_user target_pk friend_pk status = do
    num ← obj_num_of target_pk
    push_to env num status_notify_size (status_notify padding friend_pk status)
