-- ===== src/ConnUsersManager/Tests.antt =====
-- The table and the map at concrete states.
use outgame_lobby_server.Prelude.{◌≡◌, [], ◌∷◌, none, some, arith}
use outgame_lobby_server.ConnUser.Samples.{quiet_user}
use outgame_lobby_server.ConnUsersManager.{
  ConnUsersManager, insert_user, find_user, set_pk_to_obj_num, del_pk_to_obj_num, get_obj_num_by_pk,
}
use outgame_lobby_server.ConnUsersManager.Laws.{at, at_lem, find_user-insert_user}

abbrev two_slots : ConnUsersManager
two_slots = record { pk_to_obj_num = (13, 1) ∷ []; conn_users = none ∷ none ∷ [] }

at_lem_example :
    (at (set_pk_to_obj_num 14 2 two_slots) 14 ≡ 2)
    × (at (del_pk_to_obj_num 14 two_slots) 14 ≡ 0)
    × (at (get_obj_num_by_pk 14 two_slots).1 14 ≡ at two_slots 14)
at_lem_example = at_lem 14 2 14 two_slots

find_user-insert_user_example : find_user 1 (insert_user 1 quiet_user two_slots) ≡ some quiet_user
find_user-insert_user_example = find_user-insert_user 1 1 quiet_user two_slots (omega arith)
