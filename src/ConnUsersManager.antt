-- ===== src/ConnUsersManager.antt =====
-- ConnUsersManager.h and ConnUsersManager.cpp: the table of connection objects, and the map from
-- user keys to connection numbers (each call of it runs under `pkMapMutex`).
pub mod Laws
mod Tests
use outgame_lobby_server.Prelude.{
  ℕ, List, [], ◌∷◌, Option, none, some, ◌==◌, if◌then◌else◌, get_elem?, set, replicate,
}
use outgame_lobby_server.ConnUser.{ConnUser}

-- `class ConnUsersManager`. A pointer to a connection object is its number in the table, and `none`
-- is a null pointer.
pub record ConnUsersManager : Type 0 where
  pub pk_to_obj_num : List (ℕ × ℕ)
  pub conn_users : List (Option ConnUser)

unfoldable pub create_manager : ℕ → ConnUsersManager
create_manager max_client_count = record {
  pk_to_obj_num = [];
  conn_users = replicate max_client_count none;
}

-- `InsertUser`
unfoldable pub insert_user : ℕ → ConnUser → ConnUsersManager → ConnUsersManager
insert_user num u m = record m { conn_users = set m.conn_users num (some u) }

abbrev join_option : Option (Option ConnUser) → Option ConnUser
join_option none = none
join_option (some o) = o

-- `FindUser`; `none` is null, or out of the table.
unfoldable pub find_user : ℕ → ConnUsersManager → Option ConnUser
find_user num m = join_option (get_elem? m.conn_users num)

-- The entries of `pkToObjNum`.
unfoldable pub lookup : ℕ → List (ℕ × ℕ) → Option ℕ
lookup pk [] = none
lookup pk ((k, v) ∷ rest) = if k == pk then some v else lookup pk rest

unfoldable pub assign : ℕ → ℕ → List (ℕ × ℕ) → List (ℕ × ℕ)
assign pk num [] = (pk, num) ∷ []
assign pk num ((k, v) ∷ rest) = if k == pk then (pk, num) ∷ rest else (k, v) ∷ assign pk num rest

unfoldable pub erase_key : ℕ → List (ℕ × ℕ) → List (ℕ × ℕ)
erase_key pk [] = []
erase_key pk ((k, v) ∷ rest) = if k == pk then erase_key pk rest else (k, v) ∷ erase_key pk rest

-- `SetPkToObjNum`
unfoldable pub set_pk_to_obj_num : ℕ → ℕ → ConnUsersManager → ConnUsersManager
set_pk_to_obj_num pk num m = record m { pk_to_obj_num = assign pk num m.pk_to_obj_num }

-- `GetObjNumByPk`: `operator[]` puts in 0 for a key that is not there.
unfoldable pub get_obj_num_by_pk : ℕ → ConnUsersManager → ℕ × ConnUsersManager
get_obj_num_by_pk pk m = elim (lookup pk m.pk_to_obj_num) [
  | some num ↦ (num, m)
  | none ↦ (0, record m { pk_to_obj_num = assign pk 0 m.pk_to_obj_num })
]

-- `DelPkToObjNum`
unfoldable pub del_pk_to_obj_num : ℕ → ConnUsersManager → ConnUsersManager
del_pk_to_obj_num pk m = record m { pk_to_obj_num = erase_key pk m.pk_to_obj_num }
