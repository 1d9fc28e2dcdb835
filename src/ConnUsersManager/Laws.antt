-- ===== src/ConnUsersManager/Laws.antt =====
-- The table and the map behave as finite maps, but that a look-up of a missing key puts in 0.
use outgame_lobby_server.Prelude.{
  ℕ, zero, suc, ◌<◌, ◌≡◌, refl, List, [], ◌∷◌, Option, none, some, ◌==◌, if◌then◌else◌,
  Option-cases, inl, inr, length, get_elem?, set, arith,
}
use outgame_lobby_server.ConnUser.{ConnUser}
use outgame_lobby_server.ConnUsersManager.{
  ConnUsersManager, insert_user, find_user, lookup, assign, erase_key, set_pk_to_obj_num,
  get_obj_num_by_pk, del_pk_to_obj_num,
}

pub lookup-assign :
    (pk k num : ℕ) (m : List (ℕ × ℕ))
    → lookup k (assign pk num m) ≡ (if pk == k then some num else lookup k m)
unfolding lookup assign
lookup-assign pk k num [] = refl
lookup-assign pk k num ((j, v) ∷ rest) = ground (arith, lookup-assign pk k num rest)

pub lookup-erase_key :
    (pk k : ℕ) (m : List (ℕ × ℕ))
    → lookup k (erase_key pk m) ≡ (if pk == k then none else lookup k m)
unfolding lookup erase_key
lookup-erase_key pk k [] = ground arith
lookup-erase_key pk k ((j, v) ∷ rest) = ground (arith, lookup-erase_key pk k rest)

get_elem?-set :
    (users : List (Option ConnUser)) (i j : ℕ) (u : Option ConnUser)
    → i < length users
    → get_elem? (set users i u) j ≡ (if i == j then some u else get_elem? users j)
get_elem?-set [] i j u h = elim h [ ]
get_elem?-set (x ∷ users) zero zero u h = ground arith
get_elem?-set (x ∷ users) zero (suc j) u h = ground arith
get_elem?-set (x ∷ users) (suc i) zero u h = ground arith
get_elem?-set (x ∷ users) (suc i) (suc j) u h = ground (arith, get_elem?-set users i j u)

-- After `InsertUser` at a number within the table, `FindUser` finds the new user there, and any other
-- number as before.
pub find_user-insert_user :
    (num k : ℕ) (u : ConnUser) (m : ConnUsersManager)
    → num < length m.conn_users
    → find_user k (insert_user num u m) ≡ (if num == k then some u else find_user k m)
unfolding find_user insert_user
find_user-insert_user num k u m h = ground (arith, get_elem?-set m.conn_users num k (some u))

-- What a look-up of a key returns.
abbrev pub at : ConnUsersManager → ℕ → ℕ
at m k = (get_obj_num_by_pk k m).0

-- After any set, delete or look-up of a key, the next look-up of any key returns what a map with
-- default 0 holds there.
pub at_lem :
    (pk num k : ℕ) (m : ConnUsersManager)
    → (at (set_pk_to_obj_num pk num m) k ≡ (if pk == k then num else at m k))
      × (at (del_pk_to_obj_num pk m) k ≡ (if pk == k then 0 else at m k))
      × (at (get_obj_num_by_pk pk m).1 k ≡ at m k)
unfolding get_obj_num_by_pk set_pk_to_obj_num del_pk_to_obj_num
at_lem pk num k m =
    let map = m.pk_to_obj_num in
    (
      ground (arith, lookup-assign pk k num map),
      ground (arith, lookup-erase_key pk k map),
      ground (
        arith,
        lookup-assign pk k 0 map,
        Option-cases (lookup pk map),
        Option-cases (lookup k map),
      ),
    )

get_elem?-lt :
    (xs : List (Option ConnUser)) (i : ℕ) (u : Option ConnUser)
    → get_elem? xs i ≡ some u
    → i < length xs
get_elem?-lt [] i u h = cc
get_elem?-lt (x ∷ xs) zero u h = omega arith
get_elem?-lt (x ∷ xs) (suc i) u h = omega (arith, get_elem?-lt xs i u h)

pub find_user-lt :
    (n : ℕ) (m : ConnUsersManager) (u : ConnUser) → find_user n m ≡ some u → n < length m.conn_users
unfolding find_user
find_user-lt n m u h = elim (Option-cases (get_elem? m.conn_users n)) [
  | inl e ↦ ground arith
  | inr (o, e) ↦ get_elem?-lt m.conn_users n o e
]

-- A look-up of a key changes no connection.
pub find_user-get_obj_num_by_pk :
    (pk k : ℕ) (m : ConnUsersManager) → find_user k (get_obj_num_by_pk pk m).1 ≡ find_user k m
unfolding get_obj_num_by_pk find_user
find_user-get_obj_num_by_pk pk k m = elim (Option-cases (lookup pk m.pk_to_obj_num)) [
  | inl e ↦ rw (e, get_obj_num_by_pk) refl
  | inr (num, e) ↦ rw (e, get_obj_num_by_pk) refl
]

pub at-same :
    (m n : ConnUsersManager) → m.pk_to_obj_num ≡ n.pk_to_obj_num → (pk : ℕ) → at m pk ≡ at n pk
unfolding get_obj_num_by_pk
at-same m n e pk = rw (e, get_obj_num_by_pk) (ground arith)
