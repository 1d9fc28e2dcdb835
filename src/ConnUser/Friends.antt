-- ===== src/ConnUser/Friends.antt =====
-- ConnUser.h: the friends of a connection, an `unordered_set`. The order in which the model's list holds
-- them is not the program's, so a set of friends is a list with its order and repetitions forgotten.
use outgame_lobby_server.Prelude.{
  ℕ, ◌≡◌, refl, ap, ◌∙◌, Bool, true, false, List, [], ◌∷◌, ◌++◌, ◌==◌, ◌||◌, ◌&&◌, not, Bool-cases,
  inl, inr, ==_iff, arith,
}
use mathlib.Core.Bool.{Bool-set}
use mathlib.Core.Quot
use mathlib.Core.Quot.{Quot, Quot-set}
use outgame_lobby_server.ConnUser.{
  ConnUser, member, insert, insert_all, erase, set_friend_pks, del_friend_pks, add_friend,
  remove_friend,
}

-- No key twice.
abbrev pub distinct : List ℕ → Bool
distinct [] = true
distinct (x ∷ xs) = not (member x xs) && distinct xs

member-append : (k : ℕ) (xs ys : List ℕ) → member k (xs ++ ys) ≡ (member k xs || member k ys)
unfolding member
member-append k [] ys = refl
member-append k (x ∷ xs) ys = ground (arith, member-append k xs ys)

equal : (k pk : ℕ) → (k == pk) ≡ true → k ≡ pk
equal k pk e = (==_iff k pk).0 e

pub member-insert : (k pk : ℕ) (xs : List ℕ) → member k (insert pk xs) ≡ (k == pk || member k xs)
unfolding insert
member-insert k pk xs = elim (Bool-cases (member pk xs)) [
  | inl e ↦ rw e (elim (Bool-cases (k == pk)) [
    | inl q ↦ rw q (ap (λ j. member j xs) (equal k pk q) ∙ e)
    | inr q ↦ rw q refl
  ])
  | inr e ↦ rw e (rw (member-append k xs (pk ∷ [])) (ground arith))
]

distinct-snoc :
    (pk : ℕ) (xs : List ℕ)
    → distinct xs ≡ true
    → member pk xs ≡ false
    → distinct (xs ++ pk ∷ []) ≡ true
unfolding member
distinct-snoc pk [] d e = refl
distinct-snoc pk (x ∷ xs) d e =
    rw (member-append x xs (pk ∷ [])) (ground (arith, distinct-snoc pk xs))

distinct-insert : (pk : ℕ) (xs : List ℕ) → distinct xs ≡ true → distinct (insert pk xs) ≡ true
unfolding insert
distinct-insert pk xs d = elim (Bool-cases (member pk xs)) [
  | inl e ↦ rw e d
  | inr e ↦ rw e (distinct-snoc pk xs d e)
]

member-erase :
    (k pk : ℕ) (xs : List ℕ)
    → distinct xs ≡ true
    → member k (erase pk xs) ≡ (not (k == pk) && member k xs)
unfolding member erase
member-erase k pk [] d = ground arith
member-erase k pk (x ∷ xs) d = ground (arith, member-erase k pk xs)

distinct-erase : (pk : ℕ) (xs : List ℕ) → distinct xs ≡ true → distinct (erase pk xs) ≡ true
unfolding erase
distinct-erase pk [] d = refl
distinct-erase pk (x ∷ xs) d = ground (arith, distinct-erase pk xs, member-erase x pk xs)

-- `std::unordered_set(pks.begin(), pks.end())`
member-insert_all :
    (k : ℕ) (pks xs : List ℕ) → member k (insert_all pks xs) ≡ (member k pks || member k xs)
unfolding insert_all member
member-insert_all k [] xs = refl
member-insert_all k (pk ∷ pks) xs =
    rw (member-insert_all k pks (insert pk xs), member-insert k pk xs) (ground arith)

distinct-insert_all : (pks xs : List ℕ) → distinct xs ≡ true → distinct (insert_all pks xs) ≡ true
unfolding insert_all
distinct-insert_all [] xs d = d
distinct-insert_all (pk ∷ pks) xs d =
    distinct-insert_all pks (insert pk xs) (distinct-insert pk xs d)

-- The four calls that change the friends of a connection.
pub data FriendCall : Type 0 where
  fill_with : List ℕ → FriendCall
  clear : FriendCall
  add remove : ℕ → FriendCall

abbrev pub apply_call : FriendCall → ConnUser → ConnUser
apply_call (fill_with pks) u = set_friend_pks pks u
apply_call clear u = del_friend_pks u
apply_call (add pk) u = add_friend pk u
apply_call (remove pk) u = remove_friend pk u

abbrev pub apply_calls : List FriendCall → ConnUser → ConnUser
apply_calls [] u = u
apply_calls (c ∷ cs) u = apply_calls cs (apply_call c u)

-- What the calls do to a set, given by its membership test.
abbrev pub amend : FriendCall → (ℕ → Bool) → ℕ → Bool
amend (fill_with pks) s k = member k pks
amend clear s k = false
amend (add pk) s k = k == pk || s k
amend (remove pk) s k = not (k == pk) && s k

abbrev pub amends : List FriendCall → (ℕ → Bool) → ℕ → Bool
amends [] s = s
amends (c ∷ cs) s = amends cs (amend c s)

distinct-apply_call :
    (c : FriendCall) (u : ConnUser)
    → distinct u.friend_pks ≡ true
    → distinct (apply_call c u).friend_pks ≡ true
unfolding set_friend_pks del_friend_pks add_friend remove_friend
distinct-apply_call (fill_with pks) u d = distinct-insert_all pks [] refl
distinct-apply_call clear u d = refl
distinct-apply_call (add pk) u d = distinct-insert pk u.friend_pks d
distinct-apply_call (remove pk) u d = distinct-erase pk u.friend_pks d

member-apply_call :
    (c : FriendCall) (u : ConnUser) (k : ℕ)
    → distinct u.friend_pks ≡ true
    → member k (apply_call c u).friend_pks ≡ amend c (λ j. member j u.friend_pks) k
unfolding set_friend_pks del_friend_pks add_friend remove_friend member
member-apply_call (fill_with pks) u k d = member-insert_all k pks [] ∙ ground arith
member-apply_call clear u k d = refl
member-apply_call (add pk) u k d = member-insert k pk u.friend_pks
member-apply_call (remove pk) u k d = member-erase k pk u.friend_pks d

-- Two lists hold the same keys.
abbrev pub SameMembers : List ℕ → List ℕ → Type 0
SameMembers xs ys = (k : ℕ) → member k xs ≡ member k ys

-- A set of keys: the lists, with order and repetitions forgotten.
abbrev pub FriendSet : Type 0
FriendSet = Quot SameMembers

unfoldable pub friends : ConnUser → FriendSet
friends u = Quot.mk u.friend_pks

unfoldable pub has : FriendSet → ℕ → Bool
has s k = Quot.lift Bool-set (member k) (λ xs ys h. h k) s

amends_mono :
    (cs : List FriendCall) (s t : ℕ → Bool)
    → ((k : ℕ) → s k ≡ t k)
    → (k : ℕ) → amends cs s k ≡ amends cs t k
amends_mono cs s t h k = ap (λ f. amends cs f k) (λ i j. h j i)

distinct-apply_calls :
    (cs : List FriendCall) (u : ConnUser)
    → distinct u.friend_pks ≡ true
    → distinct (apply_calls cs u).friend_pks ≡ true
distinct-apply_calls [] u d = d
distinct-apply_calls (c ∷ cs) u d =
    distinct-apply_calls cs (apply_call c u) (distinct-apply_call c u d)

-- After any calls of `SetFriendPks`, `DelFriendPks`, `AddFriend` and `RemoveFriend`, from a connection
-- whose friends are without repetition: they are so again, and a key is a friend exactly where the
-- same operations on a mathematical set put it.
pub apply_calls_lem :
    (cs : List FriendCall) (u : ConnUser)
    → distinct u.friend_pks ≡ true
    → (distinct (apply_calls cs u).friend_pks ≡ true)
      × ((k : ℕ) → has (friends (apply_calls cs u)) k ≡ amends cs (has (friends u)) k)
unfolding friends has
apply_calls_lem [] u d = (d, λ k. refl)
apply_calls_lem (c ∷ cs) u d =
    let rest = apply_calls_lem cs (apply_call c u) (distinct-apply_call c u d) in
    (
      rest.0,
      λ k.
          rest.1 k
          ∙ amends_mono cs (λ j. member j (apply_call c u).friend_pks)
              (amend c (λ j. member j u.friend_pks)) (λ j. member-apply_call c u j d) k,
    )
