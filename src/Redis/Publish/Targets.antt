-- ===== src/Redis/Publish/Targets.antt =====
-- How the targets of an event are split between the servers.
use outgame_lobby_server.Prelude.{
  ℕ, ◌≡◌, refl, Bool, true, false, ◌||◌, List, [], ◌∷◌, ◌++◌, append_assoc, append-nil, Option,
  none, some, Bytes, if◌then◌else◌, arith, Bool-cases, inl, inr,
}
use outgame_lobby_server.Redis.Client.{Reply, answered, failed}
use outgame_lobby_server.Redis.World.{Groups}
use outgame_lobby_server.Redis.Publish.{bytes_eq, add_target, group_targets}

pub bytes_eq-eq : (s t : Bytes) → bytes_eq s t ≡ true → s ≡ t
unfolding bytes_eq
bytes_eq-eq [] [] h = refl
bytes_eq-eq [] (d ∷ t) h = cc
bytes_eq-eq (c ∷ s) [] h = cc
bytes_eq-eq (c ∷ s) (d ∷ t) h = ground (arith, bytes_eq-eq s t)

bytes_eq_refl : (s : Bytes) → bytes_eq s s ≡ true
unfolding bytes_eq
bytes_eq_refl [] = refl
bytes_eq_refl (c ∷ s) = ground (arith, bytes_eq_refl s)

-- The targets that the groups hold for a server.
unfoldable pub targets_of : Bytes → Groups → List ℕ
targets_of server [] = []
targets_of server ((name, pks) ∷ groups) =
    if bytes_eq name server then pks else targets_of server groups

-- The users that Redis locates on a server, in the order of the call.
unfoldable pub located : Bytes → List ℕ → List (Reply (Option Bytes)) → List ℕ
located server [] replies = []
located server (pk ∷ pks) [] = []
located server (pk ∷ pks) (answered (some name) ∷ replies) =
    if bytes_eq name server then pk ∷ located server pks replies else located server pks replies
located server (pk ∷ pks) (reply ∷ replies) = located server pks replies

targets_of-add_target :
    (server name : Bytes) (pk : ℕ) (groups : Groups)
    → targets_of server (add_target name pk groups) ≡ (
        if bytes_eq name server
        then targets_of server groups ++ pk ∷ []
        else targets_of server groups)
unfolding targets_of add_target
targets_of-add_target server name pk [] = ground arith
targets_of-add_target server name pk ((other, pks) ∷ groups) = ground (
  arith,
  targets_of-add_target server name pk groups,
  bytes_eq-eq other name,
  bytes_eq-eq other server,
  bytes_eq-eq name server,
  bytes_eq_refl server,
)

located-nil : (server : Bytes) (pks : List ℕ) → located server pks [] ≡ []
unfolding located
located-nil server [] = refl
located-nil server (pk ∷ pks) = refl

group_targets-located :
    (server : Bytes) (pks : List ℕ) (replies : List (Reply (Option Bytes))) (groups : Groups)
    → targets_of server (group_targets pks replies groups)
      ≡ targets_of server groups ++ located server pks replies
unfolding group_targets located
group_targets-located server [] replies groups = rw append-nil
group_targets-located server (pk ∷ pks) [] groups =
    rw (group_targets-located server pks [] groups) (rw (located-nil server pks))
group_targets-located server (pk ∷ pks) (answered (some name) ∷ replies) groups =
    rw
      (
        group_targets-located server pks replies (add_target name pk groups),
        targets_of-add_target server name pk groups,
      )
      (elim (Bool-cases (bytes_eq name server)) [
        | inl e ↦ rw e (append_assoc (targets_of server groups) (pk ∷ []) _)
        | inr e ↦ rw e
      ])
group_targets-located server (pk ∷ pks) (answered none ∷ replies) groups =
    group_targets-located server pks replies groups
group_targets-located server (pk ∷ pks) (failed ∷ replies) groups =
    group_targets-located server pks replies groups

-- The servers of the groups, and that none stands twice.
unfoldable pub named : Bytes → Groups → Bool
named server [] = false
named server ((name, pks) ∷ groups) = bytes_eq name server || named server groups

abbrev pub AreDistinct : Groups → Type 0
AreDistinct [] = Unit {0}
AreDistinct ((name, pks) ∷ groups) = (named name groups ≡ false) × AreDistinct groups

named-add_target :
    (server name : Bytes) (pk : ℕ) (groups : Groups)
    → named server (add_target name pk groups) ≡ (bytes_eq name server || named server groups)
unfolding named add_target
named-add_target server name pk [] = refl
named-add_target server name pk ((other, pks) ∷ groups) =
    ground (arith, named-add_target server name pk groups, bytes_eq-eq other name)

add_target-AreDistinct :
    (name : Bytes) (pk : ℕ) (groups : Groups)
    → AreDistinct groups
    → AreDistinct (add_target name pk groups)
unfolding named add_target
add_target-AreDistinct name pk [] h = (refl, tt)
add_target-AreDistinct name pk ((other, pks) ∷ groups) h = ground (
  arith,
  add_target-AreDistinct name pk groups h.1,
  named-add_target other name pk groups,
  bytes_eq-eq name other,
  bytes_eq_refl other,
)

group_targets-AreDistinct :
    (pks : List ℕ) (replies : List (Reply (Option Bytes))) (groups : Groups)
    → AreDistinct groups
    → AreDistinct (group_targets pks replies groups)
unfolding group_targets
group_targets-AreDistinct [] replies groups h = h
group_targets-AreDistinct (pk ∷ pks) [] groups h = group_targets-AreDistinct pks [] groups h
group_targets-AreDistinct (pk ∷ pks) (answered (some name) ∷ replies) groups h =
    group_targets-AreDistinct pks replies _ (add_target-AreDistinct name pk groups h)
group_targets-AreDistinct (pk ∷ pks) (answered none ∷ replies) groups h =
    group_targets-AreDistinct pks replies groups h
group_targets-AreDistinct (pk ∷ pks) (failed ∷ replies) groups h =
    group_targets-AreDistinct pks replies groups h

-- `PublishToUsers` splits its targets by server: the list of each server is the list of the users that
-- Redis locates there, in order, and no server has two lists.
pub group_targets_lem :
    (pks : List ℕ) (replies : List (Reply (Option Bytes)))
    → ((server : Bytes)
        → targets_of server (group_targets pks replies []) ≡ located server pks replies)
      × AreDistinct (group_targets pks replies [])
unfolding targets_of
group_targets_lem pks replies = (
  λ server. group_targets-located server pks replies [],
  group_targets-AreDistinct pks replies [] tt,
)
