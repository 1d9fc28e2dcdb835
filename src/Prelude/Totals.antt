-- ===== src/Prelude/Totals.antt =====
-- The sum of a number for each element of a list.
use Prim.Native.Nat.{ℕ, zero, suc, ◌+◌}
use mathlib.Core.Path.{◌≡◌}
use mathlib.Core.List.{List, [], ◌∷◌, ◌++◌}
use mathlib.Core.Option.{some}
use native.Mathlib.Omega.{arith}
use outgame_lobby_server.Prelude.Lists.{get_elem?, set, replicate}

module _ {A : Type 0} (f : A → ℕ) where
  abbrev pub total : List A → ℕ
  total [] = 0
  total (x ∷ xs) = f x + total xs

  pub total-append : (xs ys : List A) → total (xs ++ ys) ≡ total xs + total ys
  total-append [] ys = omega arith
  total-append (x ∷ xs) ys = omega (arith, total-append xs ys)

  pub total-set :
      (xs : List A) (i : ℕ) (x y : A)
      → get_elem? xs i ≡ some x
      → total (set xs i y) + f x ≡ total xs + f y
  total-set [] i x y e = absurd (ground (arith, e))
  total-set (z ∷ xs) zero x y e = ground (arith, e)
  total-set (z ∷ xs) (suc i) x y e = omega (arith, total-set xs i x y e)

  pub total-replicate : (n : ℕ) (x : A) → f x ≡ 0 → total (replicate n x) ≡ 0
  total-replicate zero x e = omega arith
  total-replicate (suc n) x e = omega (arith, e, total-replicate n x e)
