-- ===== src/Prelude/Memory.antt =====
-- Memory as lists of bytes, and the C library's `memcpy`.
use Prim.Native.Nat.{ℕ, zero, suc, ◌+◌, ◌-◌, ◌≤◌, ◌<◌}
use mathlib.Core.Path.{◌≡◌, refl}
use mathlib.Core.Bool.{◌&&◌}
use mathlib.Core.List.{List, [], ◌∷◌}
use native.Mathlib.Omega.{arith}
use outgame_lobby_server.Prelude.Tests.{ltb, leb, if◌then◌else◌}
use outgame_lobby_server.Prelude.Lists.{
  length, get_or, set, take, drop, length-set, length-take, length-drop, get_or-set, get_or-take,
  get_or-drop,
}

abbrev pub Bytes : Type 0
Bytes = List ℕ

get_or-cons :
    (x : ℕ) (xs : Bytes) (i : ℕ) (d : ℕ)
    → get_or (x ∷ xs) i d ≡ (if ltb 0 i then get_or xs (i - 1) d else x)
get_or-cons x xs zero d = ground arith
get_or-cons x xs (suc i) d = ground arith

-- The elements of `ys` written to `xs` from index `i` on.
pub blit : Bytes → ℕ → Bytes → Bytes
blit xs i [] = xs
blit xs i (y ∷ ys) = blit (set xs i y) (suc i) ys

-- `memcpy(dst + i, src + j, n)`
unfoldable pub memcpy : Bytes → ℕ → Bytes → ℕ → ℕ → Bytes
unfolding blit
memcpy dst i src j n = blit dst i (take n (drop j src))

length-blit : (xs : Bytes) (i : ℕ) (ys : Bytes) → length (blit xs i ys) ≡ length xs
unfolding blit
length-blit xs i [] = refl
length-blit xs i (y ∷ ys) = omega (arith, length-blit (set xs i y) (suc i) ys, length-set xs i y)

get_or-blit :
    (xs : Bytes) (i : ℕ) (ys : Bytes) (j : ℕ) (d : ℕ)
    → i + length ys ≤ length xs
    → get_or (blit xs i ys) j d
      ≡ (if leb i j && ltb j (i + length ys) then get_or ys (j - i) d else get_or xs j d)
unfolding blit
get_or-blit xs i [] j d h = ground arith
get_or-blit xs i (y ∷ ys) j d h = ground (
  arith,
  get_or-blit (set xs i y) (suc i) ys j d,
  get_or-set xs i j y d,
  length-set xs i y,
  get_or-cons y ys (j - i) d,
)

get_or-slice :
    (src : Bytes) (j n k : ℕ) (d : ℕ)
    → k < n
    → get_or (take n (drop j src)) k d ≡ get_or src (j + k) d
get_or-slice src j n k d h = ground (arith, get_or-take n (drop j src) k d, get_or-drop j src k d)

length-slice : (src : Bytes) (j n : ℕ) → j + n ≤ length src → length (take n (drop j src)) ≡ n
length-slice src j n h = omega (arith, length-take n (drop j src), length-drop j src)

-- An in-bounds copy holds the source's elements in its range, and the old ones elsewhere.
pub get_or-memcpy :
    (dst : Bytes) (i : ℕ) (src : Bytes) (j n k : ℕ) (d : ℕ)
    → j + n ≤ length src
    → i + n ≤ length dst
    → get_or (memcpy dst i src j n) k d
      ≡ (if leb i k && ltb k (i + n) then get_or src (j + (k - i)) d else get_or dst k d)
unfolding memcpy
get_or-memcpy dst i src j n k d hs hd = ground (
  arith,
  get_or-blit dst i (take n (drop j src)) k d,
  get_or-slice src j n (k - i) d,
  length-slice src j n,
)

pub length-memcpy :
    (dst : Bytes) (i : ℕ) (src : Bytes) (j n : ℕ) → length (memcpy dst i src j n) ≡ length dst
unfolding memcpy
length-memcpy dst i src j n = length-blit dst i (take n (drop j src))
