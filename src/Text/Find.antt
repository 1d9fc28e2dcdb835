-- ===== src/Text/Find.antt =====
-- `find`, `rfind`, `substr` and `insert` of `std::string`. `none` is `npos`.
use mathlib.Core.Option
use outgame_lobby_server.Prelude.{
  ℕ, zero, suc, ◌+◌, ◌≡◌, refl, ◌≢◌, ap, Bool, true, false, ◌&&◌, [], ◌∷◌, ◌++◌, Option, none, some,
  Bytes, length, take, drop, arith, ◌==◌, if◌then◌else◌, All,
}

unfoldable pub starts_with : Bytes → Bytes → Bool
starts_with [] s = true
starts_with (p ∷ ps) [] = false
starts_with (p ∷ ps) (c ∷ s) = p == c && starts_with ps s

-- `s.find(pat)`
unfoldable pub find : Bytes → Bytes → Option ℕ
unfolding starts_with
find pat [] = if starts_with pat [] then some 0 else none
find pat (c ∷ s) =
    let later = Option.map suc (find pat s) in if starts_with pat (c ∷ s) then some 0 else later

-- `s.find(pat, pos)`, for a `pos` within `s`
unfoldable pub find_from : Bytes → Bytes → ℕ → Option ℕ
unfolding find
find_from pat s pos = Option.map (λ i. pos + i) (find pat (drop pos s))

-- `s.rfind(pat)`
unfoldable pub rfind : Bytes → Bytes → Option ℕ
unfolding starts_with
rfind pat [] = if starts_with pat [] then some 0 else none
rfind pat (c ∷ s) = elim (rfind pat s) [
  | some i ↦ some (suc i)
  | none ↦ if starts_with pat (c ∷ s) then some 0 else none
]

-- `s.substr(pos, n)`, for a `pos` within `s`
unfoldable pub substr : Bytes → ℕ → ℕ → Bytes
substr s pos n = take n (drop pos s)

-- `s.insert(pos, t)`, for a `pos` within `s`
unfoldable pub insert_at : Bytes → ℕ → Bytes → Bytes
insert_at s pos t = take pos s ++ t ++ drop pos s

-- A stretch without the first byte of the pattern is passed over.
pub find-skip :
    (p : ℕ) (ps pre s : Bytes)
    → All (λ c. c ≢ p) pre
    → find (p ∷ ps) (pre ++ s) ≡ Option.map (λ i. length pre + i) (find (p ∷ ps) s)
unfolding find
find-skip p ps [] s h = ground arith
find-skip p ps (c ∷ pre) s h = ground (arith, find-skip p ps pre s h.1)

-- The last occurrence in `s` is the last one in `pre ++ s`.
pub rfind-append :
    (pat pre s : Bytes) (i : ℕ)
    → rfind pat s ≡ some i
    → rfind pat (pre ++ s) ≡ some (length pre + i)
unfolding rfind
rfind-append pat [] s i h = ground arith
rfind-append pat (c ∷ pre) s i h = ground (arith, rfind-append pat pre s i h)

pub drop-append : (xs ys : Bytes) (k n : ℕ) → n ≡ length xs + k → drop n (xs ++ ys) ≡ drop k ys
drop-append [] ys k n e = rw e (ap (λ m. drop m ys) (omega arith))
drop-append (x ∷ xs) ys k zero e = absurd (omega arith)
drop-append (x ∷ xs) ys k (suc n) e = drop-append xs ys k n (omega arith)

pub take-append : (xs ys : Bytes) (n : ℕ) → n ≡ length xs → take n (xs ++ ys) ≡ xs
take-append [] ys zero e = refl
take-append [] ys (suc n) e = absurd (omega arith)
take-append (x ∷ xs) ys zero e = absurd (omega arith)
take-append (x ∷ xs) ys (suc n) e = ap (◌∷◌ x) (take-append xs ys n (omega arith))
