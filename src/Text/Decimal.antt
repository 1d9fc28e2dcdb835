-- ===== src/Text/Decimal.antt =====
-- `std::to_string`, `std::stoul` and `std::stoi`.
use outgame_lobby_server.Prelude.{
  ℕ, zero, suc, ◌+◌, ◌-◌, ◌*◌, ◌/◌, ◌%◌, ◌^◌, ◌≤◌, ◌<◌, ◌≡◌, refl, ◌≢◌, Bool, true, false, ◌&&◌,
  ◌||◌, [], ◌∷◌, ◌++◌, Bytes, arith, ltb, leb, ◌==◌, if◌then◌else◌, All, Result, ok, throw,
  invalid_argument, out_of_range, u32_mod,
}

-- The digits of `n` before `done`; each round drops one, so fuel above `n` is enough.
digits : ℕ → ℕ → Bytes → Bytes
digits zero n done = done
digits (suc fuel) n done =
    let more = digits fuel (n / 10) ((b'0' + n % 10) ∷ done) in
    if ltb n 10 then (b'0' + n) ∷ done else more

unfoldable pub to_string : ℕ → Bytes
unfolding digits
to_string n = digits (suc n) n []

is_digit : ℕ → Bool
is_digit c = leb b'0' c && leb c b'9'

is_space : ℕ → Bool
is_space c = c == 32 || leb 9 c && leb c 13

skip_spaces : Bytes → Bytes
unfolding is_space
skip_spaces [] = []
skip_spaces (c ∷ s) = if is_space c then skip_spaces s else c ∷ s

-- The sign, and what follows it.
take_sign : Bytes → Bool × Bytes
take_sign [] = (false, [])
take_sign (c ∷ s) =
    if c == b'-' then (true, s) else if c == b'+' then (false, s) else (false, c ∷ s)

take_digits : Bytes → Bytes
unfolding is_digit
take_digits [] = []
take_digits (c ∷ s) = if is_digit c then c ∷ take_digits s else []

-- The number that digits spell behind `n`.
value_from : ℕ → Bytes → ℕ
value_from n [] = n
value_from n (c ∷ s) = value_from (n * 10 + (c - b'0')) s

read_number : (Bool → ℕ → Result ℕ) → Bool → Bytes → Result ℕ
unfolding value_from
read_number k neg [] = throw invalid_argument
read_number k neg (c ∷ s) = k neg (value_from 0 (c ∷ s))

-- A minus sign negates the word.
to_u32 : Bool → ℕ → Result ℕ
to_u32 neg n =
    if ltb n u32_mod then ok (if neg then (u32_mod - n) % u32_mod else n) else throw out_of_range

unfoldable pub stoul : Bytes → Result ℕ
unfolding skip_spaces take_sign take_digits read_number to_u32
stoul s = let (neg, t) = take_sign (skip_spaces s) in read_number to_u32 neg (take_digits t)

-- The result as a 32-bit pattern.
to_i32 : Bool → ℕ → Result ℕ
to_i32 true n = if leb n (2 ^ 31) then ok ((u32_mod - n) % u32_mod) else throw out_of_range
to_i32 false n = if ltb n (2 ^ 31) then ok n else throw out_of_range

unfoldable pub stoi : Bytes → Result ℕ
unfolding skip_spaces take_sign take_digits read_number to_i32
stoi s = let (neg, t) = take_sign (skip_spaces s) in read_number to_i32 neg (take_digits t)

abbrev pub IsDigit : ℕ → Type 0
IsDigit c = (b'0' ≤ c) × (c ≤ b'9')

digits-IsDigit : (fuel n : ℕ) (done : Bytes) → All IsDigit done → All IsDigit (digits fuel n done)
unfolding digits
digits-IsDigit zero n done h = h
digits-IsDigit (suc fuel) n done h =
    ground (arith, digits-IsDigit fuel (n / 10) ((b'0' + n % 10) ∷ done))

pub to_string-IsDigit : (n : ℕ) → All IsDigit (to_string n)
unfolding to_string
to_string-IsDigit n = digits-IsDigit (suc n) n [] tt

digits-ne-nil : (fuel n : ℕ) (c : ℕ) (done : Bytes) → digits fuel n (c ∷ done) ≢ []
unfolding digits
digits-ne-nil zero n c done = λ e. cc
digits-ne-nil (suc fuel) n c done =
    ground (arith, digits-ne-nil fuel (n / 10) (b'0' + n % 10) (c ∷ done))

pub to_string-ne-nil : (n : ℕ) → to_string n ≢ []
unfolding to_string digits
to_string-ne-nil n = ground (arith, digits-ne-nil n (n / 10) (b'0' + n % 10) [])

value_from-digits :
    (fuel n : ℕ) (done : Bytes) → n < fuel → value_from 0 (digits fuel n done) ≡ value_from n done
unfolding digits value_from
value_from-digits zero n done h = elim h [ ]
value_from-digits (suc fuel) n done h =
    ground (arith, value_from-digits fuel (n / 10) ((b'0' + n % 10) ∷ done))

value_from-to_string : (n : ℕ) → value_from 0 (to_string n) ≡ n
unfolding to_string value_from
value_from-to_string n = value_from-digits (suc n) n [] (omega arith)

-- What does not go on with a digit.
abbrev pub Ends : Bytes → Type 0
Ends [] = Unit {0}
Ends (c ∷ s) = ¬ IsDigit c

take_digits-append : (ds rest : Bytes) → All IsDigit ds → Ends rest → take_digits (ds ++ rest) ≡ ds
unfolding take_digits
take_digits-append [] [] h e = refl
take_digits-append [] (c ∷ rest) h e = ground arith
take_digits-append (c ∷ ds) rest h e = ground (arith, take_digits-append ds rest h.1 e)

stoul-digits :
    (ds rest : Bytes) (n : ℕ)
    → ds ≢ []
    → All IsDigit ds
    → Ends rest
    → value_from 0 ds ≡ n
    → n < u32_mod
    → stoul (ds ++ rest) ≡ ok n
unfolding stoul
stoul-digits [] rest n ne h e v lt = absurd (ne refl)
stoul-digits (c ∷ ds) rest n ne h e v lt = ground (arith, take_digits-append (c ∷ ds) rest h e)

-- A 32-bit number is read back from its print, whatever follows but a digit.
pub stoul-to_string :
    (n : ℕ) (rest : Bytes) → n < u32_mod → Ends rest → stoul (to_string n ++ rest) ≡ ok n
stoul-to_string n rest lt e =
    stoul-digits (to_string n) rest n (to_string-ne-nil n) (to_string-IsDigit n) e
      (value_from-to_string n) lt

-- A text that begins with no space, sign or digit is no number.
pub stoi-no_number :
    (c : ℕ) (rest : Bytes)
    → ¬ IsDigit c
    → c ≢ 32
    → ¬ ((9 ≤ c) × (c ≤ 13))
    → c ≢ b'-'
    → c ≢ b'+'
    → stoi (c ∷ rest) ≡ throw invalid_argument
unfolding stoi
stoi-no_number c rest nd ns nc nm np = ground arith
