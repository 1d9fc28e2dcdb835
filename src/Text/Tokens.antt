-- ===== src/Text/Tokens.antt =====
-- `while (std::getline(stream, token, sep))`: the tokens of a text. A separator at the end of the text
-- opens no further token.
use outgame_lobby_server.Prelude.{
  ℕ, ◌≡◌, refl, ◌≢◌, true, false, List, [], ◌∷◌, ◌++◌, append-nil, append_assoc, Bytes, arith, ◌==◌,
  All,
}

last_token : Bytes → List Bytes
last_token [] = []
last_token (c ∷ cur) = (c ∷ cur) ∷ []

tokens_from : ℕ → Bytes → Bytes → List Bytes
unfolding last_token
tokens_from sep cur [] = last_token cur
tokens_from sep cur (c ∷ s) = elim (c == sep) [
  | true ↦ cur ∷ tokens_from sep [] s
  | false ↦ tokens_from sep (cur ++ c ∷ []) s
]

unfoldable pub tokens : ℕ → Bytes → List Bytes
unfolding tokens_from
tokens sep s = tokens_from sep [] s

-- Each part behind a separator.
abbrev pub separated : ℕ → List Bytes → Bytes
separated sep [] = []
separated sep (p ∷ ps) = sep ∷ p ++ separated sep ps

-- The parts with a separator between each two.
abbrev pub joined : ℕ → List Bytes → Bytes
joined sep [] = []
joined sep (p ∷ ps) = p ++ separated sep ps

abbrev pub IsToken : ℕ → Bytes → Type 0
IsToken sep p = (p ≢ []) × All (λ c. c ≢ sep) p

tokens_from-append :
    (sep : ℕ) (p s cur : Bytes)
    → All (λ c. c ≢ sep) p
    → tokens_from sep cur (p ++ s) ≡ tokens_from sep (cur ++ p) s
unfolding tokens_from
tokens_from-append sep [] s cur h = rw append-nil
tokens_from-append sep (c ∷ p) s cur h =
    ground (arith, tokens_from-append sep p s (cur ++ c ∷ []) h.1, append_assoc cur (c ∷ []) p)

tokens_from_sep :
    (sep : ℕ) (s cur : Bytes) → tokens_from sep cur (sep ∷ s) ≡ cur ∷ tokens_from sep [] s
unfolding tokens_from
tokens_from_sep sep s cur = ground arith

tokens_from-separated :
    (sep : ℕ) (ps : List Bytes) (cur : Bytes)
    → cur ≢ []
    → All (IsToken sep) ps
    → tokens_from sep cur (separated sep ps) ≡ cur ∷ ps
tokens_from-separated sep [] [] ne h = absurd (ne refl)
tokens_from-separated sep [] (c ∷ cur) ne h = unfold tokens_from in refl
tokens_from-separated sep (p ∷ ps) cur ne h =
    rw (
      tokens_from_sep,
      tokens_from-append sep p _ [] h.0.1,
      tokens_from-separated sep ps p h.0.0 h.1,
    )

-- Nonempty parts without the separator are read back from their join.
pub tokens-joined :
    (sep : ℕ) (ps : List Bytes) → All (IsToken sep) ps → tokens sep (joined sep ps) ≡ ps
unfolding tokens
tokens-joined sep [] h = unfold tokens_from in refl
tokens-joined sep (p ∷ ps) h =
    rw (tokens_from-append sep p _ [] h.0.1) (tokens_from-separated sep ps p h.0.0 h.1)
