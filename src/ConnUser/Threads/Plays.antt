-- ===== src/ConnUser/Threads/Plays.antt =====
-- Steps of the threads, one after the other, in an order that is given.
use outgame_lobby_server.Prelude.{ℕ, ◌≡◌, List, [], ◌∷◌, some, get_elem?}
use outgame_lobby_server.ConnUser.Threads.{Pc, advance, Threads, turn, go, Reach, next}

-- Thread by thread, with the place where it stands.
abbrev pub played : List (ℕ × Pc) → Threads → Threads
played [] s = s
played ((i, p) ∷ rest) s = played rest (turn i (advance p s.line) s)

-- Each thread of the list stands where it says when its turn comes.
abbrev pub CanPlay : List (ℕ × Pc) → Threads → Type 0
CanPlay [] s = Unit {0}
CanPlay ((i, p) ∷ rest) s =
    (get_elem? s.pcs i ≡ some p) × CanPlay rest (turn i (advance p s.line) s)

pub Reach-played :
    {s : Threads} (turns : List (ℕ × Pc)) {t : Threads}
    → Reach s t
    → CanPlay turns t
    → Reach s (played turns t)
Reach-played [] reach can = reach
Reach-played ((i, p) ∷ rest) reach can = Reach-played rest (next reach (go i p can.0)) can.1
