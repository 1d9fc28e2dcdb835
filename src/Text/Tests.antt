-- ===== src/Text/Tests.antt =====
-- The text functions at concrete inputs.
use outgame_lobby_server.Prelude.{
  ◌≡◌, refl, [], ◌∷◌, none, some, codes, ok, throw, invalid_argument, out_of_range,
}
use outgame_lobby_server.Text.Find.{find, find_from, rfind, substr, insert_at}
use outgame_lobby_server.Text.Decimal.{to_string, stoul, stoi}
use outgame_lobby_server.Text.Tokens.{tokens}

find_test :
    (find (codes "b") (codes "abab") ≡ some 1)
    × (find_from (codes "b") (codes "abab") 2 ≡ some 3)
    × (find (codes "x") (codes "abab") ≡ none)
    × (rfind (codes "}}") (codes "{}}}") ≡ some 2)
unfolding find find_from rfind
find_test = (refl, refl, refl, refl)

edit_test :
    (substr (codes "abcdef") 2 3 ≡ codes "cde")
    × (insert_at (codes "ab") 1 (codes "xy") ≡ codes "axyb")
unfolding substr insert_at
edit_test = (refl, refl)

decimal_test :
    (to_string 0 ≡ codes "0")
    × (to_string 4294967295 ≡ codes "4294967295")
    × (stoul (codes " 13}}") ≡ ok 13)
    × (stoul (codes "4294967296") ≡ throw out_of_range)
    × (stoul (codes "x") ≡ throw invalid_argument)
    × (stoul (codes "-1") ≡ ok 4294967295)
    × (stoi (codes "-1") ≡ ok 4294967295)
    × (stoi (codes "2147483648") ≡ throw out_of_range)
unfolding to_string stoul stoi
decimal_test = (refl, refl, refl, refl, refl, refl, refl, refl)

tokens_test : tokens b',' (codes "14,,15,") ≡ codes "14" ∷ [] ∷ codes "15" ∷ []
unfolding tokens
tokens_test = refl
