-- ===== src/Redis/Message/Shape.antt =====
-- What the messages look like: the pieces of a targeted text, in order.
use outgame_lobby_server.Prelude.{
  ℕ, suc, ◌+◌, ◌≡◌, refl, List, [], ◌∷◌, ◌++◌, map, append_assoc, append-nil, Bytes, codes, length,
  ok, arith,
}
use outgame_lobby_server.Text.Find.{rfind, insert_at, rfind-append, drop-append, take-append}
use outgame_lobby_server.Text.Decimal.{to_string}
use outgame_lobby_server.Text.Tokens.{joined, separated}
use outgame_lobby_server.Redis.Message.{append_targets, targets_text, targeted_message}

abbrev pub decimals : List ℕ → List Bytes
decimals pks = map to_string pks

append_targets-suc :
    (i : ℕ) (pks : List ℕ) (targets : Bytes)
    → append_targets (suc i) pks targets ≡ targets ++ separated b',' (decimals pks)
unfolding append_targets
append_targets-suc i [] targets = rw append-nil
append_targets-suc i (pk ∷ pks) targets =
    let longer = (targets ++ codes ",") ++ to_string pk in
    let regrouped : longer ++ separated b',' (decimals pks)
        ≡ targets ++ separated b',' (decimals (pk ∷ pks)) =
      simp append_assoc in
    ground (arith, append_targets-suc (suc i) pks longer)

targets_text_lem :
    (pks : List ℕ) → targets_text pks ≡ codes "[" ++ joined b',' (decimals pks) ++ codes "]"
unfolding targets_text append_targets
targets_text_lem [] = refl
targets_text_lem (pk ∷ pks) = rw append_targets-suc (simp append_assoc)

-- A text that ends in `}}` gets its targets before that end.
pub targeted_message_lem :
    (front : Bytes) (pks : List ℕ)
    → targeted_message (front ++ codes "}}") pks
      ≡ ok (front ++ (codes ",\"targets\":[" ++ (joined b',' (decimals pks) ++ codes "]}}")))
unfolding targeted_message insert_at
targeted_message_lem front pks =
    rw (rfind-append (codes "}}") front (codes "}}") 0 (unfold rfind in refl), targeted_message)
      (rw
        (
          take-append front (codes "}}") (length front + 0) (omega arith),
          drop-append front (codes "}}") 0 (length front + 0) (omega arith),
          targets_text_lem pks,
        )
        (simp append_assoc))
