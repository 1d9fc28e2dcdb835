-- ===== src/Redis/Message.antt =====
-- The event messages that RedisManager.cpp writes: the texts of `NotifyFriendOnline` and
-- `NotifyFriendOffline`, and the per-server text of `PublishToUsers`.
pub mod Shape
use outgame_lobby_server.Prelude.{
  ℕ, suc, List, [], ◌∷◌, ◌++◌, none, some, Bytes, codes, Result, ok, throw, out_of_range, ltb,
  if◌then◌else◌,
}
use outgame_lobby_server.Text.Find.{rfind, insert_at}
use outgame_lobby_server.Text.Decimal.{to_string}

-- The message of `NotifyFriendOnline`.
unfoldable pub online_message : ℕ → Bytes
online_message user_pk =
    codes "{\"type\":1,\"data\":{\"userPk\":" ++ to_string user_pk ++ codes "}}"

-- The message of `NotifyFriendOffline`.
unfoldable pub offline_message : ℕ → Bytes
offline_message user_pk =
    codes "{\"type\":2,\"data\":{\"userPk\":" ++ to_string user_pk ++ codes "}}"

-- The loop over `pks` of `PublishToUsers`, from index `i` on; `targets` is the text so far.
append_targets : ℕ → List ℕ → Bytes → Bytes
append_targets i [] targets = targets
append_targets i (pk ∷ pks) targets =
    append_targets (suc i) pks ((if ltb 0 i then targets ++ codes "," else targets) ++ to_string pk)

unfoldable pub targets_text : List ℕ → Bytes
unfolding append_targets
targets_text pks = append_targets 0 pks (codes "[") ++ codes "]"

-- The text that goes to one server: the targets put in before the last `}}`. `insert` at `npos`
-- throws.
unfoldable pub targeted_message : Bytes → List ℕ → Result Bytes
targeted_message event_message pks = elim (rfind (codes "}}") event_message) [
  | none ↦ throw out_of_range
  | some pos ↦ ok (insert_at event_message pos (codes ",\"targets\":" ++ targets_text pks))
]
