-- ===== src/Subscriber/Lifecycle.antt =====
-- LobbyRedisSubscriber.cpp: the members of the class, `Start`, `Stop`, and the channel of its thread.
use outgame_lobby_server.Prelude.{
  ℕ, ◌≤◌, ◌≡◌, ◌≢◌, refl, Bool, true, false, List, [], ◌∷◌, ◌++◌, Bytes, codes, arith, length,
  length-append, ap, none, sym, ◌∙◌,
}
use outgame_lobby_server.Server.Channels.{channel, get_server_name, access, entry, server_names_map}

-- `class LobbyRedisSubscriber`; the constructor leaves `serverType_` as it is in memory.
pub record LobbyRedisSubscriber : Type 0 where
  pub server_id : ℕ
  pub server_type : ℕ
  pub running : Bool

abbrev pub create : (unset_type server_id : ℕ) → LobbyRedisSubscriber
create unset_type server_id = record {
  server_id = server_id;
  server_type = unset_type;
  running = false;
}

-- `Start` and `Stop`, without the thread itself.
abbrev pub start : LobbyRedisSubscriber → LobbyRedisSubscriber
start s = record s { running = true }

abbrev pub stop : LobbyRedisSubscriber → LobbyRedisSubscriber
stop s = record s { running = false }

-- The channel that `SubscribeLoop` subscribes to.
abbrev pub subscribed : LobbyRedisSubscriber → Bytes
subscribed s = channel s.server_type server_names_map

unnamed_entry : (t : ℕ) → 3 ≤ t → entry t server_names_map ≡ none
unfolding entry
unnamed_entry t h = ground arith

access_missing :
    {A : Type 0} (default : A) (k : ℕ) (entries : List (ℕ × A))
    → entry k entries ≡ none
    → (access default k entries).0 ≡ default
unfolding access
access_missing default k entries e = rw (e, access) refl

nil_of_suffix : (s t : Bytes) → t ≡ s ++ t → s ≡ []
nil_of_suffix [] t e = refl
nil_of_suffix (c ∷ s) t e = absurd (omega (arith, ap length e, length-append (c ∷ s) t))

-- The subscriber of a new server whose memory held none of the three server types listens to the channel
-- ":events", and to that of no server with a name.
pub subscribed-apart :
    (unset_type server_id : ℕ) (server : Bytes)
    → 3 ≤ unset_type
    → server ≢ []
    → (subscribed (start (create unset_type server_id)) ≡ codes ":events")
      × (subscribed (start (create unset_type server_id)) ≢ server ++ codes ":events")
unfolding channel get_server_name
subscribed-apart unset_type server_id server h named =
    let e : channel unset_type server_names_map ≡ codes ":events" =
      ap (λ name. name ++ codes ":events")
        (access_missing [] unset_type server_names_map (unnamed_entry unset_type h)) in
    (e, λ same. named (nil_of_suffix server (codes ":events") (sym e ∙ same)))
