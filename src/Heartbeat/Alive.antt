-- ===== src/Heartbeat/Alive.antt =====
-- The time to live of the key over the rounds of `HeartbeatLoop`.
use outgame_lobby_server.Prelude.{
  ℕ, ◌+◌, ◌-◌, ◌≤◌, ◌≡◌, Bool, true, false, List, [], ◌∷◌, Bytes, arith, All, inl, inr, ◌⊎◌,
}
use outgame_lobby_server.Redis.Client.{answered, failed}
use outgame_lobby_server.Heartbeat.{
  Client, LobbyHeartbeat, Round, going, status_key, after_round, beat, beats, heartbeat_loop,
  ttl_sec, interval_sec, int_to_string,
}
use outgame_lobby_server.Heartbeat.Stop.{stops, rounds-going}

-- `SET` with an expiry, as Redis documents it, for keys with `ttl` seconds left, 0 if they are gone. A
-- command that failed may have been carried out.
pub record Expires (client : Client) (ttl : Bytes → client.Store → ℕ) : Type 0 where
  pub set-answered :
      (key value : Bytes) (seconds : ℕ) (s : client.Store)
      → (client.set key value seconds s).0 ≡ answered tt
      → ttl key (client.set key value seconds s).1 ≡ seconds
  pub set-failed :
      (key value : Bytes) (seconds : ℕ) (s : client.Store)
      → (client.set key value seconds s).0 ≡ failed
      → (ttl key (client.set key value seconds s).1 ≡ ttl key s)
        ⊎ (ttl key (client.set key value seconds s).1 ≡ seconds)
  pub ttl-pass :
      (key : Bytes) (seconds : ℕ) (s : client.Store)
      → ttl key (client.pass seconds s) ≡ ttl key s - seconds

module _ (client : Client) where
  open client use {Store}

  -- No two rounds that follow each other lose their `SET`; `lost` tells of the round before.
  unfoldable pub IsSteady : Bytes → Bool → List Round → LobbyHeartbeat → Store → Type 0
  IsSteady key lost [] h s = Unit {0}
  IsSteady key lost (r ∷ rs) h s =
      let (h', s') = after_round client key r h s in
      (((beat client key h s).0 ≡ answered tt) × IsSteady key false rs h' s')
      ⊎ (((beat client key h s).0 ≡ failed) × (lost ≡ false) × IsSteady key true rs h' s')

  module _ (ttl : Bytes → Store → ℕ) (expires : Expires client ttl) where
    after_answered :
        (key : Bytes) (r : Round) (h : LobbyHeartbeat) (s : Store)
        → r.seconds ≤ interval_sec + 2
        → (beat client key h s).0 ≡ answered tt
        → 8 ≤ ttl key (after_round client key r h s).1
    unfolding after_round beat
    after_answered key r h s short e = omega (
      arith,
      expires.ttl-pass key r.seconds (client.set key (int_to_string h.user_count) ttl_sec s).1,
      expires.set-answered key (int_to_string h.user_count) ttl_sec s e,
    )

    after_failed :
        (key : Bytes) (r : Round) (h : LobbyHeartbeat) (s : Store)
        → r.seconds ≤ interval_sec + 2
        → 8 ≤ ttl key s
        → (beat client key h s).0 ≡ failed
        → 1 ≤ ttl key (after_round client key r h s).1
    unfolding after_round beat
    after_failed key r h s short left e = ground (
      arith,
      expires.ttl-pass key r.seconds (client.set key (int_to_string h.user_count) ttl_sec s).1,
      expires.set-failed key (int_to_string h.user_count) ttl_sec s e,
    )

    beats-alive :
        (key : Bytes) (lost : Bool) (rs : List Round) (h : LobbyHeartbeat) (s : Store)
        → All (λ r. r.seconds ≤ interval_sec + 2) rs
        → IsSteady key lost rs h s
        → 1 ≤ ttl key s
        → (lost ≡ false → 8 ≤ ttl key s)
        → 1 ≤ ttl key (beats client key rs h s).1
    unfolding beats IsSteady
    beats-alive key lost [] h s short steady left most = left
    beats-alive key lost (r ∷ rs) h s short (inl (e, steady)) left most =
        let left' = after_answered key r h s short.0 e in
        beats-alive key false rs _ _ short.1 steady (omega (arith, left')) (λ _. left')
    beats-alive key lost (r ∷ rs) h s short (inr (e, kept, steady)) left most =
        let left' = after_failed key r h s short.0 (most kept) e in
        beats-alive key true rs _ _ short.1 steady left' (λ f. absurd (ground (arith, f)))

    -- If nobody stops a loop that runs, its rounds take at most 7 seconds each, the first `SET` is answered, and
    -- no two rounds that follow each other lose theirs, then after any number of rounds the loop goes on,
    -- and the key is still there.
    pub heartbeat_loop-alive :
        (r : Round) (rs : List Round) (h : LobbyHeartbeat) (s : Store)
        → h.running ≡ true
        → All (λ r. stops r.events ≡ false) (r ∷ rs)
        → All (λ r. r.seconds ≤ interval_sec + 2) (r ∷ rs)
        → IsSteady (status_key h) true (r ∷ rs) h s
        → (h' : LobbyHeartbeat) × (s' : Store) × (heartbeat_loop client (r ∷ rs) h s ≡ going h' s')
          × (1 ≤ ttl (status_key h) s')
    unfolding heartbeat_loop beats IsSteady
    heartbeat_loop-alive r rs h s on calm short (inr (e, kept, steady)) =
        absurd (ground (arith, kept))
    heartbeat_loop-alive r rs h s on calm short (inl (e, steady)) =
        let left = after_answered (status_key h) r h s short.0 e in
        (
          _,
          _,
          rounds-going client (status_key h) (r ∷ rs) h s on calm,
          beats-alive (status_key h) false rs _ _ short.1 steady (omega (arith, left)) (λ _. left),
        )
