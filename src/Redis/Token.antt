-- ===== src/Redis/Token.antt =====
-- A login token is good for one login.
use outgame_lobby_server.Prelude.{
  ℕ, ◌≡◌, refl, ◌∙◌, ap, sym, ◌⊎◌, inl, inr, Bytes, none, some, Option-cases, Result, ok, throw,
  Exception,
}
use outgame_lobby_server.Effects.{returned}
use outgame_lobby_server.Text.Decimal.{stoul}
use outgame_lobby_server.Redis.Client.{Reply, answered, failed}
use outgame_lobby_server.Redis.World.{Environment, State, ask, settle}
use outgame_lobby_server.Redis.Publish.{verify_user_token, accept_token, token_key}

Reply-cases : {A : Type 0} (r : Reply A) → (r ≡ failed) ⊎ ((a : A) × (r ≡ answered a))
Reply-cases (answered a) = inr (a, refl)
Reply-cases failed = inl refl

Result-cases :
    {A : Type 0} (r : Result A) → ((e : Exception) × (r ≡ throw e)) ⊎ ((a : A) × (r ≡ ok a))
Result-cases (ok a) = inr (a, refl)
Result-cases (throw e) = inl (e, refl)

module _ (env : Environment) where
  open env use {redis}

  not_none : {pk : ℕ} {v w : State env} → returned none v ≡ returned (some pk) w → ⊥
  not_none e = cc

  after-store :
      {n pk : ℕ} {v w : State env} → returned (some n) v ≡ returned (some pk) w → w.store ≡ v.store
  after-store {n} {pk} {v} {w} e =
      let same : v ≡ w = cc in ap (λ (u : State env). u.store) (sym same)

  verify_user_token_missing :
      (user_id token : Bytes) (w : State env)
      → (redis.hget (token_key user_id) token w.store).0 ≡ answered none
      → (w' : State env) × (verify_user_token env user_id token w ≡ returned none w')
  unfolding verify_user_token accept_token ask settle
  verify_user_token_missing user_id token w e =
      (record w { store = (redis.hget (token_key user_id) token w.store).1 }, rw e refl)

  -- A token was verified: the key of the user was deleted last.
  verify_user_token_deletes :
      (user_id token : Bytes) (pk : ℕ) (w w' : State env)
      → verify_user_token env user_id token w ≡ returned (some pk) w'
      → (s : redis.Store) × ((redis.del (token_key user_id) s).0 ≡ answered tt)
        × (w'.store ≡ (redis.del (token_key user_id) s).1)
  unfolding verify_user_token accept_token ask settle
  verify_user_token_deletes user_id token pk w w' h =
      let s : redis.Store = (redis.hget (token_key user_id) token w.store).1 in
      elim (Reply-cases (redis.hget (token_key user_id) token w.store).0) [
        | inl e ↦ absurd (not_none (rw e at h))
        | inr (found, e) ↦ elim (Option-cases found) [
          | inl f ↦ absurd (not_none (rw (e, f) at h))
          | inr (text, f) ↦ elim (Result-cases (stoul text)) [
            | inl (x, g) ↦ absurd (not_none (rw g at (rw (e, f) at h)))
            | inr (n, g) ↦ elim (Reply-cases (redis.del (token_key user_id) s).0) [
              | inl d ↦ absurd (not_none (rw d at (rw g at (rw (e, f) at h))))
              | inr (_, d) ↦ (s, d, after-store (rw d at (rw g at (rw (e, f) at h))))
            ]
          ]
        ]
      ]

  -- If `DEL` removes every field of the key that it deletes, then after a token of a user has been
  -- verified, the same user is refused with any token, the same one included.
  pub verify_user_token_once :
      ((key field : Bytes) (s : redis.Store)
        → (redis.del key s).0 ≡ answered tt
        → (redis.hget key field (redis.del key s).1).0 ≡ answered none)
      → (user_id token other : Bytes) (pk : ℕ) (w w' : State env)
      → verify_user_token env user_id token w ≡ returned (some pk) w'
      → (w'' : State env) × (verify_user_token env user_id other w' ≡ returned none w'')
  verify_user_token_once removes user_id token other pk w w' h =
      let (s, deleted, after) = verify_user_token_deletes user_id token pk w w' h in
      verify_user_token_missing user_id other w' (
        ap (λ (t : redis.Store). (redis.hget (token_key user_id) other t).0) after
        ∙ removes (token_key user_id) other s deleted)
