-- ===== src/Subscriber/Delivery/Events.antt =====
-- `HandleFriendOnline` and `HandleFriendOffline` on the server that reads the event.
use outgame_lobby_server.Prelude.{
  ℕ, ◌<◌, ◌≡◌, refl, ◌∙◌, sym, ap, List, [], ◌∷◌, ◌++◌, append-nil, map, inl, inr,
  ◌>>=◌ as result_bind, All, All-mono, u32_mod, ok, throw, Result, Bytes, ◌==◌, Bool-cases,
}
use outgame_lobby_server.Effects.{lift, ◌>>=◌}
use outgame_lobby_server.ConnUser.Send.Queue.{payloads}
use outgame_lobby_server.ConnUsersManager.{ConnUsersManager}
use outgame_lobby_server.ConnUsersManager.Laws.{at}
use outgame_lobby_server.Redis.World.{Environment, State}
use outgame_lobby_server.Redis.Message.{online_message, offline_message, targeted_message}
use outgame_lobby_server.Subscriber.{send_friend_status, handle_lobby_event}
use outgame_lobby_server.Subscriber.RoundTrip.{
  AreWords, handle_lobby_event-online, handle_lobby_event-offline,
}
use outgame_lobby_server.Subscriber.Perform.{perform, perform_all, handle_message}
use outgame_lobby_server.Subscriber.Delivery.{
  HasApartSockets, Delivers, notice, only, aimed, notices, IsHeld,
}
use outgame_lobby_server.Subscriber.Delivery.Single.{send_friend_status_to_user-Delivers}
use outgame_lobby_server.Subscriber.Delivery.Compose.{
  Delivers-apart, Delivers-then, Delivers-IsHeld,
}

module _ (env : Environment) where
  notices-cons :
      (m n : ConnUsersManager) (user_pk status pk : ℕ) (pks : List ℕ)
      → ((j : ℕ) → at n j ≡ at m j)
      → (k : ℕ)
      → only (at m pk) (notice env user_pk status) k ++ notices env n user_pk status pks k
        ≡ notices env m user_pk status (pk ∷ pks) k
  notices-cons m n user_pk status pk pks same k =
      ap
        (λ look.
          only (at m pk) (notice env user_pk status) k
          ++ map (λ _. notice env user_pk status) (aimed look k pks))
        (λ i j. same j i)
      ∙ elim (Bool-cases (at m pk == k)) [ inl e ↦ rw e refl | inr e ↦ rw e refl ]

  perform_all-Delivers :
      (user_pk status : ℕ) (pks : List ℕ) (w : State env)
      → HasApartSockets w.manager
      → All (IsHeld w.manager) pks
      → Delivers env
          (notices env w.manager user_pk status pks)
          w
          (perform_all env (map (λ pk. send_friend_status pk user_pk status) pks) w)
  unfolding perform_all perform
  perform_all-Delivers user_pk status [] w apart held = record {
    after = w;
    returns = refl;
    new = [];
    requested = sym (append-nil w.requests);
    users = λ k u e. record {
      user = u;
      found = e;
      same_profile = refl;
      same_socket = refl;
      ordered = sym (append-nil (payloads u.send_queue));
    };
    missing = λ k e. e;
    lookups = λ pk. refl;
  }
  perform_all-Delivers user_pk status (pk ∷ pks) w apart (held, rest) =
      let first = send_friend_status_to_user-Delivers env pk user_pk status held.0 w apart held.1 in
      rw first.returns (
        Delivers-then env _ _ (notices env w.manager user_pk status (pk ∷ pks)) w _ _ first
          (perform_all-Delivers user_pk status pks first.after
            (Delivers-apart env _ w _ first apart)
            (All-mono (Delivers-IsHeld env _ w _ first) pks rest))
          (notices-cons w.manager first.after.manager user_pk status pk pks first.lookups))

  lift-handle_message :
      (r : Result Bytes) (w : State env)
      → (lift r >>= handle_message env) w
        ≡ (lift (result_bind r handle_lobby_event) >>= perform_all env) w
  unfolding handle_message
  lift-handle_message (ok text) w = refl
  lift-handle_message (throw e) w = refl

  -- The online event of a user with a key from 1, where all keys are `uint32_t` numbers, read by a server whose connections have apart sockets and whose look-up
  -- of each target gives a connection: every connection gets, after what it had to send already, one
  -- notification of the user with the status 1 for each target whose look-up gives that connection,
  -- and nothing else.
  pub handle_message-online :
      (user_pk : ℕ) (pks : List ℕ) (w : State env)
      → 0 < user_pk
      → user_pk < u32_mod
      → AreWords pks
      → HasApartSockets w.manager
      → All (IsHeld w.manager) pks
      → Delivers env
          (notices env w.manager user_pk 1 pks)
          w
          ((lift (targeted_message (online_message user_pk) pks) >>= handle_message env) w)
  handle_message-online user_pk pks w pos lt words apart held =
      rw (lift-handle_message (targeted_message (online_message user_pk) pks) w) (
        rw (handle_lobby_event-online user_pk pks pos lt words)
          (perform_all-Delivers user_pk 1 pks w apart held))

  -- The offline event likewise, with the status 0.
  pub handle_message-offline :
      (user_pk : ℕ) (pks : List ℕ) (w : State env)
      → 0 < user_pk
      → user_pk < u32_mod
      → AreWords pks
      → HasApartSockets w.manager
      → All (IsHeld w.manager) pks
      → Delivers env
          (notices env w.manager user_pk 0 pks)
          w
          ((lift (targeted_message (offline_message user_pk) pks) >>= handle_message env) w)
  handle_message-offline user_pk pks w pos lt words apart held =
      rw (lift-handle_message (targeted_message (offline_message user_pk) pks) w) (
        rw (handle_lobby_event-offline user_pk pks pos lt words)
          (perform_all-Delivers user_pk 0 pks w apart held))
