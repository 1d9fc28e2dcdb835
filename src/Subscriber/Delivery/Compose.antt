-- ===== src/Subscriber/Delivery/Compose.antt =====
-- One run after another.
use outgame_lobby_server.Prelude.{
  ℕ, ◌≡◌, refl, ◌∙◌, sym, ap, List, [], ◌∷◌, ◌++◌, append_assoc, some, Option-cases, inl, inr,
  Bytes, none, arith,
}
use mathlib.Core.List.{map-append}
use mathlib.Core.Path.{subst}
use outgame_lobby_server.Effects.{Outcome}
use outgame_lobby_server.Overlapped.{Overlapped}
use outgame_lobby_server.ConnUser.{ConnUser, Request, wsa_send, wsa_recv, accept_ex, close_socket}
use outgame_lobby_server.ConnUser.Send.{sends_on}
use outgame_lobby_server.ConnUser.Send.Queue.{payloads, pushes}
use outgame_lobby_server.ConnUsersManager.{ConnUsersManager, find_user}
use outgame_lobby_server.ConnUsersManager.Laws.{at}
use outgame_lobby_server.Redis.World.{Environment, State}
use outgame_lobby_server.Subscriber.Delivery.{HasApartSockets, Gets, Delivers, IsHeld}

sends_on-append :
    (s : ℕ) (rs qs : List Request) → sends_on s (rs ++ qs) ≡ sends_on s rs ++ sends_on s qs
sends_on-append s [] qs = refl
sends_on-append s (wsa_send t o ∷ rs) qs = ground (arith, sends_on-append s rs qs)
sends_on-append s (wsa_recv t o ∷ rs) qs = sends_on-append s rs qs
sends_on-append s (accept_ex t o ∷ rs) qs = sends_on-append s rs qs
sends_on-append s (close_socket t ∷ rs) qs = sends_on-append s rs qs

-- What is sent on a socket or waits after two runs, the second of which starts from the queue of the
-- first.
ordered-append :
    (s : ℕ) (a b : List Request) (q q₁ q₂ : List Overlapped) (ts us : List Bytes)
    → payloads (sends_on s a ++ q₁) ≡ payloads q ++ pushes ts
    → payloads (sends_on s b ++ q₂) ≡ payloads q₁ ++ pushes us
    → payloads (sends_on s (a ++ b) ++ q₂) ≡ payloads q ++ pushes (ts ++ us)
ordered-append s a b q q₁ q₂ ts us first second =
    ap payloads (rw (sends_on-append s a b) (append_assoc (sends_on s a) (sends_on s b) q₂))
    ∙ map-append _ (sends_on s a) (sends_on s b ++ q₂)
    ∙ ap (λ t. payloads (sends_on s a) ++ t) second
    ∙ sym (append_assoc (payloads (sends_on s a)) (payloads q₁) (pushes us))
    ∙ ap (λ t. t ++ pushes us) (sym (map-append _ (sends_on s a) q₁) ∙ first)
    ∙ append_assoc (payloads q) (pushes ts) (pushes us)
    ∙ ap (λ t. payloads q ++ t) (sym (map-append some ts us))

module _ (env : Environment) where
  -- Connections stay apart: none is new, and none has another socket.
  pub Delivers-apart :
      (texts : ℕ → List Bytes) (w : State env) (r : Outcome (State env) (Unit {0}))
      (d : Delivers env texts w r)
      → HasApartSockets w.manager
      → HasApartSockets d.after.manager
  Delivers-apart texts w r d apart j k u v ne ej ek = elim (Option-cases (find_user j w.manager)) [
    | inl gone ↦ absurd (let e : some u ≡ none = sym ej ∙ d.missing j gone in cc)
    | inr (a, ea) ↦ elim (Option-cases (find_user k w.manager)) [
      | inl gone ↦ absurd (let e : some v ≡ none = sym ek ∙ d.missing k gone in cc)
      | inr (b, eb) ↦
          let ga = d.users j a ea in
          let gb = d.users k b eb in
          let eu : some ga.user ≡ some u = sym ga.found ∙ ej in
          let ev : some gb.user ≡ some v = sym gb.found ∙ ek in
          let au : u.user_skt ≡ a.user_skt = cc (eu, ga.same_socket) in
          let bv : v.user_skt ≡ b.user_skt = cc (ev, gb.same_socket) in
          rw (au, bv) (apart j k a b ne ea eb)
    ]
  ]

  Gets-then :
      (k : ℕ) (ts us : List Bytes) (u : ConnUser) (a b : List Request) (m n : ConnUsersManager)
      (first : Gets k ts u a m)
      → Gets k us first.user b n
      → Gets k (ts ++ us) u (a ++ b) n
  Gets-then k ts us u a b m n first second = record {
    user = second.user;
    found = second.found;
    same_profile = second.same_profile ∙ first.same_profile;
    same_socket = second.same_socket ∙ first.same_socket;
    ordered =
        ordered-append u.user_skt a b u.send_queue first.user.send_queue second.user.send_queue ts
          us first.ordered (rw first.same_socket at second.ordered);
  }

  pub Delivers-then :
      (ts us texts : ℕ → List Bytes) (w : State env) (r q : Outcome (State env) (Unit {0}))
      (first : Delivers env ts w r)
      → Delivers env us first.after q
      → ((k : ℕ) → ts k ++ us k ≡ texts k)
      → Delivers env texts w q
  Delivers-then ts us texts w r q first second both = record {
    after = second.after;
    returns = second.returns;
    new = first.new ++ second.new;
    requested =
        second.requested
        ∙ ap (λ rs. rs ++ second.new) first.requested
        ∙ append_assoc w.requests first.new second.new;
    users = λ k u e.
        let g = first.users k u e in
        subst (λ t. Gets k t u (first.new ++ second.new) second.after.manager) (both k)
          (Gets-then k (ts k) (us k) u first.new second.new first.after.manager second.after.manager
            g (second.users k g.user g.found));
    missing = λ k e. second.missing k (first.missing k e);
    lookups = λ pk. second.lookups pk ∙ first.lookups pk;
  }

  pub Delivers-IsHeld :
      (texts : ℕ → List Bytes) (w : State env) (r : Outcome (State env) (Unit {0}))
      (d : Delivers env texts w r) (pk : ℕ)
      → IsHeld w.manager pk
      → IsHeld d.after.manager pk
  Delivers-IsHeld texts w r d pk (u, e) =
      let g = d.users (at w.manager pk) u e in
      (g.user, ap (λ j. find_user j d.after.manager) (d.lookups pk) ∙ g.found)
