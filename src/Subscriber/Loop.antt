-- ===== src/Subscriber/Loop.antt =====
-- How the loop of `SubscribeLoop` goes on, and what ends it.
use outgame_lobby_server.Prelude.{
  ℕ, ◌≤◌, ◌≡◌, ◌≢◌, refl, ap, List, [], ◌∷◌, ◌++◌, Bytes, codes, ok, throw, Exception,
  invalid_argument,
}
use outgame_lobby_server.Text.Find.{find}
use outgame_lobby_server.Text.Decimal.{IsDigit, stoi-no_number}
use outgame_lobby_server.Subscriber.{
  Effect, Consumed, message, timeout, redis_failure, stopped, handle_lobby_event, after_message,
  subscribe_loop,
}

-- What follows a message whose handler throws is never read.
subscribe_loop-throw :
    (before after : List Consumed) (text : Bytes) (e : Exception)
    → handle_lobby_event text ≡ throw e
    → subscribe_loop (before ++ message text ∷ after) ≡ subscribe_loop (before ++ message text ∷ [])
unfolding subscribe_loop after_message
subscribe_loop-throw [] after text e h = rw (h, subscribe_loop)
subscribe_loop-throw (message t ∷ before) after text e h =
    ap (after_message (handle_lobby_event t)) (subscribe_loop-throw before after text e h)
subscribe_loop-throw (timeout ∷ before) after text e h = subscribe_loop-throw before after text e h
subscribe_loop-throw (redis_failure ∷ before) after text e h = refl

-- A byte with which no number begins.
abbrev pub IsNoNumber : ℕ → Type 0
IsNoNumber c = (¬ IsDigit c) × (c ≢ 32) × (¬ ((9 ≤ c) × (c ≤ 13))) × (c ≢ b'-') × (c ≢ b'+')

handle_lobby_event-no_number :
    (c : ℕ) (rest : Bytes)
    → IsNoNumber c
    → handle_lobby_event (codes "{\"type\":" ++ c ∷ rest) ≡ throw invalid_argument
unfolding handle_lobby_event find
handle_lobby_event-no_number c rest h = rw (stoi-no_number c rest h.0 h.1 h.2 h.3 h.4)

-- An event whose type does not begin with a number ends the subscription: whatever came before it,
-- the messages that come after it have no effect.
pub subscribe_loop-no_number :
    (before after : List Consumed) (c : ℕ) (rest : Bytes)
    → IsNoNumber c
    → subscribe_loop (before ++ message (codes "{\"type\":" ++ c ∷ rest) ∷ after)
      ≡ subscribe_loop (before ++ message (codes "{\"type\":" ++ c ∷ rest) ∷ [])
subscribe_loop-no_number before after c rest h =
    subscribe_loop-throw before after _ invalid_argument (handle_lobby_event-no_number c rest h)

-- The rounds in which every message is handled, and their effects in order.
pub data Served : List Consumed → List Effect → Type 0 where
  none_left : Served [] []
  waited :
      {rounds : List Consumed} {effects : List Effect}
      → Served rounds effects
      → Served (timeout ∷ rounds) effects
  handled :
      {text : Bytes} {now : List Effect} {rounds : List Consumed} {effects all : List Effect}
      → handle_lobby_event text ≡ ok now
      → all ≡ now ++ effects
      → Served rounds effects
      → Served (message text ∷ rounds) all

-- While no handler throws and Redis does not fail, the loop handles every message, in order; time-outs
-- change nothing.
pub subscribe_loop-Served :
    {rounds : List Consumed} {effects : List Effect}
    → Served rounds effects
    → subscribe_loop rounds ≡ (effects, stopped)
unfolding subscribe_loop after_message
subscribe_loop-Served none_left = refl
subscribe_loop-Served (waited s) = subscribe_loop-Served s
subscribe_loop-Served (handled h e s) = rw (h, subscribe_loop-Served s, e)
