-- ===== src/Effects.antt =====
-- Code that changes a state and may throw, fault or wait: a monad over the state.
use outgame_lobby_server.Prelude.{Bool, true, false, Exception, Result, ok, throw}

-- A call returns, throws, does what C++ leaves undefined, or waits for a permit that nobody holds.
pub data Outcome (W A : Type 0) : Type 0 where
  returned : A → W → Outcome W A
  raised : Exception → W → Outcome W A
  fault : Outcome W A
  blocked : Outcome W A

abbrev pub M : Type 0 → Type 0 → Type 0
M W A = W → Outcome W A

abbrev pub and_then : {W A B : Type 0} → Outcome W A → (A → M W B) → Outcome W B
and_then (returned a w) f = f a w
and_then (raised e w) f = raised e w
and_then fault f = fault
and_then blocked f = blocked

infixl 5 ◌>>=◌ ◌>>◌
abbrev pub ◌>>=◌ : {W A B : Type 0} → M W A → (A → M W B) → M W B
◌>>=◌ m f w = and_then (m w) f

abbrev pub ◌>>◌ : {W B : Type 0} → M W (Unit {0}) → M W B → M W B
m >> k = m >>= λ _. k

abbrev pub pure : {W A : Type 0} → A → M W A
pure a w = returned a w

abbrev pub modify : {W : Type 0} → (W → W) → M W (Unit {0})
modify f w = returned tt (f w)

abbrev pub lift : {W A : Type 0} → Result A → M W A
lift (ok a) w = returned a w
lift (throw e) w = raised e w

abbrev pub when : {W : Type 0} → Bool → M W (Unit {0}) → M W (Unit {0})
when true m = m
when false m = pure tt

-- `try { m } catch (const std::exception&) { h }`
abbrev pub recover : {W A : Type 0} → Outcome W A → M W A → Outcome W A
recover (returned a w) h = returned a w
recover (raised e w) h = h w
recover fault h = fault
recover blocked h = blocked

abbrev pub try_catch : {W A : Type 0} → M W A → M W A → M W A
try_catch m h w = recover (m w) h

-- Code over a part of the state.
abbrev zoom_out : {W V A : Type 0} → (V → W → W) → W → Outcome V A → Outcome W A
zoom_out put w (returned a v) = returned a (put v w)
zoom_out put w (raised e v) = raised e (put v w)
zoom_out put w fault = fault
zoom_out put w blocked = blocked

abbrev pub zoom : {W V A : Type 0} → (W → V) → (V → W → W) → M V A → M W A
zoom get put m w = zoom_out put w (m (get w))
