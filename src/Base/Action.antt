-- ===== src/Base/Action.antt =====
-- A call that reads and writes a state and may raise. The state comes back after a raise too: what
-- was written stays written, unless a transaction takes it back.
use mathlib.Core.Bool.{Bool}
use mathlib.Core.Option.{Option, none, some}
use tip_metro_drip_ecommerce.Base.Tests.{if◌then◌else◌}

pub data Result (E A : Type 0) : Type 0 where
  ok : A → Result E A
  err : E → Result E A

abbrev pub Action : Type 0 → Type 0 → Type 0 → Type 0
Action E S A = S → Result E A × S

module _ {E S A : Type 0} where
  abbrev pub pure : A → Action E S A
  pure a s = (ok a, s)

  abbrev pub raise : E → Action E S A
  raise e s = (err e, s)

  abbrev pub gets : (S → A) → Action E S A
  gets f s = (ok (f s), s)

  -- `.get(...)` on a missing row raises.
  abbrev pub or_raise : E → Option A → Action E S A
  or_raise e none = raise e
  or_raise e (some a) = pure a

  -- `transaction.atomic()`: a block that raises leaves no write behind.
  abbrev pub atomic : Action E S A → Action E S A
  atomic m s = elim (m s).0 [ ok a ↦ (ok a, (m s).1) | err e ↦ (err e, s) ]

infixl 5 ◌>>=◌ ◌>>◌
abbrev pub ◌>>=◌ : {E S A B : Type 0} → Action E S A → (A → Action E S B) → Action E S B
◌>>=◌ m f s = let (r, s') = m s in elim r [ ok a ↦ f a s' | err e ↦ (err e, s') ]

abbrev pub ◌>>◌ : {E S A B : Type 0} → Action E S A → Action E S B → Action E S B
m >> k = m >>= λ _. k

abbrev pub modify : {E S : Type 0} → (S → S) → Action E S (Unit {0})
modify f s = (ok tt, f s)

abbrev pub raise_if : {E S : Type 0} → Bool → E → Action E S (Unit {0})
raise_if c e s = (if c then err e else ok tt, s)
