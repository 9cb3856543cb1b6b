-- ===== src/Base/Keeps.antt =====
-- Invariants of calls: one rule for each way to build a call.
use mathlib.Core.Path.{◌≡◌, refl, ◌∙◌}
use mathlib.Core.Bool.{Bool, true, false}
use tip_metro_drip_ecommerce.Base.Tests.{if◌then◌else◌}
use mathlib.Core.Option.{Option, none, some}
use native.Mathlib.Omega.{arith}
use tip_metro_drip_ecommerce.Base.Action.{
  Action, ok, err, Result, or_raise, atomic, ◌>>=◌, ◌>>◌, raise_if,
}

module _ {E S : Type 0} (P : S → Type 0) where
  -- Whether the call returns or raises, the state that it leaves has the property.
  abbrev pub Keeps : {A : Type 0} → Action E S A → Type 0
  Keeps m = (s : S) → P s → P (m s).1

module _ {E S A : Type 0} (P : S → Type 0) where
  pub atomic-Keeps_at : (m : Action E S A) (s : S) → P s → P (m s).1 → P (atomic m s).1
  atomic-Keeps_at m s h k = from (m s).0 (m s).1 h k
    where
      from :
          (r : Result E A) (t : S)
          → P s
          → P t
          → P (elim r as (λ _. Result E A × S) [ ok a ↦ (ok a, t) | err e ↦ (err e, s) ]).1
      from (ok a) t p q = q
      from (err e) t p q = p

  pub atomic-Keeps : (m : Action E S A) → Keeps P m → Keeps P (atomic m)
  atomic-Keeps m k s h = atomic-Keeps_at m s h (k s h)

module _ {E S A B : Type 0} (P : S → Type 0) where
  -- What follows may use the state and the value that the first call returned.
  pub bind-Keeps_from :
      (m : Action E S A) (f : A → Action E S B) (s : S)
      → P (m s).1
      → ((a : A) → (m s).0 ≡ ok a → P (f a (m s).1).1)
      → P ((m >>= f) s).1
  bind-Keeps_from m f s p k = from (m s).0 k
    where
      from :
          (r : Result E A)
          → ((a : A) → r ≡ ok a → P (f a (m s).1).1)
          → P (elim r as (λ _. Result E B × S) [ ok a ↦ f a (m s).1 | err e ↦ (err e, (m s).1) ]).1
      from (ok a) k = k a (λ _. ok a)
      from (err e) k = p

  pub bind-Keeps :
      (m : Action E S A) (f : A → Action E S B)
      → Keeps P m
      → ((a : A) → Keeps P (f a))
      → Keeps P (m >>= f)
  bind-Keeps m f km kf s h = bind-Keeps_from m f s (km s h) (λ a _. kf a (m s).1 (km s h))

module _ {E S A : Type 0} (P : S → Type 0) where
  -- After a check on the arguments, which writes nothing.
  pub raise_if-Keeps :
      (b : Bool) (e : E) (m : Action E S A) → Keeps P m → Keeps P (raise_if b e >> m)
  raise_if-Keeps true e m k s h = h
  raise_if-Keeps false e m k s h = k s h

  pub if-Keeps :
      (b : Bool) (m n : Action E S A) → Keeps P m → Keeps P n → Keeps P (if b then m else n)
  if-Keeps true m n k l = k
  if-Keeps false m n k l = l

  pub or_raise-Keeps :
      {B : Type 0} (o : Option B) (e : E) (f : B → Action E S A) (s : S)
      → P s
      → ((b : B) → o ≡ some b → P (f b s).1)
      → P ((or_raise e o >>= f) s).1
  or_raise-Keeps none e f s h k = h
  or_raise-Keeps (some b) e f s h k = k b refl

module _ {E S A : Type 0} (m : Action E S A) (s : S) where
  pub atomic_ok : {a : A} {t : S} → m s ≡ (ok a, t) → atomic m s ≡ (ok a, t)
  atomic_ok e = ground arith

  pub atomic_err : {e : E} {t : S} → m s ≡ (err e, t) → atomic m s ≡ (err e, s)
  atomic_err e = ground arith

module _ {E S A : Type 0} where
  -- A call that raises leaves the state as it was.
  abbrev pub IsAllOrNothing : Action E S A → Type 0
  IsAllOrNothing m = (s : S) (x : E) → (m s).0 ≡ err x → (m s).1 ≡ s

  pub atomic-IsAllOrNothing : (m : Action E S A) → IsAllOrNothing (atomic m)
  atomic-IsAllOrNothing m s x e = from (m s).0 e
    where
      from :
          (r : Result E A)
          → (elim r as (λ _. Result E A × S) [ ok a ↦ (ok a, (m s).1) | err y ↦ (err y, s) ]).0
            ≡ err x
          → (elim r as (λ _. Result E A × S) [ ok a ↦ (ok a, (m s).1) | err y ↦ (err y, s) ]).1 ≡ s
      from (ok a) h = cc
      from (err y) h = refl

  pub raise_if-IsAllOrNothing :
      (b : Bool) (y : E) (m : Action E S A) → IsAllOrNothing m → IsAllOrNothing (raise_if b y >> m)
  raise_if-IsAllOrNothing true y m h s x e = refl
  raise_if-IsAllOrNothing false y m h s x e = h s x e

  pub or_raise-IsAllOrNothing :
      {B : Type 0} (o : Option B) (y : E) (f : B → Action E S A)
      → ((b : B) → IsAllOrNothing (f b))
      → IsAllOrNothing (or_raise y o >>= f)
  or_raise-IsAllOrNothing none y f h s x e = refl
  or_raise-IsAllOrNothing (some b) y f h s x e = h b s x e

  -- A first part that never writes.
  pub reads-IsAllOrNothing :
      {B : Type 0} (m : Action E S B) (f : B → Action E S A)
      → ((s : S) → (m s).1 ≡ s)
      → ((b : B) → IsAllOrNothing (f b))
      → IsAllOrNothing (m >>= f)
  reads-IsAllOrNothing {B} m f reads h s x e = from (m s).0 (m s).1 (reads s) e
    where
      from :
          (r : Result E B) (u : S)
          → u ≡ s
          → (elim r as (λ _. Result E A × S) [ ok b ↦ f b u | err y ↦ (err y, u) ]).0 ≡ err x
          → (elim r as (λ _. Result E A × S) [ ok b ↦ f b u | err y ↦ (err y, u) ]).1 ≡ s
      from (ok b) u same h' = h b u x h' ∙ same
      from (err y) u same h' = same
