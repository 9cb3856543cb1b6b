-- ===== src/Base/Invert.antt =====
-- What a call that returned must have done: each part of it returned.
use mathlib.Core.Path.{◌≡◌, refl, ap}
use mathlib.Core.Logic.{◌⊎◌, inl, inr}
use mathlib.Core.Bool.{Bool, true, false}
use mathlib.Core.Option.{Option, none, some}
use native.Mathlib.Omega.{arith}
use tip_metro_drip_ecommerce.Base.Action.{
  Action, ok, err, Result, or_raise, atomic, ◌>>=◌, ◌>>◌, raise_if,
}

module _ {E S A : Type 0} where
  pub atomic_inv :
      (m : Action E S A) (s : S) {a : A} {t : S} → atomic m s ≡ (ok a, t) → m s ≡ (ok a, t)
  atomic_inv m s {a} {t} e = from (m s) e
    where
      from :
          (p : Result E A × S)
          → ◌≡◌ {A = Result E A × S}
              (elim p.0 as (λ _. Result E A × S) [ ok x ↦ (ok x, p.1) | err x ↦ (err x, s) ])
              (ok a, t)
          → p ≡ (ok a, t)
      from (ok x, u) h = h
      from (err x, u) h = cc

  pub raise_if_inv :
      (b : Bool) (x : E) (m : Action E S A) (s : S) {a : A} {t : S}
      → (raise_if b x >> m) s ≡ (ok a, t)
      → (b ≡ false) × (m s ≡ (ok a, t))
  raise_if_inv true x m s h = cc
  raise_if_inv false x m s h = (refl, h)

module _ {E S A B : Type 0} where
  pub bind_inv :
      (m : Action E S A) (f : A → Action E S B) (s : S) {b : B} {t : S}
      → (m >>= f) s ≡ (ok b, t)
      → (a : A) × (u : S) × (m s ≡ (ok a, u)) × (f a u ≡ (ok b, t))
  bind_inv m f s {b} {t} e = from (m s) e
    where
      from :
          (p : Result E A × S)
          → ◌≡◌ {A = Result E B × S}
              (elim p.0 as (λ _. Result E B × S) [ ok x ↦ f x p.1 | err x ↦ (err x, p.1) ])
              (ok b, t)
          → (a : A) × (u : S) × (p ≡ (ok a, u)) × (f a u ≡ (ok b, t))
      from (ok x, u) h = (x, u, refl, h)
      from (err x, u) h = cc

  -- And one that raised: one of its parts raised.
  pub bind_err_inv :
      (m : Action E S A) (f : A → Action E S B) (s : S) {x : E} {t : S}
      → (m >>= f) s ≡ (err x, t)
      → (m s ≡ (err x, t)) ⊎ ((a : A) × (u : S) × (m s ≡ (ok a, u)) × (f a u ≡ (err x, t)))
  bind_err_inv m f s {x} {t} e = from (m s) e
    where
      raised :
          (y : E) (u : S)
          → ◌≡◌ {A = Result E B × S} (err y, u) (err x, t)
          → ◌≡◌ {A = Result E A × S} (err y, u) (err x, t)
      raised y u q = cc

      from :
          (p : Result E A × S)
          → ◌≡◌ {A = Result E B × S}
              (elim p.0 as (λ _. Result E B × S) [ ok y ↦ f y p.1 | err y ↦ (err y, p.1) ])
              (err x, t)
          → (p ≡ (err x, t)) ⊎ ((a : A) × (u : S) × (p ≡ (ok a, u)) × (f a u ≡ (err x, t)))
      from (ok y, u) h = inr (y, u, refl, h)
      from (err y, u) h = inl (raised y u h)

  pub or_raise_inv :
      (o : Option A) (x : E) (f : A → Action E S B) (s : S) {b : B} {t : S}
      → (or_raise x o >>= f) s ≡ (ok b, t)
      → (a : A) × (o ≡ some a) × (f a s ≡ (ok b, t))
  or_raise_inv none x f s h = cc
  or_raise_inv (some a) x f s h = (a, refl, h)

module _ {E S A B : Type 0} (m : Action E S A) (f : A → Action E S B) (s : S) where
  pub bind_ok : {a : A} {t : S} → m s ≡ (ok a, t) → (m >>= f) s ≡ f a t
  bind_ok e = ground arith

  pub bind_err : {x : E} {t : S} → m s ≡ (err x, t) → (m >>= f) s ≡ (err x, t)
  bind_err e = ground arith

-- A call returned or raised.
pub call_cases :
    {E S A : Type 0} (p : Result E A × S)
    → ((a : A) × (t : S) × (p ≡ (ok a, t))) ⊎ ((x : E) × (t : S) × (p ≡ (err x, t)))
call_cases (ok a, t) = inl (a, t, refl)
call_cases (err x, t) = inr (x, t, refl)

-- Two accounts of one call that returned agree.
pub returned_value :
    {E S A : Type 0} {a b : A} {s t : S} → ◌≡◌ {A = Result E A × S} (ok a, s) (ok b, t) → a ≡ b
returned_value e = cc

pub returned_state :
    {E S A : Type 0} {a b : A} {s t : S} → ◌≡◌ {A = Result E A × S} (ok a, s) (ok b, t) → s ≡ t
returned_state {E} {S} {A} e = ap (λ (p : Result E A × S). p.1) e
