-- ===== src/Outbox/Rows.antt =====
-- The row of one key under the writes of the outbox.
use tip_metro_drip_ecommerce.Base.{
  ℕ, zero, suc, ◌+◌, ◌≡◌, refl, sym, ap, ◌∙◌, Bool, true, false, Option, none, some, List, [], ◌∷◌,
  ◌++◌, subst, select, ◌==◌, if◌then◌else◌, arith, ==_self, Bool-cases, inl, inr, ◌⊎◌, ==→eq,
}
use tip_metro_drip_ecommerce.Outbox.{Message, is_due, first, claim, has_pk, bump, update}

module _ {P : Type 0} where
  abbrev pub find : ℕ → List (Message P) → Option (Message P)
  find k [] = none
  find k (m ∷ ms) = if m.pk == k then some m else find k ms

  -- No two rows have one key.
  abbrev pub IsKeyed : List (Message P) → Type 0
  IsKeyed [] = Unit
  IsKeyed (m ∷ ms) = (has_pk m.pk ms ≡ false) × IsKeyed ms

  abbrev pub on : {B : Type 0} → (Message P → B) → Option (Message P) → Option B
  on f none = none
  on f (some m) = some (f m)

  pub find-append :
      (k : ℕ) (rows new : List (Message P)) (m : Message P)
      → find k rows ≡ some m
      → find k (rows ++ new) ≡ some m
  find-append k [] new m e = cc
  find-append k (r ∷ rs) new m e = ground (arith, find-append k rs new m)

  pub find-update :
      (k j : ℕ) (change : Message P → Message P) (rows : List (Message P))
      → ((m : Message P) → (change m).pk ≡ m.pk)
      → find k (update j change rows) ≡ (if j == k then on change (find k rows) else find k rows)
  unfolding update
  find-update k j change [] same = ground arith
  find-update k j change (r ∷ rs) same = ground (arith, same r, find-update k j change rs same)

  abbrev pub tried : Message P → Message P
  tried m = record m { attempts = m.attempts + 1 }

  find-bump_self :
      (claimed : List (Message P)) (r : Message P) (rs : List (Message P))
      → find r.pk (bump claimed (r ∷ rs))
        ≡ (if has_pk r.pk claimed then on tried (find r.pk (r ∷ rs)) else find r.pk (r ∷ rs))
  unfolding bump
  find-bump_self claimed r rs = elim (Bool-cases (has_pk r.pk claimed)) [
    | inl c ↦ rw (c, ==_self r.pk) refl
    | inr c ↦ rw (c, ==_self r.pk) refl
  ]

  pub find-bump :
      (k : ℕ) (claimed rows : List (Message P))
      → find k (bump claimed rows)
        ≡ (if has_pk k claimed then on tried (find k rows) else find k rows)
  unfolding bump
  find-bump k claimed [] = ground arith
  find-bump k claimed (r ∷ rs) = elim (Bool-cases (r.pk == k)) [
    | inl e ↦
        subst
          (λ j.
            find j (bump claimed (r ∷ rs))
            ≡ (if has_pk j claimed then on tried (find j (r ∷ rs)) else find j (r ∷ rs)))
          (==→eq r.pk k e) (find-bump_self claimed r rs)
    | inr e ↦ elim (Bool-cases (has_pk r.pk claimed)) [
      | inl c ↦ ground (arith, find-bump k claimed rs)
      | inr c ↦ ground (arith, find-bump k claimed rs)
    ]
  ]

  has_pk-select :
      (k : ℕ) (p : Message P → Bool) (rows : List (Message P))
      → has_pk k rows ≡ false
      → has_pk k (select p rows) ≡ false
  has_pk-select k p [] e = refl
  has_pk-select k p (r ∷ rs) e = ground (arith, has_pk-select k p rs)

  has_pk-first :
      (k n : ℕ) (rows : List (Message P)) → has_pk k rows ≡ false → has_pk k (first n rows) ≡ false
  has_pk-first k zero rows e = refl
  has_pk-first k (suc n) [] e = refl
  has_pk-first k (suc n) (r ∷ rs) e = ground (arith, has_pk-first k n rs)

  IsKeyed-select :
      (p : Message P → Bool) (rows : List (Message P)) → IsKeyed rows → IsKeyed (select p rows)
  IsKeyed-select p [] h = h
  IsKeyed-select p (r ∷ rs) h = ground (arith, has_pk-select r.pk p rs h.0, IsKeyed-select p rs h.1)

  IsKeyed-first : (n : ℕ) (rows : List (Message P)) → IsKeyed rows → IsKeyed (first n rows)
  IsKeyed-first zero rows h = tt
  IsKeyed-first (suc n) [] h = h
  IsKeyed-first (suc n) (r ∷ rs) h = (has_pk-first r.pk n rs h.0, IsKeyed-first n rs h.1)

  pub IsKeyed-claim :
      (now batch : ℕ) (rows : List (Message P)) → IsKeyed rows → IsKeyed (claim now batch rows)
  unfolding claim
  IsKeyed-claim now batch rows h =
      IsKeyed-first batch (select (is_due now) rows) (IsKeyed-select (is_due now) rows h)

  pub head_is :
      (k : ℕ) (r : Message P) (rs : List (Message P)) (m : Message P)
      → (r.pk == k) ≡ true
      → find k (r ∷ rs) ≡ some m
      → r ≡ m
  head_is k r rs m q e = cc

  select_first :
      (k : ℕ) (p : Message P → Bool) (r : Message P) (rs : List (Message P)) (m : Message P)
      → IsKeyed (r ∷ rs)
      → (r.pk == k) ≡ true
      → find k (r ∷ rs) ≡ some m
      → (has_pk k (select p (r ∷ rs)) ≡ false)
        ⊎ ((find k (select p (r ∷ rs)) ≡ some m) × (p m ≡ true))
  select_first k p r rs m h q e = elim (Bool-cases (p r)) [
    | inl c ↦
        inr (rw c (rw q (ap some (head_is k r rs m q e))), sym (ap p (head_is k r rs m q e)) ∙ c)
    | inr c ↦
        inl (rw c (has_pk-select k p rs (subst (λ j. has_pk j rs ≡ false) (==→eq r.pk k q) h.0)))
  ]

  select_cases :
      (k : ℕ) (p : Message P → Bool) (rows : List (Message P)) (m : Message P)
      → IsKeyed rows
      → find k rows ≡ some m
      → (has_pk k (select p rows) ≡ false) ⊎ ((find k (select p rows) ≡ some m) × (p m ≡ true))
  select_cases k p [] m h e = cc
  select_cases k p (r ∷ rs) m h e = elim (Bool-cases (r.pk == k)) [
    | inl q ↦ select_first k p r rs m h q e
    | inr q ↦ elim (select_cases k p rs m h.1 (ground arith)) [
      | inl n ↦ ground arith
      | inr y ↦ ground arith
    ]
  ]

  first_cases :
      (k n : ℕ) (rows : List (Message P)) (m : Message P)
      → find k rows ≡ some m
      → (has_pk k (first n rows) ≡ false) ⊎ (find k (first n rows) ≡ some m)
  first_cases k zero rows m e = inl refl
  first_cases k (suc n) [] m e = inl refl
  first_cases k (suc n) (r ∷ rs) m e = elim (Bool-cases (r.pk == k)) [
    | inl q ↦ inr (ground arith)
    | inr q ↦ elim (first_cases k n rs m (ground arith)) [
      | inl f ↦ inl (ground arith)
      | inr f ↦ inr (ground arith)
    ]
  ]

  pub claim_cases :
      (k now batch : ℕ) (rows : List (Message P)) (m : Message P)
      → IsKeyed rows
      → find k rows ≡ some m
      → (has_pk k (claim now batch rows) ≡ false)
        ⊎ ((find k (claim now batch rows) ≡ some m) × (is_due now m ≡ true))
  unfolding claim
  claim_cases k now batch rows m h e = elim (select_cases k (is_due now) rows m h e) [
    | inl n ↦ inl (has_pk-first k batch (select (is_due now) rows) n)
    | inr y ↦ elim (first_cases k batch (select (is_due now) rows) m y.0) [
      | inl n ↦ inl n
      | inr f ↦ inr (f, y.1)
    ]
  ]

  pub find→has_pk :
      (k : ℕ) (rows : List (Message P)) (m : Message P)
      → find k rows ≡ some m
      → has_pk k rows ≡ true
  find→has_pk k [] m e = cc
  find→has_pk k (r ∷ rs) m e = ground (arith, find→has_pk k rs m)
