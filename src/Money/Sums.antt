-- ===== src/Money/Sums.antt =====
-- apps/core/money.py: sums and products are exact or refused.
use tip_metro_drip_ecommerce.Base.{
  ℕ, ◌+◌, ◌*◌, ◌≤◌, ℤ, pos, negsuc, ◌≡◌, refl, ◌∙◌, true, false, Option, none, some, List, [], ◌∷◌,
  Value, as_int, ltb, leb, if◌then◌else◌, arith, Bool-cases, inl, inr,
}
use tip_metro_drip_ecommerce.Money.{
  max_centavos, amount, line_total, quantity_of, add_amount, amount_of, checked, require_centavos,
  multiply_centavos, add_each, sum_centavos,
}

-- The exact sum, if every amount is one.
abbrev pub plus : Option ℕ → Option ℕ → Option ℕ
plus none o = none
plus (some n) none = none
plus (some n) (some m) = some (n + m)

abbrev pub exact_sum : List Value → Option ℕ
exact_sum [] = some 0
exact_sum (v ∷ vs) = plus (amount v) (exact_sum vs)

-- At most `MAX_CENTAVOS`, counted from a total.
abbrev pub capped : ℕ → Option ℕ → Option ℕ
capped total none = none
capped total (some n) = if ltb max_centavos (total + n) then none else some (total + n)

add_each-capped :
    (vs : List Value) (total : ℕ)
    → total ≤ max_centavos
    → add_each total vs ≡ capped total (exact_sum vs)
unfolding add_each
add_each-capped [] total h = ground arith
add_each-capped (v ∷ vs) total h = step (λ t b. add_each-capped vs t b) (amount v)
  where
    further : (n : ℕ) → (o : Option ℕ) → capped (total + n) o ≡ capped total (plus (some n) o)
    further n none = refl
    further n (some m) = ground arith

    beyond :
        (n : ℕ)
        → ltb max_centavos (total + n) ≡ true
        → (o : Option ℕ) → none ≡ capped total (plus (some n) o)
    beyond n b none = refl
    beyond n b (some m) = ground arith

    step :
        ((t : ℕ) → t ≤ max_centavos → add_each t vs ≡ capped t (exact_sum vs))
        → (o : Option ℕ)
        → add_amount total (λ t. add_each t vs) o ≡ capped total (plus o (exact_sum vs))
    step rec none = refl
    step rec (some n) = elim (Bool-cases (ltb max_centavos (total + n))) [
      | inl b ↦ rw b (beyond n b (exact_sum vs))
      | inr b ↦ rw b (rec (total + n) (ground arith) ∙ further n (exact_sum vs))
    ]

-- A sum is the exact sum of the amounts, if every one is an integer from 0 to `MAX_CENTAVOS` and so is
-- the sum; otherwise it is refused. It does not depend on where the loop would stop.
pub sum_centavos_lem : (vs : List Value) → sum_centavos vs ≡ capped 0 (exact_sum vs)
unfolding sum_centavos
sum_centavos_lem vs = add_each-capped vs 0 (omega arith)

amount_inv :
    (o : Option ℤ) {n : ℕ}
    → amount_of (checked false o) ≡ some n
    → (o ≡ some (pos n)) × (n ≤ max_centavos)
amount_inv none e = cc
amount_inv (some (pos m)) e = elim (Bool-cases (ltb max_centavos m)) [
  | inl b ↦ absurd (ground arith)
  | inr b ↦ (ground arith, ground arith)
]
amount_inv (some (negsuc m)) e = cc

quantity_inv : (o : Option ℤ) {n : ℕ} → quantity_of o ≡ some n → (o ≡ some (pos n)) × (1 ≤ n)
quantity_inv none e = cc
quantity_inv (some (pos m)) e = elim (Bool-cases (leb 1 m)) [
  | inl b ↦ (ground arith, ground arith)
  | inr b ↦ absurd (ground arith)
]
quantity_inv (some (negsuc m)) e = cc

line_total_inv :
    (a b : Option ℕ) {n : ℕ}
    → line_total a b ≡ some n
    → (p : ℕ) × (q : ℕ) × (a ≡ some p) × (b ≡ some q) × (n ≡ p * q) × (p * q ≤ max_centavos)
line_total_inv none b e = cc
line_total_inv (some p) none e = cc
line_total_inv (some p) (some q) e = elim (Bool-cases (ltb max_centavos (p * q))) [
  | inl c ↦ absurd (ground arith)
  | inr c ↦ (p, q, refl, refl, ground arith, ground arith)
]

-- A product that is returned is the exact product of a price, an integer from 0 to `MAX_CENTAVOS`, and
-- a quantity, an integer of at least 1, and is itself at most `MAX_CENTAVOS`.
pub multiply_centavos_lem :
    (price quantity : Value) {n : ℕ}
    → multiply_centavos price quantity ≡ some n
    → (p : ℕ) × (q : ℕ) × (as_int price ≡ some (pos p))
      × (as_int quantity ≡ some (pos q))
      × (p ≤ max_centavos)
      × (1 ≤ q)
      × (n ≡ p * q)
      × (p * q ≤ max_centavos)
unfolding multiply_centavos amount require_centavos
multiply_centavos_lem price quantity e =
    let (p, q, a, b, exact, small) =
      line_total_inv (amount price) (quantity_of (as_int quantity)) e in
    let (priced, bound) = amount_inv (as_int price) a in
    let (counted, least) = quantity_inv (as_int quantity) b in
    (p, q, priced, counted, bound, least, exact, small)
