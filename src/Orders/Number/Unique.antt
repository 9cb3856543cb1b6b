-- ===== src/Orders/Number/Unique.antt =====
-- Every number is allocated once, and says its year and its place in it.
use tip_metro_drip_ecommerce.Base.{
  sym, ap, ◌∙◌, ℕ, ◌+◌, ◌-◌, ◌*◌, ◌/◌, ◌%◌, ◌≤◌, ◌<◌, ◌≡◌, ◌≢◌, refl, true, false, Option, none,
  some, List, [], ◌∷◌, Dict, insert, lookup-insert, leb, if◌then◌else◌, ◌==◌, Value, arith,
  Option-cases, Bool-cases, inl, inr, ◌⊎◌, All, pos, ℤ, as_int,
}
use tip_metro_drip_ecommerce.Base.Action.{Result, ok, err}
use tip_metro_drip_ecommerce.Base.Keeps.{atomic_ok, atomic_err}
use tip_metro_drip_ecommerce.Orders.Number.{
  NumberError, invalid_order_year, order_number_exhausted, order_no, business_year, last_value,
  allocate, next_order_no, max_order_sequence, four_digits,
}

-- The number that a digit byte stands for.
abbrev value_of : ℕ → ℕ
value_of c = c - b'0'

-- Reading the year and the value back from the text.
abbrev pub read_no : List ℕ → ℕ × ℕ
read_no (_ ∷ _ ∷ _ ∷ a ∷ b ∷ c ∷ d ∷ _ ∷ e ∷ f ∷ g ∷ h ∷ i ∷ []) = (
  value_of a * 1000 + value_of b * 100 + value_of c * 10 + value_of d,
  value_of e * 10000 + value_of f * 1000 + value_of g * 100 + value_of h * 10 + value_of i,
)
read_no _ = (0, 0)

four :
    (y : ℕ)
    → y ≤ 9999
    → (48 + y / 1000 % 10 - 48) * 1000
        + (48 + y / 100 % 10 - 48) * 100
        + (48 + y / 10 % 10 - 48) * 10
        + (48 + y % 10 - 48)
      ≡ y
four y h = omega arith

five :
    (v : ℕ)
    → v ≤ 99999
    → (48 + v / 10000 % 10 - 48) * 10000
        + (48 + v / 1000 % 10 - 48) * 1000
        + (48 + v / 100 % 10 - 48) * 100
        + (48 + v / 10 % 10 - 48) * 10
        + (48 + v % 10 - 48)
      ≡ v
five v h = omega arith

-- The text of a year of four digits and a value within the yearly maximum gives both back.
pub read_no-order_no :
    (year value : ℕ)
    → year ≤ 9999
    → value ≤ max_order_sequence
    → read_no (order_no year value) ≡ (year, value)
unfolding order_no
read_no-order_no y v hy hv = λ i. (four y hy i, five v hv i)

pub order_no_injective :
    (y v z w : ℕ)
    → y ≤ 9999
    → v ≤ max_order_sequence
    → z ≤ 9999
    → w ≤ max_order_sequence
    → order_no y v ≡ order_no z w
    → (y ≡ z) × (v ≡ w)
order_no_injective y v z w hy hv hz hw e =
    let same : read_no (order_no y v) ≡ read_no (order_no z w) = ap read_no e in
    let both : ◌≡◌ {A = ℕ × ℕ} (y, v) (z, w) =
      sym (read_no-order_no y v hy hv) ∙ same ∙ read_no-order_no z w hz hw in
    (ap (λ (p : ℕ × ℕ). p.0) both, ap (λ (p : ℕ × ℕ). p.1) both)

four_digits-le : (z : ℤ) {y : ℕ} → four_digits z ≡ some y → y ≤ 9999
four_digits-le z e = ground arith

business_year-le :
    (today : ℕ) (year : Option Value) {y : ℕ} → business_year today year ≡ some y → y ≤ 9999
business_year-le today none e = four_digits-le (pos today) e
business_year-le today (some year) {y} e = elim (Option-cases (as_int year)) [
  | inl bad ↦ ground arith
  | inr (z, int_) ↦ four_digits-le z {y = y} (ground arith)
]

last_value-insert :
    (y z n : ℕ) (d : Dict ℕ) → last_value z (insert y n d) ≡ (if y == z then n else last_value z d)
last_value-insert y z n d = ground (arith, lookup-insert y z n d)

allocate_full :
    (y : ℕ) (s : Dict ℕ)
    → leb max_order_sequence (last_value y s) ≡ true
    → allocate y s ≡ (err order_number_exhausted, insert y (last_value y s) s)
unfolding allocate
allocate_full y s full = rw full refl

allocate_next :
    (y : ℕ) (s : Dict ℕ)
    → leb max_order_sequence (last_value y s) ≡ false
    → allocate y s ≡ (
      ok (order_no y (last_value y s + 1)),
      insert y (last_value y s + 1) (insert y (last_value y s) s),
    )
unfolding allocate
allocate_next y s room = rw room refl

-- The rows after an allocation.
pub after : ℕ → Dict ℕ → Dict ℕ
after y s = insert y (last_value y s + 1) (insert y (last_value y s) s)

-- What one call does: it raises and changes no row, or it takes the next value of a year that has
-- one left.
pub next_order_no_cases :
    (today : ℕ) (year : Option Value) (s : Dict ℕ)
    → ((x : NumberError) × (next_order_no today year s ≡ (err x, s)))
      ⊎ ((y : ℕ) × (business_year today year ≡ some y)
          × (last_value y s < max_order_sequence)
          × (next_order_no today year s ≡ (ok (order_no y (last_value y s + 1)), after y s)))
unfolding next_order_no after
next_order_no_cases today year s = elim (Option-cases (business_year today year)) [
  | inl bad ↦ inl (invalid_order_year, rw bad refl)
  | inr (y, e) ↦ elim (Bool-cases (leb max_order_sequence (last_value y s))) [
    | inl full ↦
        inl (order_number_exhausted, rw e (atomic_err (allocate y) s (allocate_full y s full)))
    | inr room ↦ inr (y, e, ground arith, rw e (atomic_ok (allocate y) s (allocate_next y s room)))
  ]
]

-- The numbers that a list of calls returns, and the rows after it.
pub issue : List (ℕ × Option Value) → Dict ℕ → List (List ℕ)
issue [] s = []
issue ((today, year) ∷ rs) s =
    let (r, t) = next_order_no today year s in
    let rest = issue rs t in elim r [ ok n ↦ n ∷ rest | err e ↦ rest ]

issue_err :
    (today : ℕ) (year : Option Value) (rs : List (ℕ × Option Value)) (s t : Dict ℕ)
    (x : NumberError)
    → next_order_no today year s ≡ (err x, t)
    → issue ((today, year) ∷ rs) s ≡ issue rs t
unfolding issue
issue_err today year rs s t x e =
    ap
      (λ (p : Result NumberError (List ℕ) × Dict ℕ). elim p.0 as (λ _. List (List ℕ)) [
        | ok m ↦ m ∷ issue rs p.1
        | err y ↦ issue rs p.1
      ])
      e

issue_ok :
    (today : ℕ) (year : Option Value) (rs : List (ℕ × Option Value)) (s t : Dict ℕ) (n : List ℕ)
    → next_order_no today year s ≡ (ok n, t)
    → issue ((today, year) ∷ rs) s ≡ n ∷ issue rs t
unfolding issue
issue_ok today year rs s t n e =
    ap
      (λ (p : Result NumberError (List ℕ) × Dict ℕ). elim p.0 as (λ _. List (List ℕ)) [
        | ok m ↦ m ∷ issue rs p.1
        | err y ↦ issue rs p.1
      ])
      e

issue_nil : (s : Dict ℕ) → issue [] s ≡ []
unfolding issue
issue_nil s = refl

abbrev Beyond : Dict ℕ → List ℕ → Type 0
Beyond s n =
    (y : ℕ) × (v : ℕ) × (n ≡ order_no y v)
    × (last_value y s < v)
    × (v ≤ max_order_sequence)
    × (y ≤ 9999)

abbrev pub Apart : List (List ℕ) → Type 0
Apart [] = Unit
Apart (n ∷ ns) = All (λ m. n ≢ m) ns × Apart ns

last_value-after :
    (y z : ℕ) (s : Dict ℕ)
    → last_value z (after y s) ≡ (if y == z then last_value y s + 1 else last_value z s)
unfolding after
last_value-after y z s = ground (
  arith,
  last_value-insert y z (last_value y s + 1) (insert y (last_value y s) s),
  last_value-insert y z (last_value y s) s,
)

Beyond-earlier : (y : ℕ) (s : Dict ℕ) (n : List ℕ) → Beyond (after y s) n → Beyond s n
Beyond-earlier y s n (z, v, e, later, fits, hz) =
    (z, v, e, ground (arith, last_value-after y z s), fits, hz)

All-Beyond-earlier :
    (y : ℕ) (s : Dict ℕ) (ns : List (List ℕ)) → All (Beyond (after y s)) ns → All (Beyond s) ns
All-Beyond-earlier y s [] h = tt
All-Beyond-earlier y s (n ∷ ns) h = (Beyond-earlier y s n h.0, All-Beyond-earlier y s ns h.1)

All-Beyond-ne :
    (y : ℕ) (s : Dict ℕ) (ns : List (List ℕ))
    → y ≤ 9999
    → last_value y s < max_order_sequence
    → All (Beyond (after y s)) ns
    → All (λ m. order_no y (last_value y s + 1) ≢ m) ns
All-Beyond-ne y s [] hy hv h = tt
All-Beyond-ne y s (n ∷ ns) hy hv ((z, v, e, later, fits, hz), rest) = (
  λ same.
      let (yz, vv) =
        order_no_injective y (last_value y s + 1) z v hy (omega arith) hz fits (same ∙ e) in
      absurd (ground (arith, last_value-after y z s)),
  All-Beyond-ne y s ns hy hv rest,
)

issue-Beyond : (rs : List (ℕ × Option Value)) (s : Dict ℕ) → All (Beyond s) (issue rs s)
issue-Beyond [] s = rw (issue_nil s) tt
issue-Beyond ((today, year) ∷ rs) s = elim (next_order_no_cases today year s) [
  | inl (x, eq) ↦ rw (issue_err today year rs s s x eq) (issue-Beyond rs s)
  | inr (y, e, room, eq) ↦
      let here : Beyond s (order_no y (last_value y s + 1)) =
        (y, last_value y s + 1, refl, omega arith, omega arith, business_year-le today year e) in
      rw (issue_ok today year rs s (after y s) (order_no y (last_value y s + 1)) eq)
        (here, All-Beyond-earlier y s (issue rs (after y s)) (issue-Beyond rs (after y s)))
]

-- Over any sequence of calls, whatever the years asked for and the dates of the calls, no two
-- numbers that are returned are the same text.
pub issue-Apart : (rs : List (ℕ × Option Value)) (s : Dict ℕ) → Apart (issue rs s)
issue-Apart [] s = rw (issue_nil s) tt
issue-Apart ((today, year) ∷ rs) s = elim (next_order_no_cases today year s) [
  | inl (x, eq) ↦ rw (issue_err today year rs s s x eq) (issue-Apart rs s)
  | inr (y, e, room, eq) ↦
      rw (issue_ok today year rs s (after y s) (order_no y (last_value y s + 1)) eq) (
        All-Beyond-ne y s (issue rs (after y s)) (business_year-le today year e) room
            (issue-Beyond rs (after y s)),
        issue-Apart rs (after y s),
      )
]
