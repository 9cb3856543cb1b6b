-- ===== src/Checkout/Cart.antt =====
-- apps/orders/checkout.py: what `parse_items` makes of a cart.
use tip_metro_drip_ecommerce.Base.{
  ℕ, suc, ◌+◌, ◌*◌, ◌≤◌, ℤ, pos, negsuc, ◌≡◌, refl, sym, ap, ◌∙◌, Bool, true, false, ◌&&◌, Option,
  none, some, List, [], ◌∷◌, Dict, lookup, insert, lookup-insert, leb, ltb, ◌==◌, length,
  if◌then◌else◌, arith, Bool-cases, inl, inr, ==→eq,
}
use tip_metro_drip_ecommerce.Checkout.{
  CartLine, line_qty, quantity, both, read_line, merge_lines, parse_items, max_line_qty,
  max_checkout_lines,
}

-- The units of a variant that the lines ask for.
abbrev pub units_asked : ℕ → List CartLine → ℕ
units_asked v [] = 0
units_asked v (l ∷ ls) =
    elim (read_line l) [ none ↦ 0 | some (u, n) ↦ if u == v then n else 0 ] + units_asked v ls

pub quantity-insert :
    (v u n : ℕ) (d : Dict ℕ) → quantity v (insert u n d) ≡ (if u == v then n else quantity v d)
quantity-insert v u n d =
    ap (λ o. elim o [ none ↦ 0 | some n ↦ n ]) (lookup-insert u v n d) ∙ split (u == v)
  where
    split :
        (b : Bool)
        → ◌≡◌ {A = ℕ}
            (elim (if b then some n else lookup v d) [ none ↦ 0 | some m ↦ m ])
            (if b then n else quantity v d)
    split true = refl
    split false = refl

pub merge_lines_inv :
    (l : CartLine) (ls : List CartLine) (d : Dict ℕ) {r : Dict ℕ}
    → merge_lines (l ∷ ls) d ≡ some r
    → (u : ℕ) × (n : ℕ) × (read_line l ≡ some (u, n))
      × (merge_lines ls (insert u (quantity u d + n) d) ≡ some r)
unfolding merge_lines
merge_lines_inv l ls d {r} e = go (read_line l) refl e
  where
    go :
        (o : Option (ℕ × ℕ))
        → read_line l ≡ o
        → ◌≡◌ {A = Option (Dict ℕ)}
            (elim o [ none ↦ none | some p ↦ merge_lines ls (insert p.0 (quantity p.0 d + p.1) d) ])
            (some r)
        → (u : ℕ) × (n : ℕ) × (read_line l ≡ some (u, n))
          × (merge_lines ls (insert u (quantity u d + n) d) ≡ some r)
    go none c h = cc
    go (some (u, n)) c h = (u, n, c, h)

added :
    (v u n : ℕ) (d : Dict ℕ)
    → quantity v (insert u (quantity u d + n) d) ≡ quantity v d + (if u == v then n else 0)
added v u n d = elim (Bool-cases (u == v)) [
  | inl e ↦
      quantity-insert v u (quantity u d + n) d ∙ rw e (ap (λ x. quantity x d + n) (==→eq u v e))
  | inr e ↦ quantity-insert v u (quantity u d + n) d ∙ rw e (omega arith)
]

merge_lines-quantity :
    (v : ℕ) (ls : List CartLine) (d : Dict ℕ) {r : Dict ℕ}
    → merge_lines ls d ≡ some r
    → quantity v r ≡ quantity v d + units_asked v ls
unfolding merge_lines
merge_lines-quantity v [] d e =
    ap (λ o. elim o [ none ↦ 0 | some x ↦ quantity v x ]) (sym e) ∙ omega arith
merge_lines-quantity v (l ∷ ls) d e =
    let (u, n, c, rest) = merge_lines_inv l ls d e in
    rw c (
      merge_lines-quantity v ls (insert u (quantity u d + n) d) rest
      ∙ (ap (λ x. x + units_asked v ls) (added v u n d) ∙ omega arith))

pub unless_inv :
    {A : Type 0} (b : Bool) (o : Option A) {a : A}
    → (if b then none else o) ≡ some a
    → (b ≡ false) × (o ≡ some a)
unless_inv true o e = cc
unless_inv false o e = (refl, e)

line_qty_bounds : (z : ℤ) (n : ℕ) → line_qty z ≡ some n → (1 ≤ n) × (n ≤ max_line_qty)
line_qty_bounds (pos m) n e = elim (Bool-cases (leb 1 m && leb m max_line_qty)) [
  | inl c ↦ (ground arith, ground arith)
  | inr c ↦ absurd (ground arith)
]
line_qty_bounds (negsuc m) n e = cc

both_bounds :
    (a : Option ℕ) (b : Option ℤ) (u n : ℕ) → both a b ≡ some (u, n) → (1 ≤ n) × (n ≤ max_line_qty)
both_bounds none b u n e = cc
both_bounds (some v) none u n e = cc
both_bounds (some v) (some z) u n e = go (line_qty z) refl e
  where
    go :
        (o : Option ℕ)
        → line_qty z ≡ o
        → ◌≡◌ {A = Option (ℕ × ℕ)} (elim o [ none ↦ none | some m ↦ some (v, m) ]) (some (u, n))
        → (1 ≤ n) × (n ≤ max_line_qty)
    go none c h = cc
    go (some m) c h =
        line_qty_bounds z n (c ∙ ap (λ o. elim o [ none ↦ none | some p ↦ some p.1 ]) h)

-- Each line that is accepted asks for one to `MAX_LINE_QTY` units.
read_line_bounds :
    (l : CartLine) (u n : ℕ) → read_line l ≡ some (u, n) → (1 ≤ n) × (n ≤ max_line_qty)
read_line_bounds l u n e = both_bounds l.variant_id l.qty u n e

merge_lines-units :
    (v : ℕ) (ls : List CartLine) (d : Dict ℕ) {r : Dict ℕ}
    → merge_lines ls d ≡ some r
    → units_asked v ls ≤ max_line_qty * length ls
unfolding merge_lines
merge_lines-units v [] d e = omega arith
merge_lines-units v (l ∷ ls) d e =
    let (u, n, c, rest) = merge_lines_inv l ls d e in
    rw c (
      one (u == v) n (units_asked v ls) (length ls) (read_line_bounds l u n c).1
        (merge_lines-units v ls _ rest))
  where
    one : (b : Bool) (n m k : ℕ) → n ≤ 99 → m ≤ 99 * k → (if b then n else 0) + m ≤ 99 * suc k
    one true n m k h g = omega arith
    one false n m k h g = omega arith

-- A cart that is accepted has at most `MAX_CHECKOUT_LINES` lines, and its dictionary holds for every
-- variant exactly the units that the lines ask for together, wherever they stand, never more than
-- the lines' limits allow.
pub parse_items_lem :
    (ls : List CartLine) {r : Dict ℕ}
    → parse_items (some ls) ≡ some r
    → (length ls ≤ max_checkout_lines)
      × ((v : ℕ)
          → (quantity v r ≡ units_asked v ls) × (quantity v r ≤ max_line_qty * max_checkout_lines))
unfolding parse_items
parse_items_lem [] e = cc
parse_items_lem (l ∷ ls) e =
    let (short, merged) =
      unless_inv (ltb max_checkout_lines (suc (length ls))) (merge_lines (l ∷ ls) []) e in
    (
      ground arith,
      λ v. (
        merge_lines-quantity v (l ∷ ls) [] merged ∙ omega arith,
        bounded (ground arith) (merge_lines-units v (l ∷ ls) [] merged)
            (merge_lines-quantity v (l ∷ ls) [] merged ∙ omega arith),
      ),
    )
  where
    bounded : {q a n : ℕ} → n ≤ 20 → a ≤ 99 * n → q ≡ a → q ≤ 99 * 20
    bounded h g e = omega arith
