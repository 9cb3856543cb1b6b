-- ===== src/Service/Well.antt =====
-- services/inventory/api.py: every write of the service is one of the in-process provider's, on the
-- tables, and keeps their invariants.
use tip_metro_drip_ecommerce.Base.{
  ℕ, ◌+◌, ℤ, pos, negsuc, Dict, insert-lookup, ◌+ℤ◌, ltb_ℤ, String, true, false, ◌≡◌, refl, sym, ap,
  ◌∙◌, subst, Option, none, some, List, [], ◌∷◌, All, lookup, ltb, Bool-cases, Option-cases, inl,
  inr, arith,
}
use tip_metro_drip_ecommerce.Base.Action.{pure, ◌>>=◌}
use tip_metro_drip_ecommerce.Base.Keeps.{Keeps, bind-Keeps, bind-Keeps_from}
use tip_metro_drip_ecommerce.Inventory.{
  StockRecord, available, ReservationStatus, is_active, Reservation, Ledger,
}
use tip_metro_drip_ecommerce.Inventory.Provider.{hold, new_hold, end_active}
use tip_metro_drip_ecommerce.Inventory.Provider as Provider
use tip_metro_drip_ecommerce.Inventory.Settle.{sell}
use tip_metro_drip_ecommerce.Inventory.Stable.{IsStable}
use tip_metro_drip_ecommerce.Inventory.Provider.{ended}
use tip_metro_drip_ecommerce.Inventory.Provider.Steps.{end_active_cases}
use tip_metro_drip_ecommerce.Inventory.Settle.{sold}
use tip_metro_drip_ecommerce.Inventory.Settle.Invariants.{sell_cases}
use tip_metro_drip_ecommerce.Service.Reservations.{
  place, place_each, sell_row, sell_each, end_row, release_all,
}
use tip_metro_drip_ecommerce.Service.Adjustments.{recount, with_delta}
use tip_metro_drip_ecommerce.Inventory.Provider.{Line}
use tip_metro_drip_ecommerce.Inventory.{MovementReason, save_stock}
use tip_metro_drip_ecommerce.Inventory.Adjust.{is_zero, move_stock}
use tip_metro_drip_ecommerce.Base.{as_positive, as_positive_bound, ◌≤◌}
use tip_metro_drip_ecommerce.Service.Rows.{IsFound, IsOther, IsLoaded, IsFound-put}

pub place-hold :
    (v qty : ℕ) (row : ℕ → Reservation) (s : Ledger) → (place v qty row s).1 ≡ (hold v qty row s).1
unfolding place hold available
place-hold v qty row s = elim (Option-cases (lookup v s.stock)) [
  | inl e ↦ ground arith
  | inr (stock, e) ↦ elim (Bool-cases (ltb_ℤ (available stock) (pos qty))) [
    | inl b ↦ ground arith
    | inr b ↦ ground arith
  ]
]

-- The provider's clock, and nothing else, is read by the writes.
abbrev pub clock : ℕ → Provider.Env
clock now = record {
  now = now;
  reservation_ttl_minutes = 0;
  sha256 = λ s. s;
  json_dumps = λ ls. "";
}

pub end_row-end_active :
    (now : ℕ) (t : ReservationStatus) (r : Reservation) (s : Ledger)
    → (end_row now t r s).1 ≡ (end_active (clock now) r t s).1
unfolding end_row end_active
end_row-end_active now t r s = elim (Option-cases (lookup r.variant_id s.stock)) [
  | inl e ↦ ground arith
  | inr (stock, e) ↦ elim (Bool-cases (ltb stock.qty_reserved r.qty)) [
    | inl b ↦ ground arith
    | inr b ↦ ground arith
  ]
]

pub sell_row-sell :
    (now : ℕ) (o : Option ℕ) (r : Reservation) (s : Ledger)
    → is_active r.status ≡ true
    → (sell_row now o r s).1 ≡ (sell (clock now) o r s).1
unfolding sell_row sell
sell_row-sell now o r s on = elim (Option-cases (lookup r.variant_id s.stock)) [
  | inl e ↦ ground arith
  | inr (stock, e) ↦ elim (Bool-cases (ltb stock.qty_on_hand r.qty)) [
    | inl b ↦ ground arith
    | inr b ↦ elim (Bool-cases (ltb stock.qty_reserved r.qty)) [
      | inl d ↦ ground arith
      | inr d ↦ ground arith
    ]
  ]
]

module _ (now : ℕ) where
  end_row_rows :
      (t : ReservationStatus) (r : Reservation) (s : Ledger) (xs : List Reservation)
      → All (IsOther r.pk) xs
      → All (IsFound s.reservations) xs
      → All (IsFound (end_row now t r s).1.reservations) xs
  end_row_rows t r s xs other h =
      subst (λ (u : Ledger). All (IsFound u.reservations) xs) (sym (end_row-end_active now t r s))
        (elim (end_active_cases (clock now) r t s) [
          | inl (x, eq) ↦ rw eq h
          | inr (stock, e, fits, eq) ↦
              rw eq (IsFound-put r.pk (ended (clock now) t r) s.reservations xs refl other h)
        ])

  sell_row_rows :
      (o : Option ℕ) (r : Reservation) (s : Ledger) (xs : List Reservation)
      → is_active r.status ≡ true
      → All (IsOther r.pk) xs
      → All (IsFound s.reservations) xs
      → All (IsFound (sell_row now o r s).1.reservations) xs
  sell_row_rows o r s xs on other h =
      subst (λ (u : Ledger). All (IsFound u.reservations) xs) (sym (sell_row-sell now o r s on))
        (elim (sell_cases (clock now) o r s) [
          | inl (x, eq) ↦ rw eq h
          | inr (stock, e, active_row, shelf, fits, eq) ↦
              rw eq (IsFound-put r.pk (sold (clock now) o r) s.reservations xs refl other h)
        ])

recounted_same : (d : ℤ) (stock : StockRecord) → is_zero d ≡ true → with_delta d stock ≡ stock
unfolding ◌+ℤ◌
recounted_same (pos n) stock e = ap (λ (q : ℕ). record stock { qty_on_hand = q }) (ground arith)
recounted_same (negsuc n) stock e = cc

-- A quantity of zero writes the row that is there.
recounted_zero :
    (v : ℕ) (d : ℤ) (stock : StockRecord) (s : Ledger)
    → lookup v s.stock ≡ some stock
    → is_zero d ≡ true
    → save_stock v (with_delta d stock) s ≡ s
recounted_zero v d stock s at e =
    ap (λ (r : StockRecord). save_stock v r s) (recounted_same d stock e)
    ∙ ap (λ (x : Dict StockRecord). record s { stock = x }) (insert-lookup v stock s.stock at)

recount-move_stock :
    (v : ℕ) (d : ℤ) (why : MovementReason) (ref : Option ℕ) (stock : StockRecord) (s : Ledger)
    → lookup v s.stock ≡ some stock
    → is_zero d ≡ false
    → (recount v d why ref stock s).1 ≡ (move_stock v d why ref s).1
unfolding recount move_stock
recount-move_stock v d why ref stock s at e =
    elim (Bool-cases (ltb_ℤ (pos stock.qty_on_hand +ℤ d) (pos stock.qty_reserved))) [
      | inl short ↦ ground arith
      | inr fits ↦ ground arith
    ]

-- What the loops keep.
module _ {P : Ledger → Type 0} (stable : IsStable P) (now : ℕ) where
  pub release_all-Keeps :
      (t : ReservationStatus) (rs : List Reservation) (s : Ledger)
      → is_active t ≡ false
      → IsLoaded s.reservations rs
      → P s
      → P (release_all now t rs s).1
  unfolding release_all
  release_all-Keeps t [] s off loaded h = h
  release_all-Keeps t (r ∷ rs) s off loaded h =
      let rest = release_all-Keeps t rs (end_row now t r s).1 off next one in
      bind-Keeps_from P (end_row now t r) (λ _. release_all now t rs >>= λ n. pure (n + 1)) s one
        (λ _ _.
          bind-Keeps_from P (release_all now t rs) (λ n. pure (n + 1)) (end_row now t r s).1 rest
            (λ _ _. rest))
    where
      one : P (end_row now t r s).1
      one =
          subst P (sym (end_row-end_active now t r s))
            (stable.end_active (clock now) r t s (loaded.found).0 (loaded.live).0 off h)

      next : IsLoaded (end_row now t r s).1.reservations rs
      next = record {
        found = end_row_rows now t r s rs (loaded.distinct).0 (loaded.found).1;
        live = (loaded.live).1;
        distinct = (loaded.distinct).1;
      }

  pub sell_each-Keeps :
      (o : Option ℕ) (rs : List Reservation) (s : Ledger)
      → IsLoaded s.reservations rs
      → P s
      → P (sell_each now o rs s).1
  unfolding sell_each
  sell_each-Keeps o [] s loaded h = h
  sell_each-Keeps o (r ∷ rs) s loaded h =
      let rest = sell_each-Keeps o rs (sell_row now o r s).1 next one in
      bind-Keeps_from P (sell_row now o r) (λ r'. sell_each now o rs >>= λ more. pure (r' ∷ more)) s
        one
        (λ r' _.
          bind-Keeps_from P (sell_each now o rs) (λ more. pure (r' ∷ more)) (sell_row now o r s).1
            rest (λ _ _. rest))
    where
      one : P (sell_row now o r s).1
      one =
          subst P (sym (sell_row-sell now o r s (loaded.live).0))
            (stable.sell (clock now) o r s (loaded.found).0 h)

      next : IsLoaded (sell_row now o r s).1.reservations rs
      next = record {
        found = sell_row_rows now o r s rs (loaded.live).0 (loaded.distinct).0 (loaded.found).1;
        live = (loaded.live).1;
        distinct = (loaded.distinct).1;
      }

  pub place_each-Keeps : (k c : String) (e : ℕ) (ls : List Line) → Keeps P (place_each k c e ls)
  unfolding place_each
  place_each-Keeps k c e [] s h = h
  place_each-Keeps k c e (l ∷ ls) s h = elim (Option-cases (as_positive l.qty)) [
    | inl bad ↦ rw bad h
    | inr (n, at) ↦ rw at (
        bind-Keeps P (place l.variant_id n (row n))
          (λ r. place_each k c e ls >>= λ rest. pure (r ∷ rest))
          (one n (as_positive_bound l.qty at))
          (λ r.
            bind-Keeps P (place_each k c e ls) (λ rest. pure (r ∷ rest)) (place_each-Keeps k c e ls)
              (λ _ _ q. q))
          s h)
  ]
    where
      row : ℕ → ℕ → Reservation
      row n = new_hold l.variant_id n k c none e

      one : (n : ℕ) → 1 ≤ n → Keeps P (place l.variant_id n (row n))
      one n some_units s h =
          subst P (sym (place-hold l.variant_id n (row n) s))
            (stable.hold l.variant_id n k c none e some_units s h)

  -- The movement of an adjustment, unless its quantity was cut to zero.
  pub recount-Keeps :
      (v : ℕ) (d : ℤ) (why : MovementReason) (ref : Option ℕ) (stock : StockRecord) (s : Ledger)
      → lookup v s.stock ≡ some stock
      → P s
      → P (recount v d why ref stock s).1
  unfolding recount
  recount-Keeps v d why ref stock s at h =
      elim (Bool-cases (ltb_ℤ (pos stock.qty_on_hand +ℤ d) (pos stock.qty_reserved))) [
        | inl short ↦ rw short h
        | inr fits ↦ elim (Bool-cases (is_zero d)) [
          | inl none_left ↦
              rw (fits, none_left) (subst P (sym (recounted_zero v d stock s at none_left)) h)
          | inr some_left ↦
              subst P (sym (recount-move_stock v d why ref stock s at some_left))
                (stable.move_stock v d why ref s h)
        ]
      ]
