-- ===== src/Inventory/Provider/Steps.antt =====
-- The two writes that every operation on holds is made of: how each can end, and the replay guard.
use tip_metro_drip_ecommerce.Base.{
  ℕ, ◌+◌, ◌-◌, ◌≤◌, pos, ◌-ℤ◌, ◌≡◌, refl, ap, ◌∙◌, true, false, Option, none, some, lookup, String,
  List, [], ◌∷◌, ◌++◌, Option-cases, Bool-cases, inl, inr, ◌⊎◌, arith, ltb, ltb_ℤ, str_eq,
}
use tip_metro_drip_ecommerce.Base.Action.{ok, err, gets, or_raise, ◌>>=◌}
use tip_metro_drip_ecommerce.Inventory.{
  StockRecord, available, ReservationStatus, Reservation, IdempotencyRecord, Ledger,
  find_reservation, find_key, save_stock, save_reservation, create_reservation, create_key,
}
use tip_metro_drip_ecommerce.Inventory.Provider.{
  StockError, does_not_exist, insufficient_stock, invalid_reservation_state, Call, Env, get_stock,
  get_reservation, ended, end_active, hold, guarded, replay_or_claim,
}
use tip_metro_drip_ecommerce.Base.Keeps.{
  Keeps, atomic-Keeps, atomic_ok, IsAllOrNothing, atomic-IsAllOrNothing,
}
use tip_metro_drip_ecommerce.Base.Invert.{atomic_inv}
use text.Mathlib.TextPositions.{eq_refl}

abbrev pub returned : Reservation → StockRecord → StockRecord
returned r stock = record stock { qty_reserved = stock.qty_reserved - r.qty }

-- It raises and writes nothing, or finds the counter large enough and writes both rows.
pub end_active_cases :
    (env : Env) (r : Reservation) (t : ReservationStatus) (s : Ledger)
    → ((x : StockError) × (end_active env r t s ≡ (err x, s)))
      ⊎ ((stock : StockRecord) × (lookup r.variant_id s.stock ≡ some stock)
          × (r.qty ≤ stock.qty_reserved)
          × (end_active env r t s ≡ (
            ok (ended env t r),
            save_reservation r.pk (ended env t r) (save_stock r.variant_id (returned r stock) s),
          )))
unfolding end_active
end_active_cases env r t s = elim (Option-cases (lookup r.variant_id s.stock)) [
  | inl missing ↦ inl (does_not_exist, ground arith)
  | inr (stock, e) ↦ elim (Bool-cases (ltb stock.qty_reserved r.qty)) [
    | inl short ↦ inl (invalid_reservation_state, ground arith)
    | inr covers ↦ inr (stock, e, ground arith, ground arith)
  ]
]

abbrev pub taken : ℕ → StockRecord → StockRecord
taken n stock = record stock { qty_reserved = stock.qty_reserved + n }

-- What the test for available units leaves on the shelf.
room :
    (stock : StockRecord) (n : ℕ)
    → ltb_ℤ (available stock) (pos n) ≡ false
    → stock.qty_reserved + n ≤ stock.qty_on_hand
unfolding available ◌-ℤ◌
room stock n h = ground arith

pub hold_cases :
    (v n : ℕ) (row : ℕ → Reservation) (s : Ledger)
    → ((x : StockError) × (hold v n row s ≡ (err x, s)))
      ⊎ ((stock : StockRecord) × (lookup v s.stock ≡ some stock)
          × (stock.qty_reserved + n ≤ stock.qty_on_hand)
          × (hold v n row s ≡ (
            ok (row s.next_pk),
            create_reservation (row s.next_pk) (save_stock v (taken n stock) s),
          )))
unfolding hold
hold_cases v n row s = elim (Option-cases (lookup v s.stock)) [
  | inl missing ↦ inl (does_not_exist, ground arith)
  | inr (stock, e) ↦ elim (Bool-cases (ltb_ℤ (available stock) (pos n))) [
    | inl short ↦ inl (insufficient_stock, ground arith)
    | inr covers ↦ inr (stock, e, room stock n covers, ground arith)
  ]
]

module _ {A : Type 0} (P : Ledger → Type 0) where
  found :
      (o : Option Reservation) (f : Reservation → Call A) (s : Ledger)
      → P s
      → ((r : Reservation) → o ≡ some r → P (f r s).1)
      → P ((or_raise does_not_exist o >>= f) s).1
  found none f s h k = h
  found (some r) f s h k = k r refl

  -- A block that begins by locking a row goes on from the row that the key finds.
  pub get_reservation-Keeps :
      (k : ℕ) (f : Reservation → Call A) (s : Ledger)
      → P s
      → ((r : Reservation) → find_reservation k s.reservations ≡ some r → P (f r s).1)
      → P ((get_reservation k >>= f) s).1
  unfolding get_reservation
  get_reservation-Keeps k f s h go = found (find_reservation k s.reservations) f s h go

  replay_or_claim-Keeps :
      (key print : String) (code : ℕ) (changed : StockError) (replayed : Ledger → A) (work : Call A)
      (o : Option IdempotencyRecord) (s : Ledger)
      → ((r : IdempotencyRecord) → P s → P (create_key r s))
      → ((t : Ledger) → P t → P (work t).1)
      → P s
      → P (replay_or_claim key print code changed replayed work o s).1
  unfolding replay_or_claim
  replay_or_claim-Keeps key print code changed replayed work (some r) s c w h = ground arith
  replay_or_claim-Keeps key print code changed replayed work none s c w h = w _ (c _ h)

  -- A guarded block keeps what its work keeps, and what no key row can break.
  pub guarded-Keeps :
      (key print : String) (code : ℕ) (changed : StockError) (replayed : Ledger → A) (work : Call A)
      → ((r : IdempotencyRecord) (t : Ledger) → P t → P (create_key r t))
      → Keeps P work
      → Keeps P (guarded key print code changed replayed work)
  unfolding guarded
  guarded-Keeps key print code changed replayed work c w =
      atomic-Keeps P
        (gets (λ s. find_key key s.keys) >>= replay_or_claim key print code changed replayed work)
        λ s.
          replay_or_claim-Keeps key print code changed replayed work (find_key key s.keys) s
            (λ r. c r s) w

pub get_stock_only_reads : (v : ℕ) (s : Ledger) → (get_stock v s).1 ≡ s
unfolding get_stock
get_stock_only_reads v s = ground arith

module _ {A : Type 0} (key print : String) (code : ℕ) (changed : StockError)
    (replayed : Ledger → A) where
  abbrev pub key_row : IdempotencyRecord
  key_row = record { key_hash = key; request_fingerprint = print; status_code = code }

  replay_or_claim_inv :
      (work : Call A) (o : Option IdempotencyRecord) (s : Ledger) {a : A} {t : Ledger}
      → replay_or_claim key print code changed replayed work o s ≡ (ok a, t)
      → ((o ≡ none) × (work (create_key key_row s) ≡ (ok a, t)))
        ⊎ ((r : IdempotencyRecord) × (o ≡ some r)
            × (str_eq r.request_fingerprint print ≡ true)
            × (a ≡ replayed s)
            × (t ≡ s))
  unfolding replay_or_claim
  replay_or_claim_inv work none s e = inl (refl, e)
  replay_or_claim_inv work (some r) s e = elim (Bool-cases (str_eq r.request_fingerprint print)) [
    | inl same ↦ inr (r, refl, same, ground arith, ground arith)
    | inr other ↦ absurd (ground arith)
  ]

  replay_same :
      (work : Call A) (r : IdempotencyRecord) (s : Ledger)
      → str_eq r.request_fingerprint print ≡ true
      → replay_or_claim key print code changed replayed work (some r) s ≡ (ok (replayed s), s)
  unfolding replay_or_claim
  replay_same work r s same = rw same refl

  -- A guarded block that returned has done its work under a new key, or has answered from the
  -- tables and left them alone.
  pub guarded_inv :
      (work : Call A) (s : Ledger) {a : A} {t : Ledger}
      → guarded key print code changed replayed work s ≡ (ok a, t)
      → ((find_key key s.keys ≡ none) × (work (create_key key_row s) ≡ (ok a, t)))
        ⊎ ((r : IdempotencyRecord) × (find_key key s.keys ≡ some r)
            × (str_eq r.request_fingerprint print ≡ true)
            × (a ≡ replayed s)
            × (t ≡ s))
  unfolding guarded
  guarded_inv work s e = replay_or_claim_inv work (find_key key s.keys) s (
      atomic_inv
        (gets (λ s. find_key key s.keys) >>= replay_or_claim key print code changed replayed work) s
        e)

  pub guarded_replay :
      (work : Call A) (s : Ledger) {r : IdempotencyRecord}
      → find_key key s.keys ≡ some r
      → str_eq r.request_fingerprint print ≡ true
      → guarded key print code changed replayed work s ≡ (ok (replayed s), s)
  unfolding guarded
  guarded_replay work s {r} at same =
      atomic_ok
        (gets (λ s. find_key key s.keys) >>= replay_or_claim key print code changed replayed work) s
        (ap (λ o. replay_or_claim key print code changed replayed work o s) at
          ∙ replay_same work r s same)

-- A key row that was just written is the one that is found.
pub find_key-append :
    (key : String) (row : IdempotencyRecord) (rows : List IdempotencyRecord)
    → find_key key rows ≡ none
    → row.key_hash ≡ key
    → find_key key (rows ++ row ∷ []) ≡ some row
find_key-append key row [] e at = rw (at, eq_refl) refl
find_key-append key row (r ∷ rs) e at = elim (Bool-cases (str_eq r.key_hash key)) [
  | inl here ↦ absurd (ground arith)
  | inr apart ↦ rw apart (find_key-append key row rs (ground arith) at)
]

pub guarded-IsAllOrNothing :
    {A : Type 0} (key print : String) (code : ℕ) (changed : StockError) (replayed : Ledger → A)
    (work : Call A)
    → IsAllOrNothing (guarded key print code changed replayed work)
unfolding guarded
guarded-IsAllOrNothing key print code changed replayed work =
    atomic-IsAllOrNothing
      (gets (λ s. find_key key s.keys) >>= replay_or_claim key print code changed replayed work)
