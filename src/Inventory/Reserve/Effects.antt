-- ===== src/Inventory/Reserve/Effects.antt =====
-- What `reserve_lines` does when it returns, when it raises and when it is called again.
use tip_metro_drip_ecommerce.Base.{
  ◌⊎◌, zero, suc, ℕ, ◌+◌, ◌*◌, ◌≤◌, ◌<◌, ◌≡◌, refl, sym, ap, subst, ◌∙◌, true, false, Option, none,
  some, lookup, String, select, List, [], ◌∷◌, inl, inr, arith, if◌then◌else◌, ◌==◌, str_eq,
  as_positive,
}
use tip_metro_drip_ecommerce.Base.Action.{ok, Result, pure, ◌>>=◌, ◌>>◌, raise_if}
use tip_metro_drip_ecommerce.Inventory.{
  StockRecord, Reservation, IdempotencyRecord, Ledger, find_key, save_stock, create_reservation,
  create_key,
}
use tip_metro_drip_ecommerce.Inventory.Soundness.{
  reserved_at, on_hand_at, reserved_at-insert, on_hand_at-insert,
}
use tip_metro_drip_ecommerce.Inventory.Provider.{
  StockError, value_error, reservation_unavailable, Call, Line, Env, insert_line, sorted,
  idempotency_key, fingerprint, hold, new_hold, in_group, guarded,
}
use text.Mathlib.TextPositions.{eq_refl}
use tip_metro_drip_ecommerce.Base.Invert.{raise_if_inv, bind_inv, or_raise_inv}
use tip_metro_drip_ecommerce.Inventory.Provider.Steps.{
  hold_cases, taken, guarded_inv, guarded_replay, key_row, find_key-append,
}
use tip_metro_drip_ecommerce.Inventory.Reserve.{
  reserve_each, ttl_or_default, is_empty, reserve_lines,
}

abbrev pub wanted : Line → ℕ
wanted l = elim (as_positive l.qty) [ none ↦ 0 | some n ↦ n ]

-- The units of a SKU that a cart asks for, over all its lines.
unfoldable pub requested : ℕ → List Line → ℕ
requested v [] = 0
requested v (l ∷ ls) = (if l.variant_id == v then wanted l else 0) + requested v ls

-- `qty_reserved` has risen by exactly what the lines ask for, within what is on hand.
pub record Held (ls : List Line) (s t : Ledger) : Type 0 where
  pub raised : (v : ℕ) → reserved_at v t.stock ≡ reserved_at v s.stock + requested v ls
  pub shelf : (v : ℕ) → on_hand_at v t.stock ≡ on_hand_at v s.stock
  pub covered : (v : ℕ) → 0 < requested v ls → reserved_at v t.stock ≤ on_hand_at v t.stock
  pub movements : t.movements ≡ s.movements
  pub keys : t.keys ≡ s.keys

Held-nil : (s : Ledger) → Held [] s s
unfolding requested
Held-nil s = record {
  raised = λ v. omega arith;
  shelf = λ v. refl;
  covered = λ v h. absurd (omega arith);
  movements = refl;
  keys = refl;
}

-- One line held, and then the others.
Held-cons :
    (l : Line) (ls : List Line) (n : ℕ) (stock : StockRecord) (row : Reservation) (s t : Ledger)
    → as_positive l.qty ≡ some n
    → lookup l.variant_id s.stock ≡ some stock
    → stock.qty_reserved + n ≤ stock.qty_on_hand
    → Held ls (create_reservation row (save_stock l.variant_id (taken n stock) s)) t
    → Held (l ∷ ls) s t
unfolding requested
Held-cons l ls n stock row s t qty e fits h = record {
  raised =
      λ v. ground (arith, h.raised v, reserved_at-insert v l.variant_id (taken n stock) s.stock);
  shelf = λ v. ground (arith, h.shelf v, on_hand_at-insert v l.variant_id (taken n stock) s.stock);
  covered = λ v some_units. ground (
    arith,
    h.raised v,
    h.shelf v,
    h.covered v,
    reserved_at-insert v l.variant_id (taken n stock) s.stock,
    on_hand_at-insert v l.variant_id (taken n stock) s.stock,
  );
  movements = h.movements;
  keys = h.keys;
}

reserve_each-Held :
    (k c : String) (e : ℕ) (ls : List Line) (s : Ledger) {rs : List Reservation} {t : Ledger}
    → reserve_each k c e ls s ≡ (ok rs, t)
    → Held ls s t
unfolding reserve_each
reserve_each-Held k c e [] s {rs} {t} h =
    subst (Held [] s) (ap (λ (p : Result StockError (List Reservation) × Ledger). p.1) h)
      (Held-nil s)
reserve_each-Held k c e (l ∷ ls) s {rs} {t} h =
    let row = λ (n : ℕ). new_hold l.variant_id n k c none e in
    let rest = λ (r : Reservation). reserve_each k c e ls >>= λ more. pure (r ∷ more) in
    let (n, qty, h₁) =
      or_raise_inv (as_positive l.qty) value_error (λ n. hold l.variant_id n (row n) >>= rest) s
        h in
    let (r, u, held_one, h₂) = bind_inv (hold l.variant_id n (row n)) rest s h₁ in
    let (more, w, held_rest, h₃) =
      bind_inv (reserve_each k c e ls) (λ more. pure (r ∷ more)) u h₂ in
    elim (hold_cases l.variant_id n (row n) s) [
      | inl (x, eq) ↦ cc
      | inr (stock, found, fits, eq) ↦
          let next =
            create_reservation (row n s.next_pk) (save_stock l.variant_id (taken n stock) s) in
          let here : next ≡ u =
            ap (λ (p : Result StockError Reservation × Ledger). p.1) (sym eq ∙ held_one) in
          let end : w ≡ t = ap (λ (p : Result StockError (List Reservation) × Ledger). p.1) h₃ in
          let others : Held ls u w = reserve_each-Held k c e ls u held_rest in
          subst (Held (l ∷ ls) s) end (
            Held-cons l ls n stock (row n s.next_pk) s w qty found fits
              (subst (λ z. Held ls z w) (sym here) others))
    ]

requested-insert_line :
    (v : ℕ) (l : Line) (ls : List Line) → requested v (insert_line l ls) ≡ requested v (l ∷ ls)
unfolding requested insert_line
requested-insert_line v l [] = refl
requested-insert_line v l (m ∷ ms) = ground (arith, requested-insert_line v l ms)

-- Sorting the lines changes no total.
requested-sorted : (v : ℕ) (ls : List Line) → requested v (sorted ls) ≡ requested v ls
unfolding requested sorted
requested-sorted v [] = refl
requested-sorted v (l ∷ ls) =
    ground (arith, requested-insert_line v l (sorted ls), requested-sorted v ls)

Held-sorted : (ls : List Line) (s t : Ledger) → Held (sorted ls) s t → Held ls s t
Held-sorted ls s t h = record {
  raised = λ v. rw (← requested-sorted v ls) (h.raised v);
  shelf = h.shelf;
  covered = λ v some_units. h.covered v (rw (requested-sorted v ls) some_units);
  movements = h.movements;
  keys = h.keys;
}

unless_none : {P : Type 0} (n : ℕ) → (0 < n → P) → (n ≡ 0) ⊎ P
unless_none zero h = inl refl
unless_none (suc n) h = inr (h (omega arith))

module _ (env : Env) (c : String) (ls : List Line) where
  abbrev pub key : String
  key = idempotency_key env "reserve_lines" c

  abbrev print : String
  print = fingerprint env (sorted ls)

  abbrev group : Ledger → List Reservation
  group s = select (in_group c) s.reservations

  abbrev work : String → Option ℕ → Call (List Reservation)
  work k ttl = reserve_each k c (env.now + ttl_or_default env ttl * 60) (sorted ls)

  abbrev block : String → Option ℕ → Call (List Reservation)
  block k ttl = guarded key print 201 reservation_unavailable group (work k ttl)

  -- A call that returned has passed its checks, and its guarded block has returned.
  reserve_lines_inv :
      (k : String) (ttl : Option ℕ) (s : Ledger) {rs : List Reservation} {t : Ledger}
      → reserve_lines env c ls k ttl s ≡ (ok rs, t)
      → (str_eq c "" ≡ false) × (is_empty ls ≡ false) × (block k ttl s ≡ (ok rs, t))
  unfolding reserve_lines
  reserve_lines_inv k ttl s e =
      let (named, e₁) =
        raise_if_inv (str_eq c "") value_error (raise_if (is_empty ls) value_error >> block k ttl) s
          e in
      let (filled, e₂) = raise_if_inv (is_empty ls) value_error (block k ttl) s e₁ in
      (named, filled, e₂)

  reserve_lines_checked :
      (k : String) (ttl : Option ℕ) (s : Ledger)
      → str_eq c "" ≡ false
      → is_empty ls ≡ false
      → reserve_lines env c ls k ttl s ≡ block k ttl s
  unfolding reserve_lines
  reserve_lines_checked k ttl s named filled = rw named (rw filled refl)

  -- A cart whose `checkout_id` has no key row yet: if `reserve_lines` returns, then for every SKU
  -- `qty_reserved` has risen by exactly the units that the lines ask for, wherever they stand in
  -- the cart, and is within `qty_on_hand` where any was asked for; no `qty_on_hand` and no movement
  -- has changed.
  pub reserve_lines_effect :
      (k : String) (ttl : Option ℕ) (s : Ledger) {rs : List Reservation} {t : Ledger}
      → find_key key s.keys ≡ none
      → reserve_lines env c ls k ttl s ≡ (ok rs, t)
      → ((v : ℕ) → reserved_at v t.stock ≡ reserved_at v s.stock + requested v ls)
        × ((v : ℕ) → on_hand_at v t.stock ≡ on_hand_at v s.stock)
        × ((v : ℕ) → (requested v ls ≡ 0) ⊎ (reserved_at v t.stock ≤ on_hand_at v t.stock))
        × (t.movements ≡ s.movements)
  reserve_lines_effect k ttl s {rs} {t} fresh e =
      let (named, filled, done) = reserve_lines_inv k ttl s e in
      elim (guarded_inv key print 201 reservation_unavailable group (work k ttl) s done) [
        | inl (unclaimed, worked) ↦
            let h = Held-sorted ls _ t (
              reserve_each-Held k c (env.now + ttl_or_default env ttl * 60) (sorted ls) _ worked) in
            (h.raised, h.shelf, (λ v. unless_none (requested v ls) (h.covered v)), h.movements)
        | inr (r, claimed, same, answer, still) ↦ absurd (ground arith)
      ]

-- A retry of a call that returned, at any other time and with any session and TTL: it answers with
-- the holds of the group as they stand and writes nothing, so that no unit is held twice.
pub reserve_lines_retry :
    (env : Env) (c : String) (ls : List Line) (later : ℕ) (k k' : String) (ttl ttl' : Option ℕ)
    (s : Ledger) {rs : List Reservation} {t : Ledger}
    → reserve_lines env c ls k ttl s ≡ (ok rs, t)
    → reserve_lines (record env { now = later }) c ls k' ttl' t
      ≡ (ok (select (in_group c) t.reservations), t)
unfolding idempotency_key fingerprint
reserve_lines_retry env c ls later k k' ttl ttl' s {rs} {t} e =
    let (named, filled, done) = reserve_lines_inv env c ls k ttl s e in
    let then_ : Env = record env { now = later } in
    let held_group : Ledger → List Reservation = group env c ls in
    let again =
      λ (r : IdempotencyRecord) (at : find_key (key env c ls) t.keys ≡ some r)
          (same : str_eq r.request_fingerprint (print env c ls) ≡ true).
        reserve_lines_checked then_ c ls k' ttl' t named filled
        ∙ guarded_replay (key env c ls) (print env c ls) 201 reservation_unavailable held_group
            (work then_ c ls k' ttl') t at same in
    elim (guarded_inv (key env c ls) (print env c ls) 201 reservation_unavailable held_group
      (work env c ls k ttl) s done) [
        | inl (unclaimed, worked) ↦
            let row : IdempotencyRecord =
              key_row (key env c ls) (print env c ls) 201 reservation_unavailable held_group in
            let h =
              reserve_each-Held k c (env.now + ttl_or_default env ttl * 60) (sorted ls)
                (create_key row s) worked in
            again row
              (ap (find_key (key env c ls)) h.keys
                ∙ find_key-append (key env c ls) row s.keys unclaimed refl)
              (eq_refl (print env c ls))
        | inr (r, claimed, same, answer, still) ↦
            again r (ap (λ (u : Ledger). find_key (key env c ls) u.keys) still ∙ claimed) same
      ]
