-- ===== src/Inventory/Claimed.antt =====
-- apps/inventory/providers/local.py: a key that was claimed stays claimed, whatever is called.
use tip_metro_drip_ecommerce.Base.{
  ◌≡◌, String, str_eq, Bool, true, false, some, ◌∷◌, [], ◌++◌, List, inl, inr, if◌then◌else◌,
}
use tip_metro_drip_ecommerce.Inventory.{Ledger, IdempotencyRecord, find_key}
use tip_metro_drip_ecommerce.Inventory.Provider.{new_hold}
use tip_metro_drip_ecommerce.Inventory.Provider.Steps.{end_active_cases, hold_cases}
use tip_metro_drip_ecommerce.Inventory.Settle.Invariants.{sell_cases}
use tip_metro_drip_ecommerce.Inventory.Adjust.Invariants.{move_stock_cases}
use tip_metro_drip_ecommerce.Inventory.Stable.{IsStable}

-- The row of the key has this fingerprint.
abbrev pub IsClaimed : String → String → Ledger → Type 0
IsClaimed key print s =
    (r : IdempotencyRecord) × (find_key key s.keys ≡ some r)
    × (str_eq r.request_fingerprint print ≡ true)

-- A later row is found behind it.
find_key-behind :
    (key : String) (new : IdempotencyRecord) (rows : List IdempotencyRecord) {r : IdempotencyRecord}
    → find_key key rows ≡ some r
    → find_key key (rows ++ new ∷ []) ≡ some r
find_key-behind key new [] e = cc
find_key-behind key new (x ∷ rows) {r} e =
    from (str_eq x.key_hash key) (find_key-behind key new rows {r = r}) e
  where
    from :
        (b : Bool)
        → (find_key key rows ≡ some r → find_key key (rows ++ new ∷ []) ≡ some r)
        → (if b then some x else find_key key rows) ≡ some r
        → (if b then some x else find_key key (rows ++ new ∷ [])) ≡ some r
    from true next q = q
    from false next q = next q

pub IsClaimed-IsStable : (key print : String) → IsStable (IsClaimed key print)
IsClaimed-IsStable key print = record {
  hold = λ v n k c o e some_units s h. elim (hold_cases v n (new_hold v n k c o e) s) [
    | inl (x, eq) ↦ rw eq h
    | inr (stock, at, fits, eq) ↦ rw eq h
  ];
  end_active = λ env r t s found on off h. elim (end_active_cases env r t s) [
    | inl (x, eq) ↦ rw eq h
    | inr (stock, at, fits, eq) ↦ rw eq h
  ];
  sell = λ env o r s found h. elim (sell_cases env o r s) [
    | inl (x, eq) ↦ rw eq h
    | inr (stock, at, on, shelf, fits, eq) ↦ rw eq h
  ];
  move_stock = λ v d why o s h. elim (move_stock_cases v d why o s) [
    | inl (x, eq) ↦ rw eq h
    | inr (stock, at, enough, eq) ↦ rw eq h
  ];
  create_key = λ new s (r, at, same). (r, find_key-behind key new s.keys at, same);
}
