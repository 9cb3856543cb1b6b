-- ===== src/Service/Kept.antt =====
-- services/inventory/api.py: the work of the routes keeps the tables well.
use tip_metro_drip_ecommerce.Base.{
  ℕ, ℤ, ◌≡◌, refl, String, true, ◌&&◌, Option, List, [], ◌∷◌, All, select, lookup, leb, Bool-cases,
  inl, inr, arith,
}
use tip_metro_drip_ecommerce.Base.Action.{gets, or_raise, ◌>>=◌}
use tip_metro_drip_ecommerce.Base.Keeps.{Keeps, bind-Keeps, or_raise-Keeps}
use tip_metro_drip_ecommerce.Inventory.{
  StockRecord, released, expired, is_active, Reservation, Ledger, MovementReason,
}
use tip_metro_drip_ecommerce.Inventory.Soundness.{IsSound}
use tip_metro_drip_ecommerce.Inventory.Provider.{in_group}
use tip_metro_drip_ecommerce.Inventory.Stable.{IsStable}
use tip_metro_drip_ecommerce.Inventory.Sound.{IsSound-IsStable}
use tip_metro_drip_ecommerce.Inventory.Keyed.{IsKeyed, IsKeyed-IsStable}
use tip_metro_drip_ecommerce.Service.{unknown_variant}
use tip_metro_drip_ecommerce.Service.Reservations.{
  Work, open_rows, overdue_rows, sell_group, release_group, sweep,
}
use tip_metro_drip_ecommerce.Service.Adjustments.{adjust, adjustment_reason, capped_delta, recount}
use tip_metro_drip_ecommerce.Service.Rows.{IsLoaded, query-IsLoaded}
use tip_metro_drip_ecommerce.Service.Well.{release_all-Keeps, sell_each-Keeps, recount-Keeps}

-- The tables are sound, and every reservation is found by its key.
pub record IsWell (opening : ℕ → ℤ) (s : Ledger) : Type 0 where
  pub sound : IsSound opening s
  pub keyed : IsKeyed s

pub IsWell-IsStable : (opening : ℕ → ℤ) → IsStable (IsWell opening)
IsWell-IsStable op = record {
  hold = λ v n k c o e p s h. record {
    sound = (IsSound-IsStable op).hold v n k c o e p s h.sound;
    keyed = IsKeyed-IsStable.hold v n k c o e p s h.keyed;
  };
  end_active = λ env r t s f a b h. record {
    sound = (IsSound-IsStable op).end_active env r t s f a b h.sound;
    keyed = IsKeyed-IsStable.end_active env r t s f a b h.keyed;
  };
  sell = λ env o r s f h. record {
    sound = (IsSound-IsStable op).sell env o r s f h.sound;
    keyed = IsKeyed-IsStable.sell env o r s f h.keyed;
  };
  move_stock = λ v d why o s h. record {
    sound = (IsSound-IsStable op).move_stock v d why o s h.sound;
    keyed = IsKeyed-IsStable.move_stock v d why o s h.keyed;
  };
  create_key = λ r s h. record {
    sound = (IsSound-IsStable op).create_key r s h.sound;
    keyed = IsKeyed-IsStable.create_key r s h.keyed;
  };
}

-- The rows that the group's query selects are active, and those of the sweep.
group_live :
    (c : String) (rs : List Reservation)
    → All (λ r. is_active r.status ≡ true) (select (λ r. in_group c r && is_active r.status) rs)
group_live c [] = tt
group_live c (r ∷ rs) = elim (Bool-cases (in_group c r && is_active r.status)) [
  | inl b ↦ rw b (ground arith, group_live c rs)
  | inr b ↦ rw b (group_live c rs)
]

overdue_live :
    (now : ℕ) (rs : List Reservation)
    → All
        (λ r. is_active r.status ≡ true)
        (select (λ r. is_active r.status && leb r.expires_at now) rs)
overdue_live now [] = tt
overdue_live now (r ∷ rs) = elim (Bool-cases (is_active r.status && leb r.expires_at now)) [
  | inl b ↦ rw b (ground arith, overdue_live now rs)
  | inr b ↦ rw b (overdue_live now rs)
]

module _ (opening : ℕ → ℤ) where
  open_rows-IsLoaded :
      (c : String) (s : Ledger) → IsWell opening s → IsLoaded s.reservations (open_rows c s)
  open_rows-IsLoaded c s h =
      query-IsLoaded s.next_pk (λ r. in_group c r && is_active r.status) s.reservations h.keyed.rows
        (group_live c s.reservations)

  pub sell_group-IsWell :
      (now : ℕ) (o : Option ℕ) (c : String) → Keeps (IsWell opening) (sell_group now o c)
  unfolding sell_group
  sell_group-IsWell now o c s h =
      sell_each-Keeps (IsWell-IsStable opening) now o (open_rows c s) s (open_rows-IsLoaded c s h) h

  pub release_group-IsWell : (now : ℕ) (c : String) → Keeps (IsWell opening) (release_group now c)
  unfolding release_group
  release_group-IsWell now c s h =
      release_all-Keeps (IsWell-IsStable opening) now released (open_rows c s) s refl
        (open_rows-IsLoaded c s h) h

  pub sweep-IsWell : (now : ℕ) → Keeps (IsWell opening) (sweep now)
  unfolding sweep
  sweep-IsWell now s h =
      release_all-Keeps (IsWell-IsStable opening) now expired (overdue_rows now s) s refl
        (query-IsLoaded s.next_pk (λ r. is_active r.status && leb r.expires_at now) s.reservations
          h.keyed.rows (overdue_live now s.reservations))
        h

  adjustment_reason_only_checks :
      (d : ℤ) (why : String) (s : Ledger) → (adjustment_reason d why s).1 ≡ s
  unfolding adjustment_reason
  adjustment_reason_only_checks d why s = ground arith

  pub adjust-IsWell :
      (v : ℕ) (d : ℤ) (why : String) (ref : Option ℕ) → Keeps (IsWell opening) (adjust v d why ref)
  unfolding adjust
  adjust-IsWell v d why ref =
      bind-Keeps (IsWell opening) (adjustment_reason d why) (rest)
        (λ s h. rw (adjustment_reason_only_checks d why s) h)
        (λ reason s h.
          or_raise-Keeps (IsWell opening) (lookup v s.stock) unknown_variant (counted reason) s h
            (λ stock at.
              recount-Keeps (IsWell-IsStable opening) 0 v (capped_delta v d reason ref s.movements)
                reason ref stock s at h))
    where
      counted : MovementReason → StockRecord → Work StockRecord
      counted reason stock =
          gets (λ s. capped_delta v d reason ref s.movements) >>= λ q. recount v q reason ref stock

      rest : MovementReason → Work StockRecord
      rest reason =
          gets (λ s. lookup v s.stock) >>= λ o. or_raise unknown_variant o >>= counted reason
