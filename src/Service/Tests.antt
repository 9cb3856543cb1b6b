-- ===== src/Service/Tests.antt =====
-- Requests to the inventory service, and instances of the theorems.
use tip_metro_drip_ecommerce.Base.{
  ℕ, ℤ, pos, neg_ℤ, ◌+ℤ◌, ◌-ℤ◌, ◌≡◌, refl, none, some, List, [], ◌∷◌, arith, if◌then◌else◌, ◌==◌,
  true, false,
}
use tip_metro_drip_ecommerce.Base.Action.{ok}
use tip_metro_drip_ecommerce.Inventory.{Ledger}
use tip_metro_drip_ecommerce.Inventory.Soundness.{held, moved}
use tip_metro_drip_ecommerce.Inventory.Provider.{Line, sorted}
use tip_metro_drip_ecommerce.Inventory.Keyed.{KeyedRows}
use tip_metro_drip_ecommerce.Service.{Store, Env, Response, reserve_response}
use tip_metro_drip_ecommerce.Service.Reservations.{create_reservations}
use tip_metro_drip_ecommerce.Service.Kept.{IsWell}
use tip_metro_drip_ecommerce.Service.History.{
  Request, reserve, commit, adjust_one, expire, handle, serve_all, serve_all-IsWell,
}
use tip_metro_drip_ecommerce.Service.Replay.{handle_again}

abbrev env : Env
env = record { now = 1000; sha256 = λ s. s; json_dumps = λ payload. "body" }

abbrev shelf : Ledger
shelf = record {
  stock =
      (7, record { qty_on_hand = 10; qty_reserved = 0; low_stock_threshold = 5 })
      ∷ (8, record { qty_on_hand = 3; qty_reserved = 0; low_stock_threshold = 5 })
      ∷ [];
  reservations = [];
  next_pk = 1;
  movements = [];
  keys = [];
}

abbrev opening : ℕ → ℤ
opening v = if v == 7 then pos 10 else if v == 8 then pos 3 else pos 0

shelf-IsWell : IsWell opening shelf
unfolding held moved ◌+ℤ◌ KeyedRows
shelf-IsWell = record {
  sound = record {
    covered = λ v. ground arith;
    within = λ v. ground arith;
    audited = λ v. ground arith;
  };
  keyed = record { rows = tt };
}

abbrev start : Store
start = record { tables = shelf; claims = [] }

abbrev basket : List Line
basket = record { variant_id = 8; qty = pos 1 } ∷ record { variant_id = 7; qty = pos 4 } ∷ []

abbrev order : Request
order = reserve "checkout" basket "" (some 0) none

abbrev later : Env
later = record env { now = 5000 }

-- A group that is sold, one that is swept up, and a count that is put right.
abbrev requests : List (Env × Request)
requests =
    (env, order)
    ∷ (env, commit "checkout" "MD-2026-00001" (some 1) none)
    ∷ (env, reserve "abandoned" basket "" none none)
    ∷ (later, expire)
    ∷ (later, adjust_one 7 (neg_ℤ 2) "adjustment" "" none (some "count"))
    ∷ []

serve_all-IsWell_example : IsWell opening (serve_all requests start).tables
serve_all-IsWell_example = serve_all-IsWell opening requests start shelf-IsWell

abbrev answer : Response
answer = record {
  status_code = 201;
  replayed = false;
  body =
      reserve_response "checkout"
        (record { id = 1; variant_id = 7; qty = 4 }
          ∷ record { id = 2; variant_id = 8; qty = 1 }
          ∷ [])
        1900;
}

abbrev reserved : Store
reserved = (handle env order start).1

handle_again_example :
    (code : ℕ) × (handle later order (serve_all requests reserved) ≡ (
      ok (record { status_code = code; replayed = true; body = answer.body }),
      serve_all requests reserved,
    ))
unfolding handle create_reservations sorted ◌-ℤ◌
handle_again_example =
    handle_again env 5000 order requests start {a = answer} {t = reserved} refl refl
