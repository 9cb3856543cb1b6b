-- ===== src/Remote/Tests.antt =====
-- Calls of the remote provider over a wire that loses things, and instances of the theorems.
use tip_metro_drip_ecommerce.Base.{
  ℕ, pos, ◌≡◌, refl, String, str_append, true, none, some, List, [], ◌∷◌, if◌then◌else◌, ◌==◌,
  Value, ◌+ℤ◌,
}
use tip_metro_drip_ecommerce.Inventory.{Ledger}
use tip_metro_drip_ecommerce.Inventory.Provider.{Line}
use tip_metro_drip_ecommerce.Http.{scalar, call}
use tip_metro_drip_ecommerce.Service.{
  Env, adjust_response, Payload, reserve_request, commit_request, release_request, adjust_request,
}
use tip_metro_drip_ecommerce.Service.History.{reserve, commit, release, handle, Request, serve_all}
use tip_metro_drip_ecommerce.Service.Adjustments as Adjustments
use tip_metro_drip_ecommerce.Remote.{Delivery, lost, heard, unheard, Wire, Site, Link, served}
use tip_metro_drip_ecommerce.Remote.Provider.{
  Counters, reserve_lines, commit_holds, release_holds, adjust_stock,
}
use tip_metro_drip_ecommerce.Remote.Once.{IsOnce}
use tip_metro_drip_ecommerce.Remote.Operations.{adjustment, operations-IsOnce}
use tip_metro_drip_ecommerce.Remote.Repeat.{adjust_stock_again}

abbrev text_of : Payload → String
text_of (reserve_request c ls k ttl) = str_append "reserve " c
text_of (commit_request label ref) = str_append "commit " label
text_of release_request = "{}"
text_of (adjust_request v d why label ref) = str_append "adjust " why

-- A service whose answers to adjustments all have the counters of one SKU.
abbrev site : Site
site = record {
  base_url = "http://inventory:8000";
  service_token = "token";
  encode = λ body. scalar "body";
  decode = λ j. some (adjust_response 7 15 0 (pos 15));
  sha256 = λ s. s;
  canonical_dumps = text_of;
  dumps = text_of;
}

abbrev deliveries : ℕ → Delivery
deliveries n = if n == 1 then unheard else if n == 2 then lost else heard

abbrev wire : Wire
wire = record {
  checked_at = λ n. n;
  failed_at = λ n. n;
  now = λ n. n;
  delivery = deliveries;
  correlation_id = none;
  str = λ j. "";
  first_200 = λ s. s;
}

abbrev shelf : Ledger
shelf = record {
  stock = (7, record { qty_on_hand = 10; qty_reserved = 0; low_stock_threshold = 5 }) ∷ [];
  reservations = [];
  next_pk = 1;
  movements = [];
  keys = [];
}

abbrev link : Link
link = record {
  net = record { circuits = λ k. record { failures = 0; opened_at = none }; sent = [] };
  store = record { tables = shelf; claims = [] };
}

abbrev lines : List Line
lines = record { variant_id = 7; qty = pos 2 } ∷ []

operations-IsOnce_example :
    IsOnce site
      (reserve "checkout" lines "" none (some "checkout"))
      link.store
      (reserve_lines site wire "checkout" lines "" none link).1.store
    × IsOnce site
        (commit "checkout" "MD-2026-00001" (some 1) (some "checkout:commit"))
        link.store
        (commit_holds site wire "checkout" "MD-2026-00001" (some 1) true link).1.store
    × IsOnce site
        (release "checkout" (some "checkout:release"))
        link.store
        (release_holds site wire "checkout" link).1.store
    × IsOnce site
        (adjustment site 7 (pos 5) "restock" "MD-2026-00001" (some 1))
        link.store
        (adjust_stock site wire 7
          (Value.int (pos 5))
          "restock"
          "MD-2026-00001"
          (some 1)
          link).1.store
operations-IsOnce_example =
    operations-IsOnce site wire link "checkout" lines "" none "MD-2026-00001" (some 1) true 7
      (pos 5) "restock"

abbrev restocked : Link
restocked = (adjust_stock site wire 7 (Value.int (pos 5)) "restock" "" none link).1

abbrev counters : Counters
counters = record {
  variant_id = 7;
  qty_on_hand = 15;
  qty_reserved = 0;
  low_stock_threshold = 5;
  available = pos 15;
}

-- A checkout reserves in between.
abbrev between : List (Env × Request)
between =
    (
      record { now = 50; sha256 = λ s. s; json_dumps = text_of },
      reserve "checkout" lines "" none none,
    )
    ∷ []

adjust_stock_again_example :
    (adjust_stock site wire 7
      (Value.int (pos 5))
      "restock"
      ""
      none
      (record restocked { store = serve_all between restocked.store })).1.store
    ≡ serve_all between restocked.store
unfolding adjust_stock call handle Adjustments.adjust_stock served ◌+ℤ◌
adjust_stock_again_example =
    adjust_stock_again site wire wire 7 (pos 5) "restock" "" none between link {c = counters}
      {l' = restocked} refl
