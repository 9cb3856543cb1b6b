-- ===== src/Money.antt =====
-- apps/core/money.py: amounts in centavos, checked at run time. No result is a `MoneyValueError`.
pub mod Sums
mod Tests
use tip_metro_drip_ecommerce.Base.{
  ℕ, ◌+◌, ◌*◌, ℤ, pos, negsuc, suc, Bool, true, false, not, ◌&&◌, Option, none, some, List, [], ◌∷◌,
  Value, as_int, ltb, leb, if◌then◌else◌,
}

-- MySQL's INT UNSIGNED.
abbrev pub max_centavos : ℕ
max_centavos = 4294967295

abbrev pub magnitude : ℤ → ℕ
magnitude (pos n) = n
magnitude (negsuc n) = suc n

abbrev pub is_negative : ℤ → Bool
is_negative (pos n) = false
is_negative (negsuc n) = true

abbrev pub checked : Bool → Option ℤ → Option ℤ
checked allow_negative none = none
checked allow_negative (some z) =
    if not allow_negative && is_negative z
    then none
    else if ltb max_centavos (magnitude z)
    then none
    else some z

-- `require_centavos`
unfoldable pub require_centavos : Value → Bool → Option ℤ
require_centavos value allow_negative = checked allow_negative (as_int value)

-- An amount that `require_centavos` accepts with no negative allowed.
abbrev pub amount_of : Option ℤ → Option ℕ
amount_of none = none
amount_of (some (pos n)) = some n
amount_of (some (negsuc n)) = none

unfoldable pub amount : Value → Option ℕ
unfolding require_centavos
amount v = amount_of (require_centavos v false)

-- `quantity`, an integer and at least 1.
abbrev pub quantity_of : Option ℤ → Option ℕ
quantity_of none = none
quantity_of (some (pos n)) = if leb 1 n then some n else none
quantity_of (some (negsuc n)) = none

abbrev pub line_total : Option ℕ → Option ℕ → Option ℕ
line_total none q = none
line_total (some p) none = none
line_total (some p) (some q) = if ltb max_centavos (p * q) then none else some (p * q)

-- `multiply_centavos`
unfoldable pub multiply_centavos : Value → Value → Option ℕ
multiply_centavos unit_price quantity =
    line_total (amount unit_price) (quantity_of (as_int quantity))

-- One step of the loop of `sum_centavos`; `rest` is what follows from the new total.
abbrev pub add_amount : ℕ → (ℕ → Option ℕ) → Option ℕ → Option ℕ
add_amount total rest none = none
add_amount total rest (some n) = if ltb max_centavos (total + n) then none else rest (total + n)

-- The loop of `sum_centavos`, from the total so far.
unfoldable pub add_each : ℕ → List Value → Option ℕ
add_each total [] = some total
add_each total (v ∷ vs) = add_amount total (λ t. add_each t vs) (amount v)

-- `sum_centavos`
unfoldable pub sum_centavos : List Value → Option ℕ
unfolding add_each
sum_centavos amounts = add_each 0 amounts
