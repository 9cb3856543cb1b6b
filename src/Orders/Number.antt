-- ===== src/Orders/Number.antt =====
-- `next_order_no` of apps/orders/services.py, on the rows of `OrderNumberSequence`: the last value
-- allocated in each year.
pub mod Unique
use tip_metro_drip_ecommerce.Base.{
  ℕ, ◌+◌, ◌/◌, ◌%◌, ℤ, pos, negsuc, Bool, true, false, not, ◌&&◌, ◌||◌, Option, none, some, List,
  [], ◌∷◌, Dict, lookup, insert, ltb, leb, if◌then◌else◌, Value, as_int,
}
use tip_metro_drip_ecommerce.Base.Action.{
  Action, ok, err, pure, raise, gets, or_raise, atomic, ◌>>=◌, ◌>>◌, modify, raise_if,
}

abbrev pub max_order_sequence : ℕ
max_order_sequence = 99999

pub data NumberError : Type 0 where
  invalid_order_year order_number_exhausted : NumberError

-- The byte of a decimal digit.
abbrev pub digit : ℕ → ℕ
digit n = b'0' + n % 10

-- `f"MD-{year}-{value:05d}"` at a year of four digits and a value of at most five, as bytes.
unfoldable pub order_no : ℕ → ℕ → List ℕ
order_no year value =
    b'M'
    ∷ b'D'
    ∷ b'-'
    ∷ digit (year / 1000)
    ∷ digit (year / 100)
    ∷ digit (year / 10)
    ∷ digit year
    ∷ b'-'
    ∷ digit (value / 10000)
    ∷ digit (value / 1000)
    ∷ digit (value / 100)
    ∷ digit (value / 10)
    ∷ digit value
    ∷ []

-- `isinstance(year, int)`, no Boolean, and four digits.
abbrev pub four_digits : ℤ → Option ℕ
four_digits (pos y) = if leb 1000 y && leb y 9999 then some y else none
four_digits (negsuc n) = none

abbrev pub business_year : ℕ → Option Value → Option ℕ
business_year today none = four_digits (pos today)
business_year today (some year) = elim (as_int year) [ none ↦ none | some z ↦ four_digits z ]

-- The row's counter: a year with no row starts at 0.
abbrev pub last_value : ℕ → Dict ℕ → ℕ
last_value year d = elim (lookup year d) [ none ↦ 0 | some n ↦ n ]

-- The locked increment of one year's row.
pub allocate : ℕ → Action NumberError (Dict ℕ) (List ℕ)
unfolding order_no
allocate year = do
  last ← gets (last_value year)
  modify (insert year last)
  raise_if (leb max_order_sequence last) order_number_exhausted
  modify (insert year (last + 1))
  pure (order_no year (last + 1))

-- `today` is the year of the local date.
unfoldable pub next_order_no : ℕ → Option Value → Action NumberError (Dict ℕ) (List ℕ)
unfolding allocate
next_order_no today year = do
  y ← or_raise invalid_order_year (business_year today year)
  atomic (allocate y)
