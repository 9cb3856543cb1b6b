-- ===== src/Base/Dynamic.antt =====
-- An argument of a function that checks its type at run time: a Boolean is an `int` too in Python,
-- and the code tests for it first.
use Prim.Native.Nat.{ℕ, zero, suc, ◌≤◌}
use mathlib.Core.Path.{◌≡◌}
use native.Mathlib.Omega.{arith}
use mathlib.Core.Bool.{Bool}
use mathlib.Core.Option.{Option, none, some}
use tip_metro_drip_ecommerce.Base.Int.{ℤ, pos, negsuc}

pub data Value : Type 0 where
  int : ℤ → Value
  boolean : Bool → Value
  other : Value

-- `isinstance(value, int) and not isinstance(value, bool)`
abbrev pub as_int : Value → Option ℤ
as_int (int z) = some z
as_int (boolean b) = none
as_int other = none

-- An integer of at least 1.
abbrev pub as_positive : ℤ → Option ℕ
as_positive (pos zero) = none
as_positive (pos (suc n)) = some (suc n)
as_positive (negsuc n) = none

pub as_positive_bound : (z : ℤ) {n : ℕ} → as_positive z ≡ some n → 1 ≤ n
as_positive_bound (pos zero) e = cc
as_positive_bound (pos (suc m)) {n} e = ground arith
as_positive_bound (negsuc n) e = cc
