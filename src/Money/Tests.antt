-- ===== src/Money/Tests.antt =====
-- Amounts at the limits.
use tip_metro_drip_ecommerce.Base.{
  ℕ, ◌*◌, ◌≤◌, pos, ◌≡◌, refl, none, some, [], ◌∷◌, Value, as_int, true,
}
use tip_metro_drip_ecommerce.Money.{
  max_centavos, amount, require_centavos, multiply_centavos, sum_centavos, add_each,
}
use tip_metro_drip_ecommerce.Money.Sums.{exact_sum, capped, sum_centavos_lem, multiply_centavos_lem}

abbrev cents : ℕ → Value
cents n = Value.int (pos n)

too_much : sum_centavos (cents 4294967295 ∷ cents 1 ∷ []) ≡ none
unfolding sum_centavos add_each amount require_centavos
too_much = refl

no_boolean : sum_centavos (cents 5 ∷ Value.boolean true ∷ []) ≡ none
unfolding sum_centavos add_each amount require_centavos
no_boolean = refl

sum_centavos_lem_example :
    sum_centavos (cents 19900 ∷ cents 500 ∷ [])
    ≡ capped 0 (exact_sum (cents 19900 ∷ cents 500 ∷ []))
sum_centavos_lem_example = sum_centavos_lem (cents 19900 ∷ cents 500 ∷ [])

multiply_centavos_lem_example :
    (p : ℕ) × (q : ℕ) × (as_int (cents 19900) ≡ some (pos p))
    × (as_int (cents 3) ≡ some (pos q))
    × (p ≤ max_centavos)
    × (1 ≤ q)
    × (59700 ≡ p * q)
    × (p * q ≤ max_centavos)
unfolding multiply_centavos amount require_centavos
multiply_centavos_lem_example = multiply_centavos_lem (cents 19900) (cents 3) refl
