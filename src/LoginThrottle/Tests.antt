-- ===== src/LoginThrottle/Tests.antt =====
-- A guessed account, and a client behind one proxy that forges its header.
use Prim.Native.String.{String}
use tip_metro_drip_ecommerce.Base.{
  ℕ, ◌+◌, ◌-◌, ◌≡◌, refl, str_eq, true, not, ◌&&◌, ◌||◌, none, List, [], ◌∷◌, ◌++◌, ltb, leb,
  length, All, if◌then◌else◌, arith,
}
use tip_metro_drip_ecommerce.LoginThrottle.{
  Settings, Cache, Moment, count, user_key, ip_key, nth, or_else, client_address, is_locked_out,
  record_failure, clear,
}
use tip_metro_drip_ecommerce.LoginThrottle.Lockout.{fail_each, IsWithin, fail_each_locks}
use tip_metro_drip_ecommerce.LoginThrottle.Address.{client_address_lem}

abbrev settings : Settings
settings = record { window = 900; max_user = 3; max_ip = 20; digest = λ s. s }

abbrev empty : Cache
empty k = none

abbrev at : ℕ → Moment
at t = record { added_at = t; incremented_at = t }

abbrev guesses : List (Moment × String)
guesses = (at 10, "b") ∷ (at 20, "c") ∷ []

guesses-IsWithin : All (IsWithin settings "ana" refl refl 900) guesses
guesses-IsWithin = ((omega arith, omega arith), ((omega arith, omega arith), tt))

locked :
    is_locked_out settings 30 "ana" "d"
      (fail_each settings "ana" refl refl ((at 0, "a") ∷ guesses) empty)
    ≡ true
unfolding is_locked_out record_failure
locked = refl

fail_each_locks_example :
    (is_locked_out settings 30 "ana" "d"
        (fail_each settings "ana" refl refl ((at 0, "a") ∷ guesses) empty)
      ≡ (leb 3 (if ltb 30 (0 + 900) then 1 + length guesses else 0)
          || (not (str_eq "d" "")
              && leb 20 (
                  count 30
                    (ip_key settings "d")
                    (fail_each settings "ana" refl refl ((at 0, "a") ∷ guesses) empty)))))
    × (count 30 (user_key settings "ana") (
          clear settings "ana" "e"
            (fail_each settings "ana" refl refl ((at 0, "a") ∷ guesses) empty))
        ≡ 0)
fail_each_locks_example =
    fail_each_locks settings "ana" refl refl (at 0) "a" guesses empty 30 "d" "e" refl
      guesses-IsWithin

client_address_lem_example :
    (client_address 1 (("1.1.1.1" ∷ "2.2.2.2" ∷ []) ++ ("9.9.9.9" ∷ [])) "10.0.0.1"
      ≡ or_else "10.0.0.1" (nth (length {A = String} ("9.9.9.9" ∷ []) - 1) ("9.9.9.9" ∷ [])))
    × (client_address 1 ("9.9.9.9" ∷ []) "10.0.0.1"
        ≡ or_else "10.0.0.1" (nth (length {A = String} ("9.9.9.9" ∷ []) - 1) ("9.9.9.9" ∷ [])))
client_address_lem_example =
    client_address_lem 1 ("1.1.1.1" ∷ "2.2.2.2" ∷ []) ("9.9.9.9" ∷ []) "10.0.0.1" (omega arith)
      (omega arith)
