-- ===== src/LoginThrottle/Address.antt =====
-- apps/accounts/login_throttle.py: `client_address` cannot be forged.
use tip_metro_drip_ecommerce.Base.{
  ℕ, suc, ◌+◌, ◌-◌, ◌≤◌, ◌<◌, ◌≡◌, refl, ap, ◌∙◌, String, true, List, [], ◌∷◌, ◌++◌, ltb, leb,
  length, length-append, arith,
}
use tip_metro_drip_ecommerce.LoginThrottle.{nth, or_else, client_address}

suc_plus : (m n : ℕ) → suc m + n ≡ suc (m + n)
suc_plus m n = omega arith

nth-append : (xs ys : List String) (n : ℕ) → nth (length xs + n) (xs ++ ys) ≡ nth n ys
nth-append [] ys n = ap (λ m. nth m ys) (omega arith)
nth-append (x ∷ xs) ys n =
    ap (λ m. nth m (x ∷ (xs ++ ys))) (suc_plus (length xs) n) ∙ nth-append xs ys n

-- With a positive depth that the trusted proxies' entries reach: whatever a client writes into
-- `X-Forwarded-For`, the address is the one that the proxies of the trusted chain appended: entries
-- before theirs do not change it.
pub client_address_lem :
    (depth : ℕ) (forged trusted : List String) (remote : String)
    → 0 < depth
    → depth ≤ length trusted
    → (client_address depth (forged ++ trusted) remote
        ≡ or_else remote (nth (length trusted - depth) trusted))
      × (client_address depth trusted remote
          ≡ or_else remote (nth (length trusted - depth) trusted))
unfolding client_address
client_address_lem depth forged trusted remote d h = (
  rw (some_hops d, enough (forged ++ trusted) (omega (arith, length-append forged trusted)))
      (ap (or_else remote) (
        ap (λ n. nth n (forged ++ trusted)) (omega (arith, length-append forged trusted))
        ∙ nth-append forged trusted (length trusted - depth))),
  rw (some_hops d, enough trusted h) refl,
)
  where
    some_hops : 0 < depth → ltb 0 depth ≡ true
    some_hops d = ground arith

    enough : (hops : List String) → depth ≤ length hops → leb depth (length hops) ≡ true
    enough hops h = ground arith
