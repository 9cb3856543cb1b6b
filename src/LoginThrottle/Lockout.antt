-- ===== src/LoginThrottle/Lockout.antt =====
-- apps/accounts/login_throttle.py: what a run of failed logins does to the bucket of a user name.
use text.Mathlib.TextPositions.{eq_refl}
use tip_metro_drip_ecommerce.Base.{
  ℕ, ◌+◌, ◌<◌, ◌≡◌, refl, ap, ◌∙◌, String, str_eq, Bool, true, false, not, ◌&&◌, ◌||◌, none, some,
  List, [], ◌∷◌, ltb, leb, length, All, if◌then◌else◌, arith, lt→ltb, Bool-cases, inl, inr,
}
use tip_metro_drip_ecommerce.LoginThrottle.{
  Cache, Settings, Moment, live, value_of, count, increment, user_key, ip_key, is_locked_out,
  record_failure, clear,
}

module _ (settings : Settings) (username : String) (enabled : ltb 0 settings.window ≡ true)
    (named : str_eq username "" ≡ false) where
  -- Failed logins of the user name, each at its moment and from its address.
  abbrev pub fail_each : List (Moment × String) → Cache → Cache
  fail_each [] c = c
  fail_each ((at, address) ∷ fs) c = fail_each fs (record_failure settings at username address c)

  -- The failure falls into the window that ends at the deadline.
  abbrev pub IsWithin : ℕ → Moment × String → Type 0
  IsWithin deadline (at, address) = (at.added_at < deadline) × (at.incremented_at < deadline)

  other_bucket :
      (at : Moment) (address : String) (c : Cache)
      → increment at (ip_key settings address) settings.window c (user_key settings username)
        ≡ c (user_key settings username)
  other_bucket at address c = refl

  -- The address' bucket is another one.
  record_failure-user :
      (at : Moment) (address : String) (c : Cache)
      → record_failure settings at username address c (user_key settings username)
        ≡ increment at (user_key settings username) settings.window c (user_key settings username)
  unfolding record_failure
  record_failure-user at address c = elim (Bool-cases (str_eq address "")) [
    | inl e ↦ rw (enabled, named, e) refl
    | inr e ↦
        rw (enabled, named, e)
          (other_bucket at address (increment at (user_key settings username) settings.window c))
  ]

  first_failure :
      (at : Moment) (address : String) (c : Cache)
      → live at.added_at (c (user_key settings username)) ≡ none
      → record_failure settings at username address c (user_key settings username)
        ≡ some (record { value = 1; deadline = at.added_at + settings.window })
  first_failure at address c e =
      record_failure-user at address c ∙ rw (eq_refl (settings.digest username), e) refl

  next_failure :
      (at : Moment) (address : String) (c : Cache) (n deadline : ℕ)
      → c (user_key settings username) ≡ some (record { value = n; deadline = deadline })
      → IsWithin deadline (at, address)
      → record_failure settings at username address c (user_key settings username)
        ≡ some (record { value = n + 1; deadline = deadline })
  next_failure at address c n deadline e h =
      record_failure-user at address c
      ∙ rw
          (
            eq_refl (settings.digest username),
            e,
            lt→ltb at.added_at deadline h.0,
            lt→ltb at.incremented_at deadline h.1,
          )
          refl

  counted :
      (fs : List (Moment × String)) (c : Cache) (n deadline : ℕ)
      → c (user_key settings username) ≡ some (record { value = n; deadline = deadline })
      → All (IsWithin deadline) fs
      → fail_each fs c (user_key settings username)
        ≡ some (record { value = n + length fs; deadline = deadline })
  counted [] c n deadline e h =
      e ∙ ap (λ m. some (record { value = m; deadline = deadline })) (omega arith)
  counted ((at, address) ∷ fs) c n deadline e h =
      counted fs (record_failure settings at username address c) (n + 1) deadline
        (next_failure at address c n deadline e h.0) h.1
      ∙ ap (λ m. some (record { value = m; deadline = deadline })) (omega arith)

  -- With the control on and a user name that is not blank and has no live entry before: failures that
  -- fall into the window of the first one, from whatever addresses, lock the user name
  -- out exactly while that window lasts and if they are at least `max_user`, apart from what the
  -- bucket of the asking address says. The window ends a fixed time after the first failure and no
  -- later failure moves it. A successful login, from any address, forgets them all.
  pub fail_each_locks :
      (first : Moment) (from : String) (fs : List (Moment × String)) (c : Cache) (now : ℕ)
      (address other : String)
      → live first.added_at (c (user_key settings username)) ≡ none
      → All (IsWithin (first.added_at + settings.window)) fs
      → (is_locked_out settings now username address (fail_each ((first, from) ∷ fs) c) ≡ (
          leb settings.max_user
            (if ltb now (first.added_at + settings.window) then 1 + length fs else 0)
          || (not (str_eq address "")
              && leb settings.max_ip
                  (count now (ip_key settings address) (fail_each ((first, from) ∷ fs) c)))))
        × (count now
              (user_key settings username)
              (clear settings username other (fail_each ((first, from) ∷ fs) c))
            ≡ 0)
  unfolding is_locked_out clear
  fail_each_locks first from fs c now address other fresh h = (
    rw (enabled, named)
        (ap
          (λ n.
            leb settings.max_user n
            || (not (str_eq address "")
                && leb settings.max_ip
                    (count now (ip_key settings address) (fail_each ((first, from) ∷ fs) c))))
          (ap (λ o. value_of (live now o)) stored ∙ split (ltb now deadline))),
    elim (Bool-cases (str_eq other "")) [
      | inl e ↦ rw (named, e, eq_refl (settings.digest username)) refl
      | inr e ↦ rw (named, e, eq_refl (settings.digest username)) refl
    ],
  )
    where
      deadline : ℕ
      deadline = first.added_at + settings.window

      stored :
          fail_each ((first, from) ∷ fs) c (user_key settings username)
          ≡ some (record { value = 1 + length fs; deadline = deadline })
      stored =
          counted fs (record_failure settings first username from c) 1 deadline
            (first_failure first from c fresh) h

      split :
          (b : Bool)
          → value_of
              (if b then some (record { value = 1 + length fs; deadline = deadline }) else none)
            ≡ (if b then 1 + length fs else 0)
      split true = refl
      split false = refl
