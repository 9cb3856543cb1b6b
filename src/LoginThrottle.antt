-- ===== src/LoginThrottle.antt =====
-- apps/accounts/login_throttle.py: the two buckets of failed console logins and the lockout. The
-- cache is Django's: entries with a deadline, `add` only if there is none, `incr` raises if there is
-- none. Times and windows are seconds.
pub mod Lockout
pub mod Address
mod Tests
use tip_metro_drip_ecommerce.Base.{
  ℕ, zero, suc, ◌+◌, ◌-◌, ◌<◌, String, str_eq, Bool, true, false, not, ◌&&◌, ◌||◌, Option, none,
  some, List, [], ◌∷◌, ltb, leb, length, if◌then◌else◌,
}

pub data Bucket : Type 0 where
  user ip : Bucket

abbrev pub same_bucket : Bucket → Bucket → Bool
same_bucket user user = true
same_bucket user ip = false
same_bucket ip user = false
same_bucket ip ip = true

-- `_key`: the parts of the text that the code formats, with the digest of the value.
pub record Key : Type 0 where
  pub bucket : Bucket
  pub digest : String

abbrev pub same_key : Key → Key → Bool
same_key j k = same_bucket j.bucket k.bucket && str_eq j.digest k.digest

pub record Entry : Type 0 where
  pub value : ℕ
  pub deadline : ℕ

abbrev pub Cache : Type 0
Cache = Key → Option Entry

-- `digest` is the hash of the stripped and lowered text, cut to 32 characters.
pub record Settings : Type 0 where
  pub window : ℕ
  pub max_user : ℕ
  pub max_ip : ℕ
  pub digest : String → String

-- The times of one call of `_increment`: of its `cache.add` and of its `cache.incr`.
pub record Moment : Type 0 where
  pub added_at : ℕ
  pub incremented_at : ℕ

abbrev pub live : ℕ → Option Entry → Option Entry
live now none = none
live now (some e) = if ltb now e.deadline then some e else none

abbrev pub put : Key → Entry → Cache → Cache
put k e c j = if same_key j k then some e else c j

abbrev pub value_of : Option Entry → ℕ
value_of none = 0
value_of (some e) = e.value

-- `_count`
abbrev pub count : ℕ → Key → Cache → ℕ
count now k c = value_of (live now (c k))

-- `cache.incr`, and the fresh window when it raises
abbrev pub bumped : ℕ → ℕ → Option Entry → Entry
bumped now window none = record { value = 1; deadline = now + window }
bumped now window (some e) = record e { value = e.value + 1 }

-- The entry that `_increment` leaves, by whether `cache.add` found a live one.
abbrev pub refreshed : Moment → ℕ → Option Entry → Option Entry → Entry
refreshed at window stored none = record { value = 1; deadline = at.added_at + window }
refreshed at window stored (some _) =
    bumped at.incremented_at window (live at.incremented_at stored)

-- `_increment`
abbrev pub increment : Moment → Key → ℕ → Cache → Cache
increment at k window c = put k (refreshed at window (c k) (live at.added_at (c k))) c

abbrev pub user_key : Settings → String → Key
user_key settings username = record { bucket = user; digest = settings.digest username }

abbrev pub ip_key : Settings → String → Key
ip_key settings address = record { bucket = ip; digest = settings.digest address }

-- The entry that many places in from the right, if there are so many.
abbrev pub nth : ℕ → List String → Option String
nth n [] = none
nth zero (x ∷ xs) = some x
nth (suc n) (x ∷ xs) = nth n xs

abbrev pub or_else : String → Option String → String
or_else s none = s
or_else s (some x) = x

-- `client_address`, once the header is split: the entries of `X-Forwarded-For` that are not blank, and
-- `REMOTE_ADDR`.
pub client_address : ℕ → List String → String → String
client_address depth hops remote =
    if ltb 0 depth && leb depth (length hops)
    then or_else remote (nth (length hops - depth) hops)
    else remote

-- `is_locked_out`, with the address of the request
unfoldable pub is_locked_out : Settings → ℕ → String → String → Cache → Bool
is_locked_out settings now username address c =
    if not (ltb 0 settings.window)
    then false
    else ((not (str_eq username "")
          && leb settings.max_user (count now (user_key settings username) c))
        || (not (str_eq address "") && leb settings.max_ip (count now (ip_key settings address) c)))

-- `record_failure`
unfoldable pub record_failure : Settings → Moment → String → String → Cache → Cache
record_failure settings at username address c =
    if not (ltb 0 settings.window)
    then c
    else (let c' =
          if str_eq username ""
          then c
          else increment at (user_key settings username) settings.window c in
        if str_eq address "" then c' else increment at (ip_key settings address) settings.window c')

abbrev pub delete : Key → Cache → Cache
delete k c j = if same_key j k then none else c j

-- `clear`
unfoldable pub clear : Settings → String → String → Cache → Cache
clear settings username address c =
    let c' = if str_eq username "" then c else delete (user_key settings username) c in
    if str_eq address "" then c' else delete (ip_key settings address) c'
