-- ===== src/Limits/Bucket.antt =====
-- Token buckets and the limiter that keys them (code/limits.go). The source counts in float64; here
-- a token is `token` units, so that a rate in thousandths per second, minute or hour is a whole
-- number of units per millisecond, and refills are exact. Clock readings are milliseconds.
pub mod Conservation
pub mod Idle
pub mod Refill
use back_channel.Prelude.{
  ℕ, ◌+◌, ◌-◌, ◌*◌, Bool, true, false, Option, none, some, List, [], ◌∷◌, not, ◌&&◌, ◌||◌, ltb,
  nat_eq, length, ◌==◌, ℕ_eq, ℤ_eq, list_eq, Eq, ◌↔◌, ◌≡◌, arith, if◌then◌else◌,
}
use back_channel.Prelude.Int.{ℤ, int_eq, int_eq_iff}
use back_channel.Prelude.Dict.{Dict, lookup, insert, erase}
use back_channel.Prelude.Text.{Text}

-- One token, in units: a thousandth of a token per hour fills one unit in a millisecond.
abbrev pub token : ℕ
token = 3_600_000_000

-- Units per millisecond of a rate in thousandths of a token per second, per minute, per hour.
abbrev pub per_second : ℕ → ℕ
per_second rate = rate * 3600

abbrev pub per_minute : ℕ → ℕ
per_minute rate = rate * 60

abbrev pub per_hour : ℕ → ℕ
per_hour rate = rate

-- Units of a burst in thousandths of a token.
abbrev pub tokens_of : ℕ → ℕ
tokens_of burst = burst * 3_600_000

pub record Bucket : Type 0 where
  pub tokens : ℕ
  pub last : ℕ
  pub rate : ℕ
  pub burst : ℕ

abbrev pub new_bucket : ℕ → ℕ → ℕ → Bucket
new_bucket rate burst now = record { tokens = burst; last = now; rate = rate; burst = burst }

-- The tokens after the time since `last`, at most `burst`.
abbrev refilled : Bucket → ℕ → ℕ
refilled b now = let t = b.tokens + (now - b.last) * b.rate in if ltb b.burst t then b.burst else t

unfoldable pub take : Bucket → ℕ → ℕ → Bool × Bucket
take b n now =
    let t = refilled b now in
    if ltb t n
    then (false, record b { tokens = t; last = now })
    else (true, record b { tokens = t - n; last = now })

-- The keys, which the source prints: "<user>/<channel>", "keyreq/<user>", "clip/<user>",
-- "up/<user>", "inv/<user>", "login:<name>", "signup:<ip>", and an address.
pub data Key : Type 0 where
  chat : ℤ → ℕ → Key
  keyreq clip up inv : ℤ → Key
  login signup address : Text → Key

unfoldable pub key_same : Key → Key → Bool
key_same (chat u c) (chat v d) = int_eq u v && nat_eq c d
key_same (keyreq u) (keyreq v) = int_eq u v
key_same (clip u) (clip v) = int_eq u v
key_same (up u) (up v) = int_eq u v
key_same (inv u) (inv v) = int_eq u v
key_same (login n) (login m) = n == m
key_same (signup n) (signup m) = n == m
key_same (address n) (address m) = n == m
key_same _ _ = false

pub key_same_iff : (a b : Key) → (key_same a b ≡ true) ↔ (a ≡ b)
unfolding key_same
key_same_iff (chat u c) (chat v d) = ground (arith, int_eq_iff u v)
key_same_iff (keyreq u) (keyreq v) = ground (arith, int_eq_iff u v)
key_same_iff (clip u) (clip v) = ground (arith, int_eq_iff u v)
key_same_iff (up u) (up v) = ground (arith, int_eq_iff u v)
key_same_iff (inv u) (inv v) = ground (arith, int_eq_iff u v)
key_same_iff (login n) (login m) = ground (arith, list_eq.same_iff n m)
key_same_iff (signup n) (signup m) = ground (arith, list_eq.same_iff n m)
key_same_iff (address n) (address m) = ground (arith, list_eq.same_iff n m)
key_same_iff _ _ = ground arith

instance abbrev pub key_eq : Eq Key
key_eq = record { same = key_same; same_iff = key_same_iff }

pub record Limiter : Type 0 where
  pub buckets : Dict Key Bucket
  pub seen : Dict Key ℕ
  pub rate : ℕ
  pub burst : ℕ

abbrev pub new_limiter : ℕ → ℕ → Limiter
new_limiter rate burst = record { buckets = []; seen = []; rate = rate; burst = burst }

-- The bucket of a key: a new one, or the old one at the rate and burst of this call.
abbrev bucket_for : Option Bucket → ℕ → ℕ → ℕ → Bucket
bucket_for none rate burst now = new_bucket rate burst now
bucket_for (some b) rate burst now =
    if not (nat_eq b.rate rate) || not (nat_eq b.burst burst)
    then record b { rate = rate; burst = burst }
    else b

abbrev hour : ℕ
hour = 3_600_000

-- The keys that were last seen more than an hour ago are deleted from both maps.
unfoldable pub forget_idle : Dict Key ℕ → ℕ → Limiter → Limiter
forget_idle [] now l = l
forget_idle ((k, t) ∷ rest) now l = forget_idle rest now (
    if ltb hour (now - t)
    then record l { buckets = erase k l.buckets; seen = erase k l.seen }
    else l)

-- The new bucket counts when the limiter decides whether to forget; the key itself was just seen.
unfoldable pub allow_rate : Limiter → Key → ℕ → ℕ → ℕ → ℕ → Bool × Limiter
unfolding take forget_idle
allow_rate l key rate burst n now =
    let b = bucket_for (lookup key l.buckets) rate burst now in
    let kept = record l { buckets = insert key b l.buckets; seen = insert key now l.seen } in
    let swept = if ltb 4096 (length kept.buckets) then forget_idle kept.seen now kept else kept in
    let (granted, b') = take b n now in
    (granted, record swept { buckets = insert key b' swept.buckets })

-- `allow` is `allow_rate` at the limiter's own rate.
unfoldable pub allow : Limiter → Key → ℕ → ℕ → Bool × Limiter
unfolding allow_rate
allow l key n now = allow_rate l key l.rate l.burst n now

abbrev is_exhausted : Option Bucket → ℕ → Bool
is_exhausted none now = false
is_exhausted (some b) now = ltb (b.tokens + (now - b.last) * b.rate) token

-- Whether the bucket of a key is empty; nothing is consumed.
unfoldable pub exhausted : Limiter → Key → ℕ → Bool
exhausted l key now = is_exhausted (lookup key l.buckets) now
