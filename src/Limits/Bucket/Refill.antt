-- ===== src/Limits/Bucket/Refill.antt =====
-- Requests to a limiter that are made again after a wait (code/limits.go, `allowRate`).
use back_channel.Prelude.{ℕ, ◌+◌, ◌-◌, ◌*◌, ◌≤◌, ◌≡◌, refl, ◌∙◌, true, some, arith, eq_self}
use back_channel.Prelude.Dict.{lookup, lookup-insert}
use back_channel.Limits.Bucket.{Bucket, Limiter, Key, key_eq, take, bucket_for, allow_rate}

-- The bucket that a request leaves was filled just now.
last-take : (b : Bucket) (n now : ℕ) → (take b n now).1.last ≡ now
unfolding take
last-take b n now = ground arith

lookup-allow_rate :
    (l : Limiter) (key : Key) (rate burst n now : ℕ)
    → lookup key (allow_rate l key rate burst n now).1.buckets
      ≡ some (take (bucket_for (lookup key l.buckets) rate burst now) n now).1
unfolding allow_rate
lookup-allow_rate l key rate burst n now = rw (lookup-insert key key _ _, eq_self key) refl

-- The bucket of a key, at the rate and burst of a request, keeps its last time.
bucket_for-some :
    (b : Bucket) (rate burst now : ℕ)
    → let b' = bucket_for (some b) rate burst now in
      (b'.rate ≡ rate) × (b'.burst ≡ burst) × (b'.last ≡ b.last)
bucket_for-some b rate burst now = ground arith

take-full :
    (b : Bucket) (n now wait : ℕ)
    → b.last ≡ now
    → n ≤ b.burst
    → n ≤ wait * b.rate
    → (take b n (now + wait)).0 ≡ true
unfolding take
take-full b n now wait e small waited =
    let d : now + wait - b.last ≡ wait = omega arith in
    rw d (let p : n ≤ b.tokens + wait * b.rate = omega arith in ground arith)

take-waited :
    (b : Bucket) (n rate burst now wait : ℕ)
    → b.last ≡ now
    → n ≤ burst
    → n ≤ wait * rate
    → (take (bucket_for (some b) rate burst (now + wait)) n (now + wait)).0 ≡ true
take-waited b n rate burst now wait e small waited =
    let (same_rate, same_burst, same_last) = bucket_for-some b rate burst (now + wait) in
    take-full (bucket_for (some b) rate burst (now + wait)) n now wait (same_last ∙ e)
      (rw same_burst small) (rw same_rate waited)

-- Whatever has been asked of a limiter before: a request, granted or refused, is granted when it is made
-- again after a time in which the rate brings what it asks for, if that is within the burst.
pub allow_rate-waited :
    (l : Limiter) (key : Key) (rate burst n now wait : ℕ)
    → n ≤ burst
    → n ≤ wait * rate
    → (allow_rate (allow_rate l key rate burst n now).1 key rate burst n (now + wait)).0 ≡ true
unfolding allow_rate
allow_rate-waited l key rate burst n now wait small waited =
    rw (lookup-allow_rate l key rate burst n now)
      (take-waited _ n rate burst now wait (last-take _ n now) small waited)
