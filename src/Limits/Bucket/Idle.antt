-- ===== src/Limits/Bucket/Idle.antt =====
-- Forgetting idle keys, and the test that logins make before they charge anything.
use back_channel.Prelude.{ℕ, ◌-◌, ◌*◌, ◌≤◌, ◌<◌, ◌≡◌, some, not, arith}
use back_channel.Prelude.Dict.{lookup}
use back_channel.Limits.Bucket.{
  Bucket, Limiter, Key, key_eq, new_bucket, take, token, exhausted, hour,
}

hour_refill : (idle rate burst : ℕ) → burst ≤ rate * hour → hour < idle → burst ≤ idle * rate
hour_refill idle rate burst h p = grind arith

-- A bucket that an hour refills is full again when it is forgotten: the new bucket that replaces it
-- answers every request as the old one would, and is left in the same state.
pub take-new_bucket :
    (b : Bucket) (n now : ℕ)
    → b.burst ≤ b.rate * hour
    → hour < now - b.last
    → take b n now ≡ take (new_bucket b.rate b.burst now) n now
unfolding take
take-new_bucket b n now h idle = ground (arith, hour_refill (now - b.last) b.rate b.burst h idle)

-- A key that has a bucket, with a burst of one token or more, is reported exhausted exactly when a
-- request for one token, at the bucket's own rate and burst, would be refused.
pub exhausted-take :
    (l : Limiter) (key : Key) (now : ℕ) {b : Bucket}
    → lookup key l.buckets ≡ some b
    → token ≤ b.burst
    → exhausted l key now ≡ not (take b token now).0
unfolding exhausted take
exhausted-take l key now e h = ground arith
