-- ===== src/Limits/Bucket/Conservation.antt =====
-- What a bucket grants over any run of requests is bounded by its burst and by its rate.
use back_channel.Prelude.{ℕ, ◌+◌, ◌-◌, ◌*◌, ◌≤◌, ◌≡◌, Bool, List, [], ◌∷◌, arith, if◌then◌else◌}
use mathlib.Core.Path.{subst₂}
use back_channel.Limits.Bucket.{Bucket, take}

-- Requests in order: how many units each asks for, and when.
abbrev pub Requests : Type 0
Requests = List (ℕ × ℕ)

-- No request comes before the one that it follows.
abbrev pub InOrder : ℕ → Requests → Type 0
InOrder t [] = Unit
InOrder t ((n, now) ∷ rs) = (t ≤ now) × InOrder now rs

-- The units granted in all, and the bucket at the end.
pub serve : Bucket → Requests → ℕ × Bucket
serve b [] = (0, b)
serve b ((n, now) ∷ rs) =
    let (granted, b') = take b n now in
    let (total, b'') = serve b' rs in ((if granted then n else 0) + total, b'')

record Takes (b : Bucket) (n now : ℕ) (granted : Bool) (b' : Bucket) : Type 0 where
  paid : (if granted then n else 0) + b'.tokens ≤ b.tokens + (now - b.last) * b.rate
  within : b'.tokens ≤ b.burst
  at : b'.last ≡ now
  rate : b'.rate ≡ b.rate
  burst : b'.burst ≡ b.burst

take-Takes : (b : Bucket) (n now : ℕ) → Takes b n now (take b n now).0 (take b n now).1
unfolding take
take-Takes b n now = ground arith

span_add : (a b c r : ℕ) → a ≤ b → b ≤ c → (b - a) * r + (c - b) * r ≡ (c - a) * r
span_add a b c r p q = let e : c - a ≡ (b - a) + (c - b) = omega arith in rw e (omega arith)

record Serves (b : Bucket) (total : ℕ) (b' : Bucket) : Type 0 where
  paid : total + b'.tokens ≤ b.tokens + (b'.last - b.last) * b.rate
  later : b.last ≤ b'.last
  within : b.tokens ≤ b.burst → b'.tokens ≤ b.burst

Takes-Serves :
    (b b' b'' : Bucket) (n now total : ℕ) (granted : Bool)
    → b.last ≤ now
    → Takes b n now granted b'
    → Serves b' total b''
    → Serves b ((if granted then n else 0) + total) b''
Takes-Serves b b' b'' n now total granted first t s =
    let later : now ≤ b''.last = omega arith in
    let paid : total + b''.tokens ≤ b'.tokens + (b''.last - now) * b.rate =
      subst₂ (λ u r. total + b''.tokens ≤ b'.tokens + (b''.last - u) * r) t.at t.rate s.paid in
    record {
      paid = omega (arith, span_add b.last now b''.last b.rate first later);
      later = omega arith;
      within = λ full. omega (arith, s.within (omega arith));
    }

serve-Serves :
    (b : Bucket) (rs : Requests) → InOrder b.last rs → Serves b (serve b rs).0 (serve b rs).1
unfolding serve
serve-Serves b [] o = ground arith
serve-Serves b ((n, now) ∷ rs) (first, o) =
    let (granted, b') = take b n now in
    let t : Takes b n now granted b' = take-Takes b n now in
    Takes-Serves b b' _ n now _ granted first t (serve-Serves b' rs (rw t.at o))

-- From a bucket that holds at most its burst, over any run of requests in time order, the units
-- granted are at most the burst plus the rate times the time that has passed, and the bucket holds at
-- most its burst at the end.
pub serve_bound :
    (b : Bucket) (rs : Requests)
    → b.tokens ≤ b.burst
    → InOrder b.last rs
    → let (granted, b') = serve b rs in
      (granted ≤ b.burst + (b'.last - b.last) * b.rate) × (b'.tokens ≤ b.burst)
serve_bound b rs full o =
    let s : Serves b (serve b rs).0 (serve b rs).1 = serve-Serves b rs o in
    (omega arith, s.within full)
