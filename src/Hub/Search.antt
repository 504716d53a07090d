-- ===== src/Hub/Search.antt =====
-- `sort.Search` as the hub calls it on a channel's messages (code/hub.go, `subscribe`; code/store.go,
-- `unreadCount`): the binary search, and what it finds.
use mathlib.Core.Bool.{false≢true}
use native.Mathlib.Decide.{dec_lt}
use back_channel.Prelude.{
  ℕ, zero, suc, ◌+◌, ◌-◌, ◌/◌, ◌≤◌, ◌<◌, ◌≡◌, Bool, true, false, ltb, arith, if◌then◌else◌,
  Bool-cases, inl, inr, sym, ◌∙◌, lt→ltb,
}

search_loop : ℕ → (ℕ → Bool) → ℕ → ℕ → ℕ
search_loop zero f i j = i
search_loop (suc fuel) f i j =
    let mid = (i + j) / 2 in
    let above = search_loop fuel f (mid + 1) j in
    let below = search_loop fuel f i mid in if ltb i j then if f mid then below else above else i

-- The interval shrinks in every round, so `n` rounds are enough.
unfoldable pub search : ℕ → (ℕ → Bool) → ℕ
unfolding search_loop
search n f = search_loop n f 0 n

-- Once true, true from there on.
abbrev pub IsMonotone : (ℕ → Bool) → Type 0
IsMonotone f = (i j : ℕ) → i ≤ j → f i ≡ true → f j ≡ true

-- `k` splits the numbers from `i` to `j`: false before it, true from it on.
pub record Splits (f : ℕ → Bool) (i j k : ℕ) : Type 0 where
  pub low : i ≤ k
  pub high : k ≤ j
  pub before : (x : ℕ) → i ≤ x → x < k → f x ≡ false
  pub after : (x : ℕ) → k ≤ x → x < j → f x ≡ true

ltb_of_not : (i j : ℕ) → ¬ (i < j) → ltb i j ≡ false
ltb_of_not i j h = ground arith

Splits-empty : (f : ℕ → Bool) (i j : ℕ) → i ≤ j → ¬ (i < j) → Splits f i j i
Splits-empty f i j h e = record {
  low = omega arith;
  high = h;
  before = λ x p q. absurd (omega arith);
  after = λ x p q. absurd (omega arith);
}

module _ (f : ℕ → Bool) (mono : IsMonotone f) where
  Splits-below : (i j mid k : ℕ) → f mid ≡ true → mid < j → Splits f i mid k → Splits f i j k
  Splits-below i j mid k e h s = record {
    low = s.low;
    high = omega (arith, s.high);
    before = s.before;
    after =
        λ x p q. elim (dec_lt x mid) [ yes l ↦ s.after x p l | no l ↦ mono mid x (omega arith) e ];
  }

  false_below : (x mid : ℕ) → x ≤ mid → f mid ≡ false → f x ≡ false
  false_below x mid h e = elim (Bool-cases (f x)) [
    | inl t ↦ absurd (false≢true (sym e ∙ mono x mid h t))
    | inr t ↦ t
  ]

  Splits-above : (i j mid k : ℕ) → f mid ≡ false → i ≤ mid → Splits f (mid + 1) j k → Splits f i j k
  Splits-above i j mid k e h s = record {
    low = omega (arith, s.low);
    high = s.high;
    before = λ x p q. elim (dec_lt mid x) [
      | yes l ↦ s.before x (omega arith) q
      | no l ↦ false_below x mid (omega arith) e
    ];
    after = s.after;
  }

  search_loop-Splits : (fuel i j : ℕ) → i ≤ j → j - i ≤ fuel → Splits f i j (search_loop fuel f i j)
  unfolding search_loop
  search_loop-Splits zero i j h b = Splits-empty f i j h (λ l. omega arith)
  search_loop-Splits (suc fuel) i j h b = elim (dec_lt i j) [
    | no l ↦ rw (ltb_of_not i j l) (Splits-empty f i j h l)
    | yes l ↦ rw (lt→ltb i j l) (elim (Bool-cases (f ((i + j) / 2))) [
      | inl t ↦ rw t (
          Splits-below i j ((i + j) / 2) _ t (omega arith)
            (search_loop-Splits fuel i ((i + j) / 2) (omega arith) (omega arith)))
      | inr t ↦ rw t (
          Splits-above i j ((i + j) / 2) _ t (omega arith)
            (search_loop-Splits fuel ((i + j) / 2 + 1) j (omega arith) (omega arith)))
    ])
  ]

  -- The search ends, and finds the least number below `n` at which the test is true, or `n`.
  pub search-Splits : (n : ℕ) → Splits f 0 n (search n f)
  unfolding search
  search-Splits n = search_loop-Splits n 0 n (omega arith) (omega arith)
