-- ===== src/Http/Request/Bounds.antt =====
-- The loop of `readHTTPHeaders` (code/http_min.go): its fuel and its limit.
use back_channel.Prelude.{
  ℕ, zero, suc, ◌+◌, ◌≤◌, ◌<◌, ◌≡◌, refl, ◌⊎◌, sym, ◌∙◌, inl, inr, ap, Option-cases, Option, none,
  some, [], ◌∷◌, ◌++◌, length, length-append, ltb, nat_eq, arith, if◌then◌else◌, Bool-cases,
}
use mathlib.Core.List.{append_assoc}
use back_channel.Prelude.Text.{Text}
use back_channel.Http.Request.{
  max_line, max_headers, cut_line, within_limit, read_line, Headers, Line, header_line,
  read_headers,
}

-- A line that was read is not empty, and followed by the rest it is the stream.
abbrev Splits : Text → Text → Text → Type 0
Splits s l r = (s ≡ l ++ r) × (0 < length l)

Splits-length : (s l r : Text) → Splits s l r → length l + length r ≡ length s
Splits-length s l r p = sym (ap length p.0 ∙ length-append l r)

cut_cons_of : ℕ → Text → Option (Text × Text) → Option (Text × Text)
cut_cons_of c s rest =
    if nat_eq c b'\n'
    then some (c ∷ [], s)
    else elim rest [ none ↦ none | some (l, r) ↦ some (c ∷ l, r) ]

cut_cons :
    (c : ℕ) (s l r : Text) (rest : Option (Text × Text))
    → ((l r : Text) → rest ≡ some (l, r) → Splits s l r)
    → cut_cons_of c s rest ≡ some (l, r)
    → Splits (c ∷ s) l r
unfolding cut_cons_of
cut_cons c s l r none next e = ground arith
cut_cons c s l r (some (l', r')) next e =
    let p : Splits s l' r' = next l' r' refl in
    let q : c ∷ s ≡ c ∷ l' ++ r' = ap (◌∷◌ c) p.0 in ground (arith, q)

cut_line-Splits : (s l r : Text) → cut_line s ≡ some (l, r) → Splits s l r
unfolding cut_line cut_cons_of
cut_line-Splits [] l r e = ground arith
cut_line-Splits (c ∷ s) l r e = cut_cons c s l r (cut_line s) (cut_line-Splits s) e

within-Splits :
    (limit : ℕ) (s l r : Text) (o : Option (Text × Text))
    → ((l r : Text) → o ≡ some (l, r) → Splits s l r)
    → within_limit limit o ≡ some (l, r)
    → Splits s l r
within-Splits limit s l r none next e = ground arith
within-Splits limit s l r (some (l', r')) next e = let p = next l' r' refl in ground arith

read_line-Splits : (limit : ℕ) (s l r : Text) → read_line limit s ≡ some (l, r) → Splits s l r
unfolding read_line
read_line-Splits limit s l r e = within-Splits limit s l r (cut_line s) (cut_line-Splits s) e

-- What is done after a line.
after : Line → ℕ → Text → ℕ → Headers → Option (Headers × Text)
after Line.malformed fuel r total headers = none
after Line.finished fuel r total headers = some (headers, r)
after (Line.more headers') fuel r total headers = read_headers fuel r total headers'

after-same :
    (line : Line) (fuel enough : ℕ) (r : Text) (total : ℕ) (headers : Headers)
    → ((headers' : Headers)
        → read_headers fuel r total headers' ≡ read_headers enough r total headers')
    → after line fuel r total headers ≡ after line enough r total headers
unfolding after
after-same Line.malformed fuel enough r total headers next = refl
after-same Line.finished fuel enough r total headers next = refl
after-same (Line.more headers') fuel enough r total headers next = next headers'

-- One round of the loop.
read_headers-none :
    (fuel : ℕ) (s : Text) (total : ℕ) (headers : Headers)
    → read_line max_line s ≡ none
    → read_headers (suc fuel) s total headers ≡ none
unfolding read_headers
read_headers-none fuel s total headers e = rw (e, read_headers) refl

read_headers-some :
    (fuel : ℕ) (s l r : Text) (total : ℕ) (headers : Headers)
    → read_line max_line s ≡ some (l, r)
    → read_headers (suc fuel) s total headers
      ≡ after (header_line l (total + length l) headers) fuel r (total + length l) headers
unfolding read_headers after
read_headers-some fuel s l r total headers e =
    rw (e, read_headers)
      (elim (header_line l (total + length l) headers)
        as (λ line.
          (elim line [
            | Line.malformed ↦ none
            | Line.finished ↦ some (headers, r)
            | Line.more headers' ↦ read_headers fuel r (total + length l) headers'
          ])
          ≡ after line fuel r (total + length l) headers) [
            | Line.malformed ↦ refl
            | Line.finished ↦ refl
            | Line.more headers' ↦ refl
          ])

read_headers-[] : (fuel total : ℕ) (headers : Headers) → read_headers fuel [] total headers ≡ none
unfolding read_headers read_line cut_line
read_headers-[] zero total headers = refl
read_headers-[] (suc fuel) total headers = refl

-- The loop has as much fuel as the stream has bytes, and more fuel would change nothing: it always stops
-- at an error or at the empty line.
pub read_headers-same :
    (fuel enough : ℕ) (s : Text) (total : ℕ) (headers : Headers)
    → length s ≤ fuel
    → length s ≤ enough
    → read_headers fuel s total headers ≡ read_headers enough s total headers
read_headers-same fuel enough [] total headers p q =
    read_headers-[] fuel total headers ∙ sym (read_headers-[] enough total headers)
read_headers-same zero enough (c ∷ s) total headers p q = ground arith
read_headers-same (suc fuel) zero (c ∷ s) total headers p q = ground arith
read_headers-same (suc fuel) (suc enough) (c ∷ s) total headers p q =
    elim (Option-cases (read_line max_line (c ∷ s))) [
      | inl e ↦
          read_headers-none fuel (c ∷ s) total headers e
          ∙ sym (read_headers-none enough (c ∷ s) total headers e)
      | inr ((l, r), e) ↦
          let split = read_line-Splits max_line (c ∷ s) l r e in
          let whole = Splits-length (c ∷ s) l r split in
          read_headers-some fuel (c ∷ s) l r total headers e
          ∙ (after-same (header_line l (total + length l) headers) fuel enough r (total + length l)
                headers
                (λ headers'.
                  read_headers-same fuel enough r (total + length l) headers'
                    (omega (arith, whole, split.1)) (omega (arith, whole, split.1)))
              ∙ sym (read_headers-some enough (c ∷ s) l r total headers e))
    ]

-- A line within the limit, or an error.
header_line-within :
    (l : Text) (total : ℕ) (headers : Headers)
    → (header_line l total headers ≡ Line.malformed) ⊎ (total ≤ max_headers)
unfolding header_line
header_line-within l total headers = elim (Bool-cases (ltb max_headers total)) [
  | inl long ↦ inl (rw long refl)
  | inr short ↦ inr (ground arith)
]

-- What was read, of a stream after `total` bytes: the stream is the bytes that were taken, followed by
-- the rest.
abbrev pub Within : Text → ℕ → Option (Headers × Text) → Type 0
Within s total none = Unit
Within s total (some (headers, r)) =
    (taken : Text) × (s ≡ taken ++ r) × (length taken + total ≤ max_headers)

Within-step :
    (s l r : Text) (total : ℕ) (o : Option (Headers × Text))
    → s ≡ l ++ r
    → Within r (total + length l) o
    → Within s total o
Within-step s l r total none p w = tt
Within-step s l r total (some (headers, r')) p (taken, split, short) = (
  l ++ taken,
  p ∙ ap (λ xs. l ++ xs) split ∙ sym (append_assoc l taken r'),
  omega (arith, length-append l taken),
)

after-Within :
    (line : Line) (fuel : ℕ) (s l r : Text) (total : ℕ) (headers : Headers)
    → s ≡ l ++ r
    → (line ≡ Line.malformed) ⊎ (total + length l ≤ max_headers)
    → ((headers' : Headers)
        → Within r (total + length l) (read_headers fuel r (total + length l) headers'))
    → Within s total (after line fuel r (total + length l) headers)
unfolding after
after-Within Line.malformed fuel s l r total headers p short next = tt
after-Within Line.finished fuel s l r total headers p short next = (l, p, ground arith)
after-Within (Line.more headers') fuel s l r total headers p short next =
    Within-step s l r total (read_headers fuel r (total + length l) headers') p (next headers')

-- Where the headers are read, the stream is the bytes that were taken followed by the rest, which is
-- left; those that were taken are at most `max_headers` together with the `total` bytes before.
pub read_headers-Within :
    (fuel : ℕ) (s : Text) (total : ℕ) (headers : Headers)
    → Within s total (read_headers fuel s total headers)
unfolding read_headers
read_headers-Within zero s total headers = tt
read_headers-Within (suc fuel) s total headers = elim (Option-cases (read_line max_line s)) [
  | inl e ↦ rw (read_headers-none fuel s total headers e) tt
  | inr ((l, r), e) ↦ rw (read_headers-some fuel s l r total headers e) (
      after-Within (header_line l (total + length l) headers) fuel s l r total headers
        (read_line-Splits max_line s l r e).0 (header_line-within l (total + length l) headers)
        (λ headers'. read_headers-Within fuel r (total + length l) headers'))
]
