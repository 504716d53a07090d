-- ===== src/Http/Escape/RoundTrip.antt =====
-- `unescape` undoes `escape`, and which bytes an escaped text can hold (code/http_min.go).
use back_channel.Prelude.{
  ℕ, ◌/◌, ◌%◌, ◌<◌, ◌≤◌, ◌≡◌, refl, true, false, some, [], ◌∷◌, arith, All, sym, inl, inr,
  Bool-cases, ap, ◌∙◌,
}
use back_channel.Prelude.Text.{Text}
use back_channel.Http.Escape.{
  hex_digit, hex_pair, unescape_loop, has_escape, unescape, is_unreserved, upper_hex, escape,
}

hex_digit-upper_hex : (d : ℕ) → d < 16 → hex_digit (upper_hex d) ≡ some d
unfolding hex_digit
hex_digit-upper_hex d h = ground arith

hex_pair-upper_hex : (c : ℕ) → c < 256 → hex_pair (upper_hex (c / 16)) (upper_hex (c % 16)) ≡ some c
unfolding hex_pair
hex_pair-upper_hex c h =
    ground (
      arith,
      hex_digit-upper_hex (c / 16) (omega arith),
      hex_digit-upper_hex (c % 16) (omega arith),
    )

-- A byte that stands for itself.
loop-literal :
    (c : ℕ) (s : Text) → is_unreserved c ≡ true → unescape_loop (c ∷ s) ≡ c ∷ unescape_loop s
loop-literal c [] h = unfold unescape_loop is_unreserved in ground arith
loop-literal c (a ∷ []) h = unfold unescape_loop is_unreserved in ground arith
loop-literal c (a ∷ b ∷ s) h = unfold unescape_loop is_unreserved in ground arith

loop-escape : (s : Text) → All (λ c. c < 256) s → unescape_loop (escape s) ≡ s
unfolding escape unescape_loop
loop-escape [] h = refl
loop-escape (c ∷ s) h = elim (Bool-cases (is_unreserved c)) [
  | inl plain ↦
      rw (plain, escape) (rw (loop-literal c (escape s) plain) (ap (◌∷◌ c) (loop-escape s h.1)))
  | inr special ↦
      rw (special, escape) (rw (hex_pair-upper_hex c h.0) (ap (◌∷◌ c) (loop-escape s h.1)))
]

loop-no_escape : (s : Text) → has_escape s ≡ false → unescape_loop s ≡ s
unfolding unescape_loop
loop-no_escape [] h = refl
loop-no_escape (c ∷ []) h = ground arith
loop-no_escape (c ∷ a ∷ []) h = ground arith
loop-no_escape (c ∷ a ∷ b ∷ s) h =
    let rest : unescape_loop (a ∷ b ∷ s) ≡ a ∷ b ∷ s = loop-no_escape (a ∷ b ∷ s) (ground arith) in
    ground (arith, rest)

-- The test for bytes to decode changes nothing.
unescape-eq-loop : (s : Text) → unescape s ≡ unescape_loop s
unescape-eq-loop s = elim (Bool-cases (has_escape s)) [
  | inl some_escape ↦ unfold unescape in rw some_escape
  | inr plain ↦ unfold unescape in rw plain (sym (loop-no_escape s plain))
]

-- Decoding an escaped text of bytes gives the text back.
pub unescape-escape : (s : Text) → All (λ c. c < 256) s → unescape (escape s) ≡ s
unescape-escape s h = unescape-eq-loop (escape s) ∙ loop-escape s h

hex-IsUnreserved : (d : ℕ) → d < 16 → is_unreserved (upper_hex d) ≡ true
unfolding is_unreserved
hex-IsUnreserved d h = ground arith

-- A byte that is written out here as one that means itself in a query: a letter, a digit, one of
-- `- _ . ~`, or a percent sign.
pub data IsUrlByte (c : ℕ) : Type 0 where
  small_letter : b'a' ≤ c → c ≤ b'z' → IsUrlByte c
  big_letter : b'A' ≤ c → c ≤ b'Z' → IsUrlByte c
  digit : b'0' ≤ c → c ≤ b'9' → IsUrlByte c
  dash : c ≡ b'-' → IsUrlByte c
  underscore : c ≡ b'_' → IsUrlByte c
  dot : c ≡ b'.' → IsUrlByte c
  tilde : c ≡ b'~' → IsUrlByte c
  percent : c ≡ b'%' → IsUrlByte c

unreserved-IsUrlByte : (c : ℕ) → is_unreserved c ≡ true → IsUrlByte c
unfolding is_unreserved
unreserved-IsUrlByte c h = ground (
  arith, IsUrlByte.small_letter, IsUrlByte.big_letter, IsUrlByte.digit, IsUrlByte.dash,
  IsUrlByte.underscore, IsUrlByte.dot, IsUrlByte.tilde,
)

hex-IsUrlByte : (d : ℕ) → d < 16 → IsUrlByte (upper_hex d)
hex-IsUrlByte d h = unreserved-IsUrlByte (upper_hex d) (hex-IsUnreserved d h)

-- Every byte of an escaped byte text is an ASCII letter, a digit, one of `- _ . ~`, or a percent sign.
pub escape_safe : (s : Text) → All (λ c. c < 256) s → All IsUrlByte (escape s)
unfolding escape
escape_safe [] h = tt
escape_safe (c ∷ s) h = elim (Bool-cases (is_unreserved c)) [
  | inl plain ↦ rw (plain, escape) (unreserved-IsUrlByte c plain, escape_safe s h.1)
  | inr special ↦
      rw (special, escape)
        (
          IsUrlByte.percent refl,
          (
            hex-IsUrlByte (c / 16) (omega arith),
            (hex-IsUrlByte (c % 16) (omega arith), escape_safe s h.1),
          ),
        )
]
