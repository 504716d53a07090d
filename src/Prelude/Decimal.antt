-- ===== src/Prelude/Decimal.antt =====
-- Decimal numbers: `strconv.ParseInt(s, 10, 64)` (and `strconv.Atoi`), and `%d` on numbers.
use Prim.Native.Nat.{ℕ, zero, suc, ◌+◌, ◌-◌, ◌*◌, ◌/◌, ◌%◌, ◌^◌, ◌<◌}
use mathlib.Core.Path.{◌≡◌, refl}
use mathlib.Core.Bool.{Bool, true, false, ◌&&◌}
use mathlib.Core.List.{[], ◌∷◌, ◌++◌, reverse, reverse-append, reverse-reverse}
use mathlib.Core.Option.{Option, none, some}
use native.Mathlib.Omega.{arith}
use native.Mathlib.Decide.{dec_lt}
use back_channel.Prelude.Tests.{ltb, leb, nat_eq, if◌then◌else◌}
use back_channel.Prelude.Lists.{All, All-append}
use back_channel.Prelude.Int.{ℤ, pos, negsuc}
use back_channel.Prelude.Text.{Text, lower_byte, to_lower, is_space, trim_left, trim_space}

unfoldable pub is_digit : ℕ → Bool
is_digit c = leb b'0' c && leb c b'9'

-- The digits of a text read from the left; `none` where a byte is no digit.
unfoldable pub read_digits : ℕ → Text → Option ℕ
unfolding is_digit
read_digits acc [] = some acc
read_digits acc (c ∷ s) =
    let rest = read_digits (acc * 10 + (c - b'0')) s in if is_digit c then rest else none

-- An unsigned number has at least one digit.
unfoldable pub read_nat : Text → Option ℕ
unfolding read_digits
read_nat [] = none
read_nat (c ∷ s) = read_digits 0 (c ∷ s)

abbrev in_range : Bool → Option ℕ → Option ℤ
in_range negative none = none
in_range true (some zero) = some (pos 0)
in_range true (some (suc n)) = if ltb n (2 ^ 63) then some (negsuc n) else none
in_range false (some n) = if ltb n (2 ^ 63) then some (pos n) else none

-- An optional sign, digits, and the range of an int64.
unfoldable pub parse_int64 : Text → Option ℤ
unfolding read_nat
parse_int64 [] = none
parse_int64 (c ∷ s) =
    if nat_eq c b'-'
    then in_range true (read_nat s)
    else if nat_eq c b'+'
    then in_range false (read_nat s)
    else in_range false (read_nat (c ∷ s))

abbrev saturated : Bool → Option ℕ → ℤ
saturated negative none = pos 0
saturated true (some zero) = pos 0
saturated true (some (suc n)) = if ltb n (2 ^ 63) then negsuc n else negsuc (2 ^ 63 - 1)
saturated false (some n) = if ltb n (2 ^ 63) then pos n else pos (2 ^ 63 - 1)

-- The number that `strconv.ParseInt` returns beside an error that the caller drops: 0 for what is no
-- number, and the nearest int64 for what is out of range.
unfoldable pub parse_saturated : Text → ℤ
unfolding read_nat
parse_saturated [] = pos 0
parse_saturated (c ∷ s) =
    if nat_eq c b'-'
    then saturated true (read_nat s)
    else if nat_eq c b'+'
    then saturated false (read_nat s)
    else saturated false (read_nat (c ∷ s))

unfoldable pub show_fuel : ℕ → ℕ → Text
show_fuel zero n = []
show_fuel (suc f) n = elim (ltb n 10) [
  | true ↦ (b'0' + n) ∷ []
  | false ↦ show_fuel f (n / 10) ++ (b'0' + n % 10) ∷ []
]

-- `%d` of a number.
unfoldable pub show_nat : ℕ → Text
unfolding show_fuel
show_nat n = show_fuel (n + 1) n

-- `%d` of an integer.
unfoldable pub show_int : ℤ → Text
unfolding show_nat
show_int (pos n) = show_nat n
show_int (negsuc n) = b'-' ∷ show_nat (suc n)

read_digits-snoc :
    (s : Text) (acc d n : ℕ)
    → d < 10
    → read_digits acc s ≡ some n
    → read_digits acc (s ++ (b'0' + d) ∷ []) ≡ some (n * 10 + d)
unfolding read_digits
read_digits-snoc [] acc d n h e = ground arith
read_digits-snoc (c ∷ s) acc d n h e =
    ground (arith, read_digits-snoc s (acc * 10 + (c - b'0')) d n h)

show_fuel-digit : (f n : ℕ) → n < 10 → show_fuel (suc f) n ≡ (b'0' + n) ∷ []
unfolding show_fuel
show_fuel-digit f n h = ground arith

show_fuel-digits :
    (f n : ℕ) → ¬ (n < 10) → show_fuel (suc f) n ≡ show_fuel f (n / 10) ++ (b'0' + n % 10) ∷ []
unfolding show_fuel
show_fuel-digits f n h = ground arith

show_fuel-read : (f n : ℕ) → n < f → read_digits 0 (show_fuel f n) ≡ some n
show_fuel-read zero n h = absurd (omega arith)
show_fuel-read (suc f) n h = elim (dec_lt n 10) [
  | yes p ↦ rw (show_fuel-digit f n p) (unfold read_digits in ground arith)
  | no p ↦ rw (show_fuel-digits f n p) (
      rw
        (read_digits-snoc (show_fuel f (n / 10)) 0 (n % 10) (n / 10) (omega arith)
          (show_fuel-read f (n / 10) (ground arith)))
        (ground arith))
]

-- A text that starts with a digit.
abbrev pub StartsWithDigit : Text → Type 0
StartsWithDigit [] = ⊥
StartsWithDigit (c ∷ s) = is_digit c ≡ true

append-StartsWithDigit : (s t : Text) → StartsWithDigit s → StartsWithDigit (s ++ t)
append-StartsWithDigit (c ∷ s) t h = h
append-StartsWithDigit [] t h = absurd h

show_fuel-StartsWithDigit : (f n : ℕ) → n < f → StartsWithDigit (show_fuel f n)
show_fuel-StartsWithDigit zero n h = absurd (omega arith)
show_fuel-StartsWithDigit (suc f) n h = elim (dec_lt n 10) [
  | yes p ↦ rw (show_fuel-digit f n p) (unfold is_digit in ground arith)
  | no p ↦
      rw (show_fuel-digits f n p)
        (append-StartsWithDigit _ _ (show_fuel-StartsWithDigit f (n / 10) (ground arith)))
]

pub show_nat-StartsWithDigit : (n : ℕ) → StartsWithDigit (show_nat n)
unfolding show_nat
show_nat-StartsWithDigit n = show_fuel-StartsWithDigit (n + 1) n (omega arith)

pub read_digits-show_nat : (n : ℕ) → read_digits 0 (show_nat n) ≡ some n
unfolding show_nat
read_digits-show_nat n = show_fuel-read (n + 1) n (omega arith)

parse_int64-digits :
    (s : Text) (n : ℕ)
    → StartsWithDigit s
    → read_digits 0 s ≡ some n
    → n < 2 ^ 63
    → parse_int64 s ≡ some (pos n)
parse_int64-digits [] n d e h = absurd d
parse_int64-digits (c ∷ s) n d e h = unfold parse_int64 read_nat is_digit in ground arith

-- What `%d` prints, `ParseInt` reads back.
pub parse_int64-show_nat : (n : ℕ) → n < 2 ^ 63 → parse_int64 (show_nat n) ≡ some (pos n)
parse_int64-show_nat n h =
    parse_int64-digits (show_nat n) n (show_nat-StartsWithDigit n) (read_digits-show_nat n) h

-- Bytes that `to_lower` and `trim_space` leave alone.
abbrev pub IsPlain : ℕ → Type 0
IsPlain c = (lower_byte c ≡ c) × (is_space c ≡ false)

digit-IsPlain : (d : ℕ) → d < 10 → IsPlain (b'0' + d)
unfolding lower_byte is_space
digit-IsPlain d h = ground arith

show_fuel-IsPlain : (f n : ℕ) → All IsPlain (show_fuel f n)
show_fuel-IsPlain zero n = unfold show_fuel in tt
show_fuel-IsPlain (suc f) n = elim (dec_lt n 10) [
  | yes p ↦ rw (show_fuel-digit f n p) (digit-IsPlain n p, tt)
  | no p ↦ rw (show_fuel-digits f n p) (
      All-append IsPlain (show_fuel f (n / 10)) _ (show_fuel-IsPlain f (n / 10))
        (digit-IsPlain (n % 10) (omega arith), tt))
]

pub show_nat-IsPlain : (n : ℕ) → All IsPlain (show_nat n)
unfolding show_nat
show_nat-IsPlain n = show_fuel-IsPlain (n + 1) n

pub to_lower_plain : (s : Text) → All IsPlain s → to_lower s ≡ s
unfolding to_lower
to_lower_plain [] h = refl
to_lower_plain (c ∷ s) h = cc (h.0.0, to_lower_plain s h.1)

All-reverse : (s : Text) → All IsPlain s → All IsPlain (reverse s)
All-reverse [] h = tt
All-reverse (c ∷ s) h =
    rw (reverse-append (c ∷ []) s) (All-append IsPlain (reverse s) _ (All-reverse s h.1) (h.0, tt))

trim_left_plain : (s : Text) → All IsPlain s → trim_left s ≡ s
unfolding trim_left
trim_left_plain [] h = refl
trim_left_plain (c ∷ s) h = rw h.0.1 refl

pub trim_space_plain : (s : Text) → All IsPlain s → trim_space s ≡ s
unfolding trim_space
trim_space_plain s h =
    rw (trim_left_plain s h)
      (rw (trim_left_plain (reverse s) (All-reverse s h)) (reverse-reverse s))
