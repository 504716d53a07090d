-- ===== src/Limits/Expire/RoundTrip.antt =====
-- What `fmtExpire` prints, `parseExpire` reads.
use back_channel.Prelude.{
  ℕ, zero, suc, ◌-◌, ◌*◌, ◌/◌, ◌%◌, ◌^◌, ◌≤◌, ◌<◌, ◌≡◌, refl, some, [], ◌∷◌, ◌++◌, arith, All,
  All-append, list_eq, text_eq, ap, ◌∙◌,
}
use back_channel.Prelude.Int.{pos, int64, int64_of_pos}
use back_channel.Prelude.Text.{Text, str, lower_byte, is_space}
use back_channel.Prelude.Decimal.{
  show_nat, is_digit, StartsWithDigit, show_nat-StartsWithDigit, show_nat-IsPlain, IsPlain,
  parse_int64-show_nat, to_lower_plain, trim_space_plain,
}
use back_channel.Limits.Expire.{
  split_last, mult_of, at_least_minute, with_unit, timed, parse_lower, parse_expire, fmt_expire,
  fmt_seconds,
}

split_last-snoc : (s : Text) (u : ℕ) → split_last (s ++ u ∷ []) ≡ some (s, u)
unfolding split_last
split_last-snoc [] u = refl
split_last-snoc (c ∷ s) u = rw (split_last-snoc s u, split_last)

-- A number followed by a unit is none of the words.
parse_lower-timed :
    (s : Text) (u : ℕ)
    → StartsWithDigit s
    → parse_lower (s ++ u ∷ []) ≡ timed (split_last (s ++ u ∷ []))
parse_lower-timed [] u h = absurd h
parse_lower-timed (c ∷ []) u h = unfold parse_lower text_eq str is_digit in ground arith
parse_lower-timed (c ∷ d ∷ s) u h = unfold parse_lower text_eq str is_digit in ground arith

-- Reading a printed number with its unit: the seconds, at least sixty.
with_unit-pos :
    (n m : ℕ)
    → 0 < n
    → 0 < m
    → 60 ≤ n * m
    → n * m < 2 ^ 63
    → with_unit (some (pos n)) m ≡ some (pos (n * m))
with_unit-pos zero m hn hm h b = absurd (omega arith)
with_unit-pos (suc n) zero hn hm h b = absurd (omega arith)
with_unit-pos (suc n) (suc m) hn hm h b =
    unfold with_unit at_least_minute in rw (int64_of_pos (suc n * suc m) b) (ground arith)

parse_expire-show_nat :
    (n u : ℕ)
    → IsPlain u
    → n < 2 ^ 63
    → parse_expire (show_nat n ++ u ∷ []) ≡ with_unit (some (pos n)) (mult_of u)
parse_expire-show_nat n u plain small =
    let p : All IsPlain (show_nat n ++ u ∷ []) =
      All-append IsPlain (show_nat n) _ (show_nat-IsPlain n) (plain, tt) in
    unfold parse_expire in
    rw (to_lower_plain _ p) (
      rw (trim_space_plain _ p) (
        rw (parse_lower-timed (show_nat n) u (show_nat-StartsWithDigit n)) (
          rw (split_last-snoc (show_nat n) u) (unfold timed in rw (parse_int64-show_nat n small)))))

parse_expire-unit :
    (n u mult : ℕ)
    → IsPlain u
    → mult_of u ≡ mult
    → 0 < n
    → 0 < mult
    → 60 ≤ n * mult
    → n * mult < 2 ^ 63
    → parse_expire (show_nat n ++ u ∷ []) ≡ some (pos (n * mult))
parse_expire-unit n u mult plain unit hn hm h b =
    let small : n < 2 ^ 63 = grind arith in
    rw (parse_expire-show_nat n u plain small) (rw unit (with_unit-pos n mult hn hm h b))

IsPlain-w : IsPlain b'w'
unfolding lower_byte is_space
IsPlain-w = (refl, refl)

IsPlain-d : IsPlain b'd'
unfolding lower_byte is_space
IsPlain-d = (refl, refl)

IsPlain-h : IsPlain b'h'
unfolding lower_byte is_space
IsPlain-h = (refl, refl)

IsPlain-m : IsPlain b'm'
unfolding lower_byte is_space
IsPlain-m = (refl, refl)

unit_w : mult_of b'w' ≡ 604_800
unfolding mult_of
unit_w = refl

unit_d : mult_of b'd' ≡ 86_400
unfolding mult_of
unit_d = refl

unit_h : mult_of b'h' ≡ 3600
unfolding mult_of
unit_h = refl

unit_m : mult_of b'm' ≡ 60
unfolding mult_of
unit_m = refl

-- One way to print: the seconds are a multiple of the unit, or the unit is the minute.
parse_expire-quotient :
    (sec u mult : ℕ)
    → IsPlain u
    → mult_of u ≡ mult
    → 60 ≤ mult
    → 60 ≤ sec
    → sec < 2 ^ 63
    → sec / mult * mult ≡ sec - sec % 60
    → parse_expire (show_nat (sec / mult) ++ u ∷ []) ≡ some (pos (sec - sec % 60))
parse_expire-quotient sec u mult plain unit hm h b e =
    let nonzero : 0 < sec / mult = grind arith in
    parse_expire-unit (sec / mult) u mult plain unit nonzero (omega arith) (omega arith)
      (omega arith)
    ∙ ap (λ (k : ℕ). some (pos k)) e

parse_expire-fmt_seconds :
    (sec : ℕ)
    → 60 ≤ sec
    → sec < 2 ^ 63
    → parse_expire (fmt_seconds sec) ≡ some (pos (sec - sec % 60))
unfolding fmt_seconds
parse_expire-fmt_seconds sec h b = ground (
  arith,
  parse_expire-quotient sec b'w' 604_800 IsPlain-w unit_w,
  parse_expire-quotient sec b'd' 86_400 IsPlain-d unit_d,
  parse_expire-quotient sec b'h' 3600 IsPlain-h unit_h,
  parse_expire-quotient sec b'm' 60 IsPlain-m unit_m,
)

-- For every number of seconds of at least a minute, reading what is printed gives the seconds back,
-- rounded down to whole minutes.
pub parse_expire-fmt_expire :
    (sec : ℕ)
    → 60 ≤ sec
    → sec < 2 ^ 63
    → parse_expire (fmt_expire (pos sec)) ≡ some (pos (sec - sec % 60))
parse_expire-fmt_expire zero h b = absurd (omega arith)
parse_expire-fmt_expire (suc n) h b = unfold fmt_expire in parse_expire-fmt_seconds (suc n) h b

with_unit-overflow :
    (n m : ℕ)
    → 0 < n
    → 0 < m
    → 2 ^ 63 ≤ n * m
    → n * m < 2 ^ 64
    → with_unit (some (pos n)) m ≡ some (pos 60)
with_unit-overflow zero m hn hm h b = absurd (omega arith)
with_unit-overflow (suc n) zero hn hm h b = absurd (omega arith)
with_unit-overflow (suc n) (suc m) hn hm h b =
    unfold with_unit at_least_minute int64 in ground arith

-- The product of number and unit is not checked for overflow: a number of weeks that is accepted as
-- an int64, and whose seconds lie from 2^63 to below 2^64, is taken for one minute.
pub parse_expire_overflow :
    (n : ℕ)
    → n < 2 ^ 63
    → 2 ^ 63 ≤ n * 604_800
    → n * 604_800 < 2 ^ 64
    → parse_expire (show_nat n ++ b'w' ∷ []) ≡ some (pos 60)
parse_expire_overflow n small h b =
    rw (parse_expire-show_nat n b'w' IsPlain-w small)
      (rw unit_w (with_unit-overflow n 604_800 (omega arith) (omega arith) h b))
