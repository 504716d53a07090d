-- ===== src/Limits/Expire.antt =====
-- Self-destruct times (code/limits.go, `parseExpire` and `fmtExpire`).
pub mod RoundTrip
use back_channel.Prelude.{
  ℕ, zero, suc, ◌*◌, ◌/◌, ◌%◌, Bool, true, false, ◌||◌, Option, none, some, List, [], ◌∷◌, ◌++◌,
  nat_eq, ◌==◌, list_eq, if◌then◌else◌,
}
use back_channel.Prelude.Int.{ℤ, pos, negsuc, ◌*ℤ◌, int64, ltb_ℤ}
use back_channel.Prelude.Text.{Text, str, to_lower, trim_space}
use back_channel.Prelude.Decimal.{parse_int64, show_nat}

-- `s[:len(s)-1]` and `s[len(s)-1]`.
split_last : Text → Option (Text × ℕ)
split_last [] = none
split_last (c ∷ s) = elim (split_last s) [
  | none ↦ some ([], c)
  | some (body, last) ↦ some (c ∷ body, last)
]

-- The seconds in a unit; 0 where there is no such unit.
mult_of : ℕ → ℕ
mult_of u =
    if nat_eq u b's'
    then 1
    else if nat_eq u b'm'
    then 60
    else if nat_eq u b'h'
    then 3600
    else if nat_eq u b'd'
    then 86_400
    else if nat_eq u b'w'
    then 604_800
    else 0

at_least_minute : ℤ → ℤ
at_least_minute sec = if ltb_ℤ sec (pos 60) then pos 60 else sec

with_unit : Option ℤ → ℕ → Option ℤ
unfolding at_least_minute
with_unit none mult = none
with_unit (some (negsuc n)) mult = none
with_unit (some (pos zero)) mult = none
with_unit (some (pos (suc n))) zero = none
with_unit (some (pos (suc n))) (suc m) = some (at_least_minute (int64 (pos (suc n * suc m))))

timed : Option (Text × ℕ) → Option ℤ
unfolding with_unit mult_of
timed none = none
timed (some (body, u)) = with_unit (parse_int64 body) (mult_of u)

parse_lower : Text → Option ℤ
unfolding split_last timed
parse_lower s =
    if (s == []) || (s == str "off") || (s == str "0") || (s == str "never")
    then some (pos 0)
    else timed (split_last s)

-- The seconds, 0 for "keep for ever"; `none` where the text is refused.
unfoldable pub parse_expire : Text → Option ℤ
unfolding parse_lower
parse_expire s = parse_lower (trim_space (to_lower s))

fmt_seconds : ℕ → Text
fmt_seconds sec =
    if nat_eq (sec % 604_800) 0
    then show_nat (sec / 604_800) ++ b'w' ∷ []
    else if nat_eq (sec % 86_400) 0
    then show_nat (sec / 86_400) ++ b'd' ∷ []
    else if nat_eq (sec % 3600) 0
    then show_nat (sec / 3600) ++ b'h' ∷ []
    else show_nat (sec / 60) ++ b'm' ∷ []

unfoldable pub fmt_expire : ℤ → Text
unfolding fmt_seconds
fmt_expire (negsuc n) = str "off"
fmt_expire (pos zero) = str "off"
fmt_expire (pos (suc n)) = fmt_seconds (suc n)
