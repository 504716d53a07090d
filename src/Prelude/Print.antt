-- ===== src/Prelude/Print.antt =====
-- Printed columns, sizes and rates (`%-16s`, `humanSize` of code/main.go, `%g`), and sorted lines.
use Prim.Native.Nat.{ℕ, zero, suc, ◌+◌, ◌-◌, ◌*◌, ◌/◌, ◌%◌}
use mathlib.Core.Bool.{Bool, true, false}
use mathlib.Core.List.{List, [], ◌∷◌, ◌++◌}
use back_channel.Prelude.Tests.{ltb, leb, nat_eq, if◌then◌else◌}
use back_channel.Prelude.Lists.{length}
use back_channel.Prelude.Text.{Text, str}
use back_channel.Prelude.Decimal.{show_nat}

unfoldable pub blanks : ℕ → Text
blanks zero = []
blanks (suc n) = b' ' ∷ blanks n

-- `%-Ns`
unfoldable pub pad : ℕ → Text → Text
unfolding blanks
pad n s = s ++ blanks (n - length s)

-- n / d, to the nearest whole number, and to the even one of two.
unfoldable pub rounded : ℕ → ℕ → ℕ
rounded n d =
    let q = n / d in
    let r = n % d in if ltb (2 * r) d then q else if ltb d (2 * r) then q + 1 else q + q % 2

abbrev tenths : ℕ → ℕ → Text
tenths n d = let t = rounded (n * 10) d in show_nat (t / 10) ++ b'.' ∷ show_nat (t % 10)

-- `humanSize`; the source divides in float64, which is exact below 2^53 bytes.
unfoldable pub human_size : ℕ → Text
unfolding rounded
human_size n =
    if leb 1_073_741_824 n
    then tenths n 1_073_741_824 ++ str " GB"
    else if leb 1_048_576 n
    then tenths n 1_048_576 ++ str " MB"
    else if leb 1024 n
    then show_nat (rounded n 1024) ++ str " KB"
    else show_nat n ++ str " B"

fraction : ℕ → Text
fraction n =
    if nat_eq (n % 10) 0
    then if nat_eq (n % 100) 0
      then show_nat (n / 100)
      else (b'0' + n / 100) ∷ show_nat (n / 10 % 10)
    else (b'0' + n / 100) ∷ (b'0' + n / 10 % 10) ∷ show_nat (n % 10)

-- `%g` of a rate in thousandths.
unfoldable pub show_rate : ℕ → Text
unfolding fraction
show_rate n =
    if nat_eq (n % 1000) 0
    then show_nat (n / 1000)
    else show_nat (n / 1000) ++ b'.' ∷ fraction (n % 1000)

-- Texts in the order of their bytes.
unfoldable pub text_leb : Text → Text → Bool
text_leb [] t = true
text_leb (c ∷ s) [] = false
text_leb (c ∷ s) (d ∷ t) = let rest = text_leb s t in if nat_eq c d then rest else ltb c d

abbrev insert_line : Text → List Text → List Text
insert_line s [] = s ∷ []
insert_line s (t ∷ ts) = if text_leb s t then s ∷ t ∷ ts else t ∷ insert_line s ts

-- `sort.Strings`
unfoldable pub sort_lines : List Text → List Text
sort_lines [] = []
sort_lines (s ∷ ss) = insert_line s (sort_lines ss)
