-- ===== src/Prelude/Text.antt =====
-- Text as the list of its bytes (or code points): `strings.ToLower`, `strings.TrimSpace` on ASCII,
-- literals, and decimal numbers.
use Prim.Native.Char.{code}
use Prim.Native.String.{String}
use Prim.Native.Nat.{ℕ, ◌+◌}
use mathlib.Core.Bool.{Bool, ◌&&◌, ◌||◌}
use mathlib.Core.List.{List, [], ◌∷◌, map, reverse}
use back_channel.Prelude.Tests.{leb, nat_eq, if◌then◌else◌}

abbrev pub Text : Type 0
Text = List ℕ

-- A literal. Shut, so that a long message stays one name in a proof.
unfoldable pub str : String → Text
str String.[] = []
str (String.◌∷◌ c s) = code c ∷ str s

unfoldable pub lower_byte : ℕ → ℕ
lower_byte c = if leb b'A' c && leb c b'Z' then c + 32 else c

-- `strings.ToLower`, on ASCII.
unfoldable pub to_lower : Text → Text
unfolding lower_byte
to_lower = map lower_byte

-- `unicode.IsSpace`, on ASCII: tab, line feed, vertical tab, form feed, return and blank.
unfoldable pub is_space : ℕ → Bool
is_space c = (leb 9 c && leb c 13) || nat_eq c 32

unfoldable pub trim_left : Text → Text
unfolding is_space
trim_left [] = []
trim_left (c ∷ s) = if is_space c then trim_left s else c ∷ s

-- `strings.TrimSpace`, on ASCII.
unfoldable pub trim_space : Text → Text
unfolding trim_left
trim_space s = reverse (trim_left (reverse (trim_left s)))
