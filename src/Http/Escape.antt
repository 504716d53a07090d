-- ===== src/Http/Escape.antt =====
-- Percent-encoding (code/http_min.go, `escape` and `unescape`). A text is its bytes.
pub mod RoundTrip
use back_channel.Prelude.{
  ℕ, ◌+◌, ◌-◌, ◌*◌, ◌/◌, ◌%◌, Bool, true, false, ◌&&◌, ◌||◌, Option, none, some, List, [], ◌∷◌, leb,
  ltb, nat_eq, if◌then◌else◌,
}
use back_channel.Prelude.Text.{Text}

unfoldable pub hex_digit : ℕ → Option ℕ
hex_digit c =
    if leb b'0' c && leb c b'9'
    then some (c - b'0')
    else if leb b'a' c && leb c b'f'
    then some (c - b'a' + 10)
    else if leb b'A' c && leb c b'F'
    then some (c - b'A' + 10)
    else none

-- `strconv.ParseUint(s, 16, 8)` on two bytes.
unfoldable pub hex_pair : ℕ → ℕ → Option ℕ
unfolding hex_digit
hex_pair a b = elim (hex_digit a) [
  | none ↦ none
  | some x ↦ elim (hex_digit b) [ none ↦ none | some y ↦ some (x * 16 + y) ]
]

abbrev plus_to_blank : ℕ → ℕ
plus_to_blank c = if nat_eq c b'+' then b' ' else c

-- The loop over the bytes: an escape needs two bytes after the percent sign.
unescape_loop : Text → Text
unescape_loop [] = []
unescape_loop (c ∷ []) = plus_to_blank c ∷ []
unescape_loop (c ∷ a ∷ []) = plus_to_blank c ∷ unescape_loop (a ∷ [])
unescape_loop (c ∷ a ∷ b ∷ s) =
    let after = unescape_loop s in
    let next = unescape_loop (a ∷ b ∷ s) in
    if nat_eq c b'%'
    then elim (hex_pair a b) [ none ↦ c ∷ next | some v ↦ v ∷ after ]
    else plus_to_blank c ∷ next

abbrev has_escape : Text → Bool
has_escape [] = false
has_escape (c ∷ s) = (nat_eq c b'%' || nat_eq c b'+') || has_escape s

unfoldable pub unescape : Text → Text
unfolding unescape_loop
unescape s = if has_escape s then unescape_loop s else s

unfoldable pub is_unreserved : ℕ → Bool
is_unreserved c =
    (leb b'a' c && leb c b'z')
    || (leb b'A' c && leb c b'Z')
    || (leb b'0' c && leb c b'9')
    || (nat_eq c b'-' || nat_eq c b'_' || nat_eq c b'.' || nat_eq c b'~')

-- A digit of `%02X`.
abbrev upper_hex : ℕ → ℕ
upper_hex d = if ltb d 10 then b'0' + d else b'A' + (d - 10)

unfoldable pub escape : Text → Text
unfolding is_unreserved
escape [] = []
escape (c ∷ s) =
    let rest = escape s in
    if is_unreserved c then c ∷ rest else b'%' ∷ upper_hex (c / 16) ∷ upper_hex (c % 16) ∷ rest
