-- ===== src/Names.antt =====
-- Names (code/main.go, `validName` and `sanitizeName`; code/auth.go, `guestID`). File names are
-- lists of code points.
pub mod Laws
use back_channel.Prelude.{
  ℕ, zero, suc, ◌+◌, ◌-◌, ◌*◌, ◌/◌, ◌%◌, ◌^◌, Bool, true, false, ◌&&◌, ◌||◌, not, List, [], ◌∷◌,
  map, leb, ltb, nat_eq, length, ◌==◌, list_eq, if◌then◌else◌,
}
use Prim.Native.Nat.{bit_xor}
use mathlib.Core.List.{reverse}
use back_channel.Prelude.Int.{ℤ, negsuc}
use back_channel.Prelude.Text.{Text, str}

unfoldable pub is_name_byte : Bool → ℕ → Bool
is_name_byte allow_dot c =
    (leb b'a' c && leb c b'z')
    || (leb b'0' c && leb c b'9')
    || nat_eq c b'_'
    || nat_eq c b'-'
    || (allow_dot && nat_eq c b'.')

all_name_bytes : Bool → Text → Bool
unfolding is_name_byte
all_name_bytes allow_dot [] = true
all_name_bytes allow_dot (c ∷ s) = is_name_byte allow_dot c && all_name_bytes allow_dot s

unfoldable pub valid_name : Text → ℕ → ℕ → Bool → Bool
unfolding all_name_bytes
valid_name s min max allow_dot =
    if ltb (length s) min || ltb max (length s) then false else all_name_bytes allow_dot s

-- What follows the last slash, once trailing slashes are gone: `filepath.Base`.
after_slash : Text → Text → Text
after_slash [] base = base
after_slash (c ∷ s) base = if nat_eq c b'/' then base else after_slash s (c ∷ base)

drop_slashes : Text → Text
drop_slashes [] = []
drop_slashes (c ∷ s) = if nat_eq c b'/' then drop_slashes s else c ∷ s

base_of : Text → Text → Text
base_of [] whole = whole
base_of (c ∷ s) whole = c ∷ s

file_base : Text → Text
unfolding drop_slashes after_slash base_of
file_base [] = str "."
file_base (c ∷ s) = base_of (after_slash (drop_slashes (reverse (c ∷ s))) []) (str "/")

abbrev backslash_to_slash : ℕ → ℕ
backslash_to_slash c = if nat_eq c 92 then b'/' else c

-- Control characters and the characters of `<>:"/\|?*` become underscores.
unfoldable pub is_forbidden : ℕ → Bool
is_forbidden c =
    ltb c 32
    || nat_eq c b'<'
    || nat_eq c b'>'
    || nat_eq c b':'
    || nat_eq c 34
    || nat_eq c b'/'
    || nat_eq c 92
    || nat_eq c b'|'
    || nat_eq c b'?'
    || nat_eq c b'*'

unfoldable pub clean_char : ℕ → ℕ
unfolding is_forbidden
clean_char c = if is_forbidden c then b'_' else c

abbrev is_edge : ℕ → Bool
is_edge c = nat_eq c b'.' || nat_eq c b' '

trim_edges_left : Text → Text
trim_edges_left [] = []
trim_edges_left (c ∷ s) = if is_edge c then trim_edges_left s else c ∷ s

-- `strings.Trim(s, ". ")`.
trim_edges : Text → Text
unfolding trim_edges_left
trim_edges s = reverse (trim_edges_left (reverse (trim_edges_left s)))

abbrev or_file : Text → Text
or_file [] = b'f' ∷ b'i' ∷ b'l' ∷ b'e' ∷ []
or_file (c ∷ s) = c ∷ s

unfoldable pub sanitize_name : Text → Text
unfolding file_base clean_char trim_edges
sanitize_name s = or_file (trim_edges (map clean_char (file_base (map backslash_to_slash s))))

fnv_step : ℕ → Text → ℕ
fnv_step h [] = h
fnv_step h (c ∷ s) = fnv_step (bit_xor h c * 16777619 % 2 ^ 32) s

-- `-int64(h & 0x7fffffff) - 1`: the 32-bit FNV-1a hash of the nick, without its top bit.
unfoldable pub guest_id : Text → ℤ
unfolding fnv_step
guest_id nick = negsuc (fnv_step 2166136261 nick % 2 ^ 31)
