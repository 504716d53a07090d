-- ===== src/Auth/Password.antt =====
-- Password hashes (code/auth.go, `hashPassword` and `checkPassword`), over the functions of Go's
-- standard library that the hub calls.
pub mod RoundTrip
use back_channel.Prelude.{
  ℕ, Bool, true, false, ◌&&◌, Option, none, some, List, [], ◌∷◌, ◌++◌, length, nat_eq, ◌==◌,
  list_eq, ℕ_eq, if◌then◌else◌,
}
use back_channel.Prelude.Int.{ℤ, pos}
use back_channel.Prelude.Text.{Text, str}
use back_channel.Prelude.Decimal.{parse_int64, show_nat}

-- `derive` is `pbkdf2.Key` with SHA-256, of a password, a salt, a number of rounds and a length;
-- `encode` and `decode` are base64 without padding; `digest` is the SHA-256 in hexadecimal; `date` is a
-- time as a day.
pub record Library : Type 0 where
  pub derive : Text → Text → ℤ → ℕ → Option Text
  pub encode : Text → Text
  pub decode : Text → Option Text
  pub digest : Text → Text
  pub date : ℤ → Text

abbrev cons_first : ℕ → List Text → List Text
cons_first c [] = (c ∷ []) ∷ []
cons_first c (s ∷ rest) = (c ∷ s) ∷ rest

-- `strings.Split`, at a separator of one byte.
unfoldable pub split : ℕ → Text → List Text
split sep [] = [] ∷ []
split sep (c ∷ s) = let rest = split sep s in if nat_eq c sep then [] ∷ rest else cons_first c rest

abbrev hash_iter : ℕ
hash_iter = 600_000

abbrev pub or_empty : Option Text → Text
or_empty none = []
or_empty (some s) = s

-- `salt` is drawn at random; the error of `derive` is dropped.
unfoldable pub hash_password : Library → Text → Text → Text
hash_password lib salt pw =
    let key = or_empty (lib.derive pw salt (pos hash_iter) 32) in
    str "$pbkdf2-sha256$" ++ show_nat hash_iter ++ b'$' ∷ lib.encode salt ++ b'$' ∷ lib.encode key

compare_key : Option Text → Text → Bool
compare_key none want = false
compare_key (some got) want = got == want

check_decoded : Library → Text → Option ℤ → Option Text → Option Text → Bool
unfolding compare_key
check_decoded lib pw (some iter) (some salt) (some want) =
    compare_key (lib.derive pw salt iter (length want)) want
check_decoded lib pw none salt want = false
check_decoded lib pw (some iter) none want = false
check_decoded lib pw (some iter) (some salt) none = false

check_parts : Library → Text → List Text → Bool
unfolding check_decoded
check_parts lib pw (_ ∷ kind ∷ iter ∷ salt ∷ key ∷ []) =
    (kind == str "pbkdf2-sha256")
    && check_decoded lib pw (parse_int64 iter) (lib.decode salt) (lib.decode key)
check_parts lib pw _ = false

-- Whether a password fits a stored hash; a malformed one fits nothing.
unfoldable pub check_password : Library → Text → Text → Bool
unfolding check_parts split
check_password lib stored pw = check_parts lib pw (split b'$' stored)
