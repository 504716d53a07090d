-- ===== src/Auth/Password/RoundTrip.antt =====
-- Password hashes, made and then checked (code/auth.go).
use back_channel.Prelude.{
  ℕ, ◌≡◌, refl, ap, ◌∙◌, true, false, some, [], ◌∷◌, ◌++◌, length, nat_eq, nat_eq_iff, arith,
  list_eq, eq_self, All,
}
use back_channel.Prelude.Int.{pos}
use back_channel.Prelude.Text.{Text, str}
use back_channel.Prelude.Decimal.{show_nat, parse_int64-show_nat}
use back_channel.Auth.Password.{
  Library, split, hash_password, check_password, check_parts, check_decoded, compare_key, hash_iter,
}

-- What the hub relies on: base64 decodes what it has encoded and uses no `$`, and a derived key has the
-- length that is asked for.
pub record IsLibrary (lib : Library) : Type 0 where
  pub decodes : (s : Text) → lib.decode (lib.encode s) ≡ some s
  pub plain : (s : Text) → All (λ c. nat_eq c b'$' ≡ false) (lib.encode s)
  pub derives :
      (pw salt : Text)
      → (key : Text) × (lib.derive pw salt (pos hash_iter) 32 ≡ some key) × (length key ≡ 32)

-- The first word of a text that has no separator in it.
split-append :
    (sep : ℕ) (s t : Text)
    → All (λ c. nat_eq c sep ≡ false) s
    → split sep (s ++ sep ∷ t) ≡ s ∷ split sep t
unfolding split
split-append sep [] t h = let e : nat_eq sep sep ≡ true = (nat_eq_iff sep sep).1 refl in rw e
split-append sep (c ∷ s) t h = rw (split-append sep s t h.1) (rw h.0)

split-plain : (sep : ℕ) (s : Text) → All (λ c. nat_eq c sep ≡ false) s → split sep s ≡ s ∷ []
unfolding split
split-plain sep [] h = refl
split-plain sep (c ∷ s) h = rw (split-plain sep s h.1) (rw h.0)

-- The pieces of a stored hash.
split-hash :
    (rest : Text)
    → split b'$' (str "$pbkdf2-sha256$" ++ show_nat hash_iter ++ b'$' ∷ rest)
      ≡ [] ∷ str "pbkdf2-sha256" ∷ show_nat hash_iter ∷ split b'$' rest
unfolding split str show_nat
split-hash rest = refl

check_parts-hash :
    (lib : Library) (l : IsLibrary lib) (salt pw key : Text)
    → lib.derive pw salt (pos hash_iter) 32 ≡ some key
    → length key ≡ 32
    → check_parts lib pw
        ([] ∷ str "pbkdf2-sha256" ∷ show_nat hash_iter ∷ lib.encode salt ∷ lib.encode key ∷ [])
      ≡ true
unfolding check_parts check_decoded compare_key
check_parts-hash lib l salt pw key e len =
    rw
      (
        eq_self (str "pbkdf2-sha256"),
        parse_int64-show_nat hash_iter (omega arith),
        l.decodes salt,
        l.decodes key,
        len,
        e,
        eq_self key,
      )
      refl

-- With base64 and key derivation as documented, the hash that is stored for a password is one that the
-- password fits, whatever the salt.
pub check_password-hash_password :
    (lib : Library)
    → IsLibrary lib
    → (salt pw : Text) → check_password lib (hash_password lib salt pw) pw ≡ true
unfolding check_password hash_password str show_nat
check_password-hash_password lib l salt pw =
    let (key, e, len) = l.derives pw salt in
    let pieces =
      split-hash (lib.encode salt ++ b'$' ∷ lib.encode key)
      ∙ ap (λ rest. [] ∷ str "pbkdf2-sha256" ∷ show_nat hash_iter ∷ rest)
          (split-append b'$' (lib.encode salt) (lib.encode key) (l.plain salt)
            ∙ ap (λ rest. lib.encode salt ∷ rest)
                (split-plain b'$' (lib.encode key) (l.plain key))) in
    rw e (ap (check_parts lib pw) pieces ∙ check_parts-hash lib l salt pw key e len)
