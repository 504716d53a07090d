-- ===== src/Names/Laws.antt =====
-- What a cleaned file name cannot be (code/main.go, `sanitizeName`).
use back_channel.Prelude.{ℕ, ◌≤◌, ◌≡◌, ◌≢◌, refl, false, [], ◌∷◌, ◌++◌, map, arith, All, All-append}
use mathlib.Core.List.{reverse, reverse-append}
use back_channel.Prelude.Text.{Text, str}
use back_channel.Names.{
  is_forbidden, clean_char, is_edge, trim_edges_left, trim_edges, or_file, sanitize_name, file_base,
  backslash_to_slash,
}

clean_char-allowed : (c : ℕ) → is_forbidden (clean_char c) ≡ false
unfolding clean_char
clean_char-allowed c = ground arith

abbrev IsAllowed : ℕ → Type 0
IsAllowed c = is_forbidden c ≡ false

map-clean_char-All : (s : Text) → All IsAllowed (map clean_char s)
map-clean_char-All [] = tt
map-clean_char-All (c ∷ s) = (clean_char-allowed c, map-clean_char-All s)

trim_edges_left-All : (s : Text) → All IsAllowed s → All IsAllowed (trim_edges_left s)
unfolding trim_edges_left
trim_edges_left-All [] h = tt
trim_edges_left-All (c ∷ s) h = ground (arith, trim_edges_left-All s h.1)

reverse-All : (s : Text) → All IsAllowed s → All IsAllowed (reverse s)
reverse-All [] h = tt
reverse-All (c ∷ s) h =
    rw (reverse-append (c ∷ []) s)
      (All-append IsAllowed (reverse s) _ (reverse-All s h.1) (h.0, tt))

-- The first character, if there is one, is neither a dot nor a blank.
abbrev StartsInside : Text → Type 0
StartsInside [] = Unit
StartsInside (c ∷ s) = is_edge c ≡ false

trim_edges_left-StartsInside : (s : Text) → StartsInside (trim_edges_left s)
unfolding trim_edges_left
trim_edges_left-StartsInside [] = tt
trim_edges_left-StartsInside (c ∷ s) = ground (arith, trim_edges_left-StartsInside s)

trim_edges_left-snoc :
    (s : Text) (c : ℕ)
    → is_edge c ≡ false
    → trim_edges_left (s ++ c ∷ []) ≡ trim_edges_left s ++ c ∷ []
unfolding trim_edges_left
trim_edges_left-snoc [] c h = ground arith
trim_edges_left-snoc (d ∷ s) c h = ground (arith, trim_edges_left-snoc s c h)

trim_right-StartsInside :
    (s : Text) → StartsInside s → StartsInside (reverse (trim_edges_left (reverse s)))
unfolding trim_edges_left
trim_right-StartsInside [] h = tt
trim_right-StartsInside (c ∷ s) h = rw (reverse-append (c ∷ []) s) (
    rw (trim_edges_left-snoc (reverse s) c h)
      (rw (reverse-append (trim_edges_left (reverse s)) (c ∷ [])) h))

trim_edges-All : (s : Text) → All IsAllowed s → All IsAllowed (trim_edges s)
unfolding trim_edges
trim_edges-All s h = reverse-All _ (trim_edges_left-All _ (reverse-All _ (trim_edges_left-All s h)))

trim_edges-StartsInside : (s : Text) → StartsInside (trim_edges s)
unfolding trim_edges
trim_edges-StartsInside s = trim_right-StartsInside _ (trim_edges_left-StartsInside s)

-- A character that is written out here as one a file name may hold: not below 32, no slash or
-- backslash, and none of `< > : " | ? *`.
pub record IsPlain (c : ℕ) : Type 0 where
  pub printed : 32 ≤ c
  pub slash : c ≢ b'/'
  pub backslash : c ≢ 92
  pub colon : c ≢ b':'
  pub quote : c ≢ 34
  pub less : c ≢ b'<'
  pub greater : c ≢ b'>'
  pub bar : c ≢ b'|'
  pub question : c ≢ b'?'
  pub star : c ≢ b'*'

allowed-IsPlain : (c : ℕ) → is_forbidden c ≡ false → IsPlain c
unfolding is_forbidden
allowed-IsPlain c e = record {
  printed = ground arith;
  slash = ground arith;
  backslash = ground arith;
  colon = ground arith;
  quote = ground arith;
  less = ground arith;
  greater = ground arith;
  bar = ground arith;
  question = ground arith;
  star = ground arith;
}

allowed-All : (s : Text) → All IsAllowed s → All IsPlain s
allowed-All [] h = tt
allowed-All (c ∷ s) h = (allowed-IsPlain c h.0, allowed-All s h.1)

-- A name to store a file under: not empty, every character plain, no dot or blank at its start.
abbrev pub IsSafe : Text → Type 0
IsSafe [] = ⊥
IsSafe (c ∷ s) = (c ≢ b'.') × (c ≢ b' ') × All IsPlain (c ∷ s)

or_file-IsSafe : (s : Text) → All IsAllowed s → StartsInside s → IsSafe (or_file s)
or_file-IsSafe [] h e =
    let plain =
      allowed-All (str "file") (unfold is_forbidden str in (refl, (refl, (refl, (refl, tt))))) in
    (ground arith, ground arith, unfold str in plain)
or_file-IsSafe (c ∷ s) h e = (ground arith, ground arith, allowed-All (c ∷ s) h)

-- Whatever is sent as a file name, the cleaned name is not empty, holds no character below 32, no slash,
-- backslash, colon, double quote, angle bracket, bar, question mark or star, and starts with neither a
-- dot nor a blank.
pub sanitize_name-IsSafe : (s : Text) → IsSafe (sanitize_name s)
unfolding sanitize_name
sanitize_name-IsSafe s =
    let cleaned : Text = map clean_char (file_base (map backslash_to_slash s)) in
    or_file-IsSafe (trim_edges cleaned) (trim_edges-All cleaned (map-clean_char-All _))
      (trim_edges-StartsInside cleaned)
