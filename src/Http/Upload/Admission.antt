-- ===== src/Http/Upload/Admission.antt =====
-- The checks before the bytes of an upload are received (code/files.go, `upload`).
use back_channel.Prelude.{
  ℕ, ◌+◌, ◌<◌, ◌≡◌, refl, ap, ◌∙◌, Bool, true, false, ◌&&◌, Option, none, some, ltb, leb, list_eq,
  ℤ_eq, ℕ_eq, or_else, eq_self, arith, Bool-cases, ◌⊎◌, inl, inr,
}
use back_channel.Prelude.Int.{ℤ, pos, ltb_ℤ}
use back_channel.Prelude.Dict.{Dict, lookup, insert, lookup-insert}
use back_channel.Prelude.Text.{Text}
use back_channel.State.{User, Channel}
use back_channel.Hub.{Hub, chan_for}
use back_channel.Limits.Rates.{lim, max_file_for}
use back_channel.Handlers.{is_muted}
use back_channel.Perms.{rank_in, can_send}
use back_channel.Http.Upload.{
  Verdict, uploads_of, over_quota, count_upload, rate_upload, admit_in, admit_upload,
}

-- An upload of `n` bytes to a channel may start, with the state of the hub before and after.
pub record Starts (o : Option Channel) (u : User) (guest : Bool) (n now cid : ℕ) (h h' : Hub)
    : Type 0 where
  pub ch : Channel
  pub seen : o ≡ some ch
  pub id : ch.id ≡ cid
  pub may : can_send (rank_in u ch) ch ≡ true
  pub unmuted : is_muted ch u.id now ≡ false
  pub small : ltb_ℤ (max_file_for h (some ch)) (pos n) ≡ false
  pub fits : over_quota h u guest n ≡ false
  pub counted : uploads_of h' u.id ≡ uploads_of h u.id + 1
  pub few : ((lim h).max_uploads ≡ 0) ⊎ (uploads_of h u.id < (lim h).max_uploads)

-- An upload is refused and not counted, or may start.
abbrev pub Decides : Option Channel → User → Bool → ℕ → ℕ → Hub → Hub × Verdict → Type 0
Decides o u guest n now h (h', Verdict.denied a) = h'.uploading ≡ h.uploading
Decides o u guest n now h (h', Verdict.admit cid) = Starts o u guest n now cid h h'

pub lookup_inserted : (k : ℤ) (n : ℕ) (d : Dict ℤ ℕ) → or_else (lookup k (insert k n d)) 0 ≡ n
lookup_inserted k n d = rw (lookup-insert k k n d, eq_self k) refl

under_max :
    (max max' k k' : ℕ)
    → max' ≡ max
    → k' ≡ k
    → ltb 0 max' && leb max' k' ≡ false
    → (max ≡ 0) ⊎ (k < max)
under_max max max' k k' e f few = ground arith

module _ (ch : Channel) (u : User) (guest : Bool) (n now : ℕ) (h : Hub)
    (may : can_send (rank_in u ch) ch ≡ true) (unmuted : is_muted ch u.id now ≡ false)
    (small : ltb_ℤ (max_file_for h (some ch)) (pos n) ≡ false)
    (fits : over_quota h u guest n ≡ false) where
  Decides-count_upload :
      (granted : Bool) (h1 : Hub)
      → h1.uploading ≡ h.uploading
      → (lim h1).max_uploads ≡ (lim h).max_uploads
      → Decides (some ch) u guest n now h (count_upload granted ch.id u h1)
  unfolding count_upload
  Decides-count_upload false h1 e same = e
  Decides-count_upload true h1 e same =
      let before : uploads_of h1 u.id ≡ uploads_of h u.id = ap (λ d. or_else (lookup u.id d) 0) e in
      let now_one =
        lookup_inserted u.id (uploads_of h1 u.id + 1) h1.uploading ∙ ap (λ k. k + 1) before in
      elim (Bool-cases
        (ltb 0 (lim h1).max_uploads && leb (lim h1).max_uploads (uploads_of h1 u.id))) [
          | inl many ↦ rw many e
          | inr few ↦ rw few (record {
            ch = ch;
            seen = refl;
            id = refl;
            may = may;
            unmuted = unmuted;
            small = small;
            fits = fits;
            counted = now_one;
            few = under_max (lim h).max_uploads (lim h1).max_uploads _ _ same before few;
          })
        ]

  Decides-rate_upload : Decides (some ch) u guest n now h (rate_upload ch.id u now h)
  unfolding rate_upload
  Decides-rate_upload = Decides-count_upload _ _ refl refl

Decides-admit_in :
    (o : Option Channel) (u : User) (guest : Bool) (n now : ℕ) (h : Hub)
    → Decides o u guest n now h (admit_in o u guest n now h)
unfolding admit_in
Decides-admit_in none u guest n now h = refl
Decides-admit_in (some ch) u guest n now h = elim (Bool-cases (can_send (rank_in u ch) ch)) [
  | inr may_not ↦ rw may_not refl
  | inl may ↦ elim (Bool-cases (is_muted ch u.id now)) [
    | inl muted ↦ rw (may, muted) refl
    | inr unmuted ↦ elim (Bool-cases (ltb_ℤ (max_file_for h (some ch)) (pos n))) [
      | inl large ↦ rw (may, unmuted, large) refl
      | inr small ↦ elim (Bool-cases (over_quota h u guest n)) [
        | inl over ↦ rw (may, unmuted, small, over) refl
        | inr fits ↦
            rw (may, unmuted, small, fits)
              (Decides-rate_upload ch u guest n now h may unmuted small fits)
      ]
    ]
  ]
]

pub admit_upload-Decides :
    (u : User) (guest : Bool) (ch : Text) (n now : ℕ) (h : Hub)
    → Decides (chan_for h u ch) u guest n now h (admit_upload u guest ch n now h)
unfolding admit_upload
admit_upload-Decides u guest ch n now h = Decides-admit_in (chan_for h u ch) u guest n now h
