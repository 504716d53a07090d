-- ===== src/Http/Upload/Counting.antt =====
-- The number of uploads of a user that are under way (code/files.go, `upload`).
use back_channel.Prelude.{
  ℕ, ◌-◌, ◌≡◌, refl, ap, ◌∙◌, Bool, true, false, ◌&&◌, not, Option, none, some, ◌==◌, list_eq, ℤ_eq,
  ℕ_eq, or_else, arith, Bool-cases, inl, inr,
}
use back_channel.Prelude.Int.{ℤ, pos, ltb_ℤ}
use back_channel.Prelude.Dict.{lookup}
use back_channel.Prelude.Text.{Text, str}
use back_channel.State.{User, Channel, FileMeta}
use back_channel.Hub.{Hub, chan_for, mark_dirty, to_chan, to_user}
use back_channel.Files.{commit_file, commit_to, existing_file, store_file, ref_file}
use back_channel.Messages.{post, append_log}
use back_channel.Limits.Rates.{quota_for}
use back_channel.Http.Request.{Request}
use back_channel.Http.Requester.{header_of, query_of, is_blank}
use back_channel.Http.Upload.{
  Answer, Verdict, Receipt, uploads_of, upload, upload_done, receive, uploaded, finish_upload,
  commit_upload, commit_in, announce, warn_quota, warn_at,
}
use back_channel.Http.Upload.Admission.{Decides, admit_upload-Decides, lookup_inserted}

uploading-warn_at :
    (pct before : ℕ) (quota : ℤ) (u : User) (h : Hub)
    → (warn_at pct before quota u h).uploading ≡ h.uploading
unfolding warn_at to_user
uploading-warn_at pct before quota u h = ground arith

uploading-warn_quota :
    (guest : Bool) (before : ℕ) (quota : ℤ) (u : User) (h : Hub)
    → (warn_quota guest before quota u h).uploading ≡ h.uploading
unfolding warn_quota
uploading-warn_quota guest before quota u h = elim (Bool-cases (ltb_ℤ (pos 0) quota && not guest)) [
  | inr quiet ↦ rw quiet refl
  | inl told ↦
      rw told (uploading-warn_at 100 before quota u _ ∙ uploading-warn_at 80 before quota u h)
]

uploading-store_file :
    (meta : FileMeta) (guest : Bool) (h : Hub) → (store_file meta guest h).uploading ≡ h.uploading
unfolding store_file mark_dirty
uploading-store_file meta true h = refl
uploading-store_file meta false h = refl

uploading-commit_to :
    (o : Option FileMeta) (meta : FileMeta) (guest : Bool) (h : Hub)
    → (commit_to o meta guest h).1.uploading ≡ h.uploading
uploading-commit_to none meta guest h = uploading-store_file meta guest h
uploading-commit_to (some old) meta guest h = refl

uploading-commit_file :
    (meta : FileMeta) (guest : Bool) (h : Hub)
    → (commit_file meta guest h).1.uploading ≡ h.uploading
unfolding commit_file
uploading-commit_file meta guest h =
    uploading-commit_to (existing_file h (lookup meta.sha h.hashes)) meta guest h

uploading-announce :
    (at : Text × Hub) (ch : Channel) (u : User) (device : Text) (meta : FileMeta) (epoch now : ℕ)
    → (announce at ch u device meta epoch now).uploading ≡ at.1.uploading
unfolding announce ref_file post append_log to_chan
uploading-announce (fid, h) ch u device meta epoch now = refl

uploading-commit_in :
    (o : Option Channel) (u : User) (guest : Bool) (quota : ℤ) (device : Text) (meta : FileMeta)
    (epoch now : ℕ) (h : Hub)
    → (commit_in o u guest quota device meta epoch now h).0.uploading ≡ h.uploading
unfolding commit_in
uploading-commit_in none u guest quota device meta epoch now h = refl
uploading-commit_in (some ch) u guest quota device meta epoch now h =
    uploading-warn_quota guest _ quota u _
    ∙ (uploading-announce (commit_file meta guest h) ch u device meta epoch now
        ∙ uploading-commit_file meta guest h)

uploading-finish_upload :
    (got : Receipt) (cid : ℕ) (u : User) (guest : Bool) (quota : ℤ) (req : Request) (fid : Text)
    (now : ℕ) (h : Hub)
    → (finish_upload got cid u guest quota req fid now h).0.uploading ≡ h.uploading
unfolding finish_upload commit_upload
uploading-finish_upload (Receipt.broken text) cid u guest quota req fid now h = refl
uploading-finish_upload (Receipt.received sha) cid u guest quota req fid now h =
    uploading-commit_in (lookup cid h.st.channels) u guest quota _ _ _ now h

-- An upload that has ended counts one less.
uploads_of-uploaded :
    (u : User) (r : Hub × Answer) → uploads_of (uploaded u r).0 u.id ≡ uploads_of r.0 u.id - 1
unfolding uploaded upload_done
uploads_of-uploaded u (h, a) = lookup_inserted u.id _ h.uploading

module _ (u : User) (away : Hub → Hub)
    (balanced : (k : Hub) → uploads_of (away k) u.id ≡ uploads_of k u.id) where
  uploads_of-receive :
      (o : Option Channel) (n : ℕ) (v : Hub × Verdict) (got : Receipt) (guest : Bool) (quota : ℤ)
      (req : Request) (fid : Text) (now : ℕ) (h : Hub)
      → Decides o u guest n now h v
      → uploads_of (receive v got away u guest quota req fid now).0 u.id ≡ uploads_of h u.id
  unfolding receive
  uploads_of-receive o n (h', Verdict.denied a) got guest quota req fid now h d =
      ap (λ d. or_else (lookup u.id d) 0) d
  uploads_of-receive o n (h', Verdict.admit cid) got guest quota req fid now h d =
      let ended = finish_upload got cid u guest quota req fid now (away h') in
      let kept : uploads_of ended.0 u.id ≡ uploads_of (away h') u.id =
        ap (λ d. or_else (lookup u.id d) 0)
          (uploading-finish_upload got cid u guest quota req fid now (away h')) in
      let all = uploads_of-uploaded u ended in
      let other = balanced h' in
      let counted = d.counted in all ∙ (ap (λ k. k - 1) (kept ∙ (other ∙ counted)) ∙ omega arith)

  -- However an upload ends, refused, broken off, or stored, the number of uploads of its user that are
  -- under way is afterwards what it was before, if it is so for what other connections do meanwhile.
  pub upload-balanced :
      (got : Receipt) (guest : Bool) (req : Request) (fid : Text) (now : ℕ) (h : Hub)
      → uploads_of (upload got away u guest req fid now h).0 u.id ≡ uploads_of h u.id
  unfolding upload
  upload-balanced got guest req fid now h =
      elim (Bool-cases (not (req.method == str "PUT") && not (req.method == str "POST"))) [
        | inl wrong ↦ rw wrong refl
        | inr right ↦ elim (Bool-cases (is_blank (header_of req (str "content-length")))) [
          | inl no_length ↦ rw (right, no_length) refl
          | inr has_length ↦
              rw (right, has_length)
                (uploads_of-receive (chan_for h u (query_of req (str "ch"))) req.size _ got guest
                  (quota_for h u) req fid now h
                  (admit_upload-Decides u guest (query_of req (str "ch")) req.size now h))
        ]
      ]
