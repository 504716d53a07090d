-- ===== src/Files/Keeps.antt =====
-- What counting references and deleting files leave alone.
use back_channel.Prelude.{ℕ, ◌≡◌, refl, [], ◌∷◌, inl, inr, Option-cases, list_eq}
use back_channel.Prelude.Dict.{Dict, lookup, erase}
use back_channel.Prelude.Text.{Text}
use back_channel.Hub.{Hub, mark_dirty}
use back_channel.Files.{delete_meta, delete_file, set_refs, drop_ref, refs_of, unref_file}

-- Where the messages, the last id, the bound and the log are those of another hub.
pub record SameMessages (h h' : Hub) : Type 0 where
  pub msgs : h'.msgs ≡ h.msgs
  pub next_id : h'.next_id ≡ h.next_id
  pub keep : h'.keep ≡ h.keep
  pub log : h'.log ≡ h.log

SameMessages-delete_file : (fid : Text) (h : Hub) → SameMessages h (delete_file fid h)
unfolding delete_file mark_dirty
SameMessages-delete_file fid h = elim (Option-cases (lookup fid h.st.files)) [
  | inl e ↦ rw (e, delete_meta) (record { msgs = refl; next_id = refl; keep = refl; log = refl })
  | inr (meta, e) ↦
      rw (e, delete_meta) (record { msgs = refl; next_id = refl; keep = refl; log = refl })
]

SameMessages-set_refs :
    (refs : Dict ℕ ℕ) (fid : Text) (h : Hub) → SameMessages h (set_refs refs fid h)
SameMessages-set_refs [] fid h =
    let s : SameMessages (record h { file_refs = erase fid h.file_refs }) _ =
      SameMessages-delete_file fid (record h { file_refs = erase fid h.file_refs }) in
    record { msgs = s.msgs; next_id = s.next_id; keep = s.keep; log = s.log }
SameMessages-set_refs (r ∷ refs) fid h = record {
  msgs = refl;
  next_id = refl;
  keep = refl;
  log = refl;
}

-- Dropping a reference, and the file with the last one, touches no message.
pub SameMessages-unref_file :
    (fid : Text) (cid : ℕ) (h : Hub) → SameMessages h (unref_file fid cid h)
unfolding unref_file
SameMessages-unref_file fid cid h = SameMessages-set_refs (drop_ref cid (refs_of h fid)) fid h
