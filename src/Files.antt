-- ===== src/Files.antt =====
-- Stored files (code/hub.go, `refFile` to `fileRefCount`): how many messages of each channel refer to
-- a file, and the deletion of a file that nothing refers to. The int64 counters of bytes are natural
-- numbers. The source raises what an owner has used to 0 if it would be negative, which `-` does
-- here and does for a guest, whose uploads are not charged; there is no such clamp on the total. The files on disk are not modelled.
pub mod Keeps
pub mod Accounts
use back_channel.Prelude.{
  ℕ, zero, suc, ◌+◌, ◌-◌, Bool, true, false, Option, none, some, List, [], ◌∷◌, ◌==◌, ℕ_eq, ℤ_eq,
  list_eq, or_else,
}
use back_channel.Prelude.Int.{ℤ}
use back_channel.Prelude.Dict.{Dict, lookup, insert, erase}
use back_channel.Prelude.Text.{Text}
use back_channel.State.{State, FileMeta}
use back_channel.Hub.{Hub, mark_dirty}

-- The references to a file, by channel: `h.fileRefs[fid]`, empty if it is nil.
abbrev pub refs_of : Hub → Text → Dict ℕ ℕ
refs_of h fid = or_else (lookup fid h.file_refs) []

-- `h.fileRefs[fid][cid]`
abbrev pub refs_in : Hub → Text → ℕ → ℕ
refs_in h fid cid = or_else (lookup cid (refs_of h fid)) 0

abbrev pub used_by : Hub → ℤ → ℕ
used_by h uid = or_else (lookup uid h.used) 0

unfoldable pub ref_file : Text → ℕ → Hub → Hub
ref_file fid cid h = record h {
  file_refs = insert fid (insert cid (refs_in h fid cid + 1) (refs_of h fid)) h.file_refs;
}

-- The metadata, the quota and the dedup entry go. Where the file is larger than what its owner has
-- used, 0 is left.
delete_meta : Option FileMeta → Text → Hub → Hub
unfolding mark_dirty
delete_meta none fid h = h
delete_meta (some meta) fid h = mark_dirty (record h {
  used = insert meta.owner (used_by h meta.owner - meta.size) h.used;
  total_bytes = h.total_bytes - meta.size;
  hashes = erase meta.sha h.hashes;
  st = record h.st { files = erase fid h.st.files };
})

unfoldable pub delete_file : Text → Hub → Hub
unfolding delete_meta
delete_file fid h = delete_meta (lookup fid h.st.files) fid h

-- The references that are left after one is dropped: no entry stays at 0.
unfoldable pub drop_ref : ℕ → Dict ℕ ℕ → Dict ℕ ℕ
drop_ref cid refs = elim (or_else (lookup cid refs) 0 - 1) [
  | zero ↦ erase cid refs
  | suc n ↦ insert cid (suc n) refs
]

abbrev set_refs : Dict ℕ ℕ → Text → Hub → Hub
set_refs [] fid h = delete_file fid (record h { file_refs = erase fid h.file_refs })
set_refs (r ∷ refs) fid h = record h { file_refs = insert fid (r ∷ refs) h.file_refs }

unfoldable pub unref_file : Text → ℕ → Hub → Hub
unfolding drop_ref delete_file
unref_file fid cid h = set_refs (drop_ref cid (refs_of h fid)) fid h

sum_refs : Dict ℕ ℕ → ℕ
sum_refs [] = 0
sum_refs ((cid, n) ∷ refs) = n + sum_refs refs

-- `fileRefCount`
unfoldable pub file_ref_count : Hub → Text → ℕ
unfolding sum_refs
file_ref_count h fid = sum_refs (refs_of h fid)

-- ---- the commit of an upload (code/files.go, `upload`) ----

abbrev charge : Bool → ℤ → ℕ → Hub → Hub
charge true uid size h = h
charge false uid size h = record h { used = insert uid (used_by h uid + size) h.used }

-- New bytes: the dedup entry, the metadata, the quota of an account, and the file itself.
unfoldable pub store_file : FileMeta → Bool → Hub → Hub
unfolding mark_dirty
store_file meta guest h = charge guest meta.owner meta.size (
    mark_dirty (record h {
      hashes = insert meta.sha meta.fid h.hashes;
      st = record h.st { files = insert meta.fid meta h.st.files };
      total_bytes = h.total_bytes + meta.size;
    }))

abbrev pub existing_file : Hub → Option Text → Option FileMeta
existing_file h none = none
existing_file h (some fid) = lookup fid h.st.files

abbrev pub commit_to : Option FileMeta → FileMeta → Bool → Hub → Text × Hub
commit_to none meta guest h = (meta.fid, store_file meta guest h)
commit_to (some old) meta guest h = (old.fid, h)

-- The id under which the uploaded bytes are kept: that of identical bytes, if there are any.
unfoldable pub commit_file : FileMeta → Bool → Hub → Text × Hub
unfolding store_file
commit_file meta guest h = commit_to (existing_file h (lookup meta.sha h.hashes)) meta guest h
