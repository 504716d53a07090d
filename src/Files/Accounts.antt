-- ===== src/Files/Accounts.antt =====
-- The bytes charged to accounts, the bytes stored in all, and the dedup index are exact.
use mathlib.Core.Path.{subst}
use back_channel.Prelude.{
  ℕ, ◌+◌, ◌-◌, ◌≡◌, ◌≢◌, refl, sym, Bool, true, false, Option, none, some, [], ◌∷◌, ◌==◌, ℕ_eq,
  ℤ_eq, list_eq, eq_self, or_else, arith, if◌then◌else◌, Option-cases, inl, inr,
}
use back_channel.Prelude.Int.{ℤ, pos, int_eq_iff}
use back_channel.Prelude.Dict.{Dict, lookup, insert, erase, lookup-insert, lookup-erase}
use back_channel.Prelude.Dict.Sums.{
  Distinct, sum_by, erase-Distinct, insert-Distinct, sum_by-erase, sum_by-insert,
}
use back_channel.Prelude.Text.{Text}
use back_channel.State.{FileMeta}
use back_channel.Hub.{Hub, mark_dirty}
use back_channel.Files.{
  used_by, delete_meta, delete_file, set_refs, drop_ref, refs_of, unref_file, store_file,
  existing_file, commit_to, commit_file,
}

abbrev pub size_of : FileMeta → ℕ
size_of m = m.size

abbrev pub owned : ℤ → FileMeta → ℕ
owned uid m = if m.owner == uid then m.size else 0

-- What an account is charged is the size of the files that it uploaded first, the total is the size
-- of all files, a file is stored under its own id, its hash leads to it, and no other hash does.
pub record IsBalanced (h : Hub) : Type 0 where
  pub distinct : Distinct h.st.files
  pub charged : (n : ℕ) → used_by h (pos n) ≡ sum_by (owned (pos n)) h.st.files
  pub total : h.total_bytes ≡ sum_by size_of h.st.files
  pub indexed :
      (fid : Text) (m : FileMeta)
      → lookup fid h.st.files ≡ some m
      → (m.fid ≡ fid) × (lookup m.sha h.hashes ≡ some fid)
  pub sound :
      (sha fid : Text) (m : FileMeta)
      → lookup sha h.hashes ≡ some fid
      → lookup fid h.st.files ≡ some m
      → m.sha ≡ sha

pub used_by-insert :
    (who uid : ℤ) (n : ℕ) (h : Hub)
    → or_else (lookup uid (insert who n h.used)) 0 ≡ (if who == uid then n else used_by h uid)
used_by-insert who uid n h = rw (lookup-insert who uid n h.used) (ground arith)

indexed_after_erase :
    (fid : Text) (m : FileMeta) (h : Hub) (f : Text) (x : FileMeta)
    → lookup fid h.st.files ≡ some m
    → IsBalanced h
    → lookup f (erase fid h.st.files) ≡ some x
    → (x.fid ≡ f) × (lookup x.sha (erase m.sha h.hashes) ≡ some f)
indexed_after_erase fid m h f x e b p = ground (
  arith,
  lookup-erase fid f h.st.files,
  lookup-erase m.sha x.sha h.hashes,
  b.indexed f x,
  b.indexed fid m e,
  list_eq.same_iff fid f,
  list_eq.same_iff m.sha x.sha,
)

delete_meta-IsBalanced :
    (fid : Text) (m : FileMeta) (h : Hub)
    → lookup fid h.st.files ≡ some m
    → IsBalanced h
    → IsBalanced (delete_meta (some m) fid h)
unfolding delete_meta mark_dirty
delete_meta-IsBalanced fid m h e b = record {
  distinct = erase-Distinct fid h.st.files b.distinct;
  charged = λ n. rw (used_by-insert m.owner (pos n) (used_by h m.owner - m.size) h) (
      ground (
        arith,
        b.charged n,
        int_eq_iff m.owner (pos n),
        sum_by-erase (owned (pos n)) fid m h.st.files b.distinct e,
      ));
  total = omega (arith, b.total, sum_by-erase size_of fid m h.st.files b.distinct e);
  indexed = λ f x p. indexed_after_erase fid m h f x e b p;
  sound = λ s f x p q.
      ground (arith, lookup-erase fid f h.st.files, lookup-erase m.sha s h.hashes, b.sound s f x);
}

delete_in-IsBalanced :
    (o : Option FileMeta) (fid : Text) (h : Hub)
    → lookup fid h.st.files ≡ o
    → IsBalanced h
    → IsBalanced (delete_meta o fid h)
delete_in-IsBalanced none fid h e b = unfold delete_meta in b
delete_in-IsBalanced (some m) fid h e b = delete_meta-IsBalanced fid m h e b

-- Deleting a file refunds exactly its owner, exactly its size, and leaves the dedup index exact.
delete_file-IsBalanced : (fid : Text) (h : Hub) → IsBalanced h → IsBalanced (delete_file fid h)
unfolding delete_file
delete_file-IsBalanced fid h b =
    let b' : IsBalanced (delete_meta (lookup fid h.st.files) fid h) =
      delete_in-IsBalanced _ fid h refl b in
    record {
      distinct = b'.distinct;
      charged = b'.charged;
      total = b'.total;
      indexed = b'.indexed;
      sound = b'.sound;
    }

set_refs-IsBalanced :
    (refs : Dict ℕ ℕ) (fid : Text) (h : Hub) → IsBalanced h → IsBalanced (set_refs refs fid h)
set_refs-IsBalanced [] fid h b =
    delete_file-IsBalanced fid (record h { file_refs = erase fid h.file_refs })
      (record {
        distinct = b.distinct;
        charged = b.charged;
        total = b.total;
        indexed = b.indexed;
        sound = b.sound;
      })
set_refs-IsBalanced (r ∷ refs) fid h b = record {
  distinct = b.distinct;
  charged = b.charged;
  total = b.total;
  indexed = b.indexed;
  sound = b.sound;
}

-- If the accounts are exact, they still are once a reference is dropped, whether or not the file goes
-- with it.
pub unref_file-IsBalanced :
    (fid : Text) (cid : ℕ) (h : Hub) → IsBalanced h → IsBalanced (unref_file fid cid h)
unfolding unref_file
unref_file-IsBalanced fid cid h b = set_refs-IsBalanced (drop_ref cid (refs_of h fid)) fid h b

-- The kind of uploader: an account, or a guest, whose id is negative.
abbrev pub Owns : Bool → ℤ → Type 0
Owns true uid = (n : ℕ) → (uid == pos n) ≡ false
Owns false uid = Unit

store_charged :
    (meta : FileMeta) (guest : Bool) (h : Hub) (n : ℕ)
    → Owns guest meta.owner
    → lookup meta.fid h.st.files ≡ none
    → IsBalanced h
    → used_by (store_file meta guest h) (pos n)
      ≡ sum_by (owned (pos n)) (insert meta.fid meta h.st.files)
unfolding store_file mark_dirty
store_charged meta true h n o e b =
    ground (arith, o n, b.charged n, sum_by-insert (owned (pos n)) meta.fid meta h.st.files e)
store_charged meta false h n o e b =
    rw (used_by-insert meta.owner (pos n) (used_by h meta.owner + meta.size) h) (
      ground (
        arith,
        b.charged n,
        int_eq_iff meta.owner (pos n),
        sum_by-insert (owned (pos n)) meta.fid meta h.st.files e,
      ))

-- The id of a new file: no file has it, and no hash leads to it.
pub record IsFresh (fid : Text) (h : Hub) : Type 0 where
  pub unstored : lookup fid h.st.files ≡ none
  pub unhashed : (sha : Text) → lookup sha h.hashes ≢ some fid

store_indexed :
    (meta : FileMeta) (h : Hub) (f : Text) (x : FileMeta)
    → existing_file h (lookup meta.sha h.hashes) ≡ none
    → IsBalanced h
    → lookup f (insert meta.fid meta h.st.files) ≡ some x
    → (x.fid ≡ f) × (lookup x.sha (insert meta.sha meta.fid h.hashes) ≡ some f)
store_indexed meta h f x new b p = ground (
  arith,
  lookup-insert meta.fid f meta h.st.files,
  lookup-insert meta.sha x.sha meta.fid h.hashes,
  b.indexed f x,
  list_eq.same_iff meta.fid f,
  list_eq.same_iff meta.sha x.sha,
)

store_sound :
    (meta : FileMeta) (h : Hub) (s f : Text) (x : FileMeta)
    → IsFresh meta.fid h
    → IsBalanced h
    → lookup s (insert meta.sha meta.fid h.hashes) ≡ some f
    → lookup f (insert meta.fid meta h.st.files) ≡ some x
    → x.sha ≡ s
store_sound meta h s f x fresh b p q = ground (
  arith,
  lookup-insert meta.fid f meta h.st.files,
  lookup-insert meta.sha s meta.fid h.hashes,
  b.sound s f x,
  fresh.unhashed s,
  list_eq.same_iff meta.fid f,
  list_eq.same_iff meta.sha s,
)

files-store_file :
    (meta : FileMeta) (guest : Bool) (h : Hub)
    → ((store_file meta guest h).st.files ≡ insert meta.fid meta h.st.files)
      × ((store_file meta guest h).hashes ≡ insert meta.sha meta.fid h.hashes)
      × ((store_file meta guest h).total_bytes ≡ h.total_bytes + meta.size)
unfolding store_file mark_dirty
files-store_file meta true h = (refl, refl, refl)
files-store_file meta false h = (refl, refl, refl)

store_file-IsBalanced :
    (meta : FileMeta) (guest : Bool) (h : Hub)
    → Owns guest meta.owner
    → IsFresh meta.fid h
    → existing_file h (lookup meta.sha h.hashes) ≡ none
    → IsBalanced h
    → IsBalanced (store_file meta guest h)
store_file-IsBalanced meta guest h o fresh new b =
    let (files, hashes, total) = files-store_file meta guest h in
    record {
      distinct = rw files (insert-Distinct meta.fid meta h.st.files b.distinct);
      charged = λ n. rw files (store_charged meta guest h n o fresh.unstored b);
      total = rw files (
          rw total (
            omega (arith, b.total, sum_by-insert size_of meta.fid meta h.st.files fresh.unstored)));
      indexed = λ f x. rw files (rw hashes (store_indexed meta h f x new b));
      sound = λ s f x. rw files (rw hashes (store_sound meta h s f x fresh b));
    }

pub record Commits (meta : FileMeta) (h : Hub) (result : Text × Hub) : Type 0 where
  pub balanced : IsBalanced result.1
  pub kept : (m : FileMeta) × (lookup result.0 result.1.st.files ≡ some m) × (m.sha ≡ meta.sha)

commit_to-Commits :
    (o : Option FileMeta) (meta : FileMeta) (guest : Bool) (h : Hub)
    → existing_file h (lookup meta.sha h.hashes) ≡ o
    → Owns guest meta.owner
    → IsFresh meta.fid h
    → IsBalanced h
    → Commits meta h (commit_to o meta guest h)
commit_to-Commits none meta guest h e o fresh b = record {
  balanced = store_file-IsBalanced meta guest h o fresh e b;
  kept = (
    meta,
    rw (files-store_file meta guest h).0
        (rw (lookup-insert meta.fid meta.fid meta h.st.files) (rw (eq_self meta.fid))),
    refl,
  );
}
commit_to-Commits (some old) meta guest h e o fresh b =
    elim (Option-cases (lookup meta.sha h.hashes)) [
      | inl missing ↦ absurd (cc (missing, e))
      | inr (fid, found) ↦
          let at : lookup fid h.st.files ≡ some old = rw found at e in
          record {
            balanced = b;
            kept = (
              old,
              subst (λ k. lookup k h.st.files ≡ some old) (sym (b.indexed fid old at).0) at,
              b.sound meta.sha fid old found at,
            );
          }
    ]

-- If the accounts are exact, the id of an upload is fresh, and a guest's upload is owned by a negative
-- id, then the accounts are exact after the commit, and the id that it returns leads to a stored file
-- with the hash of the uploaded bytes.
pub commit_file-Commits :
    (meta : FileMeta) (guest : Bool) (h : Hub)
    → Owns guest meta.owner
    → IsFresh meta.fid h
    → IsBalanced h
    → Commits meta h (commit_file meta guest h)
unfolding commit_file
commit_file-Commits meta guest h =
    commit_to-Commits (existing_file h (lookup meta.sha h.hashes)) meta guest h refl
