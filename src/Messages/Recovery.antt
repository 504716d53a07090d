-- ===== src/Messages/Recovery.antt =====
-- A restart: what `loadMessages` reads back from the log is what the hub would have kept.
pub mod Steps
use back_channel.Prelude.{
  ℕ, zero, suc, ◌+◌, ◌-◌, ◌/◌, ◌≤◌, ◌<◌, ◌≡◌, ◌≢◌, refl, sym, ap, ◌∙◌, Bool, true, false, ◌||◌, not,
  Option, none, some, List, [], ◌∷◌, ◌++◌, length, drop, take, take-append-drop, drop-append,
  length-append, length-drop, ltb, nat_eq, arith, inl, inr, ◌⊎◌, ◌==◌, ℕ_eq, eq_self, if◌then◌else◌,
  Bool-cases,
}
use mathlib.Core.List.{append_assoc}
use back_channel.Prelude.Dict.{Dict, lookup, insert, lookup-insert}
use back_channel.Prelude.Text.{Text}
use back_channel.State.{Channel}
use back_channel.Frame.{Msg, Kind}
use back_channel.Hub.{Hub, list_at, to_chan}
use back_channel.Files.{unref_file}
use back_channel.Files.Keeps.{SameMessages, SameMessages-unref_file}
use back_channel.Messages.{
  messages, append_log, bury, bury_cons, bury_in, hit_list, Hit, tombstone, is_deleted, has_file,
  del_record, post, stamp, trim_kept, load_record, load_kind, load_log, load_next_id, last_kept,
}

-- The messages of a channel that a log gives, before the cut to the last `keep` (`last_kept`).
unfoldable pub reload : (ℕ → Bool) → List Msg → ℕ → List Msg
reload exists log cid = list_at (lookup cid (load_log exists log []))

module _ (exists : ℕ → Bool) where
  load_log-snoc :
      (log : List Msg) (m : Msg) (d : Dict ℕ (List Msg))
      → load_log exists (log ++ m ∷ []) d ≡ load_record exists m (load_log exists log d)
  unfolding load_log
  load_log-snoc [] m d = refl
  load_log-snoc (x ∷ log) m d = load_log-snoc log m (load_record exists x d)

  reload-snoc :
      (log : List Msg) (m : Msg) (cid : ℕ)
      → reload exists (log ++ m ∷ []) cid
        ≡ list_at (lookup cid (load_record exists m (load_log exists log [])))
  unfolding reload
  reload-snoc log m cid = ap (λ d. list_at (lookup cid d)) (load_log-snoc log m [])

-- What a message of a kind adds to its channel.
pub data IsPosted : Kind → Type 0 where
  text_message : IsPosted Kind.msg
  file_message : IsPosted Kind.file

load_kind-posted :
    {k : Kind} (p : IsPosted k) (m : Msg) (d : Dict ℕ (List Msg))
    → load_kind k m d ≡ insert m.cid (list_at (lookup m.cid d) ++ m ∷ []) d
unfolding load_kind
load_kind-posted text_message m d = refl
load_kind-posted file_message m d = refl

-- Where the search in the newer messages succeeds, the older ones are not looked at.
bury-append :
    (cid id : ℕ) (by : Text) (xs ys ys' : List Msg) (orig : Msg)
    → bury cid id by ys ≡ Hit.changed orig ys'
    → bury cid id by (xs ++ ys) ≡ Hit.changed orig (xs ++ ys')
unfolding bury bury_cons
bury-append cid id by [] ys ys' orig e = e
bury-append cid id by (x ∷ xs) ys ys' orig e = rw (bury-append cid id by xs ys ys' orig e)

-- The log holds the messages in memory behind older ones, and has dropped none while there are fewer
-- than `keep`.
pub record Covers (keep : ℕ) (full ms : List Msg) : Type 0 where
  pub older : List Msg
  pub split : full ≡ older ++ ms
  pub kept : (older ≡ []) ⊎ (keep ≤ length ms)

last_kept-eq-drop : (keep : ℕ) (ms : List Msg) → last_kept keep ms ≡ drop (length ms - keep) ms
unfolding last_kept
last_kept-eq-drop keep ms = elim (Bool-cases (ltb keep (length ms))) [
  | inl many ↦ rw many
  | inr few ↦ rw few (let e : length ms - keep ≡ 0 = ground arith in rw e)
]

last_kept-append :
    (keep : ℕ) (xs ys : List Msg) → keep ≤ length ys → last_kept keep (xs ++ ys) ≡ last_kept keep ys
last_kept-append keep xs ys h =
    let e : length (xs ++ ys) - keep ≡ length xs + (length ys - keep) =
      omega (arith, length-append xs ys) in
    last_kept-eq-drop keep (xs ++ ys)
    ∙ (rw e (drop-append xs ys (length ys - keep)) ∙ sym (last_kept-eq-drop keep ys))

-- What is read back and what is in memory agree on the last `keep` messages.
Covers-last_kept :
    (keep : ℕ) (full ms : List Msg) → Covers keep full ms → last_kept keep full ≡ last_kept keep ms
Covers-last_kept keep full ms c = elim c.kept [
  | inl none_older ↦ ap (last_kept keep) (c.split ∙ ap (λ xs. xs ++ ms) none_older)
  | inr enough ↦ ap (last_kept keep) c.split ∙ last_kept-append keep c.older ms enough
]

Covers-snoc :
    (keep : ℕ) (full ms : List Msg) (m : Msg)
    → Covers keep full ms
    → Covers keep (full ++ m ∷ []) (ms ++ m ∷ [])
Covers-snoc keep full ms m c = record {
  older = c.older;
  split = ap (λ xs. xs ++ m ∷ []) c.split ∙ append_assoc c.older ms (m ∷ []);
  kept = elim c.kept [ inl e ↦ inl e | inr h ↦ inr (omega (arith, length-append ms (m ∷ []))) ];
}

Covers-trim :
    (keep : ℕ) (full ms : List Msg) → Covers keep full ms → Covers keep full (trim_kept keep ms)
unfolding trim_kept
Covers-trim keep full ms c = elim (Bool-cases (ltb (keep + keep / 4) (length ms))) [
  | inr few ↦ rw few c
  | inl many ↦ rw many (record {
    older = c.older ++ take (length ms - keep) ms;
    split =
        c.split
        ∙ ap (λ xs. c.older ++ xs) (sym (take-append-drop (length ms - keep) ms))
        ∙ sym (append_assoc c.older (take (length ms - keep) ms) (drop (length ms - keep) ms));
    kept = inr (ground (arith, length-drop (length ms - keep) ms));
  })
]

Covers-bury :
    (keep : ℕ) (full ms ms' : List Msg) (cid id : ℕ) (by : Text) (orig : Msg)
    → length ms' ≡ length ms
    → bury cid id by ms ≡ Hit.changed orig ms'
    → Covers keep full ms
    → Covers keep (hit_list (bury cid id by full) full) ms'
Covers-bury keep full ms ms' cid id by orig len e c = record {
  older = c.older;
  split =
      ap (λ xs. hit_list (bury cid id by xs) xs) c.split
      ∙ ap (λ hit. hit_list hit (c.older ++ ms)) (bury-append cid id by c.older ms ms' orig e);
  kept = elim c.kept [ inl p ↦ inl p | inr h ↦ inr (omega arith) ];
}

-- The log and the memory of a hub belong together, for every channel that exists.
pub record IsLogged (exists : ℕ → Bool) (h : Hub) : Type 0 where
  pub covers :
      (cid : ℕ) → exists cid ≡ true → Covers h.keep (reload exists h.log cid) (messages h cid)
