-- ===== src/Messages/Compaction.antt =====
-- The compaction of the log (code/store.go, `compactLog`): the log is sorted by the ids of the messages of
-- all channels together, and is read back channel by channel (`loadMessages`).
use back_channel.Prelude.{
  ℕ, ◌≤◌, ◌<◌, ◌≡◌, refl, sym, ap, ◌∙◌, Bool, true, false, none, List, [], ◌∷◌, ◌++◌, ltb, nat_eq,
  nat_eq_iff, arith, inl, inr, ℕ_eq, All, Bool-cases, if◌then◌else◌,
}
use mathlib.Core.Path.{subst}
use mathlib.Core.List.{append_assoc, append-nil}
use back_channel.Prelude.Dict.{Dict, lookup, insert, lookup-insert}
use back_channel.Frame.{Msg, Kind}
use back_channel.Hub.{Hub, list_at}
use back_channel.Messages.{
  messages, insert_by_id, sort_into, all_by_id, compact_log, load_record, load_kind, load_log,
}
use back_channel.Messages.Order.{Ascends}
use back_channel.Messages.Recovery.{reload}

-- The kinds of the messages in memory.
pub data IsStayed : Kind → Type 0 where
  text_stays : IsStayed Kind.msg
  file_stays : IsStayed Kind.file
  tomb_stays : IsStayed Kind.deleted

-- A message in memory, of a channel that exists.
pub record IsStored (exists : ℕ → Bool) (m : Msg) : Type 0 where
  pub numbered : 0 < m.id
  pub lives : exists m.cid ≡ true
  pub stays : IsStayed m.t

-- Each channel stands once, with its own messages, by rising ids.
abbrev pub IsFiled : (ℕ → Bool) → ℕ → Dict ℕ (List Msg) → Type 0
IsFiled exists hi [] = Unit
IsFiled exists hi ((cid, ms) ∷ d) =
    (lookup cid d ≡ none)
    × Ascends 0 hi ms
    × All (λ m. m.cid ≡ cid) ms
    × All (IsStored exists) ms
    × IsFiled exists hi d

-- The messages of one channel, of those of a log.
of_channel : ℕ → List Msg → List Msg
of_channel cid [] = []
of_channel cid (m ∷ ms) =
    let rest = of_channel cid ms in if nat_eq m.cid cid then m ∷ rest else rest

of_channel-yes :
    (cid : ℕ) (m : Msg) (ms : List Msg)
    → nat_eq m.cid cid ≡ true
    → of_channel cid (m ∷ ms) ≡ m ∷ of_channel cid ms
unfolding of_channel
of_channel-yes cid m ms e = rw e refl

of_channel-no :
    (cid : ℕ) (m : Msg) (ms : List Msg)
    → nat_eq m.cid cid ≡ false
    → of_channel cid (m ∷ ms) ≡ of_channel cid ms
unfolding of_channel
of_channel-no cid m ms e = rw e refl

-- ---- what is read back ----

load_kind-stayed :
    {k : Kind} (s : IsStayed k) (m : Msg) (d : Dict ℕ (List Msg))
    → load_kind k m d ≡ insert m.cid (list_at (lookup m.cid d) ++ m ∷ []) d
unfolding load_kind
load_kind-stayed text_stays m d = refl
load_kind-stayed file_stays m d = refl
load_kind-stayed tomb_stays m d = refl

load_record-stored :
    (exists : ℕ → Bool) (m : Msg) (d : Dict ℕ (List Msg))
    → IsStored exists m
    → load_record exists m d ≡ insert m.cid (list_at (lookup m.cid d) ++ m ∷ []) d
unfolding load_record
load_record-stored exists m d s =
    let e : nat_eq m.id 0 ≡ false = (let p = s.numbered in ground arith) in
    rw (e, s.lives) (load_kind-stayed s.stays m d)

lookup-load_record :
    (exists : ℕ → Bool) (m : Msg) (d : Dict ℕ (List Msg)) (cid : ℕ) (ms : List Msg)
    → IsStored exists m
    → list_at (lookup cid (load_record exists m d)) ++ of_channel cid ms
      ≡ list_at (lookup cid d) ++ of_channel cid (m ∷ ms)
unfolding of_channel
lookup-load_record exists m d cid ms s = elim (Bool-cases (nat_eq m.cid cid)) [
  | inl same ↦
      let e : m.cid ≡ cid = (nat_eq_iff m.cid cid).0 same in
      let old = list_at (lookup m.cid d) in
      rw (load_record-stored exists m d s, lookup-insert m.cid cid (old ++ m ∷ []) d, same)
        (append_assoc old (m ∷ []) (of_channel cid ms)
          ∙ ap (λ k. list_at (lookup k d) ++ m ∷ of_channel cid ms) e)
  | inr other ↦
      rw
        (
          load_record-stored exists m d s,
          lookup-insert m.cid cid (list_at (lookup m.cid d) ++ m ∷ []) d,
          other,
        )
        refl
]

lookup-load_log :
    (exists : ℕ → Bool) (log : List Msg) (d : Dict ℕ (List Msg)) (cid : ℕ)
    → All (IsStored exists) log
    → list_at (lookup cid (load_log exists log d)) ≡ list_at (lookup cid d) ++ of_channel cid log
unfolding load_log of_channel
lookup-load_log exists [] d cid s = sym (append-nil _)
lookup-load_log exists (m ∷ log) d cid (s, rest) =
    lookup-load_log exists log (load_record exists m d) cid rest
    ∙ lookup-load_record exists m d cid log s

-- ---- what is written ----

All-insert_by_id :
    (P : Msg → Type 0) (m : Msg) (xs : List Msg) → P m → All P xs → All P (insert_by_id m xs)
unfolding insert_by_id
All-insert_by_id P m [] p ps = (p, ps)
All-insert_by_id P m (x ∷ xs) p (px, ps) = elim (Bool-cases (ltb x.id m.id)) [
  | inl before ↦ rw before (px, All-insert_by_id P m xs p ps)
  | inr after ↦ rw after (p, (px, ps))
]

All-sort_into :
    (P : Msg → Type 0) (ms acc : List Msg) → All P ms → All P acc → All P (sort_into ms acc)
unfolding sort_into
All-sort_into P [] acc p q = q
All-sort_into P (m ∷ ms) acc p q =
    All-insert_by_id P m (sort_into ms acc) p.0 (All-sort_into P ms acc p.1 q)

IsStored-all_by_id :
    (exists : ℕ → Bool) (hi : ℕ) (d : Dict ℕ (List Msg))
    → IsFiled exists hi d
    → All (IsStored exists) (all_by_id d)
unfolding all_by_id
IsStored-all_by_id exists hi [] f = tt
IsStored-all_by_id exists hi ((cid, ms) ∷ d) (once, rising, own, stored, f) =
    All-sort_into (IsStored exists) ms (all_by_id d) stored (IsStored-all_by_id exists hi d f)

-- A message of another channel.
of_channel-other :
    (cid : ℕ) (m : Msg) (xs : List Msg)
    → nat_eq m.cid cid ≡ false
    → of_channel cid (insert_by_id m xs) ≡ of_channel cid xs
unfolding of_channel insert_by_id
of_channel-other cid m [] e = rw e refl
of_channel-other cid m (x ∷ xs) e = elim (Bool-cases (ltb x.id m.id)) [
  | inl before ↦ rw (before, of_channel-other cid m xs e) refl
  | inr after ↦ rw (after, e) refl
]

older-other :
    (m : Msg) (cid : ℕ) (x : Msg) (xs : List Msg)
    → nat_eq x.cid cid ≡ false
    → All (λ y. m.id < y.id) (of_channel cid (x ∷ xs))
    → All (λ y. m.id < y.id) (of_channel cid xs)
older-other m cid x xs e older = subst (All (λ y. m.id < y.id)) (of_channel-no cid x xs e) older

older-own :
    (m : Msg) (cid : ℕ) (x : Msg) (xs : List Msg)
    → nat_eq x.cid cid ≡ true
    → All (λ y. m.id < y.id) (of_channel cid (x ∷ xs))
    → m.id < x.id
older-own m cid x xs e older = (subst (All (λ y. m.id < y.id)) (of_channel-yes cid x xs e) older).0

-- A message of the channel, older than those that are there.
of_channel-own :
    (cid : ℕ) (m : Msg) (xs : List Msg)
    → nat_eq m.cid cid ≡ true
    → All (λ x. m.id < x.id) (of_channel cid xs)
    → of_channel cid (insert_by_id m xs) ≡ m ∷ of_channel cid xs
unfolding of_channel insert_by_id
of_channel-own cid m [] e older = rw e refl
of_channel-own cid m (x ∷ xs) e older = elim (Bool-cases (ltb x.id m.id)) [
  | inr after ↦ rw (after, e) refl
  | inl before ↦ elim (Bool-cases (nat_eq x.cid cid)) [
    | inr other ↦
        rw (before, other) (of_channel-own cid m xs e (older-other m cid x xs other older))
    | inl same ↦ let p = older-own m cid x xs same older in ground arith
  ]
]

-- ---- a channel after the sort ----

Ascends-All : (id lo hi : ℕ) (ms : List Msg) → id ≤ lo → Ascends lo hi ms → All (λ x. id < x.id) ms
Ascends-All id lo hi [] p a = tt
Ascends-All id lo hi (m ∷ ms) p a =
    (omega (arith, a.0), Ascends-All id m.id hi ms (omega (arith, a.0)) a.1)

of_channel-sort_into :
    (cid lo hi : ℕ) (ms acc : List Msg)
    → Ascends lo hi ms
    → All (λ m. m.cid ≡ cid) ms
    → of_channel cid acc ≡ []
    → of_channel cid (sort_into ms acc) ≡ ms
unfolding sort_into
of_channel-sort_into cid lo hi [] acc a own e = e
of_channel-sort_into cid lo hi (m ∷ ms) acc a own e =
    let rest = of_channel-sort_into cid m.id hi ms acc a.1 own.1 e in
    of_channel-own cid m (sort_into ms acc) ((nat_eq_iff m.cid cid).1 own.0)
      (rw rest (Ascends-All m.id m.id hi ms (omega arith) a.1))
    ∙ ap (λ xs. m ∷ xs) rest

of_channel-sort_others :
    (cid other : ℕ) (ms acc : List Msg)
    → nat_eq other cid ≡ false
    → All (λ m. m.cid ≡ other) ms
    → of_channel cid (sort_into ms acc) ≡ of_channel cid acc
unfolding sort_into
of_channel-sort_others cid other [] acc e own = refl
of_channel-sort_others cid other (m ∷ ms) acc e own =
    of_channel-other cid m (sort_into ms acc) (rw own.0 e)
    ∙ of_channel-sort_others cid other ms acc e own.1

of_channel-all_by_id :
    (exists : ℕ → Bool) (hi cid : ℕ) (d : Dict ℕ (List Msg))
    → IsFiled exists hi d
    → of_channel cid (all_by_id d) ≡ list_at (lookup cid d)
unfolding all_by_id lookup of_channel
of_channel-all_by_id exists hi cid [] f = refl
of_channel-all_by_id exists hi cid ((c, ms) ∷ d) (once, rising, own, stored, f) =
    let rest = of_channel-all_by_id exists hi cid d f in
    elim (Bool-cases (nat_eq c cid)) [
      | inr other ↦ rw other (of_channel-sort_others cid c ms (all_by_id d) other own ∙ rest)
      | inl same ↦
          let e : c ≡ cid = (nat_eq_iff c cid).0 same in
          rw same (
            of_channel-sort_into cid 0 hi ms (all_by_id d) rising
              (subst (λ k. All (λ m. m.cid ≡ k) ms) e own)
              (rest ∙ ap list_at (ap (λ k. lookup k d) (sym e) ∙ once)))
    ]

-- Before the cut to `keep`, a compacted log gives for every channel what memory holds.
pub reload-compact_log :
    (exists : ℕ → Bool) (h : Hub)
    → IsFiled exists h.next_id h.msgs
    → (cid : ℕ) → reload exists (compact_log h).log cid ≡ messages h cid
unfolding compact_log reload lookup
reload-compact_log exists h f cid =
    lookup-load_log exists (all_by_id h.msgs) [] cid (IsStored-all_by_id exists h.next_id h.msgs f)
    ∙ of_channel-all_by_id exists h.next_id cid h.msgs f
