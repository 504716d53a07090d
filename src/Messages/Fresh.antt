-- ===== src/Messages/Fresh.antt =====
-- The ids of the messages that a start reads back (code/store.go, `loadMessages`), and of the next one
-- (code/hub.go, `post`).
use back_channel.Prelude.{
  ℕ, ◌+◌, ◌/◌, ◌-◌, ◌≤◌, ◌≡◌, refl, Bool, true, false, not, ◌||◌, List, [], ◌∷◌, ◌++◌, length, ltb,
  nat_eq, ℕ_eq, inl, inr, arith, All, All-append, All-drop, Bool-cases,
}
use mathlib.Core.Path.{subst}
use back_channel.Prelude.Dict.{Dict, lookup, insert, map_entries, lookup-insert}
use back_channel.Prelude.Text.{Text}
use back_channel.Frame.{Msg, Kind}
use back_channel.Hub.{Hub, list_at}
use back_channel.Messages.{
  messages, bury, bury_cons, hit_list, Hit, tomb, is_deleted, load_record, load_kind, load_log,
  load_next_id, load_messages, has_channel, last_kept, compact_log, count_kept,
}
use back_channel.Messages.Recovery.{reload}
use back_channel.Messages.Loading.{messages-load_messages}

-- No id of some messages is above a bound.
abbrev pub Below : ℕ → List Msg → Type 0
Below n ms = All (λ m. m.id ≤ n) ms

-- A hit of a search in messages below a bound.
Bounded : ℕ → Hit → Type 0
Bounded n Hit.missing = Unit
Bounded n (Hit.already orig) = Unit
Bounded n (Hit.changed orig ms) = Below n ms

Bounded-bury_cons :
    (n cid id : ℕ) (by : Text) (m : Msg) (ms : List Msg) (hit : Hit)
    → m.id ≤ n
    → Below n ms
    → Bounded n hit
    → Bounded n (bury_cons cid id by m ms hit)
unfolding bury_cons tomb Bounded
Bounded-bury_cons n cid id by m ms Hit.missing p b q = elim (Bool-cases (nat_eq m.id id)) [
  | inr other ↦ rw other tt
  | inl same ↦ elim (Bool-cases (is_deleted m.t)) [
    | inl gone ↦ rw (same, gone) tt
    | inr live ↦ rw (same, live) (ground arith, b)
  ]
]
Bounded-bury_cons n cid id by m ms (Hit.already orig) p b q = tt
Bounded-bury_cons n cid id by m ms (Hit.changed orig ms') p b q = (p, q)

Bounded-bury :
    (n cid id : ℕ) (by : Text) (ms : List Msg) → Below n ms → Bounded n (bury cid id by ms)
unfolding bury Bounded
Bounded-bury n cid id by [] b = tt
Bounded-bury n cid id by (m ∷ ms) b =
    Bounded-bury_cons n cid id by m ms (bury cid id by ms) b.0 b.1 (Bounded-bury n cid id by ms b.1)

Below-hit_list :
    (n : ℕ) (hit : Hit) (ms : List Msg) → Below n ms → Bounded n hit → Below n (hit_list hit ms)
unfolding Bounded
Below-hit_list n Hit.missing ms b q = b
Below-hit_list n (Hit.already orig) ms b q = b
Below-hit_list n (Hit.changed orig ms') ms b q = q

-- Every channel holds messages below a bound.
abbrev AllBelow : ℕ → Dict ℕ (List Msg) → Type 0
AllBelow n d = (cid : ℕ) → Below n (list_at (lookup cid d))

AllBelow-insert :
    (n k : ℕ) (ms : List Msg) (d : Dict ℕ (List Msg))
    → Below n ms
    → AllBelow n d
    → AllBelow n (insert k ms d)
AllBelow-insert n k ms d b q cid = elim (Bool-cases (nat_eq k cid)) [
  | inl same ↦ rw (lookup-insert k cid ms d, same) b
  | inr other ↦ rw (lookup-insert k cid ms d, other) (q cid)
]

AllBelow-snoc :
    (n : ℕ) (m : Msg) (d : Dict ℕ (List Msg))
    → m.id ≤ n
    → AllBelow n d
    → AllBelow n (insert m.cid (list_at (lookup m.cid d) ++ m ∷ []) d)
AllBelow-snoc n m d p q =
    AllBelow-insert n m.cid _ d
      (All-append (λ x. x.id ≤ n) (list_at (lookup m.cid d)) _ (q m.cid) (p, tt)) q

AllBelow-load_kind :
    (k : Kind) (n : ℕ) (m : Msg) (d : Dict ℕ (List Msg))
    → m.id ≤ n
    → AllBelow n d
    → AllBelow n (load_kind k m d)
unfolding load_kind
AllBelow-load_kind Kind.msg n m d p q = AllBelow-snoc n m d p q
AllBelow-load_kind Kind.file n m d p q = AllBelow-snoc n m d p q
AllBelow-load_kind Kind.deleted n m d p q = AllBelow-snoc n m d p q
AllBelow-load_kind Kind.del n m d p q =
    let ms = list_at (lookup m.cid d) in
    AllBelow-insert n m.cid _ d
      (Below-hit_list n (bury m.cid m.id m.by ms) ms (q m.cid)
        (Bounded-bury n m.cid m.id m.by ms (q m.cid)))
      q
AllBelow-load_kind _ n m d p q = q

AllBelow-load_log :
    (exists : ℕ → Bool) (n : ℕ) (log : List Msg) (d : Dict ℕ (List Msg))
    → Below n log
    → AllBelow n d
    → AllBelow n (load_log exists log d)
unfolding load_log load_record
AllBelow-load_log exists n [] d b q = q
AllBelow-load_log exists n (m ∷ log) d b q =
    elim (Bool-cases (nat_eq m.id 0 || not (exists m.cid))) [
      | inl skipped ↦ rw skipped (AllBelow-load_log exists n log d b.1 q)
      | inr read ↦ rw read (
          AllBelow-load_log exists n log (load_kind m.t m d) b.1
            (AllBelow-load_kind m.t n m d b.0 q))
    ]

load_next_id-ge : (log : List Msg) (next : ℕ) → next ≤ load_next_id log next
unfolding load_next_id
load_next_id-ge [] next = omega arith
load_next_id-ge (m ∷ log) next = elim (Bool-cases (ltb next m.id)) [
  | inl newer ↦ rw newer (let p = load_next_id-ge log m.id in ground arith)
  | inr older ↦ rw older (load_next_id-ge log next)
]

load_next_id-newer :
    (m : Msg) (log : List Msg) (next : ℕ)
    → ltb next m.id ≡ true
    → load_next_id log m.id ≡ load_next_id (m ∷ log) next
unfolding load_next_id
load_next_id-newer m log next e = rw e refl

load_next_id-older :
    (m : Msg) (log : List Msg) (next : ℕ)
    → ltb next m.id ≡ false
    → load_next_id log next ≡ load_next_id (m ∷ log) next
unfolding load_next_id
load_next_id-older m log next e = rw e refl

Below-load_next_id : (log : List Msg) (next : ℕ) → Below (load_next_id log next) log
Below-load_next_id [] next = tt
Below-load_next_id (m ∷ log) next = elim (Bool-cases (ltb next m.id)) [
  | inl newer ↦
      subst (λ n. Below n (m ∷ log)) (load_next_id-newer m log next newer)
        (load_next_id-ge log m.id, Below-load_next_id log m.id)
  | inr older ↦
      let p = load_next_id-ge log next in
      subst (λ n. Below n (m ∷ log)) (load_next_id-older m log next older)
        (ground (arith, p), Below-load_next_id log next)
]

next_id-load_messages : (h : Hub) → (load_messages h).next_id ≡ load_next_id h.log h.next_id
unfolding load_messages compact_log
next_id-load_messages h =
    let cut = map_entries (λ c ms. last_kept h.keep ms) (load_log (has_channel h) h.log []) in
    elim (Bool-cases (ltb (count_kept cut + count_kept cut / 2 + 200) (length h.log))) [
      | inl grown ↦ rw grown refl
      | inr small ↦ rw small refl
    ]

Below-last_kept : (n keep : ℕ) (ms : List Msg) → Below n ms → Below n (last_kept keep ms)
unfolding last_kept
Below-last_kept n keep ms b = elim (Bool-cases (ltb keep (length ms))) [
  | inl many ↦ rw many (All-drop (λ m. m.id ≤ n) (length ms - keep) ms b)
  | inr few ↦ rw few b
]

Below-reload :
    (exists : ℕ → Bool) (n cid : ℕ) (log : List Msg) → Below n log → Below n (reload exists log cid)
unfolding reload lookup
Below-reload exists n cid log b = AllBelow-load_log exists n log [] b (λ k. tt) cid

-- A start never lowers the last id that was given, and afterwards no record of the log that was read and
-- no message in memory has an id above it: the next post, which takes the id after it, takes one that
-- none of them has.
pub load_messages-Below :
    (h : Hub) (cid : ℕ)
    → (h.next_id ≤ (load_messages h).next_id)
      × Below (load_messages h).next_id h.log
      × Below (load_messages h).next_id (messages (load_messages h) cid)
load_messages-Below h cid =
    let b = Below-load_next_id h.log h.next_id in
    rw (next_id-load_messages h, messages-load_messages h cid)
      (
        load_next_id-ge h.log h.next_id,
        b,
        Below-last_kept _ h.keep _ (Below-reload (has_channel h) _ cid h.log b),
      )
