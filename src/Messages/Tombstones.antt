-- ===== src/Messages/Tombstones.antt =====
-- A tombstone replaces one message in place: the order of the ids and the number of messages stay.
use mathlib.Core.Path.{subst}
use back_channel.Prelude.{
  ℕ, suc, ◌+◌, ◌/◌, ◌≤◌, ◌<◌, ◌≡◌, refl, Bool, true, false, List, [], ◌∷◌, length, nat_eq,
  nat_eq_iff, arith, Bool-cases, inl, inr, if◌then◌else◌, ◌==◌, ℕ_eq, eq_self, ap, ◌∙◌,
}
use back_channel.Prelude.Dict.{lookup, lookup-insert, insert}
use back_channel.Prelude.Text.{Text}
use back_channel.Frame.{Msg}
use back_channel.Hub.{Hub, list_at}
use back_channel.Files.Keeps.{SameMessages, SameMessages-unref_file}
use back_channel.Messages.{
  messages, append_log, bury, bury_cons, bury_in, hit_list, Hit, tombstone, is_deleted, has_file,
  del_record,
}
use back_channel.Messages.Order.{Ascends, IsOrdered}

-- A message that is replaced keeps its id, so the order and the number of messages stay.
bury_cons-Ascends :
    (cid id : ℕ) (by : Text) (m : Msg) (ms : List Msg) (hit : Hit) (lo hi : ℕ)
    → lo < m.id
    → Ascends m.id hi ms
    → Ascends m.id hi (hit_list hit ms)
    → Ascends lo hi (hit_list (bury_cons cid id by m ms hit) (m ∷ ms))
unfolding bury_cons
bury_cons-Ascends cid id by m ms Hit.missing lo hi l h ih = elim (Bool-cases (nat_eq m.id id)) [
  | inr other ↦ rw other (l, h)
  | inl same ↦ rw same (elim (Bool-cases (is_deleted m.t)) [
    | inl gone ↦ rw gone (l, h)
    | inr live ↦
        rw live (subst (λ i. (lo < i) × Ascends i hi ms) ((nat_eq_iff m.id id).0 same) (l, h))
  ])
]
bury_cons-Ascends cid id by m ms (Hit.already orig) lo hi l h ih = (l, h)
bury_cons-Ascends cid id by m ms (Hit.changed orig ms') lo hi l h ih = (l, ih)

bury-Ascends :
    (cid id : ℕ) (by : Text) (ms : List Msg) (lo hi : ℕ)
    → Ascends lo hi ms
    → Ascends lo hi (hit_list (bury cid id by ms) ms)
unfolding bury
bury-Ascends cid id by [] lo hi h = h
bury-Ascends cid id by (m ∷ ms) lo hi h =
    bury_cons-Ascends cid id by m ms (bury cid id by ms) lo hi h.0 h.1
      (bury-Ascends cid id by ms m.id hi h.1)

length-bury_cons :
    (cid id : ℕ) (by : Text) (m : Msg) (ms : List Msg) (hit : Hit)
    → length (hit_list hit ms) ≡ length ms
    → length (hit_list (bury_cons cid id by m ms hit) (m ∷ ms)) ≡ suc (length ms)
unfolding bury_cons
length-bury_cons cid id by m ms Hit.missing h = ground arith
length-bury_cons cid id by m ms (Hit.already orig) h = refl
length-bury_cons cid id by m ms (Hit.changed orig ms') h = ap suc h

pub length-bury :
    (cid id : ℕ) (by : Text) (ms : List Msg) → length (hit_list (bury cid id by ms) ms) ≡ length ms
unfolding bury
length-bury cid id by [] = refl
length-bury cid id by (m ∷ ms) =
    length-bury_cons cid id by m ms (bury cid id by ms) (length-bury cid id by ms)

-- Burying changes the messages of one channel, and neither the last id nor the bound.
record Buries (cid : ℕ) (ms : List Msg) (h h' : Hub) : Type 0 where
  here : messages h' cid ≡ ms
  there : (c : ℕ) → (cid == c) ≡ false → messages h' c ≡ messages h c
  next_id : h'.next_id ≡ h.next_id
  keep : h'.keep ≡ h.keep

Buries-SameMessages :
    {cid : ℕ} {ms : List Msg} {h h' h'' : Hub}
    → Buries cid ms h h'
    → SameMessages h' h''
    → Buries cid ms h h''
Buries-SameMessages {cid} {ms} {h} {h'} {h''} b s = record {
  here = ap (λ d. list_at (lookup cid d)) s.msgs ∙ b.here;
  there = λ c ne. ap (λ d. list_at (lookup c d)) s.msgs ∙ b.there c ne;
  next_id = s.next_id ∙ b.next_id;
  keep = s.keep ∙ b.keep;
}

Buries-insert :
    (cid : ℕ) (ms : List Msg) (m : Msg) (h : Hub)
    → Buries cid ms h (append_log m (record h { msgs = insert cid ms h.msgs }))
unfolding append_log
Buries-insert cid ms m h = record {
  here = rw (lookup-insert cid cid ms h.msgs) (rw (eq_self cid));
  there = λ c ne. rw (lookup-insert cid c ms h.msgs) (rw ne);
  next_id = refl;
  keep = refl;
}

Buries-same : (cid : ℕ) (h : Hub) → Buries cid (messages h cid) h h
Buries-same cid h = record { here = refl; there = λ c ne. refl; next_id = refl; keep = refl }

Buries-if :
    (b : Bool) {cid : ℕ} {ms : List Msg} {h h' h'' : Hub}
    → Buries cid ms h h'
    → Buries cid ms h h''
    → Buries cid ms h (if b then h' else h'')
Buries-if true p q = p
Buries-if false p q = q

bury_in-Buries :
    (hit : Hit) (cid id : ℕ) (by : Text) (h : Hub)
    → Buries cid (hit_list hit (messages h cid)) h (bury_in hit cid id by h)
unfolding bury_in
bury_in-Buries Hit.missing cid id by h = Buries-same cid h
bury_in-Buries (Hit.already orig) cid id by h = Buries-same cid h
bury_in-Buries (Hit.changed orig ms) cid id by h =
    let logged : Hub =
      append_log (del_record cid id by) (record h { msgs = insert cid ms h.msgs }) in
    let b : Buries cid ms h logged = Buries-insert cid ms (del_record cid id by) h in
    Buries-if (has_file orig) (Buries-SameMessages b (SameMessages-unref_file orig.fid cid logged))
      b

tombstone-Buries :
    (cid id : ℕ) (by : Text) (h : Hub)
    → Buries cid
        (hit_list (bury cid id by (messages h cid)) (messages h cid))
        h
        (tombstone cid id by h)
unfolding tombstone
tombstone-Buries cid id by h = bury_in-Buries (bury cid id by (messages h cid)) cid id by h

-- If the messages of every channel are in order and within the bound, they still are after a
-- deletion.
pub tombstone-IsOrdered :
    (cid id : ℕ) (by : Text) (h : Hub) → IsOrdered h → IsOrdered (tombstone cid id by h)
tombstone-IsOrdered cid id by h o =
    let b : Buries cid (hit_list (bury cid id by (messages h cid)) (messages h cid)) h
        (tombstone cid id by h) =
      tombstone-Buries cid id by h in
    record {
      ascends = λ c. rw b.next_id (elim (Bool-cases (cid == c)) [
        | inr other ↦ rw (b.there c other) (o.ascends c)
        | inl same ↦
            subst (λ k. Ascends 0 h.next_id (messages (tombstone cid id by h) k))
              ((nat_eq_iff cid c).0 same)
              (rw b.here (bury-Ascends cid id by (messages h cid) 0 h.next_id (o.ascends cid)))
      ]);
      bounded = λ c. rw b.keep (elim (Bool-cases (cid == c)) [
        | inr other ↦ rw (b.there c other) (o.bounded c)
        | inl same ↦
            subst (λ k. length (messages (tombstone cid id by h) k) ≤ h.keep + h.keep / 4)
              ((nat_eq_iff cid c).0 same)
              (rw b.here (rw (length-bury cid id by (messages h cid)) (o.bounded cid)))
      ]);
    }
