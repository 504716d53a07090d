-- ===== src/Messages/Recovery/Steps.antt =====
-- Every operation on the messages keeps the log and the memory together; so does any run of them.
use back_channel.Prelude.{
  ℕ, zero, suc, ◌<◌, ◌≡◌, refl, sym, ap, ◌∙◌, Bool, true, false, List, [], ◌∷◌, ◌++◌, length,
  nat_eq, arith, inl, inr, ◌==◌, ℕ_eq, if◌then◌else◌, Bool-cases, All,
}
use back_channel.Prelude.Dict.{lookup, insert, lookup-insert}
use back_channel.Prelude.Text.{Text}
use back_channel.State.{Channel}
use back_channel.Frame.{Msg}
use back_channel.Hub.{Hub, list_at, to_chan}
use back_channel.Files.Keeps.{SameMessages, SameMessages-unref_file}
use back_channel.Messages.{
  messages, append_log, bury, bury_cons, bury_in, hit_list, Hit, tombstone, has_file, del_record,
  post, stamp, load_record, load_kind, load_log, last_kept,
}
use back_channel.Messages.Order.{Ascends, messages-post, next_id-post, IsOrdered, post-IsOrdered}
use back_channel.Messages.Tombstones.{length-bury, tombstone-IsOrdered}
use back_channel.Messages.Recovery.{
  reload, reload-snoc, IsPosted, load_kind-posted, Covers, IsLogged, Covers-snoc, Covers-trim,
  Covers-bury, Covers-last_kept,
}

module _ (exists : ℕ → Bool) where
  reload-posted :
      (log : List Msg) (m : Msg) (cid : ℕ)
      → IsPosted m.t
      → nat_eq m.id 0 ≡ false
      → exists m.cid ≡ true
      → reload exists (log ++ m ∷ []) cid
        ≡ (if m.cid == cid then reload exists log m.cid ++ m ∷ [] else reload exists log cid)
  unfolding load_record
  reload-posted log m cid p nz ex =
      let d = load_log exists log [] in
      reload-snoc exists log m cid
      ∙ rw nz (
          rw ex (
            rw (load_kind-posted p m d) (
              rw (lookup-insert m.cid cid (list_at (lookup m.cid d) ++ m ∷ []) d)
                (unfold reload in ground arith))))

  reload-del :
      (log : List Msg) (cid' id : ℕ) (by : Text) (cid : ℕ)
      → nat_eq id 0 ≡ false
      → exists cid' ≡ true
      → reload exists (log ++ del_record cid' id by ∷ []) cid ≡ (
          if cid' == cid
          then hit_list (bury cid' id by (reload exists log cid')) (reload exists log cid')
          else reload exists log cid)
  unfolding load_record load_kind
  reload-del log cid' id by cid nz ex =
      let d = load_log exists log [] in
      let ms = list_at (lookup cid' d) in
      reload-snoc exists log (del_record cid' id by) cid
      ∙ rw nz (
          rw ex (
            rw (lookup-insert cid' cid (hit_list (bury cid' id by ms) ms) d)
              (unfold reload in ground arith)))

  log-post :
      (ch : Channel) (m : Msg) (now : ℕ) (h : Hub)
      → (post ch m now h).log ≡ h.log ++ stamp h ch m now ∷ []
  unfolding post append_log to_chan
  log-post ch m now h = refl

  Covers-at :
      (keep : ℕ) (b : Bool) (full full' ms ms' : List Msg)
      → Covers keep full ms
      → Covers keep full' ms'
      → Covers keep (if b then full else full') (if b then ms else ms')
  Covers-at keep true full full' ms ms' p q = p
  Covers-at keep false full full' ms ms' p q = q

  -- Posting a message or a file in a channel that exists keeps log and memory together.
  pub post-IsLogged :
      (ch : Channel) (m : Msg) (now : ℕ) (h : Hub)
      → IsPosted m.t
      → exists ch.id ≡ true
      → IsLogged exists h
      → IsLogged exists (post ch m now h)
  post-IsLogged ch m now h p ex l = record {
    covers = λ cid ex'. rw (log-post ch m now h) (
        rw (next_id-post ch m now h).1 (
          rw (messages-post ch m now h cid) (
            rw (reload-posted h.log (stamp h ch m now) cid p (ground arith) ex) (
              Covers-at h.keep (ch.id == cid) _ _ _ _
                (Covers-trim h.keep _ _ (Covers-snoc h.keep _ _ _ (l.covers ch.id ex)))
                (l.covers cid ex')))));
  }

  -- What logging a deletion leaves: the same hub as far as the messages and the log go.
  log-buried :
      (orig : Msg) (ms : List Msg) (cid id : ℕ) (by : Text) (h : Hub)
      → SameMessages
          (append_log (del_record cid id by) (record h { msgs = insert cid ms h.msgs }))
          (bury_in (Hit.changed orig ms) cid id by h)
  unfolding bury_in
  log-buried orig ms cid id by h = elim (Bool-cases (has_file orig)) [
    | inl file ↦ rw file (SameMessages-unref_file orig.fid cid _)
    | inr plain ↦ rw plain (record { msgs = refl; next_id = refl; keep = refl; log = refl })
  ]

  bury_in-IsLogged :
      (hit : Hit) (cid id : ℕ) (by : Text) (h : Hub)
      → bury cid id by (messages h cid) ≡ hit
      → nat_eq id 0 ≡ false
      → exists cid ≡ true
      → IsLogged exists h
      → IsLogged exists (bury_in hit cid id by h)
  bury_in-IsLogged Hit.missing cid id by h e nz ex l = unfold bury_in in l
  bury_in-IsLogged (Hit.already orig) cid id by h e nz ex l = unfold bury_in in l
  bury_in-IsLogged (Hit.changed orig ms) cid id by h e nz ex l =
      let s : SameMessages
          (append_log (del_record cid id by) (record h { msgs = insert cid ms h.msgs }))
          (bury_in (Hit.changed orig ms) cid id by h) =
        log-buried orig ms cid id by h in
      let len : length ms ≡ length (messages h cid) =
        ap (λ hit. length (hit_list hit (messages h cid))) (sym e)
        ∙ length-bury cid id by (messages h cid) in
      record {
        covers = λ c ex'. rw s.log (
            rw s.keep (
              rw s.msgs (
                unfold append_log in
                rw (lookup-insert cid c ms h.msgs) (
                  rw (reload-del h.log cid id by c nz ex) (elim (Bool-cases (cid == c)) [
                    | inr other ↦ rw other (l.covers c ex')
                    | inl same ↦ rw same (
                        Covers-bury h.keep _ (messages h cid) ms cid id by orig len e
                          (l.covers cid ex))
                  ])))));
      }

  bury_cons-zero :
      (cid : ℕ) (by : Text) (m : Msg) (ms : List Msg)
      → 0 < m.id
      → bury_cons cid 0 by m ms Hit.missing ≡ Hit.missing
  unfolding bury_cons
  bury_cons-zero cid by m ms h = ground arith

  -- No message has the id 0.
  bury-zero :
      (cid : ℕ) (by : Text) (ms : List Msg) (lo hi : ℕ)
      → Ascends lo hi ms
      → bury cid 0 by ms ≡ Hit.missing
  unfolding bury
  bury-zero cid by [] lo hi h = refl
  bury-zero cid by (m ∷ ms) lo hi h =
      ap (bury_cons cid 0 by m ms) (bury-zero cid by ms m.id hi h.1)
      ∙ bury_cons-zero cid by m ms (omega arith)

  -- A deletion in a channel that exists keeps log and memory together.
  pub tombstone-IsLogged :
      (cid id : ℕ) (by : Text) (h : Hub)
      → exists cid ≡ true
      → IsOrdered h
      → IsLogged exists h
      → IsLogged exists (tombstone cid id by h)
  unfolding tombstone
  tombstone-IsLogged cid zero by h ex o l =
      rw (bury-zero cid by (messages h cid) 0 h.next_id (o.ascends cid)) (unfold bury_in in l)
  tombstone-IsLogged cid (suc id) by h ex o l =
      bury_in-IsLogged _ cid (suc id) by h refl (ground arith) ex l

-- What clients do to the messages of channels that exist.
pub data Op : Type 0 where
  posts : Channel → Msg → ℕ → Op
  deletes : ℕ → ℕ → Text → Op

pub apply : Op → Hub → Hub
apply (posts ch m now) h = post ch m now h
apply (deletes cid id by) h = tombstone cid id by h

pub run : List Op → Hub → Hub
unfolding apply
run [] h = h
run (op ∷ ops) h = run ops (apply op h)

abbrev pub IsUsual : (ℕ → Bool) → Op → Type 0
IsUsual exists (posts ch m now) = IsPosted m.t × (exists ch.id ≡ true)
IsUsual exists (deletes cid id by) = exists cid ≡ true

apply-IsLogged :
    (exists : ℕ → Bool) (op : Op) (h : Hub)
    → IsUsual exists op
    → IsOrdered h
    → IsLogged exists h
    → IsLogged exists (apply op h)
unfolding apply
apply-IsLogged exists (posts ch m now) h u o l = post-IsLogged exists ch m now h u.0 u.1 l
apply-IsLogged exists (deletes cid id by) h u o l = tombstone-IsLogged exists cid id by h u o l

apply-IsOrdered : (op : Op) (h : Hub) → IsOrdered h → IsOrdered (apply op h)
unfolding apply
apply-IsOrdered (posts ch m now) h o = post-IsOrdered ch m now h o
apply-IsOrdered (deletes cid id by) h o = tombstone-IsOrdered cid id by h o

-- From a hub whose log and memory belong together and whose messages are in order, after any run of
-- posts of messages or files and of deletions, in channels that exist: the last `keep` messages of a
-- channel in memory, tombstones included, are the last `keep` that loading the log gives; their ids
-- rise, and at most `keep` and a quarter are held.
pub run_recovers :
    (exists : ℕ → Bool) (ops : List Op) (h : Hub)
    → All (IsUsual exists) ops
    → IsOrdered h
    → IsLogged exists h
    → IsOrdered (run ops h)
      × ((cid : ℕ)
          → exists cid ≡ true
          → last_kept (run ops h).keep (reload exists (run ops h).log cid)
            ≡ last_kept (run ops h).keep (messages (run ops h) cid))
unfolding run
run_recovers exists [] h u o l =
    (o, λ cid ex. Covers-last_kept h.keep _ (messages h cid) (l.covers cid ex))
run_recovers exists (op ∷ ops) h u o l =
    run_recovers exists ops (apply op h) u.1 (apply-IsOrdered op h o)
      (apply-IsLogged exists op h u.0 o l)
