-- ===== src/Messages.antt =====
-- The messages in memory and in the log (code/hub.go, `post`; code/store.go, `loadMessages` to
-- `unreadCount`; code/cmds.go, `tombstone`).
pub mod Order
pub mod Tombstones
pub mod Unread
pub mod Recovery
pub mod Compaction
pub mod Loading
pub mod Fresh
use back_channel.Prelude.{
  ℕ, zero, suc, ◌+◌, ◌-◌, ◌/◌, Bool, true, false, ◌&&◌, ◌||◌, not, Option, none, some, List, [],
  ◌∷◌, ◌++◌, length, drop, ltb, leb, nat_eq, ◌==◌, ℕ_eq, list_eq, is_some, if◌then◌else◌,
}
use back_channel.Prelude.Dict.{Dict, lookup, insert, map_entries}
use back_channel.Prelude.Text.{Text}
use back_channel.State.{Channel}
use back_channel.Frame.{Msg, Kind, frame}
use back_channel.Hub.{Hub, list_at, to_chan}
use back_channel.Hub.Search.{search}
use back_channel.Files.{unref_file}

abbrev pub is_file : Kind → Bool
is_file Kind.file = true
is_file _ = false

abbrev pub is_deleted : Kind → Bool
is_deleted Kind.deleted = true
is_deleted _ = false

abbrev is_empty : Text → Bool
is_empty [] = true
is_empty (c ∷ s) = false

-- Whether a message refers to a stored file.
abbrev pub has_file : Msg → Bool
has_file m = is_file m.t && not (is_empty m.fid)

abbrev pub messages : Hub → ℕ → List Msg
messages h cid = list_at (lookup cid h.msgs)

abbrev last_id_of : List Msg → ℕ
last_id_of [] = 0
last_id_of (m ∷ []) = m.id
last_id_of (m ∷ n ∷ ms) = last_id_of (n ∷ ms)

unfoldable pub last_id : Hub → ℕ → ℕ
last_id h cid = last_id_of (messages h cid)

-- `ms[i].ID > since`, for an index in range.
abbrev pub newer_at : List Msg → ℕ → ℕ → Bool
newer_at [] since i = true
newer_at (m ∷ ms) since zero = ltb since m.id
newer_at (m ∷ ms) since (suc i) = newer_at ms since i

-- The index of the first message after `since`.
unfoldable pub first_newer : List Msg → ℕ → ℕ
first_newer ms since = search (length ms) (newer_at ms since)

count_live : List Msg → ℕ
count_live [] = 0
count_live (m ∷ ms) = (if is_deleted m.t then 0 else 1) + count_live ms

unfoldable pub unread_count : Hub → ℕ → ℕ → ℕ
unfolding count_live first_newer
unread_count h cid since = let ms = messages h cid in count_live (drop (first_newer ms since) ms)

unfoldable pub append_log : Msg → Hub → Hub
append_log m h = record h { log = h.log ++ m ∷ [] }

-- The last `keep` messages once there are more than a quarter too many.
unfoldable pub trim_kept : ℕ → List Msg → List Msg
trim_kept keep ms = if ltb (keep + keep / 4) (length ms) then drop (length ms - keep) ms else ms

-- The message as it is stored: with the next id, the time, and its channel.
abbrev pub stamp : Hub → Channel → Msg → ℕ → Msg
stamp h ch m now = record m { id = h.next_id + 1; ts = now; ch = ch.name; cid = ch.id }

unfoldable pub post : Channel → Msg → ℕ → Hub → Hub
unfolding trim_kept append_log
post ch m now h =
    let m' = stamp h ch m now in
    let kept = trim_kept h.keep (messages h ch.id ++ m' ∷ []) in
    to_chan ch.id (record m' { cid = 0 })
      (append_log m' (record h { next_id = h.next_id + 1; msgs = insert ch.id kept h.msgs }))

-- ---- tombstones ----

-- A search for a message: it is not there, is deleted already, or was found and replaced.
pub data Hit : Type 0 where
  missing : Hit
  already : Msg → Hit
  changed : Msg → List Msg → Hit

unfoldable pub tomb : ℕ → ℕ → Text → Msg → Msg
tomb cid id by m = record (frame Kind.deleted) {
  ch = m.ch;
  cid = cid;
  id = id;
  ts = m.ts;
  sender = m.sender;
  by = by;
}

-- The oldest of some messages is looked at once the search in the newer ones is over.
bury_cons : ℕ → ℕ → Text → Msg → List Msg → Hit → Hit
unfolding tomb
bury_cons cid id by m ms Hit.missing =
    if nat_eq m.id id
    then if is_deleted m.t then Hit.already m else Hit.changed m (tomb cid id by m ∷ ms)
    else Hit.missing
bury_cons cid id by m ms (Hit.already orig) = Hit.already orig
bury_cons cid id by m ms (Hit.changed orig ms') = Hit.changed orig (m ∷ ms')

-- From the newest message to the oldest.
unfoldable pub bury : ℕ → ℕ → Text → List Msg → Hit
unfolding bury_cons
bury cid id by [] = Hit.missing
bury cid id by (m ∷ ms) = bury_cons cid id by m ms (bury cid id by ms)

-- The `del` record of the log.
abbrev pub del_record : ℕ → ℕ → Text → Msg
del_record cid id by = record (frame Kind.del) { cid = cid; id = id; by = by }

bury_in : Hit → ℕ → ℕ → Text → Hub → Hub
unfolding append_log
bury_in Hit.missing cid id by h = h
bury_in (Hit.already orig) cid id by h = h
bury_in (Hit.changed orig ms) cid id by h =
    let h' = append_log (del_record cid id by) (record h { msgs = insert cid ms h.msgs }) in
    if has_file orig then unref_file orig.fid cid h' else h'

-- `tombstone`: the body is replaced in memory, the deletion is logged, and a file loses a reference.
unfoldable pub tombstone : ℕ → ℕ → Text → Hub → Hub
unfolding bury bury_in
tombstone cid id by h = bury_in (bury cid id by (messages h cid)) cid id by h

-- ---- compaction ----

unfoldable insert_by_id : Msg → List Msg → List Msg
insert_by_id m [] = m ∷ []
insert_by_id m (x ∷ xs) = if ltb x.id m.id then x ∷ insert_by_id m xs else m ∷ x ∷ xs

unfoldable sort_into : List Msg → List Msg → List Msg
unfolding insert_by_id
sort_into [] acc = acc
sort_into (m ∷ ms) acc = insert_by_id m (sort_into ms acc)

-- The messages of all channels, by their ids.
unfoldable all_by_id : Dict ℕ (List Msg) → List Msg
unfolding sort_into
all_by_id [] = []
all_by_id ((cid, ms) ∷ rest) = sort_into ms (all_by_id rest)

-- `compactLog`: the log is written anew, with what is in memory.
unfoldable pub compact_log : Hub → Hub
unfolding all_by_id
compact_log h = record h { log = all_by_id h.msgs }

-- ---- loading the log ----

abbrev hit_list : Hit → List Msg → List Msg
hit_list Hit.missing ms = ms
hit_list (Hit.already orig) ms = ms
hit_list (Hit.changed orig ms') ms = ms'

load_kind : Kind → Msg → Dict ℕ (List Msg) → Dict ℕ (List Msg)
unfolding bury
load_kind Kind.msg m msgs = insert m.cid (list_at (lookup m.cid msgs) ++ m ∷ []) msgs
load_kind Kind.file m msgs = insert m.cid (list_at (lookup m.cid msgs) ++ m ∷ []) msgs
load_kind Kind.deleted m msgs = insert m.cid (list_at (lookup m.cid msgs) ++ m ∷ []) msgs
load_kind Kind.del m msgs =
    let ms = list_at (lookup m.cid msgs) in
    insert m.cid (hit_list (bury m.cid m.id m.by ms) ms) msgs
load_kind _ m msgs = msgs

-- One record of the log, for the channels that still exist.
unfoldable pub load_record : (ℕ → Bool) → Msg → Dict ℕ (List Msg) → Dict ℕ (List Msg)
unfolding load_kind
load_record exists m msgs =
    if nat_eq m.id 0 || not (exists m.cid) then msgs else load_kind m.t m msgs

unfoldable pub load_log : (ℕ → Bool) → List Msg → Dict ℕ (List Msg) → Dict ℕ (List Msg)
unfolding load_record
load_log exists [] msgs = msgs
load_log exists (m ∷ log) msgs = load_log exists log (load_record exists m msgs)

-- The greatest id in the log, also of records of deleted channels.
unfoldable pub load_next_id : List Msg → ℕ → ℕ
load_next_id [] next = next
load_next_id (m ∷ log) next = load_next_id log (if ltb next m.id then m.id else next)

-- The last `keep` messages.
unfoldable pub last_kept : ℕ → List Msg → List Msg
last_kept keep ms = if ltb keep (length ms) then drop (length ms - keep) ms else ms

abbrev pub has_channel : Hub → ℕ → Bool
has_channel h cid = is_some (lookup cid h.st.channels)

unfoldable count_kept : Dict ℕ (List Msg) → ℕ
count_kept [] = 0
count_kept ((cid, ms) ∷ d) = length ms + count_kept d

-- `loadMessages`: the log is read, each channel is cut to its last `keep` messages, and a log that has
-- grown well past them is compacted.
unfoldable pub load_messages : Hub → Hub
unfolding load_log load_next_id last_kept count_kept compact_log
load_messages h =
    let msgs = map_entries (λ cid ms. last_kept h.keep ms) (load_log (has_channel h) h.log []) in
    let kept = count_kept msgs in
    let h' = record h { msgs = msgs; next_id = load_next_id h.log h.next_id } in
    if ltb (kept + kept / 2 + 200) (length h.log) then compact_log h' else h'
