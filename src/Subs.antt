-- ===== src/Subs.antt =====
-- Subscriptions and presence (code/hub.go, `subscribe` to `unsubUser`, and the end of `handleConn`).
pub mod Presence
pub mod Keeps
use back_channel.Prelude.{
  ℕ, zero, suc, ◌+◌, ◌-◌, ◌*◌, Bool, true, false, ◌&&◌, not, Option, none, some, List, [], ◌∷◌,
  length, drop, ltb, leb, nat_eq, ◌==◌, ℕ_eq, ℤ_eq, list_eq, or_else, if◌then◌else◌,
}
use back_channel.Prelude.Int.{ℤ, pos, negsuc, ltb_ℤ, ◌*ℤ◌, ◌-ℤ◌, int64}
use back_channel.Prelude.Dict.{Dict, lookup, insert, erase, update}
use back_channel.Prelude.Text.{Text}
use back_channel.State.{Channel, User}
use back_channel.Frame.{Msg, Kind, frame}
use back_channel.Hub.{Hub, Conn, has, push, to_chan, user_of}
use back_channel.Messages.{messages, last_id, first_newer}

abbrev pub replay_cap : ℕ
replay_cap = 400

-- `now - expire_sec * 1000`, or 0 where messages are kept for ever.
unfoldable pub expiry_cut : ℤ → ℕ → ℤ
expiry_cut expire now =
    if ltb_ℤ (pos 0) expire then int64 (pos now -ℤ int64 (expire *ℤ pos 1000)) else pos 0

-- A message as it is replayed.
abbrev replayed : Msg → Msg
replayed m = record m { hist = true; cid = 0 }

live_since : ℤ → List Msg → List Msg
live_since cut [] = []
live_since cut (m ∷ ms) =
    if ltb_ℤ (pos m.ts) cut then live_since cut ms else replayed m ∷ live_since cut ms

-- The index at which a replay starts: the first newer message, but at most `replay_cap` messages.
abbrev replay_from : List Msg → ℕ → ℕ
replay_from ms since =
    let i = first_newer ms since in
    if ltb replay_cap (length ms - i) then length ms - replay_cap else i

-- The frames that a subscription replays.
unfoldable pub replay : List Msg → ℕ → ℤ → List Msg
unfolding live_since
replay ms since cut = live_since cut (drop (replay_from ms since) ms)

unfoldable pub push_all : ℕ → List Msg → Hub → Hub
push_all sid [] h = h
push_all sid (m ∷ ms) h = push_all sid ms (push sid m h)

abbrev pub remove : ℕ → List ℕ → List ℕ
remove cid [] = []
remove cid (x ∷ xs) = if nat_eq x cid then remove cid xs else x ∷ remove cid xs

abbrev add_sub : ℕ → Conn → Conn
add_sub cid c = record c { subs = cid ∷ remove cid c.subs }

abbrev pub drop_sub : ℕ → Conn → Conn
drop_sub cid c = record c { subs = remove cid c.subs }

-- `h.presence[cid]`, and how many of a user's sessions it counts.
abbrev pub present_in : Hub → ℕ → Dict ℤ ℕ
present_in h cid = or_else (lookup cid h.presence) []

abbrev pub present : Hub → ℕ → ℤ → ℕ
present h cid uid = or_else (lookup uid (present_in h cid)) 0

unfoldable pub set_present : ℕ → ℤ → ℕ → Hub → Hub
set_present cid uid n h = record h {
  presence = insert cid (insert uid n (present_in h cid)) h.presence;
}

erase_present : ℕ → ℤ → Hub → Hub
erase_present cid uid h = record h {
  presence = insert cid (erase uid (present_in h cid)) h.presence;
}

join_frame : Text → Text → Msg
join_frame ch name = record (frame Kind.join) { ch = ch; sender = name }

part_frame : Text → Text → Msg
part_frame ch name = record (frame Kind.part) { ch = ch; sender = name }

synced_frame : Text → ℕ → Msg
synced_frame ch last = record (frame Kind.synced) { ch = ch; last = last }

-- The session counts as present; the first session of a user is announced.
arrive : Channel → Conn → User → Hub → Hub
unfolding set_present join_frame
arrive ch c u h =
    let n = present h ch.id c.user.id in
    let h' = set_present ch.id c.user.id (n + 1) h in
    if nat_eq n 0 then to_chan ch.id (join_frame ch.name u.name) h' else h'

unfoldable pub subscribe : ℕ → Conn → Channel → ℕ → ℕ → Hub → Hub
unfolding arrive synced_frame
subscribe sid c ch since now h =
    let h' = record h { conns = update sid (add_sub ch.id) h.conns } in
    let sent = push_all sid (replay (messages h ch.id) since (expiry_cut ch.expire_sec now)) h' in
    arrive ch c (user_of h c) (push sid (synced_frame ch.name (last_id h ch.id)) sent)

announce_part : Option Channel → User → Bool → Hub → Hub
unfolding part_frame
announce_part none u quiet h = h
announce_part (some ch) u quiet h = if quiet then h else to_chan ch.id (part_frame ch.name u.name) h

-- The sessions that are left: none, and the user is announced to have gone unless `quiet`; or some.
depart_to : ℕ → ℕ → Conn → Bool → Hub → Hub
unfolding set_present erase_present announce_part
depart_to zero cid c quiet h =
    announce_part (lookup cid h.st.channels) (user_of h c) quiet (erase_present cid c.user.id h)
depart_to (suc n) cid c quiet h = set_present cid c.user.id (suc n) h

depart_in : Option (Dict ℤ ℕ) → ℕ → Conn → Bool → Hub → Hub
unfolding depart_to
depart_in none cid c quiet h = h
depart_in (some p) cid c quiet h = depart_to (present h cid c.user.id - 1) cid c quiet h

depart : ℕ → Conn → Bool → Hub → Hub
unfolding depart_in
depart cid c quiet h = depart_in (lookup cid h.presence) cid c quiet h

-- `unsub`: `c` is the connection `sid` before the call.
unfoldable pub unsub : ℕ → Conn → ℕ → Bool → Hub → Hub
unfolding depart
unsub sid c cid quiet h =
    if has cid c.subs
    then depart cid c quiet (record h { conns = update sid (drop_sub cid) h.conns })
    else h

-- Every session of a user leaves, and is told why.
unsub_each : List (ℕ × Conn) → ℤ → ℕ → Msg → Bool → Hub → Hub
unfolding unsub
unsub_each [] uid cid why quiet h = h
unsub_each ((sid, c) ∷ rest) uid cid why quiet h =
    unsub_each rest uid cid why quiet
      (if c.user.id == uid then push sid why (unsub sid c cid quiet h) else h)

unfoldable pub unsub_user : ℤ → ℕ → Msg → Bool → Hub → Hub
unfolding unsub_each
unsub_user uid cid why quiet h = unsub_each h.conns uid cid why quiet h

-- The end of a connection: it leaves every channel that it was in, and is gone.
leave_all : List ℕ → ℕ → Conn → Hub → Hub
unfolding unsub
leave_all [] sid c h = h
leave_all (cid ∷ cids) sid c h = leave_all cids sid c (unsub sid c cid false h)

unfoldable pub disconnect : ℕ → Conn → Hub → Hub
unfolding leave_all
disconnect sid c h = let h' = leave_all c.subs sid c h in record h' { conns = erase sid h'.conns }
