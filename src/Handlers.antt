-- ===== src/Handlers.antt =====
-- The handlers of frames (code/hub.go, `handleSub` to `handleRead`). `sid` is the connection that a
-- frame came in on, and `c` that connection before the call.
pub mod Hidden
pub mod Posting
use back_channel.Prelude.{
  ℕ, ◌+◌, ◌-◌, ◌/◌, Bool, true, false, ◌&&◌, ◌||◌, not, Option, none, some, [], ◌∷◌, ◌++◌, length,
  ltb, leb, nat_eq, ◌==◌, ℕ_eq, ℤ_eq, list_eq, if◌then◌else◌,
}
use back_channel.Prelude.Int.{ℤ, pos, ltb_ℤ, ◌-ℤ◌}
use back_channel.Prelude.Dict.{Dict, lookup, insert, update, map_entries}
use back_channel.Prelude.Text.{Text, str, trim_space, to_lower}
use back_channel.Prelude.Decimal.{show_nat, show_int}
use back_channel.State.{Channel, Membership, User, DeviceKey}
use back_channel.Frame.{Msg, Kind, Code, frame, err_nochan, err_frame}
use back_channel.Hub.{
  Hub, Conn, has, push, push_conn, to_user, chan_for, user_of, user_by_name, set_chan, mark_dirty,
}
use back_channel.Limits.Bucket.{Key, allow_rate, per_second, tokens_of}
use back_channel.Limits.Rates.{lim, msg_rate_for, max_msg_bytes, note_rate_hit}
use back_channel.Messages.{post}
use back_channel.Perms.{rank_in, rank_none, rank_readonly, can_send}
use back_channel.Subs.{subscribe, present, set_present, drop_sub}

abbrev pub is_blank : Text → Bool
is_blank [] = true
is_blank (c ∷ s) = false

-- ---- sub ----

-- A channel that is subscribed to already is left without a word, and entered again.
sub_to : Option Channel → ℕ → Conn → Msg → ℕ → Hub → Hub
sub_to none sid c m now h = push sid (err_nochan m.rid m.ch) h
sub_to (some ch) sid c m now h =
    if has ch.id c.subs
    then subscribe sid (drop_sub ch.id c) ch m.since now (
        set_present ch.id c.user.id (present h ch.id c.user.id - 1)
          (record h { conns = update sid (drop_sub ch.id) h.conns }))
    else subscribe sid c ch m.since now h

-- A guest sees no channel but the default one.
unfoldable pub handle_sub : ℕ → Conn → Msg → ℕ → Hub → Hub
unfolding sub_to
handle_sub sid c m now h =
    if c.guest
      && not (is_blank m.ch)
      && not (to_lower m.ch == to_lower h.st.settings.default_channel)
    then push sid (err_nochan m.rid m.ch) h
    else sub_to (chan_for h (user_of h c) m.ch) sid c m now h

-- ---- msg ----

-- `humanDur`, of a number of milliseconds.
unfoldable pub human_dur : ℤ → Text
human_dur (ℤ.negsuc n) = show_int (pos 0 -ℤ pos ((n + 1) / 1000)) ++ str "s"
human_dur (ℤ.pos d) =
    if ltb d 60_000
    then show_nat (d / 1000) ++ str "s"
    else if ltb d 3_600_000
    then show_nat (d / 60_000) ++ str "m"
    else if ltb d 172_800_000
    then show_nat (d / 3_600_000) ++ str "h"
    else show_nat (d / 86_400_000) ++ str "d"

abbrev too_long_text : Hub → Text → Text
too_long_text h what = what ++ show_nat (lim h).max_msg_kb ++ str " KB)"

abbrev denied_frame : Msg → Channel → ℕ → Msg
denied_frame m ch rank =
    if ch.readonly || nat_eq rank rank_readonly
    then err_frame Code.readonly m ch.name (str "#" ++ ch.name ++ str " is read-only for you")
    else err_frame Code.perm m ch.name (str "you can't post in #" ++ ch.name)

abbrev muted_frame : Msg → Channel → ℤ → ℕ → Msg
muted_frame m ch until now =
    record (err_frame Code.muted m ch.name (
      str "you are muted in #" ++ ch.name ++ str " for another " ++ human_dur (until -ℤ pos now))) {
        until = until;
      }

abbrev pub mute_end : Option Membership → ℤ
mute_end none = pos 0
mute_end (some mem) = mem.muted_until

-- `ch.Members[uid] != nil && MutedUntil > now`
abbrev pub is_muted : Channel → ℤ → ℕ → Bool
is_muted ch uid now = ltb_ℤ (pos now) (mute_end (lookup uid ch.members))

abbrev chat_frame : User → Msg → Msg
chat_frame u m = record (frame Kind.msg) { sender = u.name; text = m.text; epoch = m.epoch }

-- The limiter has answered: the message is posted, or the refusal is noted.
posted : Bool → ℕ → User → Channel → Msg → ℕ → Hub → Hub
posted true sid u ch m now h = post ch (chat_frame u m) now h
posted false sid u ch m now h =
    (note_rate_hit u ch now
      (push sid (err_frame Code.ratelimit m ch.name (str "slow down — rate limited")) h)).1

-- The message passes the limiter of its user and channel.
rated : ℕ → User → Channel → Msg → ℕ → Hub → Hub
unfolding posted
rated sid u ch m now h =
    let (rate, burst) = msg_rate_for h u ch (rank_in u ch) in
    let (granted, l) =
      allow_rate h.msg_lim (Key.chat u.id ch.id) (per_second rate) (tokens_of burst)
        (tokens_of 1000) now in
    posted granted sid u ch m now (record h { msg_lim = l })

msg_to : Option Channel → ℕ → User → Msg → ℕ → Hub → Hub
unfolding rated
msg_to none sid u m now h = push sid (err_nochan m.rid m.ch) h
msg_to (some ch) sid u m now h =
    if ltb_ℤ (max_msg_bytes h) (pos (length m.text))
    then push sid
        (err_frame Code.toolong m ch.name (too_long_text h (str "message too long (max "))) h
    else if not (can_send (rank_in u ch) ch)
    then push sid (denied_frame m ch (rank_in u ch)) h
    else if is_muted ch u.id now
    then push sid (muted_frame m ch (mute_end (lookup u.id ch.members)) now) h
    else rated sid u ch m now h

unfoldable pub handle_msg : ℕ → Conn → Msg → ℕ → Hub → Hub
unfolding msg_to
handle_msg sid c m now h =
    if is_blank (trim_space m.text)
    then h
    else msg_to (chan_for h (user_of h c) m.ch) sid (user_of h c) m now h

-- ---- keyreq and keyshare ----

-- A frame to every connection that passes a test.
abbrev relay : (ℕ → Conn → Bool) → Msg → Hub → Hub
relay to m h = record h {
  conns = map_entries (λ sid c. if to sid c then push_conn m c else c) h.conns;
}

abbrev key_of : Option (Dict Text DeviceKey) → Text → Text
key_of none device = []
key_of (some keys) device = elim (lookup device keys) [ none ↦ [] | some k ↦ k.public_key ]

abbrev keyreq_frame : Hub → Conn → User → Channel → Msg → Msg
keyreq_frame h c u ch m = record (frame Kind.keyreq) {
  ch = ch.name;
  epoch = m.epoch;
  from_user = u.name;
  from_dev = c.device;
  from_pub = key_of (lookup c.user.id h.st.device_keys) c.device;
}

keyreq_to : Option Channel → ℕ → Conn → Msg → ℕ → Hub → Hub
keyreq_to none sid c m now h = h
keyreq_to (some ch) sid c m now h =
    if not ch.e2e
    then h
    else let (granted, l) =
        allow_rate h.msg_lim (Key.keyreq c.user.id) (per_second (lim h).msg_rate)
          (tokens_of (lim h).msg_burst) (tokens_of 1000) now in
      let h' = record h { msg_lim = l } in
      if granted
      then relay (λ other o. not (nat_eq other sid) && has ch.id o.subs)
          (keyreq_frame h c (user_of h c) ch m) h'
      else h'

unfoldable pub handle_key_req : ℕ → Conn → Msg → ℕ → Hub → Hub
unfolding keyreq_to
handle_key_req sid c m now h = keyreq_to (chan_for h (user_of h c) m.ch) sid c m now h

abbrev keyshare_frame : Channel → Msg → Msg
keyshare_frame ch m = record (frame Kind.keyshare) {
  ch = ch.name;
  epoch = m.epoch;
  to_user = m.to_user;
  to_device = m.to_device;
  from_pub = m.from_pub;
  wrapped = m.wrapped;
}

share_with : Option User → Channel → Msg → Hub → Hub
share_with none ch m h = h
share_with (some target) ch m h =
    if nat_eq (rank_in target ch) rank_none
    then h
    else relay (λ other o. (o.user.id == target.id) && (o.device == m.to_device))
        (keyshare_frame ch m) h

keyshare_to : Option Channel → Msg → Hub → Hub
unfolding share_with
keyshare_to none m h = h
keyshare_to (some ch) m h = if ch.e2e then share_with (user_by_name h m.to_user) ch m h else h

unfoldable pub handle_key_share : ℕ → Conn → Msg → Hub → Hub
unfolding keyshare_to
handle_key_share sid c m h = keyshare_to (chan_for h (user_of h c) m.ch) m h

-- ---- clip and read ----

abbrev clip_frame : Conn → Msg → Msg
clip_frame c m = record (frame Kind.clip) { sender = c.device; text = m.text }

unfoldable pub handle_clip : ℕ → Conn → Msg → ℕ → Hub → Hub
handle_clip sid c m now h =
    if is_blank m.text
    then h
    else if ltb_ℤ (max_msg_bytes h) (pos (length m.text))
    then push sid
        (err_frame Code.toolong m [] (too_long_text h (str "clipboard too large to sync (max "))) h
    else let (granted, l) =
        allow_rate h.msg_lim (Key.clip c.user.id) (per_second (lim h).msg_rate)
          (tokens_of (lim h).msg_burst) (tokens_of 1000) now in
      let h' = record h { msg_lim = l } in
      if granted
      then to_user c.user.id (clip_frame c m) (some sid) h'
      else push sid (err_frame Code.ratelimit m [] (str "clipboard sync rate limited")) h'

abbrev read_frame : Channel → ℕ → Msg
read_frame ch id = record (frame Kind.read) { ch = ch.name; id = id }

mark_read : Option Membership → Channel → ℕ → Conn → ℕ → Hub → Hub
mark_read none ch sid c id h = h
mark_read (some mem) ch sid c id h =
    if leb id mem.last_read
    then h
    else to_user c.user.id (read_frame ch id) (some sid) (
        mark_dirty (
          set_chan
            (record ch { members = insert c.user.id (record mem { last_read = id }) ch.members })
            h))

read_in : Option Channel → ℕ → Conn → ℕ → Hub → Hub
unfolding mark_read
read_in none sid c id h = h
read_in (some ch) sid c id h = mark_read (lookup c.user.id ch.members) ch sid c id h

unfoldable pub handle_read : ℕ → Conn → Msg → Hub → Hub
unfolding read_in
handle_read sid c m h =
    if c.guest || nat_eq m.id 0 then h else read_in (chan_for h (user_of h c) m.ch) sid c m.id h
