-- ===== src/Commands/Channels.antt =====
-- The commands on channels (code/cmds.go, `create`, `delete` and `topic`), with `deleteChannel` and
-- `newChannel` (code/store.go).
use back_channel.Prelude.{
  ℕ, ◌+◌, Bool, true, false, not, Option, none, some, List, [], ◌∷◌, ◌++◌, length, take, leb,
  nat_eq, ◌==◌, ℕ_eq, ℤ_eq, list_eq, is_some, if◌then◌else◌,
}
use back_channel.Prelude.Int.{ℤ, pos}
use back_channel.Prelude.Dict.{Dict, insert, erase, map_entries}
use back_channel.Prelude.Text.{Text, str, to_lower}
use back_channel.Prelude.Decimal.{show_nat}
use back_channel.State.{Channel, ChanRole, Invite, User}
use back_channel.Frame.{Msg, Kind, Code, frame}
use back_channel.Hub.{
  Hub, Conn, has, user_of, chan_by_name, push_conn, set_chan, save, to_chan, audit,
}
use back_channel.Files.{unref_file}
use back_channel.Names.{valid_name}
use back_channel.Limits.Expire.{parse_expire, fmt_expire}
use back_channel.Messages.{has_file, messages, compact_log}
use back_channel.Subs.{drop_sub}
use back_channel.Perms.{Act, can_create_channel}
use back_channel.Commands.{Reply, arg, ok, fail, ch_ctx}
use back_channel.Commands.Members.{chan_info_for, joined}

-- `newChannel`: an empty channel that its creator, if there is one, owns.
abbrev fresh_channel : ℕ → Text → ℤ → ℕ → Channel
fresh_channel id name by now = record {
  id = id;
  name = to_lower name;
  topic = [];
  created_at = now;
  created_by = by;
  retention_days = pos 0;
  expire_sec = pos 0;
  max_file_mb = pos 0;
  msg_rate = pos 0;
  readonly = false;
  is_default = false;
  e2e = false;
  key_epoch = 0;
  members = if by == pos 0 then [] else (by, joined ChanRole.owner now (pos 0)) ∷ [];
  bans = [];
}

unfoldable pub new_channel : Text → ℤ → ℕ → Hub → Hub × Channel
new_channel name by now h =
    let ch = fresh_channel h.st.next_chan name by now in
    (
      set_chan ch (record h {
        st = record h.st { next_chan = h.st.next_chan + 1 };
        ch_by_name = insert ch.name ch.id h.ch_by_name;
      }),
      ch,
    )

abbrev is_on : Text → Bool
is_on s = s == str "on"

-- The channel with what the arguments say of it.
abbrev configured : Channel → ℤ → Msg → Channel
configured ch expire m = record ch {
  topic = arg m "topic";
  readonly = is_on (arg m "readonly");
  expire_sec = expire;
  e2e = is_on (arg m "e2e");
  key_epoch = if is_on (arg m "e2e") then 1 else 0;
}

show_bool : Bool → Text
show_bool true = str "true"
show_bool false = str "false"

create_as : Text → ℤ → Conn → Msg → ℕ → Hub → Reply
unfolding new_channel show_bool
create_as name expire c m now h =
    let u = user_of h c in
    let (h1, blank) = new_channel name c.user.id now h in
    let ch = configured blank expire m in
    let h2 = save (
      audit (some u) (str "create") [] (some ch)
        (str "expire=" ++ fmt_expire ch.expire_sec ++ str " e2e=" ++ show_bool ch.e2e) now
        (set_chan ch h1)) in
    (
      h2,
      record (ok m
          (str "created #" ++ name ++ str " — you are its owner. /invite to bring people in.")) {
            channels = chan_info_for h2 u ch ∷ [];
          },
    )

-- An empty argument is `off`; another must be an expiry time.
create_with : Option ℤ → Text → Conn → Msg → ℕ → Hub → Reply
unfolding create_as
create_with none name c m now h = (h, fail m Code.badarg (str "expire: 10m, 2h, 7d, 1w or off"))
create_with (some expire) name c m now h = create_as name expire c m now h

unfoldable pub create : Conn → Msg → ℕ → Hub → Reply
unfolding create_with
create c m now h =
    let s = h.st.settings in
    let name = to_lower (arg m "name") in
    if not (can_create_channel (user_of h c) s)
    then (
      h,
      fail m Code.perm
          (str "only server admins can create channels here (setting allow_user_channels)"),
    )
    else if not (valid_name name 1 32 false)
    then (h, fail m Code.badarg (str "channel name: 1-32 chars, a-z 0-9 _ -"))
    else if name == str "sent"
    then (h, fail m Code.badarg (str "'sent' is reserved (outbox/sent)"))
    else if is_some (chan_by_name h name)
    then (h, fail m Code.exists (str "#" ++ name ++ str " already exists"))
    else if leb s.max_channels (length h.st.channels)
    then (h, fail m Code.limit (str "channel limit reached"))
    else create_with (parse_expire (arg m "expire")) name c m now h

-- ---- delete ----

-- Every file of the messages loses their references.
unref_all : ℕ → List Msg → Hub → Hub
unref_all cid [] h = h
unref_all cid (x ∷ xs) h = unref_all cid xs (if has_file x then unref_file x.fid cid h else h)

invites_elsewhere : ℕ → Dict Text Invite → Dict Text Invite
invites_elsewhere cid [] = []
invites_elsewhere cid ((code, inv) ∷ rest) =
    let others = invites_elsewhere cid rest in
    if nat_eq inv.channel_id cid then others else (code, inv) ∷ others

-- Every subscribed connection is told, and subscribed no more.
evict : ℕ → Msg → ℕ → Conn → Conn
evict cid ev sid c = if has cid c.subs then push_conn ev (drop_sub cid c) else c

removed_frame : Channel → User → Msg
removed_frame ch by = record (frame Kind.removed) {
  ch = ch.name;
  by = by.name;
  text = str "channel deleted";
}

unfoldable pub delete_channel : Channel → User → ℕ → Hub → Hub
unfolding unref_all invites_elsewhere evict removed_frame
delete_channel ch by now h =
    let h1 = unref_all ch.id (messages h ch.id) h in
    let h2 = record h1 {
      msgs = erase ch.id h1.msgs;
      conns = map_entries (evict ch.id (removed_frame ch by)) h1.conns;
      presence = erase ch.id h1.presence;
      ch_by_name = erase ch.name h1.ch_by_name;
      st = record h1.st {
        invites = invites_elsewhere ch.id h1.st.invites;
        channels = erase ch.id h1.st.channels;
      };
    } in
    compact_log (
      save (
        audit (some by) (str "delete") [] (some ch) (show_nat (length ch.members) ++ str " members")
          now h2))

unfoldable pub delete : Conn → Msg → ℕ → Hub → Reply
unfolding delete_channel
delete c m now h =
    ch_ctx c Act.delete m
      (λ ch rank.
        if not (arg m "confirm" == ch.name)
        then (
          h,
          fail m Code.badarg (
              str "type /delete "
              ++ ch.name
              ++ str " to confirm — this removes all its messages and files"),
        )
        else if ch.is_default
        then (
          h,
          fail m Code.badarg
              (str "can't delete the default channel (change default_channel first)"),
        )
        else (delete_channel ch (user_of h c) now h, ok m (str "deleted #" ++ ch.name)))
      h

-- ---- topic ----

topic_frame : Channel → User → Text → Msg
topic_frame ch u text = record (frame Kind.topic) { ch = ch.name; sender = u.name; text = text }

-- A topic is cut after 200 bytes.
unfoldable pub topic : Conn → Msg → ℕ → Hub → Reply
unfolding topic_frame
topic c m now h =
    ch_ctx c Act.topic m
      (λ ch rank.
        let u = user_of h c in
        let text = take 200 (arg m "text") in
        (
          save (
              audit (some u) (str "topic") [] (some ch) text now
                (to_chan ch.id (topic_frame ch u text) (set_chan (record ch { topic = text }) h))),
          ok m (str "topic set"),
        ))
      h
