-- ===== src/Commands/Members.antt =====
-- The commands on members (code/cmds.go, `handleCmd`): `leave`, `add`, `kick`, `ban` and `unban`.
pub mod Bans
use back_channel.Prelude.{
  ℕ, ◌+◌, ◌-◌, Bool, true, false, ◌&&◌, ◌||◌, not, Option, none, some, List, [], ◌∷◌, ◌++◌, ltb,
  leb, nat_eq, ◌==◌, ℤ_eq, list_eq, or_else, is_some, if◌then◌else◌,
}
use back_channel.Prelude.Int.{ℤ, pos, ltb_ℤ, ◌+ℤ◌, ◌*ℤ◌, int64}
use back_channel.Prelude.Dict.{Dict, lookup, insert, erase}
use back_channel.Prelude.Text.{Text, str}
use back_channel.Prelude.Decimal.{show_int}
use back_channel.State.{Channel, ChanRole, Membership, Ban, User, Status}
use back_channel.Frame.{Msg, Kind, Code, ChanInfo, frame}
use back_channel.Hub.{Hub, Conn, user_of, user_by_name, set_chan, save, to_chan, to_user, audit}
use back_channel.Messages.{last_id, unread_count}
use back_channel.Subs.{unsub_user}
use back_channel.Perms.{Act, role_rank, rank_srv_admin, srv_rank, srv_guest}
use back_channel.Commands.{
  Reply, arg, atoi, ok, fail, ch_ctx, target, in_chan, is_owner, read_role, show_role, no_member,
}

unfoldable pub set_member : ℤ → Membership → Channel → Channel
set_member uid mem ch = record ch { members = insert uid mem ch.members }

unfoldable pub drop_member : ℤ → Channel → Channel
drop_member uid ch = record ch { members = erase uid ch.members }

info_role : Option Membership → User → Text
info_role none u = if nat_eq (srv_rank u) srv_guest then str "guest" else []
info_role (some mem) u = show_role mem.role

info_unread : Option Membership → Hub → Channel → ℕ
info_unread none h ch = 0
info_unread (some mem) h ch = unread_count h ch.id mem.last_read

-- `chanInfoFor`
unfoldable pub chan_info_for : Hub → User → Channel → ChanInfo
unfolding info_role info_unread
chan_info_for h u ch =
    let mem = lookup u.id ch.members in
    record {
      name = ch.name;
      topic = ch.topic;
      role = info_role mem u;
      unread = info_unread mem h ch;
      last = last_id h ch.id;
      readonly = ch.readonly;
      members = back_channel.Prelude.length ch.members;
      is_default = ch.is_default;
      expire = ch.expire_sec;
      e2e = ch.e2e;
      epoch = ch.key_epoch;
    }

-- ---- leave and add ----

leave_as : Option Membership → Channel → Conn → Msg → Hub → Reply
unfolding set_member drop_member
leave_as none ch c m h = (
  h,
  fail m Code.badarg
      (in_chan (str "you're not a member of ") ch ++ str " (server admins see every channel)"),
)
leave_as (some mem) ch c m h =
    if is_owner mem.role
    then (
      h,
      fail m Code.badarg
          (in_chan (str "you own ") ch ++ str ": /transfer NAME first, or /delete it"),
    )
    else (
      unsub_user c.user.id ch.id
          (record (frame Kind.removed) { ch = ch.name; text = str "you left" }) false
          (save (set_chan (drop_member c.user.id ch) h)),
      ok m (in_chan (str "left ") ch),
    )

unfoldable pub leave : Conn → Msg → Hub → Reply
unfolding leave_as
leave c m h = ch_ctx c Act.read m (λ ch rank. leave_as (lookup c.user.id ch.members) ch c m h) h

abbrev pub is_active : Status → Bool
is_active Status.active = true
is_active _ = false

-- A new member, invited by `by`.
abbrev pub joined : ChanRole → ℕ → ℤ → Membership
joined role now by = record {
  role = role;
  joined_at = now;
  invited_by = by;
  muted_until = pos 0;
  last_read = 0;
}

abbrev cannot_add : Msg → Msg
cannot_add m = fail m Code.notfound (str "can't add that user")

add_user : Option User → Channel → Conn → Msg → ℕ → Hub → Reply
unfolding set_member
add_user none ch c m now h = (h, cannot_add m)
add_user (some t) ch c m now h =
    if not (is_active t.status)
    then (h, cannot_add m)
    else if is_some (lookup t.id ch.bans)
    then (
      h,
      fail m Code.perm (in_chan (t.name ++ str " is banned from ") ch ++ str " — /unban first"),
    )
    else if is_some (lookup t.id ch.members)
    then (h, ok m (in_chan (t.name ++ str " is already in ") ch))
    else let u = user_of h c in
      let ch' = set_member t.id (joined ChanRole.member now c.user.id) ch in
      let h' = save (audit (some u) (str "add") t.name (some ch) [] now (set_chan ch' h)) in
      (
        to_user t.id
            (record (frame Kind.invited) {
              ch = ch.name;
              by = u.name;
              channels = chan_info_for h' t ch' ∷ [];
            })
            none h',
        ok m (in_chan (str "added " ++ t.name ++ str " to ") ch),
      )

unfoldable pub add : Conn → Msg → ℕ → Hub → Reply
unfolding add_user
add c m now h =
    ch_ctx c Act.add m (λ ch rank. add_user (user_by_name h (arg m "user")) ch c m now h) h

-- ---- kick, ban and unban ----

abbrev removal_frame : Kind → Channel → User → User → Text → ℤ → Msg
removal_frame kind ch t u reason until = record (frame kind) {
  ch = ch.name;
  sender = t.name;
  by = u.name;
  text = reason;
  until = until;
}

-- The end of both commands: `ch` has lost the member already, or the ban is in it.
unfoldable pub remove_user : Text → Msg → User → Channel → Conn → Text → ℕ → Hub → Hub
remove_user action ev t ch c reason now h = save (
    audit (some (user_of h c)) action t.name (some ch) reason now
      (to_chan ch.id ev (unsub_user t.id ch.id ev true (set_chan ch h))))

unfoldable pub kick : Conn → Msg → ℕ → Hub → Reply
unfolding remove_user drop_member
kick c m now h =
    ch_ctx c Act.kick m
      (λ ch rank.
        target ch rank m
          (λ t.
            let reason = arg m "reason" in
            let ev = removal_frame Kind.kicked ch t (user_of h c) reason (pos 0) in
            (
              remove_user (str "kick") ev t (drop_member t.id ch) c reason now h,
              ok m (in_chan (t.name ++ str " kicked from ") ch),
            ))
          h)
      h

-- The end of a ban of some days; a number of days that is not above 0 is for ever.
abbrev ban_until : ℤ → ℕ → ℤ
ban_until days now =
    if ltb_ℤ (pos 0) days then int64 (pos now +ℤ int64 (days *ℤ pos 86_400_000)) else pos 0

unfoldable pub add_ban : ℤ → Ban → Channel → Channel
add_ban uid b ch = record ch { bans = insert uid b ch.bans }

-- The ban itself, which no longer asks who may.
abbrev new_ban : Conn → Msg → ℕ → Ban
new_ban c m now = record {
  banned_by = c.user.id;
  reason = arg m "reason";
  at = now;
  until = ban_until (atoi m "days" (pos 0)) now;
}

unfoldable pub ban_user : User → Channel → Conn → Msg → ℕ → Hub → Reply
unfolding remove_user drop_member add_ban
ban_user t ch c m now h =
    let b = new_ban c m now in
    let ev = removal_frame Kind.banned ch t (user_of h c) b.reason b.until in
    (
      remove_user (str "ban") ev t (drop_member t.id (add_ban t.id b ch)) c b.reason now h,
      ok m (in_chan (t.name ++ str " banned from ") ch),
    )

unfoldable pub ban : Conn → Msg → ℕ → Hub → Reply
unfolding ban_user
ban c m now h = ch_ctx c Act.ban m (λ ch rank. target ch rank m (λ t. ban_user t ch c m now h) h) h

abbrev not_banned : Msg → Channel → Msg
not_banned m ch = fail m Code.notfound (in_chan (str "nobody by that name is banned from ") ch)

unban_user : Option User → Channel → Conn → Msg → ℕ → Hub → Reply
unban_user none ch c m now h = (h, not_banned m ch)
unban_user (some t) ch c m now h =
    if is_some (lookup t.id ch.bans)
    then (
      save (
          audit (some (user_of h c)) (str "unban") t.name (some ch) [] now
            (set_chan (record ch { bans = erase t.id ch.bans }) h)),
      ok m (
          in_chan (t.name ++ str " unbanned from ") ch
          ++ str " — /add or /invite to bring them back"),
    )
    else (h, not_banned m ch)

unfoldable pub unban : Conn → Msg → ℕ → Hub → Reply
unfolding unban_user
unban c m now h =
    ch_ctx c Act.ban m (λ ch rank. unban_user (user_by_name h (arg m "user")) ch c m now h) h
