-- ===== src/Commands/Invites.antt =====
-- Invites (code/hub.go, `validInvite` and `consumeInvite`; code/cmds.go, `revoke` and `join`).
pub mod Uses
use back_channel.Prelude.{
  ℕ, Bool, ◌&&◌, ◌||◌, not, Option, none, some, [], ◌∷◌, ◌++◌, nat_eq, ◌==◌, ℤ_eq, ℕ_eq, list_eq,
  is_some, if◌then◌else◌,
}
use back_channel.Prelude.Int.{ℤ, pos, ltb_ℤ, ◌-ℤ◌}
use back_channel.Prelude.Dict.{Dict, lookup, insert, erase}
use back_channel.Prelude.Text.{Text, str, trim_space}
use back_channel.Prelude.Decimal.{show_int}
use back_channel.State.{Channel, Invite}
use back_channel.Frame.{Msg, Kind, Code, ChanInfo, frame}
use back_channel.Hub.{Hub, Conn, user_of, set_chan, save, mark_dirty, to_user, audit}
use back_channel.Perms.{Act, can}
use back_channel.Commands.{Reply, arg, ok, fail, ch_ctx, in_chan}
use back_channel.Commands.Members.{chan_info_for, set_member, joined}

-- `nameOf`
unfoldable pub name_of : Hub → ℤ → Text
name_of h id = elim (lookup id h.st.users) [
  | some u ↦ u.name
  | none ↦ if id == pos 0 then str "system" else str "user#" ++ show_int id
]

unfoldable pub without_dashes : Text → Text
without_dashes [] = []
without_dashes (c ∷ s) = if nat_eq c b'-' then without_dashes s else c ∷ without_dashes s

abbrev pub first_of : Option Invite → Option Invite → Option Invite
first_of none y = y
first_of (some x) y = some x

unfoldable pub set_invites : Dict Text Invite → Hub → Hub
set_invites invites h = record h { st = record h.st { invites = invites } }

-- Whether an invite has expired or is used up.
abbrev pub is_spent : Invite → ℕ → Bool
is_spent inv now =
    (ltb_ℤ (pos 0) inv.expires_at && ltb_ℤ inv.expires_at (pos now)) || (inv.uses_left == pos 0)

unfoldable pub check_invite : Option Invite → ℕ → Hub → Hub × Option Invite
unfolding set_invites
check_invite none now h = (h, none)
check_invite (some inv) now h =
    if is_spent inv now
    then (mark_dirty (set_invites (erase inv.code h.st.invites) h), none)
    else (h, some inv)

-- `validInvite`: a spent invite is deleted on the way.
unfoldable pub valid_invite : Text → ℕ → Hub → Hub × Option Invite
unfolding check_invite without_dashes
valid_invite code now h =
    let s = trim_space code in
    check_invite (first_of (lookup s h.st.invites) (lookup (without_dashes s) h.st.invites)) now h

-- The invites after one is used: the last use deletes it, and one without a limit stays.
unfoldable pub use_invite : Invite → Dict Text Invite → Dict Text Invite
use_invite inv invites =
    if ltb_ℤ (pos 0) inv.uses_left
    then (let left = inv.uses_left -ℤ pos 1 in
        if left == pos 0
        then erase inv.code invites
        else insert inv.code (record inv { uses_left = left }) invites)
    else invites

unfoldable pub consume_invite : Invite → Hub → Hub
unfolding set_invites use_invite
consume_invite inv h = mark_dirty (set_invites (use_invite inv h.st.invites) h)

revoke_found : Option Invite → Channel → ℕ → Conn → Msg → ℕ → Hub → Reply
unfolding set_invites
revoke_found none ch rank c m now h =
    (h, fail m Code.notfound (in_chan (str "no such invite in ") ch))
revoke_found (some inv) ch rank c m now h =
    if not (nat_eq inv.channel_id ch.id)
    then (h, fail m Code.notfound (in_chan (str "no such invite in ") ch))
    else if not (inv.created_by == c.user.id) && not (can rank Act.revoke_any)
    then (h, fail m Code.perm (str "you can only revoke your own invites"))
    else (
      save (
          audit (some (user_of h c)) (str "revoke") [] (some ch) inv.code now
            (set_invites (erase inv.code h.st.invites) h)),
      ok m (str "revoked " ++ inv.code),
    )

unfoldable pub revoke : Conn → Msg → ℕ → Hub → Reply
unfolding revoke_found
revoke c m now h =
    ch_ctx c Act.invite m
      (λ ch rank. revoke_found (lookup (arg m "code") h.st.invites) ch rank c m now h) h

abbrev bad_invite : Msg → Msg
bad_invite m = fail m Code.auth (str "invalid or expired invite")

abbrev with_info : Msg → Text → ChanInfo → Msg
with_info m text info = record (ok m text) { channels = info ∷ [] }

join_chan : Option Channel → Invite → ℕ → Conn → Msg → ℕ → Hub → Reply
join_chan none inv sid c m now h = (h, bad_invite m)
join_chan (some ch) inv sid c m now h =
    let u = user_of h c in
    if is_some (lookup c.user.id ch.bans)
    then (h, bad_invite m)
    else if is_some (lookup c.user.id ch.members)
    then (h, with_info m (in_chan (str "you're already in ") ch) (chan_info_for h u ch))
    else let ch' = set_member c.user.id (joined inv.role now inv.created_by) ch in
      let h1 = consume_invite inv (set_chan ch' h) in
      let h2 = save (
        audit (some u) (str "join") u.name (some ch)
          (str "invite from " ++ name_of h inv.created_by) now h1) in
      let info = chan_info_for h2 u ch' in
      (
        to_user c.user.id (record (frame Kind.invited) { ch = ch.name; channels = info ∷ [] })
            (some sid) h2,
        with_info m (in_chan (str "joined ") ch) info,
      )

join_with : Hub × Option Invite → ℕ → Conn → Msg → ℕ → Reply
unfolding join_chan
join_with (h, none) sid c m now = (h, bad_invite m)
join_with (h, some inv) sid c m now =
    join_chan (lookup inv.channel_id h.st.channels) inv sid c m now h

-- `join`: the same answer to an invite that is not there, spent, or for a channel that has banned
-- the user.
unfoldable pub join : ℕ → Conn → Msg → ℕ → Hub → Reply
unfolding join_with
join sid c m now h = join_with (valid_invite (arg m "code") now h) sid c m now
