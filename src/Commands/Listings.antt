-- ===== src/Commands/Listings.antt =====
-- The commands that only list (code/cmds.go, `channels`, `invites`, `members` and `bans`); Listings.Server
-- has `users`, `audit` and `stats`. None of them changes the hub.
pub mod Server
use back_channel.Prelude.{
  ℕ, ◌+◌, Bool, true, false, ◌&&◌, ◌||◌, not, Option, none, some, List, [], ◌∷◌, ◌++◌, length, take,
  ltb, leb, nat_eq, ◌==◌, ℕ_eq, ℤ_eq, list_eq, is_some, if◌then◌else◌,
}
use mathlib.Core.List.{map, reverse}
use back_channel.Prelude.Int.{ℤ, pos, ltb_ℤ, ◌-ℤ◌, pos_part}
use back_channel.Prelude.Dict.{Dict, lookup}
use back_channel.Prelude.Text.{Text, str}
use back_channel.Prelude.Decimal.{show_nat}
use back_channel.Prelude.Print.{pad, human_size, show_rate, sort_lines, text_leb}
use back_channel.State.{Status, Registration, User, Membership, Ban, Channel, Invite}
use back_channel.Frame.{Msg, ChanInfo}
use back_channel.Hub.{Hub, Conn, AuditRec, user_of, session_count}
use back_channel.Files.{used_by}
use back_channel.Limits.Rates.{lim, quota_for}
use back_channel.Handlers.{human_dur}
use back_channel.Subs.{present, present_in}
use back_channel.Perms.{Act, rank_in, rank_none, role_rank, srv_rank, srv_admin, can_server_act}
use back_channel.Auth.Password.{Library}
use back_channel.Commands.{Reply, arg, atoi, ok, ch_ctx, in_chan, show_role}
use back_channel.Commands.Members.{chan_info_for, is_active}
use back_channel.Commands.Invites.{name_of}
use back_channel.Commands.Inviting.{plural}
use back_channel.Commands.Server.{admins_only, show_server_role, orphans, bytes_of}

abbrev pub with_lines : Msg → List Text → Msg
with_lines m lines = record (ok m []) { lines = lines }

abbrev pub or_line : List Text → Text → List Text
or_line [] none_text = none_text ∷ []
or_line (l ∷ ls) none_text = l ∷ ls

-- ---- channels ----

infos : Hub → User → Dict ℕ Channel → List (ℕ × ChanInfo)
infos h u [] = []
infos h u ((cid, ch) ∷ rest) =
    let others = infos h u rest in
    if nat_eq (rank_in u ch) rank_none then others else (ch.id, chan_info_for h u ch) ∷ others

insert_info : ℕ × ChanInfo → List (ℕ × ChanInfo) → List (ℕ × ChanInfo)
insert_info x [] = x ∷ []
insert_info x (y ∷ ys) = if leb x.0 y.0 then x ∷ y ∷ ys else y ∷ insert_info x ys

sort_infos : List (ℕ × ChanInfo) → List (ℕ × ChanInfo)
unfolding insert_info
sort_infos [] = []
sort_infos (x ∷ xs) = insert_info x (sort_infos xs)

-- `channelsFor`: the channels that a user can see, by their ids.
unfoldable pub channels_for : Hub → User → List ChanInfo
unfolding infos sort_infos
channels_for h u = map (λ x. x.1) (sort_infos (infos h u h.st.channels))

unfoldable pub list_channels : Conn → Msg → Hub → Reply
unfolding channels_for
list_channels c m h = (h, record (ok m []) { channels = channels_for h (user_of h c) })

-- ---- invites and bans ----

invite_line : Hub → ℕ → Invite → Text
invite_line h now inv =
    let exp =
      if ltb_ℤ (pos 0) inv.expires_at
      then str "in " ++ human_dur (inv.expires_at -ℤ pos now)
      else str "never" in
    inv.code
    ++ str "  role "
    ++ pad 8 (show_role inv.role)
    ++ str " uses left "
    ++ pad 4 (plural inv.uses_left [] (str "∞"))
    ++ str " expires "
    ++ pad 8 exp
    ++ str " by "
    ++ name_of h inv.created_by

invite_lines : Hub → ℕ → ℕ → Dict Text Invite → List Text
unfolding invite_line
invite_lines h cid now [] = []
invite_lines h cid now ((code, inv) ∷ rest) =
    let others = invite_lines h cid now rest in
    if nat_eq inv.channel_id cid then invite_line h now inv ∷ others else others

unfoldable pub list_invites : Conn → Msg → ℕ → Hub → Reply
unfolding invite_lines
list_invites c m now h =
    ch_ctx c Act.invite m
      (λ ch rank. (
        h,
        with_lines m (
            sort_lines (
              or_line (invite_lines h ch.id now h.st.invites)
                (in_chan (str "no open invites for ") ch))),
      ))
      h

ban_line : Library → Hub → ℤ × Ban → Text
ban_line lib h (uid, b) =
    let until =
      if ltb_ℤ (pos 0) b.until then str "until " ++ lib.date b.until else str "permanent" in
    pad 16 (name_of h uid)
    ++ str " "
    ++ pad 22 until
    ++ str " by "
    ++ pad 12 (name_of h b.banned_by)
    ++ str " "
    ++ b.reason

unfoldable pub list_bans : Library → Conn → Msg → Hub → Reply
unfolding ban_line
list_bans lib c m h =
    ch_ctx c Act.ban m
      (λ ch rank. (
        h,
        with_lines m
            (sort_lines (or_line (map (ban_line lib h) ch.bans) (in_chan (str "no bans in ") ch))),
      ))
      h

-- ---- members ----

-- A row: the name and the rank that rows are sorted by, and the line.
record Row : Type 0 where
  name : Text
  rank : ℕ
  line : Text

member_extra : User → Membership → ℕ → Text
member_extra u mem now =
    (if ltb_ℤ (pos now) mem.muted_until
      then str "  muted " ++ human_dur (mem.muted_until -ℤ pos now)
      else [])
    ++ (if leb srv_admin (srv_rank u)
        then str "  (server " ++ show_server_role u.role ++ str ")"
        else [])

member_row : Option User → Hub → Channel → ℕ → ℤ → Membership → List Row → List Row
unfolding member_extra
member_row none h ch now uid mem rows = rows
member_row (some u) h ch now uid mem rows =
    let dot = if ltb 0 (present h ch.id uid) then str "●" else str "○" in
    let row : Row = record {
      name = u.name;
      rank = role_rank mem.role;
      line =
          dot
          ++ str " "
          ++ pad 16 u.name
          ++ str " "
          ++ pad 8 (show_role mem.role)
          ++ member_extra u mem now;
    } in
    row ∷ rows

member_rows : Hub → Channel → ℕ → Dict ℤ Membership → List Row
unfolding member_row
member_rows h ch now [] = []
member_rows h ch now ((uid, mem) ∷ rest) =
    member_row (lookup uid h.st.users) h ch now uid mem (member_rows h ch now rest)

-- The first connection of a user.
conn_of : ℤ → Dict ℕ Conn → Option Conn
conn_of uid [] = none
conn_of uid ((sid, c) ∷ rest) =
    let later = conn_of uid rest in if c.user.id == uid then some c else later

guest_row : Option Conn → List Row → List Row
guest_row none rows = rows
guest_row (some c) rows =
    (let row : Row = record {
      name = c.user.name;
      rank = 0;
      line = str "● " ++ pad 16 c.user.name ++ str " guest";
    } in
      row)
    ∷ rows

guest_rows : Hub → Dict ℤ ℕ → List Row
unfolding conn_of guest_row
guest_rows h [] = []
guest_rows h ((uid, n) ∷ rest) =
    let others = guest_rows h rest in
    if is_some (lookup uid h.st.users) then others else guest_row (conn_of uid h.conns) others

row_before : Row → Row → Bool
row_before x y = if nat_eq x.rank y.rank then text_leb x.name y.name else ltb y.rank x.rank

insert_row : Row → List Row → List Row
unfolding row_before
insert_row x [] = x ∷ []
insert_row x (y ∷ ys) = if row_before x y then x ∷ y ∷ ys else y ∷ insert_row x ys

sort_rows : List Row → List Row
unfolding insert_row
sort_rows [] = []
sort_rows (x ∷ xs) = insert_row x (sort_rows xs)

member_lines : Hub → Channel → ℕ → List Text
unfolding member_rows guest_rows sort_rows
member_lines h ch now =
    map (λ r. r.line)
      (sort_rows (member_rows h ch now ch.members ++ guest_rows h (present_in h ch.id)))

pub list_members : Conn → Msg → ℕ → Hub → Reply
unfolding member_lines
list_members c m now h =
    ch_ctx c Act.members m
      (λ ch rank.
        let here = present_in h ch.id in
        (
          h,
          with_lines m (
              (str "#"
                ++ ch.name
                ++ str " — "
                ++ show_nat (length ch.members)
                ++ str " members, "
                ++ show_nat (length here)
                ++ str " online")
              ∷ member_lines h ch now),
        ))
      h

-- ---- who is here: `onlineIn` ----

online_names : Hub → Dict ℤ ℕ → List Text
online_names h [] = []
online_names h ((uid, n) ∷ rest) =
    let others = online_names h rest in
    elim (lookup uid h.st.users) [
      | some u ↦ u.name ∷ others
      | none ↦ elim (conn_of uid h.conns) [ none ↦ others | some c ↦ c.user.name ∷ others ]
    ]

unfoldable pub online_in : Hub → ℕ → List Text
unfolding online_names conn_of
online_in h cid = sort_lines (online_names h (present_in h cid))
