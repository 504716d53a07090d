-- ===== src/Commands/Listings/Server.antt =====
-- The lists for server admins (code/cmds.go, `users`, `audit` and `stats`).
use back_channel.Prelude.{
  ℕ, ◌+◌, Bool, true, false, ◌&&◌, ◌||◌, not, List, [], ◌∷◌, ◌++◌, length, take, ltb, ◌==◌, ℕ_eq,
  ℤ_eq, list_eq, if◌then◌else◌,
}
use mathlib.Core.List.{map, reverse}
use back_channel.Prelude.Int.{ℤ, pos, ltb_ℤ, ◌-ℤ◌, pos_part}
use back_channel.Prelude.Dict.{Dict}
use back_channel.Prelude.Text.{Text, str}
use back_channel.Prelude.Decimal.{show_nat}
use back_channel.Prelude.Print.{pad, human_size, show_rate, sort_lines}
use back_channel.State.{Status, Registration, User}
use back_channel.Frame.{Msg}
use back_channel.Hub.{Hub, Conn, AuditRec, user_of, session_count}
use back_channel.Files.{used_by}
use back_channel.Limits.Rates.{lim, quota_for}
use back_channel.Handlers.{human_dur}
use back_channel.Perms.{can_server_act}
use back_channel.Commands.{Reply, arg, atoi}
use back_channel.Commands.Members.{is_active}
use back_channel.Commands.Server.{admins_only, show_server_role, orphans, bytes_of}
use back_channel.Commands.Listings.{with_lines, or_line}

show_status : Status → Text
show_status Status.active = str "active"
show_status Status.banned = str "banned"
show_status Status.disabled = str "disabled"

user_line : Hub → ℕ → ℤ × User → Text
unfolding show_status
user_line h now (uid, u) =
    let seen =
      if ltb 0 u.last_seen
      then human_dur (pos now -ℤ pos u.last_seen) ++ str " ago"
      else str "never" in
    let quota = quota_for h u in
    pad 16 u.name
    ++ str " "
    ++ pad 6 (show_server_role u.role)
    ++ str " "
    ++ pad 9 (show_status u.status)
    ++ str " storage "
    ++ human_size (used_by h u.id)
    ++ str "/"
    ++ (if ltb_ℤ (pos 0) quota then human_size (pos_part quota) else str "∞")
    ++ str "  seen "
    ++ seen
    ++ (if ltb 0 (session_count h u.id) then str " ●" else [])

unfoldable pub list_users : Conn → Msg → ℕ → Hub → Reply
unfolding user_line
list_users c m now h =
    if can_server_act (user_of h c)
    then (h, with_lines m (sort_lines (map (user_line h now) h.st.users)))
    else (h, admins_only m)

abbrev labelled : Text → Text → Text
labelled label [] = []
labelled label (c ∷ s) = label ++ c ∷ s

-- `String` of an audit record; `time` prints a time as a day and a minute.
unfoldable pub audit_line : (ℕ → Text) → AuditRec → Text
audit_line time r =
    time r.ts
    ++ str "  "
    ++ pad 12 r.actor
    ++ str " "
    ++ pad 10 r.action
    ++ labelled (str " #") r.ch
    ++ labelled (str " ") r.user
    ++ labelled (str "  ") r.detail

abbrev is_given : Text → Bool
is_given [] = false
is_given (c ∷ s) = true

-- Whether a record is about the user and the channel that are asked for.
unfoldable pub is_asked : Msg → AuditRec → Bool
is_asked m r =
    (not (is_given (arg m "user")) || (r.user == arg m "user") || (r.actor == arg m "user"))
    && (not (is_given (arg m "ch")) || (r.ch == arg m "ch"))

asked_lines : (ℕ → Text) → Msg → List AuditRec → List Text
unfolding is_asked audit_line
asked_lines time m [] = []
asked_lines time m (r ∷ rs) =
    let others = asked_lines time m rs in
    if is_asked m r then audit_line time r ∷ others else others

-- The last `n` records that are asked for, the oldest first.
unfoldable pub list_audit : (ℕ → Text) → Conn → Msg → Hub → Reply
unfolding asked_lines
list_audit time c m h =
    if can_server_act (user_of h c)
    then (let newest =
          take (pos_part (atoi m "n" (pos 30))) (asked_lines time m (reverse h.audit_log)) in
        (h, with_lines m (or_line (reverse newest) (str "audit log is empty"))))
    else (h, admins_only m)

count_messages : Dict ℕ (List Msg) → ℕ
count_messages [] = 0
count_messages ((cid, ms) ∷ rest) = length ms + count_messages rest

unfoldable pub message_count : Hub → ℕ
unfolding count_messages
message_count h = count_messages h.msgs

count_inactive : Dict ℤ User → ℕ
count_inactive [] = 0
count_inactive ((uid, u) ∷ rest) = (if is_active u.status then 0 else 1) + count_inactive rest

show_bool : Bool → Text
show_bool true = str "true"
show_bool false = str "false"

show_registration : Registration → Text
show_registration Registration.invite = str "invite"
show_registration Registration.admin_only = str "admin"
show_registration Registration.anyone = str "open"

limits_line : Hub → Text
limits_line h =
    let l = lim h in
    str "limits: msg_rate="
    ++ show_rate l.msg_rate
    ++ str " burst="
    ++ show_rate l.msg_burst
    ++ str " max_msg_kb="
    ++ show_nat l.max_msg_kb
    ++ str " upload_rate="
    ++ show_rate l.upload_rate
    ++ str "/min max_file_mb="
    ++ show_nat l.max_file_mb
    ++ str " quota_mb="
    ++ show_nat l.quota_mb
    ++ str " invite_rate="
    ++ show_rate l.invite_rate
    ++ str "/h login_rate="
    ++ show_rate l.login_rate
    ++ str "/min conn_rate="
    ++ show_rate l.conn_rate
    ++ str "/min sessions_max="
    ++ show_nat l.sessions_max
    ++ str " conns_per_user="
    ++ show_nat l.conns_per_user
    ++ str " max_uploads="
    ++ show_nat l.max_uploads
    ++ str " auto_mute="
    ++ show_nat l.auto_mute_hits
    ++ str " hits→"
    ++ show_nat l.auto_mute_min
    ++ str " min"

-- `uptime` is the time since the hub was started.
unfoldable pub stats : Text → Conn → Msg → Hub → Reply
unfolding count_inactive limits_line show_bool show_registration
stats uptime c m h =
    let s = h.st.settings in
    let gone = orphans h h.st.files in
    if can_server_act (user_of h c)
    then (
      h,
      with_lines m (
          (str "uptime "
            ++ uptime
            ++ str " · "
            ++ show_nat (length h.st.users)
            ++ str " users ("
            ++ show_nat (count_inactive h.st.users)
            ++ str " banned/disabled) · "
            ++ show_nat (length h.st.channels)
            ++ str " channels · "
            ++ show_nat (length h.conns)
            ++ str " connections online")
          ∷ (show_nat (message_count h)
              ++ str " messages in memory · "
              ++ show_nat (length h.st.files)
              ++ str " files, "
              ++ human_size h.total_bytes
              ++ str " on disk · "
              ++ show_nat (length gone)
              ++ str " unreferenced files ("
              ++ human_size (bytes_of gone)
              ++ str ") — /admin prune")
          ∷ (str "registration="
              ++ show_registration s.registration
              ++ str " guest_access="
              ++ show_bool s.guest_access
              ++ str " allow_user_channels="
              ++ show_bool s.allow_user_channels
              ++ str " default_channel="
              ++ s.default_channel)
          ∷ limits_line h
          ∷ []),
    )
    else (h, admins_only m)
