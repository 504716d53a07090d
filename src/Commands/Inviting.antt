-- ===== src/Commands/Inviting.antt =====
-- The command that makes invites (code/cmds.go, `invite`, with `plural` and `expiry`).
use back_channel.Prelude.{
  ℕ, ◌/◌, ◌%◌, Bool, true, false, ◌&&◌, ◌||◌, not, some, List, [], ◌∷◌, ◌++◌, nat_eq, ◌==◌, list_eq,
  if◌then◌else◌,
}
use back_channel.Prelude.Int.{ℤ, pos, negsuc, ltb_ℤ, ◌+ℤ◌, ◌*ℤ◌, int64}
use back_channel.Prelude.Dict.{insert}
use back_channel.Prelude.Text.{Text, str}
use back_channel.Prelude.Decimal.{show_nat, show_int}
use back_channel.State.{Channel, ChanRole, Invite, Registration}
use back_channel.Frame.{Msg, Code}
use back_channel.Hub.{Hub, Conn, user_of, save, audit}
use back_channel.Limits.Bucket.{Key, allow_rate, per_hour, tokens_of}
use back_channel.Limits.Rates.{lim}
use back_channel.Perms.{Act, role_rank}
use back_channel.Commands.{Reply, arg, atoi, ok, fail, ch_ctx, is_owner, read_role, show_role}
use back_channel.Commands.Invites.{set_invites}
use back_channel.Commands.Roles.{above_own}

unfoldable pub plural : ℤ → Text → Text → Text
plural (negsuc n) unit inf = inf
plural (pos n) [] inf = show_nat n
plural (pos n) (c ∷ unit) inf =
    if nat_eq n 1 then str "1 " ++ c ∷ unit else show_nat n ++ str " " ++ (c ∷ unit) ++ str "s"

unfoldable pub expiry : ℤ → Text
expiry (negsuc n) = str "never"
expiry (pos n) =
    if nat_eq n 0
    then str "never"
    else if nat_eq (n % 24) 0
    then show_nat (n / 24) ++ str "d"
    else show_nat n ++ str "h"

-- How often an invite may be used; -1 is without a limit.
unfoldable pub asked_uses : Msg → ℤ
asked_uses m =
    let uses = atoi m "uses" (pos 1) in
    if (arg m "uses" == str "inf") || ltb_ℤ uses (pos 0) then negsuc 0 else uses

unfoldable pub asked_role : Msg → ChanRole
asked_role m = elim (arg m "role") [ [] ↦ ChanRole.member | c ∷ s ↦ read_role (c ∷ s) ]

abbrev is_admin_only : Registration → Bool
is_admin_only Registration.admin_only = true
is_admin_only _ = false

abbrev invite_until : ℤ → ℕ → ℤ
invite_until hours now =
    if ltb_ℤ (pos 0) hours then int64 (pos now +ℤ int64 (hours *ℤ pos 3_600_000)) else pos 0

unfoldable pub new_invite : Text → Channel → Conn → Msg → ℕ → Hub → Invite
unfolding asked_uses asked_role
new_invite code ch c m now h = record {
  code = code;
  channel_id = ch.id;
  created_by = c.user.id;
  created_at = now;
  uses_left = asked_uses m;
  expires_at = invite_until (atoi m "hours" (pos 72)) now;
  role = asked_role m;
  signup = not (is_admin_only h.st.settings.registration) && not (arg m "signup" == str "off");
}

invite_lines : Invite → Channel → Msg → List Text
unfolding plural expiry
invite_lines inv ch m =
    let desc =
      str "uses: "
      ++ plural inv.uses_left (str "use") (str "unlimited")
      ++ str " · expires: "
      ++ expiry (atoi m "hours" (pos 72))
      ++ str " · role: "
      ++ show_role inv.role in
    let join = (str "  existing member: /join " ++ inv.code) ∷ [] in
    (str "invite code:  " ++ inv.code ++ str "   (#" ++ ch.name ++ str " · " ++ desc ++ str ")")
    ∷ (if inv.signup
        then (str "  new person:      bch -hub <hub address> -invite "
            ++ inv.code
            ++ str " -user THEIR_NAME")
          ∷ join
        else join)

show_bool : Bool → Text
show_bool true = str "true"
show_bool false = str "false"

abbrev invite_detail : Invite → ℤ → Text
unfolding show_bool
invite_detail inv hours =
    str "code "
    ++ inv.code
    ++ str " role="
    ++ show_role inv.role
    ++ str " uses="
    ++ show_int inv.uses_left
    ++ str " hours="
    ++ show_int hours
    ++ str " signup="
    ++ show_bool inv.signup

-- The limiter has answered.
invited : Bool → Text → Channel → Conn → Msg → ℕ → Hub → Reply
unfolding new_invite invite_lines invite_detail
invited false code ch c m now h = (h, fail m Code.ratelimit (str "invite rate limit — try later"))
invited true code ch c m now h =
    let inv = new_invite code ch c m now h in
    (
      save (
          audit (some (user_of h c)) (str "invite") [] (some ch)
            (invite_detail inv (atoi m "hours" (pos 72))) now
            (set_invites (insert code inv h.st.invites) h)),
      record (ok m []) { lines = invite_lines inv ch m },
    )

invite_in : Text → Channel → ℕ → Conn → Msg → ℕ → Hub → Reply
unfolding invited
invite_in code ch rank c m now h =
    let role = asked_role m in
    if nat_eq (role_rank role) 0 || above_own role rank || is_owner role
    then (h, fail m Code.badarg (str "role must be below your own: readonly, member, mod, admin"))
    else let rate = (lim h).invite_rate in
      let (granted, l) =
        allow_rate h.invite_lim (Key.inv c.user.id) (per_hour rate) (tokens_of rate)
          (tokens_of 1000) now in
      invited granted code ch c m now (record h { invite_lim = l })

-- `code` is drawn at random.
unfoldable pub invite : Text → Conn → Msg → ℕ → Hub → Reply
unfolding invite_in
invite code c m now h = ch_ctx c Act.invite m (λ ch rank. invite_in code ch rank c m now h) h
