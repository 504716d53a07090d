-- ===== src/Auth/Login.antt =====
-- The four ways in (code/hub.go, `authenticate`): a session token, a signup, a login with a password, and
-- the token of guests.
pub mod Credentials
pub mod Ways
use back_channel.Prelude.{
  ℕ, ◌+◌, Bool, true, false, ◌&&◌, ◌||◌, not, Option, none, some, List, [], ◌∷◌, ◌++◌, length, ltb,
  leb, ◌==◌, ℕ_eq, ℤ_eq, list_eq, or_else, is_some, if◌then◌else◌,
}
use back_channel.Prelude.Int.{ℤ, pos}
use back_channel.Prelude.Dict.{lookup, insert, erase}
use back_channel.Prelude.Text.{Text, str, to_lower, trim_space}
use back_channel.State.{ServerRole, ChanRole, Status, Registration, User, Session, Channel, Invite}
use back_channel.Frame.{Msg, Code, Auth}
use back_channel.Hub.{Hub, Conn, mark_dirty, user_by_name, default_chan, set_chan, set_user, audit}
use back_channel.Names.{valid_name, sanitize_name, guest_id}
use back_channel.Limits.Bucket.{Key, Limiter, allow_rate, exhausted, per_minute, tokens_of}
use back_channel.Limits.Rates.{lim}
use back_channel.Commands.Members.{set_member, joined}
use back_channel.Commands.Invites.{valid_invite, consume_invite, name_of}
use back_channel.Auth.{
  Draws, Outcome, refuse, opened, finish_auth, user_blocked, new_user_hashed, set_sessions, enter,
  is_blank, again,
}
use back_channel.Auth.Password.{Library, hash_password, check_password}

-- ---- a session token ----

-- The account of a session, once it is known not to be blocked.
resume : Hub × Text → User → Text → Session → Msg → Text → ℕ → Hub × Outcome
resume (h, b ∷ locked) u sh se hello ip now = (h, refuse Code.banned (b ∷ locked))
resume (h, []) u sh se hello ip now =
    let u' = record (again h u) { last_seen = now } in
    let sessions = insert sh (record se { last_seen = now; ip = ip }) h.st.sessions in
    finish_auth (opened u' false hello ip sh) hello [] now
      (mark_dirty (set_user u' (set_sessions sessions h)))

session_owner : Option User → Library → Text → Session → Msg → Text → ℕ → Hub → Hub × Outcome
unfolding resume
session_owner none lib sh se hello ip now h =
    (set_sessions (erase sh h.st.sessions) h, refuse Code.auth (str "account no longer exists"))
session_owner (some u) lib sh se hello ip now h =
    resume (user_blocked lib u now h) u sh se hello ip now

session_found : Option Session → Library → Text → Msg → Text → ℕ → Hub → Hub × Outcome
unfolding session_owner
session_found none lib sh hello ip now h =
    (h, refuse Code.auth (str "session expired or revoked — log in again with -user NAME"))
session_found (some se) lib sh hello ip now h =
    session_owner (lookup se.user_id h.st.users) lib sh se hello ip now h

unfoldable pub by_session : Library → Auth → Msg → Text → ℕ → Hub → Hub × Outcome
unfolding session_found
by_session lib a hello ip now h =
    let sh = lib.digest a.session in session_found (lookup sh h.st.sessions) lib sh hello ip now h

-- ---- a password ----

-- One attempt of a login or a signup counts against the limiter.
unfoldable pub count_attempt : Key → ℕ → Hub → Hub
count_attempt key now h =
    let rate = (lim h).login_rate in
    let (granted, l) =
      allow_rate h.login_lim key (per_minute rate) (tokens_of rate) (tokens_of 1000) now in
    record h { login_lim = l }

abbrev wrong_password : Outcome
unfolding refuse
wrong_password = refuse Code.auth (str "bad username or password")

login_blocked : Hub × Text → Library → User → Msg → Text → Text → ℕ → Hub × Outcome
login_blocked (h, b ∷ locked) lib u hello ip raw now = (h, refuse Code.banned (b ∷ locked))
login_blocked (h, []) lib u hello ip raw now = enter lib (again h u) hello ip raw now h

-- The account may have gone while the password was checked.
login_user : Option User → Library → Msg → Text → Text → ℕ → Hub → Hub × Outcome
unfolding login_blocked wrong_password
login_user none lib hello ip raw now h = (h, wrong_password)
login_user (some u) lib hello ip raw now h =
    login_blocked (user_blocked lib u now h) lib u hello ip raw now

-- An unknown name is checked too, against a hash that belongs to nobody.
abbrev stored_hash : Draws → Option User → Text
stored_hash draws none = draws.dummy
stored_hash draws (some u) = u.pass

abbrev fits : Library → Draws → Option User → Text → Bool
fits lib draws o pw = check_password lib (stored_hash draws o) pw && is_some o

login_checked : Bool → Library → Text → Msg → Text → Text → ℕ → Hub → Hub × Outcome
unfolding login_user wrong_password count_attempt
login_checked false lib name hello ip raw now h = (
  audit none (str "login_fail") name none (str "from " ++ ip) now
      (count_attempt (Key.login name) now h),
  wrong_password,
)
login_checked true lib name hello ip raw now h =
    login_user (user_by_name h name) lib hello ip raw now h

unfoldable pub by_password :
    Library → Draws → (Hub → Hub) → Auth → Msg → Text → ℕ → Hub → Hub × Outcome
unfolding login_checked
by_password lib draws away a hello ip now h =
    let name = to_lower (trim_space a.user) in
    if exhausted h.login_lim (Key.login name) now
    then (h, refuse Code.ratelimit (str "too many login attempts — wait a minute"))
    else login_checked (fits lib draws (user_by_name h name) a.pass) lib name hello ip draws.raw now
        (away h)

-- ---- a signup ----

abbrev bad_invite : Outcome
unfolding refuse
bad_invite = refuse Code.auth (str "invalid or expired invite")

-- The new account in the channel of its invite, or in the default channel.
signup_invited : Channel → Invite → Text → Text → ℕ → Hub → Hub × User
signup_invited ch inv name pass now h =
    let (h1, blank) = new_user_hashed name pass ServerRole.user (pos 0) now h in
    let u = record blank { created_by = inv.created_by } in
    let ch' = set_member u.id (joined inv.role now inv.created_by) ch in
    let h2 = consume_invite inv (set_chan ch' (set_user u h1)) in
    (
      audit (some u) (str "signup") u.name (some ch)
          (str "invite from " ++ name_of h2 inv.created_by) now h2,
      u,
    )

signup_open : Option Channel → Text → Text → ℕ → Hub → Hub × User
signup_open none name pass now h = new_user_hashed name pass ServerRole.user (pos 0) now h
signup_open (some ch) name pass now h =
    let (h1, u) = new_user_hashed name pass ServerRole.user (pos 0) now h in
    (
      audit (some u) (str "signup") u.name (some ch) (str "open registration") now
          (set_chan (set_member u.id (joined ChanRole.member now (pos 0)) ch) h1),
      u,
    )

enter_new : Hub × User → Library → Msg → Text → Text → ℕ → Hub × Outcome
enter_new (h, u) lib hello ip raw now = enter lib u hello ip raw now h

signup_chan :
    Option Channel → Invite → Library → Draws → Auth → Text → Msg → Text → ℕ → Hub → Hub × Outcome
unfolding signup_invited enter_new bad_invite
signup_chan none inv lib draws a name hello ip now h = (h, bad_invite)
signup_chan (some ch) inv lib draws a name hello ip now h =
    enter_new (signup_invited ch inv name (hash_password lib draws.salt a.pass) now h) lib hello ip
      draws.raw now

signup_with : Hub × Option Invite → Library → Draws → Auth → Text → Msg → Text → ℕ → Hub × Outcome
unfolding signup_chan bad_invite
signup_with (h, none) lib draws a name hello ip now = (h, bad_invite)
signup_with (h, some inv) lib draws a name hello ip now =
    if inv.signup
    then signup_chan (lookup inv.channel_id h.st.channels) inv lib draws a name hello ip now h
    else (h, bad_invite)

abbrev is_open : Registration → Bool
is_open Registration.anyone = true
is_open _ = false

-- The second half of a signup, with the lock taken again.
signup_locked : Library → Draws → Auth → Text → Msg → Text → ℕ → Hub → Hub × Outcome
unfolding signup_with signup_open enter_new
signup_locked lib draws a name hello ip now h =
    if is_some (user_by_name h name)
    then (h, refuse Code.exists (str "that username is taken"))
    else if leb h.st.settings.max_users (length h.st.users)
    then (h, refuse Code.limit (str "this hub is full"))
    else if not (is_blank a.invite)
    then signup_with (valid_invite a.invite now h) lib draws a name hello ip now
    else if is_open h.st.settings.registration
    then enter_new (signup_open (default_chan h) name (hash_password lib draws.salt a.pass) now h)
        lib hello ip draws.raw now
    else (
      h,
      refuse Code.auth (str "registration is by invite only — ask a member for an invite code"),
    )

unfoldable pub by_signup :
    Library → Draws → (Hub → Hub) → Auth → Msg → Text → ℕ → Hub → Hub × Outcome
unfolding signup_locked
by_signup lib draws away a hello ip now h =
    let name = to_lower (trim_space a.user) in
    if not (valid_name name 2 24 true)
    then (h, refuse Code.badarg (str "username: 2-24 chars, a-z 0-9 _ . -"))
    else if ltb (length a.pass) 8
    then (h, refuse Code.badarg (str "password: at least 8 characters"))
    else if exhausted h.login_lim (Key.signup ip) now
    then (h, refuse Code.ratelimit (str "too many attempts — wait a minute"))
    else signup_locked lib draws a name hello ip now (away (count_attempt (Key.signup ip) now h))

-- ---- the token of guests ----

-- A guest gets the name that it asks for, or `guest`, and a `~` after the name of an account.
unfoldable pub guest_nick : Hub → Text → Text
guest_nick h name =
    let asked = to_lower (sanitize_name name) in
    let nick = if is_blank asked || (asked == str "file") then str "guest" else asked in
    if is_some (user_by_name h nick) then nick ++ str "~" else nick

unfoldable pub guest_user : Text → User
guest_user nick = record {
  id = guest_id nick;
  name = nick;
  pass = [];
  role = ServerRole.guest;
  status = Status.active;
  ban_reason = [];
  ban_until = pos 0;
  created_at = 0;
  created_by = pos 0;
  last_seen = 0;
  quota_mb = pos 0;
  msg_rate = pos 0;
  upload_rate = pos 0;
}

-- Whether a token opens the hub to guests.
unfoldable pub is_guest_token : Hub → Text → Bool
is_guest_token h token =
    let s = h.st.settings in
    s.guest_access && not (is_blank s.legacy_token) && (token == s.legacy_token)

bad_token_text : ℕ → Text
bad_token_text ℕ.zero = str "bad token"
bad_token_text (ℕ.suc v) =
    str "guest access is off or the token is wrong — ask for an account: bch -hub HOST -user NAME"

unfoldable pub by_token : Msg → Text → ℕ → Hub → Hub × Outcome
unfolding bad_token_text guest_nick guest_user is_guest_token
by_token hello ip now h =
    if is_blank hello.token
    then (h, refuse Code.auth (str "no credentials — use -user NAME (account) or -token X (guest)"))
    else if is_guest_token h hello.token
    then finish_auth (opened (guest_user (guest_nick h (trim_space hello.name))) true hello ip [])
        hello [] now h
    else (h, refuse Code.auth (bad_token_text hello.v))

by_credentials : Option Auth → Library → Draws → (Hub → Hub) → Msg → Text → ℕ → Hub → Hub × Outcome
by_credentials none lib draws away hello ip now h = by_token hello ip now h
by_credentials (some a) lib draws away hello ip now h =
    if not (is_blank a.session)
    then by_session lib a hello ip now h
    else if not (is_blank a.user) && (not (is_blank a.invite) || a.register)
    then by_signup lib draws away a hello ip now h
    else if not (is_blank a.user)
    then by_password lib draws away a hello ip now h
    else by_token hello ip now h

unfoldable pub authenticate : Library → Draws → (Hub → Hub) → Msg → Text → ℕ → Hub → Hub × Outcome
unfolding by_credentials
authenticate lib draws away hello ip now h = by_credentials hello.auth lib draws away hello ip now h
