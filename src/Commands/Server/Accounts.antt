-- ===== src/Commands/Server/Accounts.antt =====
-- The command that changes accounts (code/cmds.go, `usermod`). The fields are changed one by one, in the
-- order in which Go visits the map of arguments, and an error keeps what was changed before it.
pub mod Owners
pub mod Ownership
use back_channel.Prelude.{
  ℕ, Bool, ◌&&◌, not, Option, none, some, List, [], ◌∷◌, ◌++◌, ◌==◌, ℤ_eq, list_eq, string_eq,
  String, if◌then◌else◌,
}
use back_channel.Prelude.Int.{ℤ, pos}
use back_channel.Prelude.Text.{Text, str}
use back_channel.State.{ServerRole, Status, User, Session}
use back_channel.Frame.{Msg, Kind, Code, frame}
use back_channel.Hub.{Hub, Conn, user_of, user_by_name, set_user, kick_sessions, save, audit}
use back_channel.Perms.{can_server_act, can_server_target, is_server_owner}
use back_channel.Auth.{set_sessions, again}
use back_channel.Commands.{Reply, atoi, arg, ok, fail}
use back_channel.Commands.Accounts.{without_sessions}
use back_channel.Commands.Server.{admins_only}

-- What a field comes to: an error frame, or the words that the answer says of it.
pub data Step : Type 0 where
  stopped : Msg → Step
  changed : List Text → Step

abbrev stop : Msg → Text → Hub → Hub × Step
stop m text h = (h, Step.stopped (fail m Code.perm text))

abbrev bad : Msg → Text → Hub → Hub × Step
bad m text h = (h, Step.stopped (fail m Code.badarg text))

abbrev cannot : Msg → User → Hub → Hub × Step
cannot m t h = stop m (str "you can't change " ++ t.name) h

-- `role`: the owner hands over its own rank, and is an admin then.
unfoldable pub mod_role : User → Conn → Msg → Text → Hub → Hub × Step
mod_role t c m v h =
    let me = user_of h c in
    if not (is_server_owner me)
    then stop m (str "only the server owner changes server roles") h
    else if t.id == c.user.id
    then bad m (str "transfer ownership with usermod user=X role=owner") h
    else if v == str "admin"
    then (set_user (record t { role = ServerRole.admin }) h, Step.changed ((str "role=" ++ v) ∷ []))
    else if v == str "user"
    then (set_user (record t { role = ServerRole.user }) h, Step.changed ((str "role=" ++ v) ∷ []))
    else if v == str "owner"
    then (
      set_user (record me { role = ServerRole.admin })
          (set_user (record t { role = ServerRole.owner }) h),
      Step.changed ((str "role=" ++ v) ∷ []),
    )
    else bad m (str "role: admin, user or owner") h

abbrev owned_by : ℤ → Text → Session → Bool
owned_by uid k se = se.user_id == uid

abbrev error_frame : Code → Text → Msg
error_frame code text = record (frame Kind.err) { code = code; text = text }

-- `pass`: all sessions of the account go.
unfoldable pub mod_pass : User → Conn → Msg → Text → Hub → Hub × Step
mod_pass t c m hash h =
    if can_server_target (user_of h c) t
    then (let h1 = set_user (record t { pass = hash }) h in
        let h2 = set_sessions (without_sessions (owned_by t.id) h1.st.sessions) h1 in
        (
          kick_sessions t.id
              (error_frame Code.auth (str "your password was reset by an admin — log in again")) h2,
          Step.changed (str "pass=(reset)" ∷ []),
        ))
    else cannot m t h

unfoldable pub mod_quota : User → Conn → Msg → Text → Hub → Hub × Step
mod_quota t c m v h =
    if not (can_server_target (user_of h c) t) && not (t.id == c.user.id) then cannot m t h else (
      set_user (record t { quota_mb = atoi m "quota_mb" (pos 0) }) h,
      Step.changed ((str "quota_mb=" ++ v) ∷ []),
    )

-- `rate` is what `strconv.ParseFloat` returns beside an error that is dropped, in thousandths.
unfoldable pub mod_rate : (User → ℤ → User) → Text → User → Conn → Msg → Text → ℤ → Hub → Hub × Step
mod_rate set what t c m v rate h =
    if can_server_target (user_of h c) t
    then (set_user (set t rate) h, Step.changed ((what ++ v) ∷ []))
    else cannot m t h

unfoldable mod_to_status : Status → User → Text → Hub → Hub × Step
mod_to_status Status.disabled t v h = (
  kick_sessions t.id (error_frame Code.banned (str "this account is disabled"))
      (set_user (record t { status = Status.disabled }) h),
  Step.changed ((str "status=" ++ v) ∷ []),
)
mod_to_status s t v h =
    (set_user (record t { status = s }) h, Step.changed ((str "status=" ++ v) ∷ []))

unfoldable pub mod_status : User → Conn → Msg → Text → Hub → Hub × Step
unfolding mod_to_status
mod_status t c m v h =
    if not (can_server_target (user_of h c) t)
    then cannot m t h
    else if v == str "active"
    then mod_to_status Status.active t v h
    else if v == str "disabled"
    then mod_to_status Status.disabled t v h
    else bad m (str "status: active or disabled (bans: /admin ban)") h

abbrev set_msg_rate : User → ℤ → User
set_msg_rate t rate = record t { msg_rate = rate }

abbrev set_upload_rate : User → ℤ → User
set_upload_rate t rate = record t { upload_rate = rate }

-- The fields by their names; `hash` is the hash of the new password.
unfoldable pub mod_field : (Text → ℤ) → Text → Conn → Msg → String → Text → User → Hub → Hub × Step
unfolding mod_role mod_pass mod_quota mod_rate mod_status
mod_field float hash c m k v t h =
    if k == "user"
    then (h, Step.changed [])
    else if k == "role"
    then mod_role t c m v h
    else if k == "pass"
    then mod_pass t c m hash h
    else if k == "quota_mb"
    then mod_quota t c m v h
    else if k == "msg_rate"
    then mod_rate set_msg_rate (str "msg_rate=") t c m v (float v) h
    else if k == "upload_rate"
    then mod_rate set_upload_rate (str "upload_rate=") t c m v (float v) h
    else if k == "status"
    then mod_status t c m v h
    else bad m
        (str "unknown field "
          ++ str k
          ++ str " (role, pass, quota_mb, msg_rate, upload_rate, status)")
        h

-- The fields one after another; each sees the account as the ones before have left it.
unfoldable pub mod_fields :
    (Text → ℤ) → Text → Conn → Msg → User → List (String × Text) → List Text → Hub → Hub × Step
unfolding mod_field
mod_fields float hash c m t [] words h = (h, Step.changed words)
mod_fields float hash c m t ((k, v) ∷ rest) words h =
    let (h', step) = mod_field float hash c m k v (again h t) h in
    elim step [
      | Step.stopped e ↦ (h', Step.stopped e)
      | Step.changed more ↦ mod_fields float hash c m t rest (words ++ more) h'
    ]

abbrev join_texts : Text → List Text → Text
join_texts sep [] = []
join_texts sep (s ∷ []) = s
join_texts sep (s ∷ t ∷ rest) = s ++ sep ++ join_texts sep (t ∷ rest)

modded : Hub × Step → User → Conn → Msg → ℕ → Reply
modded (h, Step.stopped e) t c m now = (h, e)
modded (h, Step.changed []) t c m now = (h, fail m Code.badarg (str "nothing to change"))
modded (h, Step.changed (w ∷ words)) t c m now = (
  save (
      audit (some (user_of h c)) (str "usermod") t.name none (join_texts (str " ") (w ∷ words)) now
        h),
  ok m (t.name ++ str ": " ++ join_texts (str ", ") (w ∷ words)),
)

usermod_of : Option User → (Text → ℤ) → Text → Conn → Msg → ℕ → Hub → Reply
unfolding mod_fields modded
usermod_of none float hash c m now h = (h, fail m Code.notfound (str "no such user"))
usermod_of (some t) float hash c m now h =
    modded (mod_fields float hash c m t m.args [] h) t c m now

-- `hash` is the hash of the password in the arguments, which is computed before the lock is taken.
unfoldable pub usermod : (Text → ℤ) → Text → Conn → Msg → ℕ → Hub → Reply
unfolding usermod_of
usermod float hash c m now h =
    if can_server_act (user_of h c)
    then usermod_of (user_by_name h (arg m "user")) float hash c m now h
    else (h, admins_only m)
