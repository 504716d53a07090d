-- ===== src/Http/Requester.antt =====
-- Who sends a request (code/files.go, `httpAuth`).
use back_channel.Prelude.{
  ℕ, Bool, true, false, ◌&&◌, not, Option, none, some, [], ◌∷◌, drop, ℕ_eq, ℤ_eq, list_eq, or_else,
  if◌then◌else◌,
}
use back_channel.Prelude.Dict.{lookup, insert}
use back_channel.Prelude.Text.{Text, str, to_lower, trim_space}
use back_channel.State.{User, Session}
use back_channel.Hub.{Hub, mark_dirty}
use back_channel.Commands.Accounts.{has_prefix}
use back_channel.Auth.{user_blocked, set_sessions, again}
use back_channel.Auth.Login.{guest_nick, guest_user, is_guest_token}
use back_channel.Auth.Password.{Library}
use back_channel.Http.Request.{Request}

abbrev pub header_of : Request → Text → Text
header_of req k = or_else (lookup k req.header) []

abbrev pub query_of : Request → Text → Text
query_of req k = or_else (lookup k req.query) []

abbrev pub is_blank : Text → Bool
is_blank [] = true
is_blank (c ∷ s) = false

abbrev pub first_given : Text → Text → Text
first_given [] t = t
first_given (c ∷ s) t = c ∷ s

bearer : Text → Text
bearer a = if has_prefix (str "bearer ") (to_lower a) then trim_space (drop 7 a) else []

unfoldable pub session_token : Request → Text
unfolding bearer
session_token req =
    first_given (bearer (header_of req (str "authorization")))
      (first_given (header_of req (str "x-session")) (query_of req (str "session")))

unblocked : Hub × Text → User → Text → Session → ℕ → Hub × Option (User × Bool)
unblocked (h, b ∷ locked) u sh se now = (h, none)
unblocked (h, []) u sh se now = (
  mark_dirty (set_sessions (insert sh (record se { last_seen = now }) h.st.sessions) h),
  some (again h u, false),
)

account_of : Option User → Library → Text → Session → ℕ → Hub → Hub × Option (User × Bool)
unfolding unblocked
account_of none lib sh se now h = (h, none)
account_of (some u) lib sh se now h = unblocked (user_blocked lib u now h) u sh se now

session_of : Option Session → Library → Text → ℕ → Hub → Hub × Option (User × Bool)
unfolding account_of
session_of none lib sh now h = (h, none)
session_of (some se) lib sh now h = account_of (lookup se.user_id h.st.users) lib sh se now h

guest_of : Request → Hub → Option (User × Bool)
guest_of req h =
    let token = first_given (header_of req (str "x-token")) (query_of req (str "token")) in
    if not (is_blank token) && is_guest_token h token
    then some (guest_user (guest_nick h (query_of req (str "from"))), true)
    else none

-- `httpAuth`: an account by its session, or a guest by the token of guests.
unfoldable pub http_auth : Library → Request → ℕ → Hub → Hub × Option (User × Bool)
unfolding session_of guest_of
http_auth lib req now h =
    let token = session_token req in
    if is_blank token
    then (h, guest_of req h)
    else session_of (lookup (lib.digest token) h.st.sessions) lib (lib.digest token) now h
