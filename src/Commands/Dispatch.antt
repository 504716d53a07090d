-- ===== src/Commands/Dispatch.antt =====
-- The dispatch of commands (code/cmds.go, `handleCmd`).
use back_channel.Prelude.{
  ℕ, Bool, ◌&&◌, ◌||◌, not, Option, none, some, List, [], ◌∷◌, ◌++◌, length, ltb, ◌==◌, list_eq,
  String, if◌then◌else◌,
}
use back_channel.Prelude.Int.{ℤ}
use back_channel.Prelude.Text.{Text, str, to_lower, trim_space}
use back_channel.Prelude.Print.{human_size}
use back_channel.State.{Channel}
use back_channel.Frame.{Msg, Code}
use back_channel.Hub.{Hub, Conn}
use back_channel.Auth.Password.{Library, hash_password}
use back_channel.Commands.{Reply, arg, fail}
use back_channel.Commands.Accounts.{passwd, passwd_error, revoke_sessions, logout}
use back_channel.Commands.Channels.{create, delete, topic}
use back_channel.Commands.Deletions.{del, purge}
use back_channel.Commands.Encryption.{e2epeers, e2erotate}
use back_channel.Commands.Invites.{revoke, join}
use back_channel.Commands.Inviting.{invite}
use back_channel.Commands.Listings.{list_channels, list_invites, list_bans, list_members}
use back_channel.Commands.Listings.Server.{list_users, list_audit, stats}
use back_channel.Commands.Members.{leave, add, kick, ban, unban}
use back_channel.Commands.Roles.{mute, role, transfer}
use back_channel.Commands.Server.{useradd, userban, userunban, prune, chosen_pass}
use back_channel.Commands.Server.Accounts.{usermod}
use back_channel.Commands.Server.Settings.{set, settings}

-- What a command takes from elsewhere: Go's library, random draws (the salt of a password, a password,
-- an invite code, a token), what other connections do while a password is hashed, the numbers that
-- `strconv.ParseFloat` reads, and texts that only print.
pub record Outside : Type 0 where
  pub lib : Library
  pub salt : Text
  pub password : Text
  pub code : Text
  pub token : Text
  pub away : Hub → Hub
  pub float : Text → Option ℤ
  pub float_or_zero : Text → ℤ
  pub printed_args : List (String × Text) → Text
  pub server_lines : Hub → List Text
  pub channel_lines : Channel → List Text
  pub session_lines : Hub → Conn → List Text
  pub time : ℕ → Text
  pub uptime : Text

abbrev short_pass : Text → Msg → Option Msg
short_pass pw m =
    if ltb (length pw) 8
    then some (fail m Code.badarg (str "password: at least 8 characters"))
    else none

short_reset : Text → Msg → Option Msg
short_reset [] m = none
short_reset (c ∷ pw) m = short_pass (c ∷ pw) m

-- Passwords are hashed before the lock is taken: the error of that first part, if there is one.
unfoldable pub hashing_error : Outside → Text → Conn → Msg → Hub → Option Msg
unfolding short_reset
hashing_error out name c m h =
    if name == str "useradd"
    then short_pass (chosen_pass out.password m) m
    else if name == str "usermod"
    then short_reset (arg m "pass") m
    else if name == str "passwd"
    then passwd_error out.lib c m h
    else none

unfoldable pub hashes_password : Text → Bool
hashes_password name = (name == str "useradd") || (name == str "usermod") || (name == str "passwd")

-- The commands on channels and their members.
unfoldable pub channel_command : Outside → Text → ℕ → Conn → Msg → ℕ → Hub → Option Reply
channel_command out name sid c m now h =
    if name == str "channels"
    then some (list_channels c m h)
    else if name == str "create"
    then some (create c m now h)
    else if name == str "delete"
    then some (delete c m now h)
    else if name == str "topic"
    then some (topic c m now h)
    else if name == str "invite"
    then some (invite out.code c m now h)
    else if name == str "invites"
    then some (list_invites c m now h)
    else if name == str "revoke"
    then some (revoke c m now h)
    else if name == str "join"
    then some (join sid c m now h)
    else if name == str "leave"
    then some (leave c m h)
    else if name == str "members"
    then some (list_members c m now h)
    else if name == str "add"
    then some (add c m now h)
    else if name == str "kick"
    then some (kick c m now h)
    else if name == str "ban"
    then some (ban c m now h)
    else if name == str "unban"
    then some (unban c m now h)
    else if name == str "bans"
    then some (list_bans out.lib c m h)
    else if name == str "mute"
    then some (mute c m now h)
    else if name == str "role"
    then some (role c m now h)
    else if name == str "transfer"
    then some (transfer c m now h)
    else if name == str "del"
    then some (del c m now h)
    else if name == str "purge"
    then some (purge c m now h)
    else if name == str "settings"
    then some (settings out.float (out.printed_args m.args) out.channel_lines c m now h)
    else if name == str "e2epeers"
    then some (e2epeers c m h)
    else if name == str "e2erotate"
    then some (e2erotate c m now h)
    else none

list_sessions : Outside → Conn → Msg → Hub → Reply
list_sessions out c m h = elim (arg m "revoke") [
  | [] ↦ (h, record (back_channel.Commands.ok m []) { lines = out.session_lines h c })
  | x ∷ xs ↦ revoke_sessions c m h
]

-- The commands on accounts and on the server.
unfoldable pub server_command : Outside → Text → ℕ → Conn → Msg → ℕ → Hub → Reply
unfolding list_sessions
server_command out name sid c m now h =
    let hash = hash_password out.lib out.salt (arg m "pass") in
    if name == str "passwd"
    then passwd out.lib out.salt c m h
    else if name == str "sessions"
    then list_sessions out c m h
    else if name == str "logout"
    then logout sid c m h
    else if name == str "users"
    then list_users c m now h
    else if name == str "useradd"
    then useradd out.lib out.salt out.password c m now h
    else if name == str "userban"
    then userban out.lib c m now h
    else if name == str "userunban"
    then userunban c m now h
    else if name == str "usermod"
    then usermod out.float_or_zero hash c m now h
    else if name == str "audit"
    then list_audit out.time c m h
    else if name == str "stats"
    then stats out.uptime c m h
    else if name == str "prune"
    then prune human_size c m now h
    else if name == str "set"
    then set out.float out.token (out.printed_args m.args) (out.server_lines h) c m now h
    else (h, fail m Code.badarg (str "unknown command " ++ name))

or_server : Option Reply → Outside → Text → ℕ → Conn → Msg → ℕ → Hub → Reply
or_server (some r) out name sid c m now h = r
or_server none out name sid c m now h = server_command out name sid c m now h

locked : Option Msg → Outside → Text → ℕ → Conn → Msg → ℕ → Hub → Reply
unfolding or_server
locked (some e) out name sid c m now h = (h, e)
locked none out name sid c m now h =
    let h' = if hashes_password name then out.away h else h in
    if c.guest && not (name == str "channels")
    then (h', fail m Code.guest (str "guests can't do that — ask for an account"))
    else or_server (channel_command out name sid c m now h') out name sid c m now h'

unfoldable pub handle_cmd : Outside → ℕ → Conn → Msg → ℕ → Hub → Reply
unfolding locked
handle_cmd out sid c m now h =
    let name = to_lower (trim_space m.name) in
    locked (hashing_error out name c m h) out name sid c m now h
