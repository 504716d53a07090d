-- ===== src/Commands/Accounts.antt =====
-- The commands on one's own account (code/cmds.go, `passwd`, `sessions` with `revoke`, `logout`).
pub mod Logout
use back_channel.Prelude.{
  ℕ, ◌+◌, Bool, true, false, ◌&&◌, ◌||◌, not, Option, none, some, List, [], ◌∷◌, ◌++◌, length, ltb,
  nat_eq, ◌==◌, ℕ_eq, ℤ_eq, list_eq, if◌then◌else◌,
}
use back_channel.Prelude.Int.{ℤ, pos}
use back_channel.Prelude.Dict.{Dict, lookup, insert, map_entries}
use back_channel.Prelude.Text.{Text, str}
use back_channel.Prelude.Decimal.{show_nat}
use back_channel.State.{User, Session}
use back_channel.Frame.{Msg, Kind, Code, frame}
use back_channel.Hub.{Hub, Conn, push_conn, user_of, set_user, save}
use back_channel.Auth.{set_sessions}
use back_channel.Auth.Password.{Library, check_password, hash_password}
use back_channel.Commands.{Reply, arg, ok, fail}

-- ---- passwd ----

-- What is wrong with a change of password, before it is made.
unfoldable pub passwd_error : Library → Conn → Msg → Hub → Option Msg
passwd_error lib c m h =
    if c.guest
    then some (fail m Code.guest (str "guests have no password"))
    else if ltb (length (arg m "new")) 8
    then some (fail m Code.badarg (str "new password: at least 8 characters"))
    else if not (check_password lib (user_of h c).pass (arg m "old"))
    then some (fail m Code.auth (str "current password is wrong"))
    else none

unfoldable pub passwd : Library → Text → Conn → Msg → Hub → Reply
passwd lib salt c m h = (
  save (set_user (record (user_of h c) { pass = hash_password lib salt (arg m "new") }) h),
  ok m (str "password changed"),
)

-- ---- sessions ----

unfoldable pub has_prefix : Text → Text → Bool
has_prefix [] s = true
has_prefix (p ∷ ps) [] = false
has_prefix (p ∷ ps) (c ∷ s) = nat_eq p c && has_prefix ps s

-- The connections of the sessions with some hash, or of a user, are told and hung up on.
abbrev hang_up : (ℕ → Conn → Bool) → Msg → Hub → Hub
hang_up whom why h = record h {
  conns =
      map_entries (λ sid c. if whom sid c then record (push_conn why c) { hung_up = true } else c)
        h.conns;
}

abbrev auth_error : Text → Msg
auth_error text = record (frame Kind.err) { code = Code.auth; text = text }

-- The sessions that pass a test go; so do the connections of each.
unfoldable pub without_sessions : (Text → Session → Bool) → Dict Text Session → Dict Text Session
without_sessions gone [] = []
without_sessions gone ((k, se) ∷ rest) =
    let others = without_sessions gone rest in if gone k se then others else (k, se) ∷ others

hashes_of : (Text → Session → Bool) → Dict Text Session → List Text
hashes_of gone [] = []
hashes_of gone ((k, se) ∷ rest) =
    let others = hashes_of gone rest in if gone k se then k ∷ others else others

hang_up_all : List Text → Hub → Hub
hang_up_all [] h = h
hang_up_all (k ∷ ks) h =
    hang_up_all ks (
      hang_up (λ sid c. c.sess_hash == k) (auth_error (str "session revoked from another device"))
        h)

-- Whether `revoke` means a session: one of the user, not the one that asks.
abbrev pub is_revoked : Conn → Text → Text → Session → Bool
is_revoked c prefix k se =
    (se.user_id == c.user.id) && has_prefix prefix k && not (k == c.sess_hash)

unfoldable pub revoke_sessions : Conn → Msg → Hub → Reply
unfolding without_sessions hashes_of hang_up_all
revoke_sessions c m h =
    let gone = is_revoked c (arg m "revoke") in
    let ks = hashes_of gone h.st.sessions in
    (
      save (hang_up_all ks (set_sessions (without_sessions gone h.st.sessions) h)),
      ok m (str "revoked " ++ show_nat (length ks) ++ str " session(s)"),
    )

-- ---- logout ----

abbrev pub is_all : Msg → Bool
is_all m = arg m "all" == str "on"

-- The session that asks, or all of the user's.
abbrev pub is_logged_out : Conn → Bool → Text → Session → Bool
is_logged_out c all k se = (se.user_id == c.user.id) && (all || (k == c.sess_hash))

abbrev told_all : Bool → ℕ → Conn → Hub → Hub
told_all false sid c h = h
told_all true sid c h =
    hang_up (λ other o. (o.user.id == c.user.id) && not (nat_eq other sid))
      (auth_error (str "logged out everywhere from another device")) h

close_self : ℕ → ℕ → Conn → Conn
close_self sid other o = if nat_eq other sid then record o { hung_up = true } else o

hang_up_self : ℕ → Hub → Hub
unfolding close_self
hang_up_self sid h = record h { conns = map_entries (close_self sid) h.conns }

unfoldable pub logout : ℕ → Conn → Msg → Hub → Reply
unfolding without_sessions hang_up_self
logout sid c m h =
    let all = is_all m in
    let kept = without_sessions (is_logged_out c all) h.st.sessions in
    (hang_up_self sid (told_all all sid c (save (set_sessions kept h))), ok m (str "logged out"))
