-- ===== src/Commands/Accounts/Logout.antt =====
-- A logout after a login with a password (code/cmds.go, `logout`; code/hub.go, `authenticate`).
use back_channel.Prelude.{ℕ, ◌≡◌, refl, false, none, [], ◌∷◌, list_eq, ℤ_eq, ℕ_eq, arith}
use mathlib.Core.Path.{subst}
use back_channel.Prelude.Dict.{Dict, lookup}
use back_channel.Prelude.Text.{Text, str, to_lower, trim_space}
use back_channel.State.{Session}
use back_channel.Frame.{Msg, Auth}
use back_channel.Hub.{Hub, Conn, save}
use back_channel.Auth.{Outcome, Draws, set_sessions}
use back_channel.Auth.Password.{Library}
use back_channel.Auth.Login.{by_password}
use back_channel.Auth.Login.Credentials.{Admits, by_password-Admits, Opened}
use back_channel.Commands.{ok}
use back_channel.Commands.Accounts.{logout, without_sessions, is_logged_out, is_all}

-- A connection without a hash logs out of no session: no session is kept under the empty hash.
without_sessions-none :
    (c : Conn) (d : Dict Text Session)
    → c.sess_hash ≡ []
    → lookup [] d ≡ none
    → without_sessions (is_logged_out c false) d ≡ d
unfolding without_sessions lookup
without_sessions-none c [] e f = refl
without_sessions-none c ((k, se) ∷ d) e f = rw e (ground (arith, without_sessions-none c d e))

-- The end of a login, as a fact on its session.
admitted-Opened :
    (lib : Library) (draws : Draws) (away : Hub → Hub) (a : Auth) (hello : Msg) (ip : Text)
    (now : ℕ) (h h' : Hub) (c : Conn) (raw : Text)
    → by_password lib draws away a hello ip now h ≡ (h', Outcome.admitted c raw)
    → c.sess_hash ≡ []
admitted-Opened lib draws away a hello ip now h h' c raw e =
    let opens =
      subst (Admits (Opened lib a.pass h (away h) now (to_lower (trim_space a.user)))) e
        (by_password-Admits lib draws away a hello ip now h) in
    opens.no_hash

-- A connection that was let in by a password and logs out, of this session alone, is told that it is
-- logged out, but every session stays, where none is kept under the empty hash: also the one that was
-- made for it, whose token goes on to work.
pub logout-keeps :
    (lib : Library) (draws : Draws) (away : Hub → Hub) (a : Auth) (hello : Msg) (ip : Text)
    (now : ℕ) (h h' : Hub) (c : Conn) (raw : Text)
    → by_password lib draws away a hello ip now h ≡ (h', Outcome.admitted c raw)
    → (sid : ℕ) (m : Msg) (later : Hub) → is_all m ≡ false
    → lookup [] later.st.sessions ≡ none
    → ((logout sid c m later).0.st.sessions ≡ later.st.sessions)
      × ((logout sid c m later).1 ≡ ok m (str "logged out"))
unfolding logout save set_sessions
logout-keeps lib draws away a hello ip now h h' c raw e sid m later one clean =
    let no_hash = admitted-Opened lib draws away a hello ip now h h' c raw e in
    rw (one, without_sessions-none c later.st.sessions no_hash clean) (refl, refl)
