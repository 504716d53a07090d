-- ===== src/Auth.antt =====
-- From a hello to a session (code/hub.go, `authenticate` to `newSession`). The lock is released while a
-- password is hashed: `away` is what other connections do to the hub meanwhile. The random choices are
-- arguments, `draws`, and the functions of Go's standard library are fields of `lib`.
pub mod Password
pub mod Login
use back_channel.Prelude.{
  ℕ, ◌+◌, ◌-◌, Bool, true, false, ◌&&◌, ◌||◌, not, Option, none, some, List, [], ◌∷◌, ◌++◌, length,
  take, ltb, leb, nat_eq, ◌==◌, ℕ_eq, ℤ_eq, list_eq, or_else, is_some, if◌then◌else◌,
}
use back_channel.Prelude.Int.{ℤ, pos, ltb_ℤ}
use back_channel.Prelude.Dict.{Dict, lookup, insert, erase}
use back_channel.Prelude.Text.{Text, str, to_lower, trim_space}
use back_channel.Prelude.Decimal.{show_nat}
use back_channel.State.{
  ServerRole, ChanRole, Status, Registration, User, Session, Membership, Channel, DeviceKey, Invite,
  Limits,
}
use back_channel.Frame.{Msg, Kind, Code, Auth, frame}
use back_channel.Hub.{
  Hub, Conn, save, mark_dirty, user_by_name, default_chan, set_chan, set_user, session_count, audit,
}
use back_channel.Names.{valid_name, sanitize_name, guest_id}
use back_channel.Limits.Bucket.{Key, key_eq, allow_rate, exhausted, per_minute, tokens_of}
use back_channel.Limits.Rates.{lim}
use back_channel.Commands.Members.{set_member, joined}
use back_channel.Commands.Invites.{valid_invite, consume_invite, name_of}
use Password.{Library, hash_password, check_password}

-- What is drawn at random: a session token, the salt of a new password, and the hash that a wrong user
-- name is checked against.
pub record Draws : Type 0 where
  pub raw : Text
  pub salt : Text
  pub dummy : Text

-- `authenticate` returns an error frame, or a session with the raw token of a new one.
pub data Outcome : Type 0 where
  refused : Msg → Outcome
  admitted : Conn → Text → Outcome

abbrev pub is_blank : Text → Bool
is_blank [] = true
is_blank (c ∷ s) = false

unfoldable pub refuse : Code → Text → Outcome
refuse code text = Outcome.refused (record (frame Kind.err) { code = code; text = text })

abbrev first_given : Text → Text → Text
first_given [] t = t
first_given (c ∷ s) t = c ∷ s

unfoldable pub device_of : Msg → Text
device_of hello =
    first_given (trim_space hello.device) (first_given (trim_space hello.name) (str "device"))

-- The session of a user who has shown who it is.
abbrev pub opened : User → Bool → Msg → Text → Text → Conn
opened u guest hello ip sess_hash = record {
  user = u;
  guest = guest;
  v = hello.v;
  device = device_of hello;
  ip = ip;
  sess_hash = sess_hash;
  subs = [];
  out = [];
  hung_up = false;
  closed = false;
}

-- ---- finishAuth ----

key_differs : Option DeviceKey → Text → Bool
key_differs none key = true
key_differs (some k) key = not (k.public_key == key)

keys_of : Hub → ℤ → Dict Text DeviceKey
keys_of h uid = or_else (lookup uid h.st.device_keys) []

set_device_key : ℤ → Text → Text → ℕ → Hub → Hub
unfolding keys_of key_differs
set_device_key uid device [] now h = h
set_device_key uid device (k ∷ ey) now h =
    let keys = keys_of h uid in
    if key_differs (lookup device keys) (k ∷ ey)
    then (let key : DeviceKey = record { public_key = k ∷ ey; updated = now } in
        mark_dirty (record h {
          st = record h.st { device_keys = insert uid (insert device key keys) h.st.device_keys };
        }))
    else h

abbrev full_text : Hub → Text
full_text h =
    str "too many simultaneous connections (max "
    ++ show_nat (lim h).conns_per_user
    ++ str ") — /sessions on another device"

-- The bound on connections of one user, and the device's public key.
unfoldable pub finish_auth : Conn → Msg → Text → ℕ → Hub → Hub × Outcome
unfolding set_device_key
finish_auth c hello raw now h =
    let max = (lim h).conns_per_user in
    if ltb 0 max && leb max (session_count h c.user.id)
    then (h, refuse Code.limit (full_text h))
    else (set_device_key c.user.id c.device hello.public_key now h, Outcome.admitted c raw)

-- ---- userBlocked ----

abbrev ban_text : Library → User → Text
ban_text lib u =
    str "you are banned from this hub"
    ++ (if is_blank u.ban_reason then [] else str ": " ++ u.ban_reason)
    ++ (if ltb_ℤ (pos 0) u.ban_until then str " (until " ++ lib.date u.ban_until ++ str ")" else [])

abbrev pub lifted : User → User
lifted u = record u { status = Status.active; ban_until = pos 0; ban_reason = [] }

blocked_by : Status → Library → User → ℕ → Hub → Hub × Text
blocked_by Status.active lib u now h = (h, [])
blocked_by Status.disabled lib u now h = (h, str "this account is disabled")
blocked_by Status.banned lib u now h =
    if ltb_ℤ (pos 0) u.ban_until && ltb_ℤ u.ban_until (pos now)
    then (mark_dirty (set_user (lifted u) h), [])
    else (h, ban_text lib u)

-- Why a user may not come in, if it may not; a ban that has run out is lifted on the way.
unfoldable pub user_blocked : Library → User → ℕ → Hub → Hub × Text
unfolding blocked_by
user_blocked lib u now h = blocked_by u.status lib u now h

-- The account behind a pointer, after the hub has changed.
abbrev pub again : Hub → User → User
again h u = or_else (lookup u.id h.st.users) u

-- ---- new users and sessions ----

-- `newUserHashed`
unfoldable pub new_user_hashed : Text → Text → ServerRole → ℤ → ℕ → Hub → Hub × User
new_user_hashed name pass role by now h =
    let u : User = record {
      id = pos h.st.next_user;
      name = to_lower name;
      pass = pass;
      role = role;
      status = Status.active;
      ban_reason = [];
      ban_until = pos 0;
      created_at = now;
      created_by = by;
      last_seen = 0;
      quota_mb = pos 0;
      msg_rate = pos 0;
      upload_rate = pos 0;
    } in
    (
      set_user u (record h {
        st = record h.st { next_user = h.st.next_user + 1 };
        by_name = insert u.name u.id h.by_name;
      }),
      u,
    )

-- The sessions of a user, the oldest first.
by_age : Text × Session → List (Text × Session) → List (Text × Session)
by_age s [] = s ∷ []
by_age s (x ∷ xs) = if ltb x.1.created_at s.1.created_at then x ∷ by_age s xs else s ∷ x ∷ xs

unfoldable pub sessions_of : ℤ → Dict Text Session → List (Text × Session)
unfolding by_age
sessions_of uid [] = []
sessions_of uid ((k, se) ∷ rest) =
    let others = sessions_of uid rest in if se.user_id == uid then by_age (k, se) others else others

unfoldable pub erase_sessions : List (Text × Session) → Dict Text Session → Dict Text Session
erase_sessions [] d = d
erase_sessions ((k, se) ∷ old) d = erase_sessions old (erase k d)

-- All but the newest `max` sessions of a user go, where `max` is above 0.
unfoldable pub evict_oldest : ℤ → ℕ → Dict Text Session → Dict Text Session
unfolding sessions_of erase_sessions
evict_oldest uid max sessions =
    let mine = sessions_of uid sessions in
    if ltb 0 max && ltb max (length mine)
    then erase_sessions (take (length mine - max) mine) sessions
    else sessions

unfoldable pub set_sessions : Dict Text Session → Hub → Hub
set_sessions sessions h = record h { st = record h.st { sessions = sessions } }

-- `newSession`: `raw` is the token that the device is given, and the hub keeps its hash.
unfoldable pub new_session : Library → User → Text → Text → Text → ℕ → Hub → Hub
unfolding evict_oldest set_sessions
new_session lib u device ip raw now h =
    let se : Session = record {
      user_id = u.id;
      device = device;
      ip = ip;
      created_at = now;
      last_seen = now;
    } in
    let sessions = insert (lib.digest raw) se h.st.sessions in
    save (
      set_user (record u { last_seen = now })
        (set_sessions (evict_oldest u.id (lim h).sessions_max sessions) h))

-- A user with a name and a password is let in: the session's `sess_hash` stays empty.
unfoldable pub enter : Library → User → Msg → Text → Text → ℕ → Hub → Hub × Outcome
unfolding finish_auth new_session
enter lib u hello ip raw now h =
    let h' = new_session lib u (device_of hello) ip raw now h in
    finish_auth (opened u false hello ip []) hello raw now h'
