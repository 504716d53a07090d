-- ===== src/Connection.antt =====
-- The life of a connection (code/hub.go, `handleConn`, `connAllow`): the hello, the dispatch of frames, and
-- the end. One frame is one step of the hub.
use back_channel.Prelude.{ℕ, Bool, true, false, Option, none, some, ltb, if◌then◌else◌, ℕ_eq}
use back_channel.Prelude.Dict.{insert}
use back_channel.Prelude.Text.{Text, str}
use back_channel.State.{Channel}
use back_channel.Frame.{Msg, Kind, Code, frame, err_nochan}
use back_channel.Hub.{Hub, Conn, push, user_of, chan_for, chan_by_name, default_chan}
use back_channel.Limits.Bucket.{Key, allow_rate, per_minute, tokens_of}
use back_channel.Limits.Rates.{lim, limits_for}
use back_channel.Subs.{subscribe, unsub}
use back_channel.Handlers.{
  handle_sub, handle_msg, handle_key_req, handle_key_share, handle_clip, handle_read,
}
use back_channel.Auth.{Draws, Outcome}
use back_channel.Auth.Login.{authenticate}
use back_channel.Commands.Dispatch.{Outside, handle_cmd}
use back_channel.Commands.Listings.{channels_for, online_in}
use back_channel.Commands.Server.{show_server_role}

-- `connAllow`: `n` thousandths of a connection against the rate of an address.
unfoldable pub conn_allow : Text → ℕ → ℕ → Hub → Bool × Hub
conn_allow ip n now h =
    let (granted, l) =
      allow_rate h.conn_lim (Key.address ip) (per_minute (lim h).conn_rate) (tokens_of 10000)
        (tokens_of n) now in
    (granted, record h { conn_lim = l })

-- What comes of a hello: the connection is dropped, gets an error frame, or is a session.
pub data Greeting : Type 0 where
  dropped : Greeting
  turned_away : Msg → Greeting
  welcome : Greeting

abbrev is_hello : Kind → Bool
is_hello Kind.hello = true
is_hello _ = false

label : Text
label = str "backchannel hub 2.0.0"

-- The answer to a client of the first protocol, which is put into the default channel.
greet_old : Option Channel → ℕ → Conn → Msg → ℕ → Hub → Hub
unfolding label
greet_old none sid c hello now h = h
greet_old (some def) sid c hello now h =
    let h' = subscribe sid c def hello.since now h in
    push sid
      (record (frame Kind.ok) {
        name = (user_of h c).name;
        users = online_in h' def.id;
        text = label;
      })
      h'

welcome_frame : Conn → Text → Hub → Msg
unfolding label
welcome_frame c raw h =
    let u = user_of h c in
    record (frame Kind.ok) {
      v = 2;
      user = u.name;
      role = show_server_role u.role;
      session = raw;
      channels = channels_for h u;
      limits = some (limits_for h u);
      text = label;
    }

-- The session is registered, and greeted. The lock was released since `authenticate`: `away` is what
-- others did in between.
greet : (Hub → Hub) → Hub × Outcome → ℕ → Msg → ℕ → Hub × Greeting
unfolding greet_old welcome_frame
greet away (h, Outcome.refused e) sid hello now = (h, Greeting.turned_away e)
greet away (h, Outcome.admitted c raw) sid hello now =
    let h0 = away h in
    let h1 : Hub = record h0 { conns = insert sid c h0.conns } in
    (
      if ltb c.v 2
          then greet_old (default_chan h1) sid c hello now h1
          else push sid (welcome_frame c raw h1) h1,
      Greeting.welcome,
    )

-- The first frame of a connection. Between the two parts of the lock others may act, in `out.away` while
-- a password is hashed and in `between` before the session is registered.
unfoldable pub open_conn : Outside → Draws → (Hub → Hub) → ℕ → Text → Msg → ℕ → Hub → Hub × Greeting
unfolding greet
open_conn out draws between sid ip hello now h =
    let (granted, h1) = conn_allow ip 1000 now h in
    if granted
    then if is_hello hello.t
      then greet between (authenticate out.lib draws out.away hello ip now h1) sid hello now
      else (
        h1,
        Greeting.turned_away
            (record (frame Kind.err) { code = Code.badarg; text = str "expected a hello frame" }),
      )
    else (h1, Greeting.dropped)

-- ---- frames ----

unsub_named : Option Channel → ℕ → Conn → Hub → Hub
unsub_named none sid c h = h
unsub_named (some ch) sid c h = unsub sid c ch.id false h

unfoldable pub tell_who : Option Channel → ℕ → Msg → Hub → Hub
tell_who none sid m h = push sid (err_nochan m.rid m.ch) h
tell_who (some ch) sid m h =
    push sid (record (frame Kind.who) { ch = ch.name; users = online_in h ch.id }) h

-- The reply to a command is pushed once the command is done.
reply_to : ℕ → Hub × Msg → Hub
reply_to sid (h, m) = push sid m h

-- A frame of a session, by its kind; a frame of another kind is ignored.
unfoldable pub on_frame : Outside → Kind → ℕ → Conn → Msg → ℕ → Hub → Hub
unfolding unsub_named tell_who reply_to
on_frame out Kind.ping sid c m now h = push sid (frame Kind.pong) h
on_frame out Kind.msg sid c m now h = handle_msg sid c m now h
on_frame out Kind.clip sid c m now h = handle_clip sid c m now h
on_frame out Kind.sub sid c m now h = handle_sub sid c m now h
on_frame out Kind.unsub sid c m now h = unsub_named (chan_by_name h m.ch) sid c h
on_frame out Kind.read sid c m now h = handle_read sid c m h
on_frame out Kind.keyreq sid c m now h = handle_key_req sid c m now h
on_frame out Kind.keyshare sid c m now h = handle_key_share sid c m h
on_frame out Kind.who sid c m now h = tell_who (chan_for h (user_of h c) m.ch) sid m h
on_frame out Kind.cmd sid c m now h = reply_to sid (handle_cmd out sid c m now h)
on_frame out _ sid c m now h = h
