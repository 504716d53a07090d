-- ===== src/Hub.antt =====
-- The hub's state in memory (code/hub.go, `hub` and `session`), the index of names, and how frames
-- reach connections. A pointer to a user or a channel is its id: both stay in the state's maps for as
-- long as anything points to them. Every operation runs under the hub's one lock, and reads the
-- clock once, as the argument `now`.
pub mod Search
use back_channel.Prelude.{
  ℕ, zero, suc, ◌+◌, ◌-◌, ◌<◌, Bool, true, false, ◌&&◌, ◌||◌, Option, none, some, List, [], ◌∷◌,
  ◌++◌, length, ltb, nat_eq, ◌==◌, ℕ_eq, ℤ_eq, list_eq, or_else, not, drop, if◌then◌else◌,
}
use back_channel.Prelude.Int.{ℤ}
use back_channel.Prelude.Dict.{Dict, lookup, insert, erase, update, map_entries}
use back_channel.Prelude.Text.{Text, str, to_lower, trim_space}
use back_channel.State.{State, User, Channel}
use back_channel.Frame.{Msg, Kind, frame}
use back_channel.Limits.Bucket.{Limiter, Key, new_limiter, per_second, tokens_of}
use back_channel.Perms.{rank_in, rank_none}

pub record AuditRec : Type 0 where
  pub ts : ℕ
  pub actor : Text
  pub action : Text
  pub user : Text
  pub ch : Text
  pub detail : Text

-- A live connection. `user` is the account as it was at login, or the guest; `out` is the queue that
-- the writer drains, and `hung_up` says that the hub has closed the socket.
pub record Conn : Type 0 where
  pub user : User
  pub guest : Bool
  pub v : ℕ
  pub device : Text
  pub ip : Text
  pub sess_hash : Text
  pub subs : List ℕ
  pub out : List Msg
  pub hung_up : Bool
  pub closed : Bool

-- `disk` is what state.json holds, and `log` what messages.jsonl holds.
pub record Hub : Type 0 where
  pub st : State
  pub by_name : Dict Text ℤ
  pub ch_by_name : Dict Text ℕ
  pub msgs : Dict ℕ (List Msg)
  pub next_id : ℕ
  pub keep : ℕ
  pub log : List Msg
  pub audit_log : List AuditRec
  pub dirty : Bool
  pub disk : State
  pub file_refs : Dict Text (Dict ℕ ℕ)
  pub used : Dict ℤ ℕ
  pub hashes : Dict Text Text
  pub total_bytes : ℕ
  pub uploading : Dict ℤ ℕ
  pub conns : Dict ℕ Conn
  pub presence : Dict ℕ (Dict ℤ ℕ)
  pub rate_hits : Dict Key (List ℕ)
  pub removed : ℕ
  pub last_comp : ℕ
  pub msg_lim : Limiter
  pub up_lim : Limiter
  pub conn_lim : Limiter
  pub login_lim : Limiter
  pub invite_lim : Limiter

-- `newHub`, with the state that it is given.
abbrev pub new_hub : State → ℕ → Hub
new_hub st keep = record {
  st = st;
  by_name = [];
  ch_by_name = [];
  msgs = [];
  next_id = 0;
  keep = keep;
  log = [];
  audit_log = [];
  dirty = false;
  disk = st;
  file_refs = [];
  used = [];
  hashes = [];
  total_bytes = 0;
  uploading = [];
  conns = [];
  presence = [];
  rate_hits = [];
  removed = 0;
  last_comp = 0;
  msg_lim = new_limiter (per_second 5000) (tokens_of 20000);
  up_lim = new_limiter (per_second 500) (tokens_of 5000);
  conn_lim = new_limiter (per_second 330) (tokens_of 10000);
  login_lim = new_limiter (per_second 83) (tokens_of 5000);
  invite_lim = new_limiter (per_second 3) (tokens_of 10000);
}

-- A map of lists read at a key that may be missing.
abbrev pub list_at : {A : Type 0} → Option (List A) → List A
list_at none = []
list_at (some xs) = xs

-- `save` writes state.json; `markDirty` leaves that to the flusher.
unfoldable pub save : Hub → Hub
save h = record h { disk = h.st; dirty = false }

unfoldable pub mark_dirty : Hub → Hub
mark_dirty h = record h { dirty = true }

-- One round of the flusher.
unfoldable pub flush : Hub → Hub
unfolding save
flush h = if h.dirty then save h else h

-- ---- names ----

abbrev pub user_at : Hub → Option ℤ → Option User
user_at h none = none
user_at h (some id) = lookup id h.st.users

abbrev chan_at : Hub → Option ℕ → Option Channel
chan_at h none = none
chan_at h (some id) = lookup id h.st.channels

unfoldable pub user_by_name : Hub → Text → Option User
user_by_name h name = user_at h (lookup (to_lower (trim_space name)) h.by_name)

unfoldable pub chan_by_name : Hub → Text → Option Channel
chan_by_name h name = chan_at h (lookup (to_lower (trim_space name)) h.ch_by_name)

unfoldable pub default_chan : Hub → Option Channel
unfolding chan_by_name
default_chan h = chan_by_name h h.st.settings.default_channel

-- The user that a connection points to: the account as it is now, or the guest.
unfoldable pub user_of : Hub → Conn → User
user_of h c = or_else (lookup c.user.id h.st.users) c.user

abbrev pub visible : User → Option Channel → Option Channel
visible u none = none
visible u (some ch) = if nat_eq (rank_in u ch) rank_none then none else some ch

abbrev pub named_chan : Hub → Text → Option Channel
named_chan h [] = default_chan h
named_chan h (c ∷ s) = chan_by_name h (c ∷ s)

-- `chanFor`: the channel that a user names, if it exists and the user can see it.
unfoldable pub chan_for : Hub → User → Text → Option Channel
unfolding chan_by_name default_chan
chan_for h u name = visible u (named_chan h name)

-- What is written back when the object behind a pointer changes.
unfoldable pub set_chan : Channel → Hub → Hub
set_chan ch h = record h { st = record h.st { channels = insert ch.id ch h.st.channels } }

unfoldable pub set_user : User → Hub → Hub
set_user u h = record h { st = record h.st { users = insert u.id u h.st.users } }

-- ---- frames to connections ----

abbrev pub out_cap : ℕ
out_cap = 8192

-- A frame is queued; a connection whose queue is full is hung up on instead.
unfoldable pub push_conn : Msg → Conn → Conn
push_conn m c =
    if c.closed
    then c
    else if ltb (length c.out) out_cap
    then record c { out = c.out ++ m ∷ [] }
    else record c { hung_up = true }

abbrev pub has : ℕ → List ℕ → Bool
has cid [] = false
has cid (x ∷ xs) = nat_eq x cid || has cid xs

unfoldable pub push : ℕ → Msg → Hub → Hub
unfolding push_conn
push sid m h = record h { conns = update sid (push_conn m) h.conns }

-- `toChan`: every connection that is subscribed.
unfoldable pub to_chan : ℕ → Msg → Hub → Hub
unfolding push_conn
to_chan cid m h = record h {
  conns = map_entries (λ sid c. if has cid c.subs then push_conn m c else c) h.conns;
}

-- `toUser`: every connection of a user but one; `none` excepts nobody.
abbrev is_except : Option ℕ → ℕ → Bool
is_except none sid = false
is_except (some x) sid = nat_eq x sid

unfoldable pub to_user : ℤ → Msg → Option ℕ → Hub → Hub
unfolding push_conn
to_user uid m except h = record h {
  conns =
      map_entries
        (λ sid c. if (c.user.id == uid) && not (is_except except sid) then push_conn m c else c)
        h.conns;
}

-- `kickSessions`: the last frame to every connection of a user, which is then hung up on.
unfoldable pub kick_sessions : ℤ → Msg → Hub → Hub
unfolding push_conn
kick_sessions uid m h = record h {
  conns =
      map_entries
        (λ sid c. if c.user.id == uid then record (push_conn m c) { hung_up = true } else c)
        h.conns;
}

count_sessions : ℤ → Dict ℕ Conn → ℕ
count_sessions uid [] = 0
count_sessions uid ((sid, c) ∷ rest) = (if c.user.id == uid then 1 else 0) + count_sessions uid rest

unfoldable pub session_count : Hub → ℤ → ℕ
unfolding count_sessions
session_count h uid = count_sessions uid h.conns

-- ---- the audit log ----

abbrev pub audit_cap : ℕ
audit_cap = 2000

-- The last records, at most `audit_cap`.
unfoldable pub audit : Option User → Text → Text → Option Channel → Text → ℕ → Hub → Hub
audit actor action target ch detail now h =
    let r : AuditRec = record {
      ts = now;
      actor = elim actor [ none ↦ str "system" | some u ↦ u.name ];
      action = action;
      user = target;
      ch = elim ch [ none ↦ [] | some c ↦ c.name ];
      detail = detail;
    } in
    let all = h.audit_log ++ r ∷ [] in
    record h {
      audit_log = if ltb audit_cap (length all) then drop (length all - audit_cap) all else all;
    }
