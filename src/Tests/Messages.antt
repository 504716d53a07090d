-- ===== src/Tests/Messages.antt =====
-- Posts, deletions, subscriptions and files in a hub with one channel and one connection.
use back_channel.Prelude.{
  ℕ, ◌≡◌, refl, Bool, true, false, List, [], ◌∷◌, inl, arith, nat_eq, ℕ_eq, ℤ_eq, list_eq,
}
use back_channel.Prelude.Int.{pos}
use back_channel.Prelude.Dict.{lookup}
use back_channel.Prelude.Dict.Sums.{sum_by}
use back_channel.Prelude.Text.{str}
use back_channel.State.{
  State, new_state, User, ServerRole, ChanRole, Status, Channel, Membership, FileMeta,
}
use back_channel.Frame.{Msg, Kind, frame}
use back_channel.Hub.{Hub, Conn, new_hub}
use back_channel.Files.{commit_file, unref_file}
use back_channel.Files.Accounts.{
  IsBalanced, IsFresh, Commits, commit_file-Commits, unref_file-IsBalanced,
}
use back_channel.Messages.{post, tombstone, messages, unread_count, last_kept, load_log}
use back_channel.Messages.Order.{IsOrdered, post-IsOrdered}
use back_channel.Messages.Unread.{unread, unread_count-eq-unread}
use back_channel.Messages.Tombstones.{tombstone-IsOrdered}
use back_channel.Messages.Recovery.{reload, IsPosted, IsLogged}
use back_channel.Messages.Recovery.Steps.{Op, run, run_recovers}
use back_channel.Subs.{subscribe, unsub}
use back_channel.Subs.Presence.{IsCounted, count_subs, subscribe-IsCounted, unsub-IsCounted}

abbrev pub ada : User
ada = record {
  id = pos 1;
  name = str "ada";
  pass = [];
  role = ServerRole.user;
  status = Status.active;
  ban_reason = [];
  ban_until = pos 0;
  created_at = 0;
  created_by = pos 0;
  last_seen = 0;
  quota_mb = pos 0;
  msg_rate = pos 0;
  upload_rate = pos 0;
}

abbrev pub bob : User
bob = record ada { id = pos 2; name = str "bob" }

abbrev pub membership : ChanRole → Membership
membership role = record {
  role = role;
  joined_at = 0;
  invited_by = pos 0;
  muted_until = pos 0;
  last_read = 0;
}

-- Ada moderates, and Bob is a member.
abbrev pub design : Channel
design = record {
  id = 7;
  name = str "design";
  topic = [];
  created_at = 0;
  created_by = pos 1;
  retention_days = pos 0;
  expire_sec = pos 0;
  max_file_mb = pos 0;
  msg_rate = pos 0;
  readonly = false;
  is_default = false;
  e2e = true;
  key_epoch = 1;
  members = (pos 1, membership ChanRole.mods) ∷ (pos 2, membership ChanRole.member) ∷ [];
  bans = [];
}

abbrev pub connection : User → Conn
connection u = record {
  user = u;
  guest = false;
  v = 2;
  device = str "laptop";
  ip = [];
  sess_hash = [];
  subs = [];
  out = [];
  hung_up = false;
  closed = false;
}

abbrev pub state : State
state = record new_state { users = (pos 1, ada) ∷ (pos 2, bob) ∷ []; channels = (7, design) ∷ [] }

abbrev pub hub : Hub
hub = record (new_hub state 4) {
  by_name = (str "ada", pos 1) ∷ (str "bob", pos 2) ∷ [];
  ch_by_name = (str "design", 7) ∷ [];
  conns = (1, connection ada) ∷ (2, connection bob) ∷ [];
}

abbrev pub note : Msg
note = record (frame Kind.msg) { sender = str "ada"; text = str "hi" }

-- ---- messages ----

hub-IsOrdered : IsOrdered hub
unfolding lookup
hub-IsOrdered = record { ascends = λ cid. omega arith; bounded = λ cid. omega arith }

post-IsOrdered_example : IsOrdered (post design note 5 hub)
post-IsOrdered_example = post-IsOrdered design note 5 hub hub-IsOrdered

posted-IsOrdered : IsOrdered (post design note 6 (post design note 5 hub))
posted-IsOrdered =
    post-IsOrdered design note 6 (post design note 5 hub)
      (post-IsOrdered design note 5 hub hub-IsOrdered)

tombstone-IsOrdered_example :
    IsOrdered (tombstone 7 1 (str "bob") (post design note 6 (post design note 5 hub)))
tombstone-IsOrdered_example =
    tombstone-IsOrdered 7 1 (str "bob") (post design note 6 (post design note 5 hub))
      posted-IsOrdered

unread_count-eq-unread_example :
    unread_count (post design note 6 (post design note 5 hub)) 7 1
    ≡ unread 1 (messages (post design note 6 (post design note 5 hub)) 7)
unread_count-eq-unread_example =
    unread_count-eq-unread (post design note 6 (post design note 5 hub)) 7 1 posted-IsOrdered

abbrev exists : ℕ → Bool
exists cid = nat_eq cid 7

hub-IsLogged : IsLogged exists hub
unfolding lookup
hub-IsLogged = record {
  covers = λ cid ex. record { older = []; split = unfold reload load_log in refl; kept = inl refl };
}

abbrev ops : List Op
ops = Op.posts design note 5 ∷ Op.posts design note 6 ∷ Op.deletes 7 1 (str "bob") ∷ []

run_recovers_example :
    IsOrdered (run ops hub)
    × ((cid : ℕ)
        → exists cid ≡ true
        → last_kept (run ops hub).keep (reload exists (run ops hub).log cid)
          ≡ last_kept (run ops hub).keep (messages (run ops hub) cid))
run_recovers_example =
    run_recovers exists ops hub
      ((IsPosted.text_message, refl), ((IsPosted.text_message, refl), (refl, tt))) hub-IsOrdered
      hub-IsLogged

-- ---- subscriptions ----

hub-IsCounted : IsCounted hub
unfolding lookup count_subs
hub-IsCounted = record { counts = λ cid uid. ground arith }

subscribe-IsCounted_example : IsCounted (subscribe 1 (connection ada) design 0 9 hub)
unfolding lookup
subscribe-IsCounted_example =
    subscribe-IsCounted 1 (connection ada) design 0 9 hub refl refl hub-IsCounted

abbrev seated : Hub
seated = record hub {
  conns = (1, record (connection ada) { subs = 7 ∷ [] }) ∷ [];
  presence = (7, (pos 1, 1) ∷ []) ∷ [];
}

seated-IsCounted : IsCounted seated
unfolding lookup count_subs
seated-IsCounted = record { counts = λ cid uid. ground arith }

unsub-IsCounted_example :
    IsCounted (unsub 1 (record (connection ada) { subs = 7 ∷ [] }) 7 false seated)
unfolding lookup
unsub-IsCounted_example =
    unsub-IsCounted 1 (record (connection ada) { subs = 7 ∷ [] }) 7 false seated refl
      seated-IsCounted

-- ---- files ----

abbrev plan_file : FileMeta
plan_file = record {
  fid = str "f1";
  sha = str "9a";
  name = str "plan.txt";
  size = 12;
  owner = pos 1;
  created_at = 5;
}

hub-IsBalanced : IsBalanced hub
unfolding lookup sum_by
hub-IsBalanced = record {
  distinct = tt;
  charged = λ n. refl;
  total = refl;
  indexed = λ fid m p. absurd (ground arith);
  sound = λ sha fid m p q. absurd (ground arith);
}

plan_file-IsFresh : IsFresh (str "f1") hub
unfolding lookup
plan_file-IsFresh = record { unstored = refl; unhashed = λ sha p. ground arith }

commit_file-Commits_example : Commits plan_file hub (commit_file plan_file false hub)
commit_file-Commits_example =
    commit_file-Commits plan_file false hub tt plan_file-IsFresh hub-IsBalanced

unref_file-IsBalanced_example :
    IsBalanced (unref_file (str "f1") 7 (commit_file plan_file false hub).1)
unref_file-IsBalanced_example =
    unref_file-IsBalanced (str "f1") 7 (commit_file plan_file false hub).1
      (commit_file-Commits plan_file false hub tt plan_file-IsFresh hub-IsBalanced).balanced
