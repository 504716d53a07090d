-- ===== src/State.antt =====
-- The persistent data of the hub (code/store.go), with the roles that code/perms.go reads from it.
-- Account ids are int64 and negative for guests, so they are integers; channel and message ids are
-- positive counters. Times are Unix milliseconds. A rate, a float64 in the source, is kept in
-- thousandths of its unit.
use back_channel.Prelude.{ℕ, Bool, false, []}
use back_channel.Prelude.Int.{ℤ}
use back_channel.Prelude.Dict.{Dict}
use back_channel.Prelude.Text.{Text, str}

-- The strings that `User.Role` takes; `other` is any other string.
pub data ServerRole : Type 0 where
  owner admin user guest : ServerRole
  other : Text → ServerRole

-- The strings that `Membership.Role` takes, the keys of `roleRank`; `other` is any other string.
pub data ChanRole : Type 0 where
  owner admin mods member readonly : ChanRole
  other : Text → ChanRole

-- The strings that `User.Status` takes.
pub data Status : Type 0 where
  active banned disabled : Status

-- The strings that `Settings.Registration` takes.
pub data Registration : Type 0 where
  invite admin_only anyone : Registration

pub record User : Type 0 where
  pub id : ℤ
  pub name : Text
  pub pass : Text
  pub role : ServerRole
  pub status : Status
  pub ban_reason : Text
  pub ban_until : ℤ
  pub created_at : ℕ
  pub created_by : ℤ
  pub last_seen : ℕ
  pub quota_mb : ℤ
  pub msg_rate : ℤ
  pub upload_rate : ℤ

pub record Session : Type 0 where
  pub user_id : ℤ
  pub device : Text
  pub ip : Text
  pub created_at : ℕ
  pub last_seen : ℕ

pub record Membership : Type 0 where
  pub role : ChanRole
  pub joined_at : ℕ
  pub invited_by : ℤ
  pub muted_until : ℤ
  pub last_read : ℕ

pub record Ban : Type 0 where
  pub banned_by : ℤ
  pub reason : Text
  pub at : ℕ
  pub until : ℤ

pub record Channel : Type 0 where
  pub id : ℕ
  pub name : Text
  pub topic : Text
  pub created_at : ℕ
  pub created_by : ℤ
  pub retention_days : ℤ
  pub expire_sec : ℤ
  pub max_file_mb : ℤ
  pub msg_rate : ℤ
  pub readonly : Bool
  pub is_default : Bool
  pub e2e : Bool
  pub key_epoch : ℕ
  pub members : Dict ℤ Membership
  pub bans : Dict ℤ Ban

pub record DeviceKey : Type 0 where
  pub public_key : Text
  pub updated : ℕ

-- `uses_left` is -1 for an invite without a limit.
pub record Invite : Type 0 where
  pub code : Text
  pub channel_id : ℕ
  pub created_by : ℤ
  pub created_at : ℕ
  pub uses_left : ℤ
  pub expires_at : ℤ
  pub role : ChanRole
  pub signup : Bool

pub record FileMeta : Type 0 where
  pub fid : Text
  pub sha : Text
  pub name : Text
  pub size : ℕ
  pub owner : ℤ
  pub created_at : ℕ

pub record Limits : Type 0 where
  pub msg_rate : ℕ
  pub msg_burst : ℕ
  pub max_msg_kb : ℕ
  pub upload_rate : ℕ
  pub max_file_mb : ℕ
  pub quota_mb : ℕ
  pub invite_rate : ℕ
  pub login_rate : ℕ
  pub conn_rate : ℕ
  pub sessions_max : ℕ
  pub conns_per_user : ℕ
  pub max_uploads : ℕ
  pub auto_mute_hits : ℕ
  pub auto_mute_min : ℕ

pub record Settings : Type 0 where
  pub registration : Registration
  pub allow_user_channels : Bool
  pub default_channel : Text
  pub guest_access : Bool
  pub legacy_token : Text
  pub max_users : ℕ
  pub max_channels : ℕ
  pub limits : Limits

-- `device_keys` has the pair of an account id and a device name for its key, which
-- `deviceKeyID` prints as "<user id>:<device>".
pub record State : Type 0 where
  pub version : ℕ
  pub next_user : ℕ
  pub next_chan : ℕ
  pub users : Dict ℤ User
  pub channels : Dict ℕ Channel
  pub sessions : Dict Text Session
  pub invites : Dict Text Invite
  pub files : Dict Text FileMeta
  pub device_keys : Dict ℤ (Dict Text DeviceKey)
  pub settings : Settings

abbrev pub default_limits : Limits
default_limits = record {
  msg_rate = 5000;
  msg_burst = 20000;
  max_msg_kb = 64;
  upload_rate = 30000;
  max_file_mb = 2048;
  quota_mb = 5120;
  invite_rate = 10000;
  login_rate = 5000;
  conn_rate = 20000;
  sessions_max = 10;
  conns_per_user = 5;
  max_uploads = 2;
  auto_mute_hits = 20;
  auto_mute_min = 10;
}

abbrev pub new_state : State
new_state = record {
  version = 2;
  next_user = 1;
  next_chan = 1;
  users = [];
  channels = [];
  sessions = [];
  invites = [];
  files = [];
  device_keys = [];
  settings = record {
    registration = Registration.invite;
    allow_user_channels = false;
    default_channel = str "general";
    guest_access = false;
    legacy_token = [];
    max_users = 500;
    max_channels = 200;
    limits = default_limits;
  };
}
