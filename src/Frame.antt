-- ===== src/Frame.antt =====
-- The wire type (code/proto.go): one record for every frame, with the error codes and the rows that a
-- frame can carry. A field that a frame does not use is empty, as in Go.
use back_channel.Prelude.{ℕ, Bool, false, List, [], Option, none, String}
use back_channel.Prelude.Int.{ℤ, pos}
use back_channel.Prelude.Text.{Text, str}

-- The strings of the field `t`; `other` is any other string.
pub data Kind : Type 0 where
  hello ok err ping pong msg file deleted del clip sub unsub synced join part read keyreq keyshare
        who cmd res topic muted kicked banned removed invited role purged expired settings quota :
      Kind
  other : Kind

-- The strings of the field `code`; `no_code` is its absence.
pub data Code : Type 0 where
  no_code auth banned nochan perm ratelimit toolong muted readonly badarg limit exists notfound
        guest :
      Code

pub record ChanInfo : Type 0 where
  pub name : Text
  pub topic : Text
  pub role : Text
  pub unread : ℕ
  pub last : ℕ
  pub readonly : Bool
  pub members : ℕ
  pub is_default : Bool
  pub expire : ℤ
  pub e2e : Bool
  pub epoch : ℕ

pub record LimitInfo : Type 0 where
  pub max_msg : ℤ
  pub max_file : ℤ
  pub quota_left : ℤ

pub record Peer : Type 0 where
  pub user : Text
  pub device : Text
  pub public_key : Text

pub record Auth : Type 0 where
  pub session : Text
  pub user : Text
  pub pass : Text
  pub invite : Text
  pub register : Bool

-- `sender` is `From`, `public_key` is `Pub`. The arguments of a command are in the order in which a
-- `range` over Go's map visits them.
pub record Msg : Type 0 where
  pub t : Kind
  pub v : ℕ
  pub rid : Text
  pub ch : Text
  pub cid : ℕ
  pub id : ℕ
  pub ts : ℕ
  pub sender : Text
  pub by : Text
  pub text : Text
  pub name : Text
  pub size : ℕ
  pub fid : Text
  pub sha : Text
  pub hist : Bool
  pub ids : List ℕ
  pub token : Text
  pub since : ℕ
  pub last : ℕ
  pub device : Text
  pub auth : Option Auth
  pub public_key : Text
  pub user : Text
  pub role : Text
  pub session : Text
  pub channels : List ChanInfo
  pub limits : Option LimitInfo
  pub users : List Text
  pub until : ℤ
  pub epoch : ℕ
  pub to_user : Text
  pub to_device : Text
  pub from_user : Text
  pub from_dev : Text
  pub from_pub : Text
  pub wrapped : Text
  pub peers : List Peer
  pub code : Code
  pub ok : Bool
  pub args : List (String × Text)
  pub lines : List Text

-- A frame of a kind with every other field empty.
abbrev pub frame : Kind → Msg
frame kind = record {
  t = kind;
  v = 0;
  rid = [];
  ch = [];
  cid = 0;
  id = 0;
  ts = 0;
  sender = [];
  by = [];
  text = [];
  name = [];
  size = 0;
  fid = [];
  sha = [];
  hist = false;
  ids = [];
  token = [];
  since = 0;
  last = 0;
  device = [];
  auth = none;
  public_key = [];
  user = [];
  role = [];
  session = [];
  channels = [];
  limits = none;
  users = [];
  until = pos 0;
  epoch = 0;
  to_user = [];
  to_device = [];
  from_user = [];
  from_dev = [];
  from_pub = [];
  wrapped = [];
  peers = [];
  code = Code.no_code;
  ok = false;
  args = [];
  lines = [];
}

abbrev pub text_nochan : Text
text_nochan = str "no such channel"

-- `errNoChan`: the one answer to a channel that is not there or not to be seen.
unfoldable pub err_nochan : Text → Text → Msg
err_nochan rid ch = record (frame Kind.err) {
  code = Code.nochan;
  text = text_nochan;
  rid = rid;
  ch = ch;
}

-- An error frame about a request in a channel.
unfoldable pub err_frame : Code → Msg → Text → Text → Msg
err_frame code m ch text = record (frame Kind.err) {
  code = code;
  text = text;
  rid = m.rid;
  ch = ch;
}
