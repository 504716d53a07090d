-- ===== src/Commands.antt =====
-- Commands (code/cmds.go, `handleCmd`): the arguments, the replies, and the two checks that commands
-- share. A command is a function of the connection `c`, the frame, the clock and the hub, and returns
-- the hub and its reply. The branches of the dispatch are in the modules below.
pub mod Checks
pub mod Members
pub mod Roles
pub mod Invites
pub mod Channels
pub mod Deletions
pub mod Accounts
pub mod Encryption
pub mod Inviting
pub mod Listings
pub mod Dispatch
pub mod Server
use back_channel.Prelude.{
  ℕ, Bool, true, false, ◌&&◌, not, Option, none, some, List, [], ◌∷◌, ◌++◌, ltb, ◌==◌, string_eq,
  ℕ_eq, list_eq, ℤ_eq, or_else, is_some, if◌then◌else◌, String,
}
use back_channel.Prelude.Int.{ℤ, pos}
use back_channel.Prelude.Dict.{Dict, lookup}
use back_channel.Prelude.Text.{Text, str, trim_space}
use back_channel.Prelude.Decimal.{parse_int64}
use back_channel.State.{Channel, ChanRole, User}
use back_channel.Frame.{Msg, Kind, Code, frame, text_nochan}
use back_channel.Hub.{Hub, Conn, user_of, chan_for, user_by_name}
use back_channel.Perms.{Act, can, need, can_target, rank_in, srv_rank, srv_admin}

abbrev pub Reply : Type 0
Reply = Hub × Msg

-- `arg`: an argument without the spaces around it, empty if it is missing.
unfoldable pub arg : Msg → String → Text
arg m k = trim_space (or_else (lookup k m.args) [])

-- `atoi`
unfoldable pub atoi : Msg → String → ℤ → ℤ
unfolding arg
atoi m k def = or_else (parse_int64 (arg m k)) def

unfoldable pub ok : Msg → Text → Msg
ok m text = record (frame Kind.res) { rid = m.rid; ok = true; text = text }

unfoldable pub fail : Msg → Code → Text → Msg
fail m code text = record (frame Kind.res) { rid = m.rid; code = code; text = text }

rank_names : Dict ℕ Text
rank_names =
    (1, str "readonly")
    ∷ (2, str "member")
    ∷ (3, str "mod")
    ∷ (4, str "admin")
    ∷ (5, str "owner")
    ∷ (6, str "server admin")
    ∷ (7, str "server owner")
    ∷ []

-- `rankRole`, empty for another number.
unfoldable pub rank_role : ℕ → Text
unfolding rank_names
rank_role rank = or_else (lookup rank rank_names) []

-- A key of `roleRank`, and back.
unfoldable pub read_role : Text → ChanRole
read_role s =
    if s == str "owner"
    then ChanRole.owner
    else if s == str "admin"
    then ChanRole.admin
    else if s == str "mod"
    then ChanRole.mods
    else if s == str "member"
    then ChanRole.member
    else if s == str "readonly"
    then ChanRole.readonly
    else ChanRole.other s

unfoldable pub show_role : ChanRole → Text
show_role ChanRole.owner = str "owner"
show_role ChanRole.admin = str "admin"
show_role ChanRole.mods = str "mod"
show_role ChanRole.member = str "member"
show_role ChanRole.readonly = str "readonly"
show_role (ChanRole.other s) = s

abbrev pub is_owner : ChanRole → Bool
is_owner ChanRole.owner = true
is_owner _ = false

abbrev pub in_chan : Text → Channel → Text
in_chan what ch = what ++ str "#" ++ ch.name

abbrev ctx_in : Option Channel → User → Act → Msg → (Channel → ℕ → Reply) → Hub → Reply
ctx_in none u a m body h = (h, fail m Code.nochan text_nochan)
ctx_in (some ch) u a m body h =
    if can (rank_in u ch) a
    then body ch (rank_in u ch)
    else (h, fail m Code.perm (in_chan (str "you need " ++ rank_role (need a) ++ str " in ") ch))

-- `chCtx`: the channel of a command and the actor's rank in it go to the rest, `body`, if the actor
-- can see the channel and do `a` there.
unfoldable pub ch_ctx : Conn → Act → Msg → (Channel → ℕ → Reply) → Hub → Reply
ch_ctx c a m body h = ctx_in (chan_for h (user_of h c) m.ch) (user_of h c) a m body h

abbrev no_member : Msg → Channel → Msg
no_member m ch = fail m Code.notfound (in_chan (str "no such member in ") ch)

abbrev target_in : Option User → Channel → ℕ → Msg → (User → Reply) → Hub → Reply
target_in none ch rank m body h = (h, no_member m ch)
target_in (some t) ch rank m body h =
    if not (is_some (lookup t.id ch.members)) && ltb (srv_rank t) srv_admin
    then (h, no_member m ch)
    else if not (can_target rank (rank_in t ch))
    then (
      h,
      fail m Code.perm
          (str "you can't act on " ++ t.name ++ str " (" ++ rank_role (rank_in t ch) ++ str ")"),
    )
    else body t

-- `target`: the user that the argument `user` names, if the actor outranks it in the channel.
unfoldable pub target : Channel → ℕ → Msg → (User → Reply) → Hub → Reply
unfolding arg
target ch rank m body h = target_in (user_by_name h (arg m "user")) ch rank m body h
