-- ===== src/Perms.antt =====
-- Who may do what (code/perms.go): ranks, the permission matrix, and the rules on targets. The
-- properties are in the modules below.
pub mod Matrix
pub mod Targets
use back_channel.Prelude.{
  ℕ, Bool, true, false, Option, none, some, not, ◌&&◌, ◌||◌, ltb, leb, nat_eq, ◌==◌, ℤ_eq,
  if◌then◌else◌,
}
use back_channel.Prelude.Dict.{lookup}
use back_channel.State.{ServerRole, ChanRole, User, Membership, Channel, Settings}

abbrev pub rank_none : ℕ
rank_none = 0

abbrev pub rank_readonly : ℕ
rank_readonly = 1

abbrev pub rank_member : ℕ
rank_member = 2

abbrev pub rank_mod : ℕ
rank_mod = 3

abbrev pub rank_admin : ℕ
rank_admin = 4

abbrev pub rank_owner : ℕ
rank_owner = 5

abbrev pub rank_srv_admin : ℕ
rank_srv_admin = 6

abbrev pub rank_srv_owner : ℕ
rank_srv_owner = 7

unfoldable pub role_rank : ChanRole → ℕ
role_rank ChanRole.owner = rank_owner
role_rank ChanRole.admin = rank_admin
role_rank ChanRole.mods = rank_mod
role_rank ChanRole.member = rank_member
role_rank ChanRole.readonly = rank_readonly
role_rank (ChanRole.other _) = 0

pub data Act : Type 0 where
  read members send del_own topic invite add kick ban mute del_any revoke_any role settings purge
        delete transfer e2e_rotate :
      Act

unfoldable pub need : Act → ℕ
need Act.read = rank_readonly
need Act.members = rank_readonly
need Act.send = rank_member
need Act.del_own = rank_member
need Act.topic = rank_mod
need Act.invite = rank_mod
need Act.add = rank_mod
need Act.kick = rank_mod
need Act.ban = rank_mod
need Act.mute = rank_mod
need Act.del_any = rank_mod
need Act.revoke_any = rank_admin
need Act.role = rank_admin
need Act.settings = rank_admin
need Act.e2e_rotate = rank_admin
need Act.purge = rank_owner
need Act.delete = rank_owner
need Act.transfer = rank_owner

unfoldable pub can : ℕ → Act → Bool
unfolding need
can rank a = leb (need a) rank

unfoldable pub can_target : ℕ → ℕ → Bool
can_target actor target =
    if leb rank_srv_admin target && not (nat_eq actor rank_srv_owner)
    then false
    else ltb target actor

unfoldable pub can_send : ℕ → Channel → Bool
unfolding can
can_send rank ch =
    if not (can rank Act.send)
    then false
    else if ch.readonly && ltb rank rank_mod
    then false
    else true

abbrev pub srv_guest : ℕ
srv_guest = 0

abbrev pub srv_user : ℕ
srv_user = 1

abbrev pub srv_admin : ℕ
srv_admin = 2

abbrev pub srv_owner : ℕ
srv_owner = 3

abbrev role_srv_rank : ServerRole → ℕ
role_srv_rank ServerRole.owner = srv_owner
role_srv_rank ServerRole.admin = srv_admin
role_srv_rank ServerRole.guest = srv_guest
role_srv_rank ServerRole.user = srv_user
role_srv_rank (ServerRole.other _) = srv_user

unfoldable pub srv_rank : User → ℕ
srv_rank u = role_srv_rank u.role

abbrev member_rank : Option Membership → ℕ
member_rank none = rank_none
member_rank (some m) = role_rank m.role

abbrev rank_of_role : ServerRole → User → Channel → ℕ
rank_of_role ServerRole.owner u ch = rank_srv_owner
rank_of_role ServerRole.admin u ch = rank_srv_admin
rank_of_role ServerRole.guest u ch = if ch.is_default then rank_member else rank_none
rank_of_role ServerRole.user u ch = member_rank (lookup u.id ch.members)
rank_of_role (ServerRole.other _) u ch = member_rank (lookup u.id ch.members)

-- A user's effective rank in a channel.
unfoldable pub rank_in : User → Channel → ℕ
unfolding role_rank
rank_in u ch = rank_of_role u.role u ch

unfoldable pub can_create_channel : User → Settings → Bool
unfolding srv_rank
can_create_channel u s =
    leb srv_admin (srv_rank u) || (nat_eq (srv_rank u) srv_user && s.allow_user_channels)

unfoldable pub can_server_act : User → Bool
unfolding srv_rank
can_server_act u = leb srv_admin (srv_rank u)

unfoldable pub can_server_target : User → User → Bool
unfolding srv_rank
can_server_target actor target =
    if actor.id == target.id then false else ltb (srv_rank target) (srv_rank actor)

unfoldable pub is_server_owner : User → Bool
unfolding srv_rank
is_server_owner u = nat_eq (srv_rank u) srv_owner
