-- ===== src/Perms/Targets.antt =====
-- The rules on targets (code/perms.go): who may act on whom, in a channel and on the server.
use back_channel.Prelude.{◌≡◌, ◌≢◌, Option, none, some, ◌↔◌, ◌≤◌, true, false, arith, eq_self, ℤ_eq}
use back_channel.State.{User, Channel, ChanRole, Membership}
use back_channel.Prelude.Dict.{lookup}
use back_channel.Perms.{
  can_target, can_server_target, can_server_act, is_server_owner, srv_rank, rank_in, role_rank,
  member_rank, srv_owner, srv_admin,
}

role_rank-le : (r : ChanRole) → role_rank r ≤ 5
unfolding role_rank
role_rank-le ChanRole.owner = omega arith
role_rank-le _ = omega arith

member_rank-le : (o : Option Membership) → member_rank o ≤ 5
member_rank-le none = omega arith
member_rank-le (some m) = role_rank-le m.role

-- What a rank in a channel says of the rank on the server.
pub rank_in-srv_rank :
    (u : User) (ch : Channel)
    → (rank_in u ch ≤ 7)
      × (srv_rank u ≤ 3)
      × ((rank_in u ch ≡ 7) ↔ (srv_rank u ≡ 3))
      × ((rank_in u ch ≡ 6) ↔ (srv_rank u ≡ 2))
unfolding rank_in srv_rank
rank_in-srv_rank u ch = ground (arith, member_rank-le (lookup u.id ch.members))

-- If one user may act on another in a channel, then the other may not act back, is not the server
-- owner, and is a server admin only if the first is the server owner.
pub can_target_protects :
    (u t : User) (ch : Channel)
    → can_target (rank_in u ch) (rank_in t ch) ≡ true
    → (can_target (rank_in t ch) (rank_in u ch) ≡ false)
      × (srv_rank t ≢ srv_owner)
      × (srv_rank t ≡ srv_admin → srv_rank u ≡ srv_owner)
unfolding can_target
can_target_protects u t ch h = ground (arith, rank_in-srv_rank u ch, rank_in-srv_rank t ch)

-- If one user may act on another's account on the server, then the other may not act back, nobody
-- may act on itself, the other is not the server owner, and where the other may give server commands
-- the first is the server owner.
pub can_server_target_protects :
    (u t : User)
    → can_server_target u t ≡ true
    → (can_server_target t u ≡ false)
      × (can_server_target u u ≡ false)
      × (is_server_owner t ≡ false)
      × (can_server_act t ≡ true → is_server_owner u ≡ true)
unfolding can_server_target can_server_act is_server_owner
can_server_target_protects u t h = ground (arith, eq_self u.id)
