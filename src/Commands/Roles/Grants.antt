-- ===== src/Commands/Roles/Grants.antt =====
-- What a change of a role does (code/cmds.go, `role`).
use back_channel.Prelude.{
  ℕ, ◌≡◌, ◌≤◌, ◌<◌, refl, sym, ◌∙◌, ◌⊎◌, inl, inr, true, false, ◌||◌, Option, none, some, nat_eq,
  ℕ_eq, ℤ_eq, eq_self, arith, Bool-cases,
}
use mathlib.Core.Path.{subst}
use back_channel.Prelude.Dict.{lookup, lookup-insert}
use back_channel.State.{Channel, Membership, User}
use back_channel.Frame.{Msg}
use back_channel.Hub.{Hub, Conn, user_of, user_by_name, chan_for, set_chan, save, to_chan, audit}
use back_channel.Perms.{Act, can, can_target, rank_in, role_rank, rank_srv_admin}
use back_channel.Commands.{arg, fail, is_owner, read_role}
use back_channel.Commands.Checks.{IsRefused, ch_ctx-cases, target-cases}
use back_channel.Commands.Members.{set_member}
use back_channel.Commands.Roles.{role, grant, above_own}

-- A role that was given: by someone who sees the channel, may give roles there, and outranks the member;
-- it is not that of an owner, and below the rank of whoever gives it unless that is a server admin; and
-- the member is then as it was but for the role.
pub record Grants (c : Conn) (m : Msg) (h h' : Hub) : Type 0 where
  pub ch : Channel
  pub t : User
  pub mem : Membership
  pub after : Channel
  pub seen : chan_for h (user_of h c) m.ch ≡ some ch
  pub allowed : can (rank_in (user_of h c) ch) Act.role ≡ true
  pub named : user_by_name h (arg m "user") ≡ some t
  pub outranked : can_target (rank_in (user_of h c) ch) (rank_in t ch) ≡ true
  pub member : lookup t.id ch.members ≡ some mem
  pub not_owner : is_owner (read_role (arg m "role")) ≡ false
  pub below :
      (role_rank (read_role (arg m "role")) < rank_in (user_of h c) ch)
      ⊎ (rank_srv_admin ≤ rank_in (user_of h c) ch)
  pub stored : lookup ch.id h'.st.channels ≡ some after
  pub given : lookup t.id after.members ≡ some (record mem { role = read_role (arg m "role") })

module _ (c : Conn) (m : Msg) (now : ℕ) (h : Hub) (ch : Channel) (t : User)
    (seen : chan_for h (user_of h c) m.ch ≡ some ch)
    (allowed : can (rank_in (user_of h c) ch) Act.role ≡ true)
    (named : user_by_name h (arg m "user") ≡ some t)
    (outranked : can_target (rank_in (user_of h c) ch) (rank_in t ch) ≡ true) where
  grant-Grants :
      (o : Option Membership)
      → lookup t.id ch.members ≡ o
      → let r = grant o (read_role (arg m "role")) ch (rank_in (user_of h c) ch) t c m now h in
        IsRefused h r ⊎ Grants c m h r.0
  unfolding grant fail set_member save audit to_chan set_chan
  grant-Grants none e = inl (record { unchanged = refl; not_ok = refl })
  grant-Grants (some mem) e =
      let asked = read_role (arg m "role") in
      let ch' : Channel = set_member t.id (record mem { role = asked }) ch in
      elim (Bool-cases (nat_eq (role_rank asked) 0 || is_owner asked)) [
        | inl bad ↦ inl (rw bad (record { unchanged = refl; not_ok = refl }))
        | inr good ↦ elim (Bool-cases (above_own asked (rank_in (user_of h c) ch))) [
          | inl above ↦ inl (rw (good, above) (record { unchanged = refl; not_ok = refl }))
          | inr within ↦ inr (
              rw (good, within)
                (record {
                  ch = ch;
                  t = t;
                  mem = mem;
                  after = ch';
                  seen = seen;
                  allowed = allowed;
                  named = named;
                  outranked = outranked;
                  member = e;
                  not_owner = ground (arith, good);
                  below = ground (arith, within);
                  stored = rw (lookup-insert ch.id ch.id ch' h.st.channels, eq_self ch.id) refl;
                  given =
                      rw
                        (
                          lookup-insert t.id t.id (record mem { role = asked }) ch.members,
                          eq_self t.id,
                        )
                        refl;
                }))
        ]
      ]

-- A change of a role is refused, and then nothing changes and the answer is not ok; or it is made by
-- someone who sees the channel, may give roles there, and outranks the member whom the argument names;
-- the new role is not that of an owner, and below the rank of whoever gives it unless that is a server
-- admin; and the member is afterwards as before but for the role.
pub role-Grants :
    (c : Conn) (m : Msg) (now : ℕ) (h : Hub)
    → IsRefused h (role c m now h) ⊎ Grants c m h (role c m now h).0
unfolding role
role-Grants c m now h = elim (ch_ctx-cases c Act.role m _ h) [
  | inl refused ↦ inl refused
  | inr e ↦
      let rank = rank_in (user_of h c) e.ch in
      elim (target-cases e.ch rank m
        (λ t. grant (lookup t.id e.ch.members) (read_role (arg m "role")) e.ch rank t c m now h)
        h) [
          | inl refused ↦ inl (subst (IsRefused h) (sym e.runs) refused)
          | inr r ↦
              subst (λ reply. IsRefused h reply ⊎ Grants c m h reply.0) (sym (e.runs ∙ r.runs))
                (grant-Grants c m now h e.ch r.t e.seen e.allowed r.named r.outranked
                  (lookup r.t.id e.ch.members) refl)
        ]
]
