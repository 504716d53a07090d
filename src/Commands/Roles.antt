-- ===== src/Commands/Roles.antt =====
-- The commands on the standing of members (code/cmds.go, `handleCmd`): `mute`, `role` and `transfer`.
pub mod Grants
use back_channel.Prelude.{
  ℕ, Bool, ◌&&◌, ◌||◌, Option, none, some, List, [], ◌∷◌, ◌++◌, ltb, leb, nat_eq, ◌==◌, ℤ_eq,
  list_eq, if◌then◌else◌,
}
use back_channel.Prelude.Int.{ℤ, pos, ltb_ℤ, ◌+ℤ◌, ◌*ℤ◌, int64}
use back_channel.Prelude.Dict.{lookup}
use back_channel.Prelude.Text.{Text, str}
use back_channel.Prelude.Decimal.{show_int}
use back_channel.State.{Channel, ChanRole, Membership, User}
use back_channel.Frame.{Msg, Kind, Code, frame}
use back_channel.Hub.{Hub, Conn, user_of, user_by_name, set_chan, save, to_chan, audit}
use back_channel.Perms.{Act, role_rank, rank_srv_admin}
use back_channel.Commands.{
  Reply, arg, atoi, ok, fail, ch_ctx, target, in_chan, is_owner, read_role, show_role, no_member,
}
use back_channel.Commands.Members.{set_member}

abbrev muted_frame : Channel → User → User → ℤ → Text → Msg
muted_frame ch t u until text = record (frame Kind.muted) {
  ch = ch.name;
  sender = t.name;
  by = u.name;
  until = until;
  text = text;
}

mute_member : Option Membership → Channel → User → Conn → Msg → ℕ → Hub → Reply
unfolding set_member
mute_member none ch t c m now h = (h, no_member m ch)
mute_member (some mem) ch t c m now h =
    let mins = atoi m "minutes" (pos 10) in
    let u = user_of h c in
    if ltb_ℤ (pos 0) mins
    then (let until = int64 (pos now +ℤ int64 (mins *ℤ pos 60_000)) in
        let ch' = set_member t.id (record mem { muted_until = until }) ch in
        (
          to_chan ch.id (muted_frame ch t u until (arg m "reason")) (
              save (
                audit (some u) (str "mute") t.name (some ch)
                  (show_int mins ++ str " min " ++ arg m "reason") now (set_chan ch' h))),
          ok m (t.name ++ str " muted for " ++ show_int mins ++ str " min"),
        ))
    else let ch' = set_member t.id (record mem { muted_until = pos 0 }) ch in
      (
        to_chan ch.id (muted_frame ch t u (pos 0) [])
            (save (audit (some u) (str "unmute") t.name (some ch) [] now (set_chan ch' h))),
        ok m (t.name ++ str " unmuted"),
      )

unfoldable pub mute : Conn → Msg → ℕ → Hub → Reply
unfolding mute_member
mute c m now h =
    ch_ctx c Act.mute m
      (λ ch rank. target ch rank m (λ t. mute_member (lookup t.id ch.members) ch t c m now h) h) h

abbrev role_frame : Channel → User → User → ChanRole → Msg
role_frame ch t u role = record (frame Kind.role) {
  ch = ch.name;
  sender = t.name;
  by = u.name;
  role = show_role role;
}

-- Whether a role is above what an actor of some rank may hand out.
abbrev pub above_own : ChanRole → ℕ → Bool
above_own role rank = leb rank (role_rank role) && ltb rank rank_srv_admin

unfoldable grant : Option Membership → ChanRole → Channel → ℕ → User → Conn → Msg → ℕ → Hub → Reply
unfolding set_member
grant none role ch rank t c m now h = (h, no_member m ch)
grant (some mem) role ch rank t c m now h =
    if nat_eq (role_rank role) 0 || is_owner role
    then (h, fail m Code.badarg (str "role: readonly, member, mod or admin (ownership: /transfer)"))
    else if above_own role rank
    then (h, fail m Code.perm (str "you can only grant roles below your own"))
    else let u = user_of h c in
      (
        save (
            audit (some u) (str "role") t.name (some ch) (show_role role) now (
              to_chan ch.id (role_frame ch t u role)
                (set_chan (set_member t.id (record mem { role = role }) ch) h))),
        ok m (in_chan (t.name ++ str " is now " ++ show_role role ++ str " in ") ch),
      )

unfoldable pub role : Conn → Msg → ℕ → Hub → Reply
unfolding grant
role c m now h =
    ch_ctx c Act.role m
      (λ ch rank.
        target ch rank m
          (λ t. grant (lookup t.id ch.members) (read_role (arg m "role")) ch rank t c m now h) h)
      h

-- The actor's own ownership becomes the rank of an admin.
step_down : Option Membership → Channel → User → Channel × List Msg
unfolding set_member
step_down none ch u = (ch, [])
step_down (some mine) ch u =
    if is_owner mine.role
    then (
      set_member u.id (record mine { role = ChanRole.admin }) ch,
      role_frame ch u u ChanRole.admin ∷ [],
    )
    else (ch, [])

to_chan_all : ℕ → List Msg → Hub → Hub
to_chan_all cid [] h = h
to_chan_all cid (x ∷ xs) h = to_chan_all cid xs (to_chan cid x h)

hand_over : Option Membership → User → Channel → Conn → Msg → ℕ → Hub → Reply
unfolding set_member step_down to_chan_all
hand_over none t ch c m now h = (h, no_member m ch)
hand_over (some mem) t ch c m now h =
    if t.id == c.user.id
    then (h, fail m Code.badarg (str "you already own it"))
    else let u = user_of h c in
      let ch1 = set_member t.id (record mem { role = ChanRole.owner }) ch in
      let (ch2, told) = step_down (lookup u.id ch1.members) ch1 u in
      (
        save (
            audit (some u) (str "transfer") t.name (some ch) [] now (
              to_chan ch.id (role_frame ch t u ChanRole.owner)
                (to_chan_all ch.id told (set_chan ch2 h)))),
        ok m (in_chan (t.name ++ str " now owns ") ch),
      )

transfer_to : Option User → Channel → Conn → Msg → ℕ → Hub → Reply
unfolding hand_over
transfer_to none ch c m now h = (h, no_member m ch)
transfer_to (some t) ch c m now h = hand_over (lookup t.id ch.members) t ch c m now h

unfoldable pub transfer : Conn → Msg → ℕ → Hub → Reply
unfolding transfer_to
transfer c m now h =
    ch_ctx c Act.transfer m (λ ch rank. transfer_to (user_by_name h (arg m "user")) ch c m now h) h
