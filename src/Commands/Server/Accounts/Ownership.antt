-- ===== src/Commands/Server/Accounts/Ownership.antt =====
-- The server owner and the changes of accounts (code/cmds.go, `usermod`).
use back_channel.Prelude.{
  ℕ, ◌≡◌, refl, sym, ap, ◌∙◌, inl, inr, Bool, true, false, not, ◌&&◌, Option, none, some, List, [],
  ◌∷◌, ◌++◌, ◌==◌, ℤ_eq, list_eq, string_eq, String, or_else, is_some, arith, Bool-cases,
  if◌then◌else◌,
}
use mathlib.Core.Path.{subst}
use back_channel.Prelude.Int.{ℤ}
use back_channel.Prelude.Dict.{Dict, lookup, insert, lookup-insert}
use back_channel.Prelude.Dict.Sums.{insert-Distinct, sum_by-replace}
use back_channel.Prelude.Text.{Text, str}
use back_channel.State.{ServerRole, Status, User}
use back_channel.Frame.{Msg}
use back_channel.Hub.{
  Hub, Conn, user_of, user_by_name, user_at, set_user, kick_sessions, save, audit,
}
use back_channel.Perms.{is_server_owner, srv_rank, can_server_act, can_server_target}
use back_channel.Auth.{set_sessions, again}
use back_channel.Commands.{arg}
use back_channel.Commands.Server.Accounts.{
  Step, mod_role, mod_pass, mod_quota, mod_rate, mod_to_status, mod_status, mod_field, mod_fields,
  modded, usermod_of, usermod, set_msg_rate, set_upload_rate,
}
use back_channel.Commands.Server.Accounts.Owners.{
  owns, HasOneOwner, keyed-insert, owns-other, Ready, is_some-insert, Ready-insert, owns-admin,
  owns-user, owns-owner,
}

module _ (c : Conn) (b : ℤ) where
  Ready-mod_pass :
      (t : User) (m : Msg) (hash : Text) (h : Hub)
      → Ready h.st.users c.user.id b
      → lookup t.id h.st.users ≡ some t
      → Ready (mod_pass t c m hash h).0.st.users c.user.id b
  unfolding mod_pass set_user set_sessions kick_sessions is_server_owner srv_rank
  Ready-mod_pass t m hash h r e = elim (Bool-cases (can_server_target (user_of h c) t)) [
    | inl may ↦ rw may (Ready-insert h.st.users c.user.id b t (record t { pass = hash }) r e refl)
    | inr may_not ↦ rw may_not r
  ]

  Ready-mod_quota :
      (t : User) (m : Msg) (v : Text) (h : Hub)
      → Ready h.st.users c.user.id b
      → lookup t.id h.st.users ≡ some t
      → Ready (mod_quota t c m v h).0.st.users c.user.id b
  unfolding mod_quota set_user is_server_owner srv_rank
  Ready-mod_quota t m v h r e =
      elim (Bool-cases (not (can_server_target (user_of h c) t) && not (t.id == c.user.id))) [
        | inl may_not ↦ rw may_not r
        | inr may ↦ rw may (Ready-insert h.st.users c.user.id b t _ r e refl)
      ]

  Ready-mod_rate :
      (set : User → ℤ → User) (what : Text) (t : User) (m : Msg) (v : Text) (rate : ℤ) (h : Hub)
      → (set t rate).id ≡ t.id
      → owns (set t rate) ≡ owns t
      → Ready h.st.users c.user.id b
      → lookup t.id h.st.users ≡ some t
      → Ready (mod_rate set what t c m v rate h).0.st.users c.user.id b
  unfolding mod_rate set_user
  Ready-mod_rate set what t m v rate h id same r e =
      elim (Bool-cases (can_server_target (user_of h c) t)) [
        | inl may ↦ rw may (
            Ready-insert h.st.users c.user.id b t (set t rate) r
              (ap (λ k. lookup k h.st.users) id ∙ e) same)
        | inr may_not ↦ rw may_not r
      ]

  Ready-mod_to_status :
      (s : Status) (t : User) (v : Text) (h : Hub)
      → Ready h.st.users c.user.id b
      → lookup t.id h.st.users ≡ some t
      → Ready (mod_to_status s t v h).0.st.users c.user.id b
  unfolding mod_to_status set_user kick_sessions is_server_owner srv_rank
  Ready-mod_to_status Status.disabled t v h r e = Ready-insert h.st.users c.user.id b t _ r e refl
  Ready-mod_to_status Status.active t v h r e = Ready-insert h.st.users c.user.id b t _ r e refl
  Ready-mod_to_status Status.banned t v h r e = Ready-insert h.st.users c.user.id b t _ r e refl

  Ready-mod_status :
      (t : User) (m : Msg) (v : Text) (h : Hub)
      → Ready h.st.users c.user.id b
      → lookup t.id h.st.users ≡ some t
      → Ready (mod_status t c m v h).0.st.users c.user.id b
  unfolding mod_status
  Ready-mod_status t m v h r e = elim (Bool-cases (not (can_server_target (user_of h c) t))) [
    | inl may_not ↦ rw may_not r
    | inr may ↦ elim (Bool-cases (v == str "active")) [
      | inl active ↦ rw (may, active) (Ready-mod_to_status Status.active t v h r e)
      | inr other ↦ elim (Bool-cases (v == str "disabled")) [
        | inl disabled ↦ rw (may, other, disabled) (Ready-mod_to_status Status.disabled t v h r e)
        | inr neither ↦ rw (may, other, neither) r
      ]
    ]
  ]

  -- The actor's own account.
  user_of-found :
      (d : Dict ℤ User) (a : ℤ) (u : User)
      → is_some (lookup a d) ≡ true
      → lookup a d ≡ some (or_else (lookup a d) u)
  user_of-found d a u e = ground arith

  -- The owner hands the hub over.
  Ready-hand_over :
      (d : Dict ℤ User) (t me : User)
      → Ready d c.user.id b
      → lookup t.id d ≡ some t
      → lookup c.user.id d ≡ some me
      → is_server_owner me ≡ true
      → (t.id == c.user.id) ≡ false
      → Ready
          (insert me.id
            (record me { role = ServerRole.admin })
            (insert t.id (record t { role = ServerRole.owner }) d))
          c.user.id
          b
  Ready-hand_over d t me r e f owner differs =
      let t' : User = record t { role = ServerRole.owner } in
      let me' : User = record me { role = ServerRole.admin } in
      let d1 = insert t.id t' d in
      let me_id : me.id ≡ c.user.id = r.owner.keyed c.user.id me f in
      let none_owned = owns-other d c.user.id t.id me t r.owner f owner e differs in
      let one : owns me ≡ 1 = rw owner refl in
      let apart : (t.id == me.id) ≡ false = rw me_id differs in
      let found : lookup me.id d1 ≡ some me =
        lookup-insert t.id me.id t' d ∙ rw apart (ap (λ k. lookup k d) me_id ∙ f) in
      let first = sum_by-replace owns t.id t' t d e in
      let second = sum_by-replace owns me.id me' me d1 found in
      let all = r.owner.sole in
      let gives = owns-owner t in
      let keeps = owns-admin me in
      record {
        owner = record {
          distinct = insert-Distinct me.id me' d1 (insert-Distinct t.id t' d r.owner.distinct);
          keyed = keyed-insert d1 me' (keyed-insert d t' r.owner.keyed);
          sole = omega (arith, first, second, all, one, none_owned, gives, keeps);
        };
        actor = is_some-insert d1 me.id me' _ (is_some-insert d t.id t' _ r.actor);
        target = is_some-insert d1 me.id me' b (is_some-insert d t.id t' b r.target);
      }

  Ready-mod_role :
      (t : User) (m : Msg) (v : Text) (h : Hub)
      → Ready h.st.users c.user.id b
      → lookup t.id h.st.users ≡ some t
      → Ready (mod_role t c m v h).0.st.users c.user.id b
  unfolding mod_role set_user user_of
  Ready-mod_role t m v h r e =
      let me = user_of h c in
      let mine = user_of-found h.st.users c.user.id c.user r.actor in
      elim (Bool-cases (is_server_owner me)) [
        | inr plain ↦ rw plain r
        | inl owner ↦ elim (Bool-cases (t.id == c.user.id)) [
          | inl self ↦ rw (owner, self) r
          | inr differs ↦
              let none_owned =
                owns-other h.st.users c.user.id t.id me t r.owner mine owner e differs in
              elim (Bool-cases (v == str "admin")) [
                | inl admin ↦
                    rw (owner, differs, admin)
                      (Ready-insert h.st.users c.user.id b t (record t { role = ServerRole.admin })
                        r e (owns-admin t ∙ sym none_owned))
                | inr not_admin ↦ elim (Bool-cases (v == str "user")) [
                  | inl user ↦
                      rw (owner, differs, not_admin, user)
                        (Ready-insert h.st.users c.user.id b t (record t { role = ServerRole.user })
                          r e (owns-user t ∙ sym none_owned))
                  | inr not_user ↦ elim (Bool-cases (v == str "owner")) [
                    | inl hands ↦
                        rw (owner, differs, not_admin, not_user, hands)
                          (Ready-hand_over h.st.users t me r e mine owner differs)
                    | inr unknown ↦ rw (owner, differs, not_admin, not_user, unknown) r
                  ]
                ]
              ]
        ]
      ]

  Ready-if :
      (x : Bool) (p q : Hub × Step)
      → Ready p.0.st.users c.user.id b
      → Ready q.0.st.users c.user.id b
      → Ready (if x then p else q).0.st.users c.user.id b
  Ready-if true p q r s = r
  Ready-if false p q r s = s

  Ready-mod_field :
      (float : Text → ℤ) (hash : Text) (m : Msg) (k : String) (v : Text) (t : User) (h : Hub)
      → Ready h.st.users c.user.id b
      → lookup t.id h.st.users ≡ some t
      → Ready (mod_field float hash c m k v t h).0.st.users c.user.id b
  unfolding mod_field is_server_owner srv_rank
  Ready-mod_field float hash m k v t h r e = Ready-if (k == "user") _ _ r (
      Ready-if (k == "role") _ _ (Ready-mod_role t m v h r e) (
        Ready-if (k == "pass") _ _ (Ready-mod_pass t m hash h r e) (
          Ready-if (k == "quota_mb") _ _ (Ready-mod_quota t m v h r e) (
            Ready-if (k == "msg_rate") _ _
              (Ready-mod_rate set_msg_rate (str "msg_rate=") t m v (float v) h refl refl r e)
              (Ready-if (k == "upload_rate") _ _
                (Ready-mod_rate set_upload_rate (str "upload_rate=") t m v (float v) h refl refl r
                  e)
                (Ready-if (k == "status") _ _ (Ready-mod_status t m v h r e) r))))))

  again-found :
      (t : User) (h : Hub)
      → t.id ≡ b
      → Ready h.st.users c.user.id b
      → lookup (again h t).id h.st.users ≡ some (again h t)
  again-found t h e r =
      let p = user_of-found h.st.users t.id t (rw e r.target) in
      ap (λ k. lookup k h.st.users) (r.owner.keyed t.id (again h t) p) ∙ p

  Ready-mod_fields :
      (float : Text → ℤ) (hash : Text) (m : Msg) (t : User) (args : List (String × Text))
      (words : List Text) (h : Hub)
      → t.id ≡ b
      → Ready h.st.users c.user.id b
      → Ready (mod_fields float hash c m t args words h).0.st.users c.user.id b
  unfolding mod_fields
  Ready-mod_fields float hash m t [] words h e r = r
  Ready-mod_fields float hash m t ((k, v) ∷ rest) words h e r =
      let r' = Ready-mod_field float hash m k v (again h t) h r (again-found t h e r) in
      let h' = (mod_field float hash c m k v (again h t) h).0 in
      elim (mod_field float hash c m k v (again h t) h).1
        as (λ s.
          Ready
            (elim s as (λ x. Hub × Step) [
              | Step.stopped x ↦ (h', Step.stopped x)
              | Step.changed done ↦ mod_fields float hash c m t rest (words ++ done) h'
            ]).0.st.users
            c.user.id b) [
              | Step.stopped x ↦ r'
              | Step.changed done ↦ Ready-mod_fields float hash m t rest (words ++ done) h' e r'
            ]

users-modded :
    (r : Hub × Step) (t : User) (c : Conn) (m : Msg) (now : ℕ)
    → (modded r t c m now).0.st.users ≡ r.0.st.users
unfolding modded save audit
users-modded (h, Step.stopped e) t c m now = refl
users-modded (h, Step.changed []) t c m now = refl
users-modded (h, Step.changed (w ∷ words)) t c m now = refl

HasOneOwner-usermod_of :
    (o : Option User) (float : Text → ℤ) (hash : Text) (c : Conn) (m : Msg) (now : ℕ) (h : Hub)
    → HasOneOwner h.st.users
    → is_some (lookup c.user.id h.st.users) ≡ true
    → ((t : User) → o ≡ some t → is_some (lookup t.id h.st.users) ≡ true)
    → HasOneOwner (usermod_of o float hash c m now h).0.st.users
unfolding usermod_of
HasOneOwner-usermod_of none float hash c m now h owner actor there = owner
HasOneOwner-usermod_of (some t) float hash c m now h owner actor there =
    let r =
      Ready-mod_fields c t.id float hash m t m.args [] h refl
        (record { owner = owner; actor = actor; target = there t refl }) in
    subst HasOneOwner (sym (users-modded (mod_fields float hash c m t m.args [] h) t c m now))
      r.owner

user_at-there :
    (h : Hub) (o : Option ℤ) (t : User)
    → HasOneOwner h.st.users
    → user_at h o ≡ some t
    → is_some (lookup t.id h.st.users) ≡ true
user_at-there h none t owner e = ground arith
user_at-there h (some id) t owner e =
    ap is_some (ap (λ k. lookup k h.st.users) (owner.keyed id t e) ∙ e)

-- If every account stands once and under its own id, one of them is the server owner, and the actor has
-- an account, then `usermod` leaves it so, whatever fields it changes, in any order, and also where an
-- error stops it half way: the hub never loses its owner, and never has two.
pub usermod-HasOneOwner :
    (float : Text → ℤ) (hash : Text) (c : Conn) (m : Msg) (now : ℕ) (h : Hub)
    → HasOneOwner h.st.users
    → is_some (lookup c.user.id h.st.users) ≡ true
    → HasOneOwner (usermod float hash c m now h).0.st.users
unfolding usermod user_by_name
usermod-HasOneOwner float hash c m now h owner actor =
    elim (Bool-cases (can_server_act (user_of h c))) [
      | inr may_not ↦ rw may_not owner
      | inl may ↦ rw may (
          HasOneOwner-usermod_of (user_by_name h (arg m "user")) float hash c m now h owner actor
            (λ t e. user_at-there h _ t owner e))
    ]
