-- ===== src/Commands/Server/Accounts/Owners.antt =====
-- Accounts of which one is the server owner (code/cmds.go, `usermod`).
use back_channel.Prelude.{
  ℕ, ◌≡◌, refl, sym, ap, ◌∙◌, inl, inr, true, false, some, ◌==◌, ℤ_eq, list_eq, string_eq, or_else,
  is_some, arith, Bool-cases, if◌then◌else◌,
}
use back_channel.Prelude.Int.{ℤ, int_eq_iff}
use back_channel.Prelude.Dict.{Dict, lookup, insert, erase, lookup-insert, lookup-erase}
use back_channel.Prelude.Dict.Sums.{
  Distinct, sum_by, insert-Distinct, sum_by-erase, sum_by-replace, sum_by-lookup,
}
use back_channel.State.{ServerRole, User}
use back_channel.Perms.{is_server_owner, srv_rank}

abbrev pub owns : User → ℕ
owns u = if is_server_owner u then 1 else 0

-- Every account stands once, under its own id, and one of them is the server owner.
pub record HasOneOwner (d : Dict ℤ User) : Type 0 where
  pub distinct : Distinct d
  pub keyed : (k : ℤ) (u : User) → lookup k d ≡ some u → u.id ≡ k
  pub sole : sum_by owns d ≡ 1

pub keyed-insert :
    (d : Dict ℤ User) (v : User)
    → ((k : ℤ) (u : User) → lookup k d ≡ some u → u.id ≡ k)
    → (k : ℤ) (u : User) → lookup k (insert v.id v d) ≡ some u
    → u.id ≡ k
keyed-insert d v keyed k u e = elim (Bool-cases (v.id == k)) [
  | inl same ↦
      let p : some v ≡ some u = rw (lookup-insert v.id k v d, same) at e in
      sym (ap (λ o. (or_else o v).id) p) ∙ (int_eq_iff v.id k).0 same
  | inr other ↦
      let p : lookup k d ≡ some u = rw (lookup-insert v.id k v d, other) at e in keyed k u p
]

-- Another account than the owner's owns nothing.
pub owns-other :
    (d : Dict ℤ User) (k j : ℤ) (u v : User)
    → HasOneOwner d
    → lookup k d ≡ some u
    → is_server_owner u ≡ true
    → lookup j d ≡ some v
    → (j == k) ≡ false
    → owns v ≡ 0
owns-other d k j u v o found owner other differs =
    let one : owns u ≡ 1 = rw owner refl in
    let rest = sum_by-erase owns k u d o.distinct found in
    let apart : (k == j) ≡ false = ground (arith, int_eq_iff k j, int_eq_iff j k, differs) in
    let stays : lookup j (erase k d) ≡ some v = rw (lookup-erase k j d, apart) other in
    let least = sum_by-lookup owns j v (erase k d) stays in
    let s = o.sole in omega (arith, one, rest, least, s)

-- The actor and the account that is changed are there, and the hub has one owner.
pub record Ready (d : Dict ℤ User) (a b : ℤ) : Type 0 where
  pub owner : HasOneOwner d
  pub actor : is_some (lookup a d) ≡ true
  pub target : is_some (lookup b d) ≡ true

pub is_some-insert :
    (d : Dict ℤ User) (k : ℤ) (v : User) (j : ℤ)
    → is_some (lookup j d) ≡ true
    → is_some (lookup j (insert k v d)) ≡ true
is_some-insert d k v j e = rw (lookup-insert k j v d) (ground arith)

-- An account that is changed, but not in whether it owns the hub.
pub Ready-insert :
    (d : Dict ℤ User) (a b : ℤ) (u v : User)
    → Ready d a b
    → lookup v.id d ≡ some u
    → owns v ≡ owns u
    → Ready (insert v.id v d) a b
Ready-insert d a b u v r found same = record {
  owner = record {
    distinct = insert-Distinct v.id v d r.owner.distinct;
    keyed = keyed-insert d v r.owner.keyed;
    sole =
        let e = sum_by-replace owns v.id v u d found in
        let s = r.owner.sole in omega (arith, e, s, same);
  };
  actor = is_some-insert d v.id v a r.actor;
  target = is_some-insert d v.id v b r.target;
}

pub owns-admin : (t : User) → owns (record t { role = ServerRole.admin }) ≡ 0
unfolding is_server_owner srv_rank
owns-admin t = refl

pub owns-user : (t : User) → owns (record t { role = ServerRole.user }) ≡ 0
unfolding is_server_owner srv_rank
owns-user t = refl

pub owns-owner : (t : User) → owns (record t { role = ServerRole.owner }) ≡ 1
unfolding is_server_owner srv_rank
owns-owner t = refl
