-- ===== src/Commands/Invites/Uses.antt =====
-- How often an invite can be used (code/hub.go, `validInvite` and `consumeInvite`).
use back_channel.Prelude.{
  ℕ, zero, suc, ◌+◌, ◌≡◌, refl, sym, ap, ◌∙◌, ◌⊎◌, inl, inr, Bool-cases, Bool, true, false, ◌&&◌,
  Option, none, some, ◌==◌, ℤ_eq, list_eq, eq_self, arith, if◌then◌else◌,
}
use back_channel.Prelude.Int.{pos, ltb_ℤ, ◌-ℤ◌}
use back_channel.Prelude.Dict.{Dict, lookup, insert, lookup-insert, lookup-erase}
use back_channel.Prelude.Text.{Text, trim_space}
use back_channel.State.{Invite}
use back_channel.Hub.{Hub, mark_dirty}
use back_channel.Commands.Invites.{
  valid_invite, check_invite, consume_invite, use_invite, set_invites, is_spent, without_dashes,
}

-- An attempt with a code finds the invite and uses it, or does not.
unfoldable attempt : Hub × Option Invite → Bool × Hub
attempt (h, none) = (false, h)
attempt (h, some inv) = (true, consume_invite inv h)

-- How many of some attempts with a code succeed.
unfoldable pub successes : ℕ → Text → ℕ → Hub → ℕ
unfolding attempt
successes zero code now h = 0
successes (suc k) code now h =
    let (used, h') = attempt (valid_invite code now h) in
    (if used then 1 else 0) + successes k code now h'

-- What a promise of so many uses gives to so many attempts.
abbrev pub promised : ℕ → ℕ → ℕ
promised uses zero = 0
promised zero (suc k) = 0
promised (suc uses) (suc k) = 1 + promised uses k

-- An invite has not expired.
abbrev pub IsFresh : Invite → ℕ → Type 0
IsFresh inv now = ltb_ℤ (pos 0) inv.expires_at && ltb_ℤ inv.expires_at (pos now) ≡ false

-- A code that no other invite answers to: there are no blanks around it, and without its dashes it is
-- the same code or that of no invite. The codes that `invite` makes all have a dash, so that a code
-- without its dashes is that of no invite.
pub record IsCode (code : Text) (invites : Dict Text Invite) : Type 0 where
  pub trimmed : trim_space code ≡ code
  pub undashed : (without_dashes code ≡ code) ⊎ (lookup (without_dashes code) invites ≡ none)

-- The invite of a code, with a number of uses left; without one, the invite is gone.
pub record Left (code : Text) (now n : ℕ) (o : Option Invite) : Type 0 where
  pub inv : Invite
  pub there : o ≡ some inv
  pub own : inv.code ≡ code
  pub uses : inv.uses_left ≡ pos (suc n)
  pub fresh : IsFresh inv now

abbrev Keeps : Text → ℕ → ℕ → Hub → Type 0
Keeps code now zero h = lookup code h.st.invites ≡ none
Keeps code now (suc n) h = Left code now n (lookup code h.st.invites)

minus_one : (n : ℕ) → pos (suc n) -ℤ pos 1 ≡ pos n
unfolding ◌-ℤ◌
minus_one n = ground arith

suc-not-zero : (n : ℕ) → (pos (suc n) == pos 0) ≡ false
suc-not-zero n = ground arith

suc-above-zero : (n : ℕ) → ltb_ℤ (pos 0) (pos (suc n)) ≡ true
suc-above-zero n = ground arith

use_invite-suc :
    (inv : Invite) (n : ℕ) (d : Dict Text Invite)
    → inv.uses_left ≡ pos (suc (suc n))
    → use_invite inv d ≡ insert inv.code (record inv { uses_left = pos (suc n) }) d
unfolding use_invite
use_invite-suc inv n d e = rw (e, suc-above-zero (suc n), minus_one (suc n), suc-not-zero n) refl

valid_invite-code :
    (code : Text) (now : ℕ) (h : Hub)
    → IsCode code h.st.invites
    → lookup code h.st.invites ≡ none
    → valid_invite code now h ≡ check_invite none now h
unfolding valid_invite
valid_invite-code code now h c e = elim c.undashed [
  | inl same ↦ rw (c.trimmed, same, e) refl
  | inr free ↦ rw (c.trimmed, free, e) refl
]

valid_invite-Left :
    (code : Text) (now n : ℕ) (h : Hub)
    → IsCode code h.st.invites
    → (l : Left code now n (lookup code h.st.invites)) → valid_invite code now h ≡ (h, some l.inv)
unfolding check_invite valid_invite
valid_invite-Left code now n h c l =
    let unspent : is_spent l.inv now ≡ false = rw (l.fresh, l.uses) (suc-not-zero n) in
    rw (c.trimmed, l.there) (rw unspent refl)

-- Invites of other codes stay.
lookup-use_invite :
    (inv : Invite) (other : Text) (d : Dict Text Invite)
    → (inv.code == other) ≡ false
    → lookup other (use_invite inv d) ≡ lookup other d
unfolding use_invite
lookup-use_invite inv other d e = ground (
  arith,
  lookup-insert inv.code other (record inv { uses_left = inv.uses_left -ℤ pos 1 }) d,
  lookup-erase inv.code other d,
)

IsCode-consume_invite :
    (code : Text) (inv : Invite) (h : Hub)
    → inv.code ≡ code
    → IsCode code h.st.invites
    → IsCode code (consume_invite inv h).st.invites
unfolding consume_invite set_invites mark_dirty
IsCode-consume_invite code inv h own c = record {
  trimmed = c.trimmed;
  undashed = elim c.undashed [
    | inl same ↦ inl same
    | inr free ↦ elim (Bool-cases (inv.code == without_dashes code)) [
      | inl same ↦ inl (sym ((list_eq.same_iff inv.code (without_dashes code)).0 same) ∙ own)
      | inr other ↦ inr (lookup-use_invite inv (without_dashes code) h.st.invites other ∙ free)
    ]
  ];
}

use_invite-Left :
    (code : Text) (now n : ℕ) (h : Hub) (l : Left code now n (lookup code h.st.invites))
    → Keeps code now n (consume_invite l.inv h)
unfolding consume_invite use_invite set_invites mark_dirty
use_invite-Left code now zero h l =
    rw (l.uses, minus_one 0, l.own, lookup-erase code code h.st.invites, eq_self code) refl
use_invite-Left code now (suc n) h l = record {
  inv = record l.inv { uses_left = pos (suc n) };
  there =
      let v : Invite = record l.inv { uses_left = pos (suc n) } in
      ap (lookup code) (use_invite-suc l.inv n h.st.invites l.uses)
      ∙ (lookup-insert l.inv.code code v h.st.invites
          ∙ (let same : (l.inv.code == code) ≡ true = (list_eq.same_iff l.inv.code code).1 l.own in
              rw same refl));
  own = l.own;
  uses = refl;
  fresh = l.fresh;
}

promised-zero : (k : ℕ) → promised zero k ≡ 0
promised-zero zero = refl
promised-zero (suc k) = refl

-- An invite for a number of uses that has not expired lets exactly that many attempts with its code
-- succeed, of those that are made one after the other, and no more, if there are no blanks around the
-- code, and without its dashes it is not the code of another invite.
pub successes-eq-promised :
    (k n : ℕ) (code : Text) (now : ℕ) (h : Hub)
    → IsCode code h.st.invites
    → Keeps code now n h
    → successes k code now h ≡ promised n k
unfolding successes check_invite attempt
successes-eq-promised zero n code now h c l = refl
successes-eq-promised (suc k) zero code now h c l =
    rw (valid_invite-code code now h c l)
      (let e = successes-eq-promised k zero code now h c l ∙ promised-zero k in omega (arith, e))
successes-eq-promised (suc k) (suc n) code now h c l = rw (valid_invite-Left code now n h c l) (
    ap (λ x. 1 + x)
      (successes-eq-promised k n code now (consume_invite l.inv h)
        (IsCode-consume_invite code l.inv h l.own c) (use_invite-Left code now n h l)))
