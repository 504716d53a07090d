-- ===== src/Subs/Keeps.antt =====
-- Leaving a channel changes nothing that is saved.
use back_channel.Prelude.{
  ℕ, ◌≡◌, refl, ◌∙◌, Bool, true, false, Option, none, some, List, [], ◌∷◌, ◌==◌, ℕ_eq, ℤ_eq, inl,
  inr, Bool-cases,
}
use back_channel.Prelude.Int.{ℤ}
use back_channel.Prelude.Dict.{Dict, lookup}
use back_channel.State.{Channel, User}
use back_channel.Frame.{Msg}
use back_channel.Hub.{Hub, Conn, user_of, has, to_chan, push}
use back_channel.Subs.{
  unsub_user, unsub_each, unsub, depart, depart_in, depart_to, announce_part, set_present,
  erase_present,
}

st-announce_part :
    (o : Option Channel) (u : User) (quiet : Bool) (h : Hub) → (announce_part o u quiet h).st ≡ h.st
unfolding announce_part to_chan
st-announce_part none u quiet h = refl
st-announce_part (some ch) u true h = refl
st-announce_part (some ch) u false h = refl

st-depart_to :
    (n cid : ℕ) (c : Conn) (quiet : Bool) (h : Hub) → (depart_to n cid c quiet h).st ≡ h.st
unfolding depart_to set_present erase_present
st-depart_to ℕ.zero cid c quiet h =
    st-announce_part (lookup cid h.st.channels) (user_of h c) quiet _
st-depart_to (ℕ.suc n) cid c quiet h = refl

st-depart_in :
    (o : Option (Dict ℤ ℕ)) (cid : ℕ) (c : Conn) (quiet : Bool) (h : Hub)
    → (depart_in o cid c quiet h).st ≡ h.st
unfolding depart_in
st-depart_in none cid c quiet h = refl
st-depart_in (some p) cid c quiet h = st-depart_to _ cid c quiet h

st-unsub :
    (sid : ℕ) (c : Conn) (cid : ℕ) (quiet : Bool) (h : Hub) → (unsub sid c cid quiet h).st ≡ h.st
unfolding unsub depart
st-unsub sid c cid quiet h = elim (Bool-cases (has cid c.subs)) [
  | inl here ↦ rw here (st-depart_in _ cid c quiet _)
  | inr away ↦ rw away
]

st-unsub_each :
    (cs : List (ℕ × Conn)) (uid : ℤ) (cid : ℕ) (why : Msg) (quiet : Bool) (h : Hub)
    → (unsub_each cs uid cid why quiet h).st ≡ h.st
unfolding unsub_each push
st-unsub_each [] uid cid why quiet h = refl
st-unsub_each ((sid, c) ∷ cs) uid cid why quiet h =
    st-unsub_each cs uid cid why quiet _ ∙ elim (Bool-cases (c.user.id == uid)) [
      | inl mine ↦ rw mine (st-unsub sid c cid quiet h)
      | inr other ↦ rw other
    ]

pub st-unsub_user :
    (uid : ℤ) (cid : ℕ) (why : Msg) (quiet : Bool) (h : Hub)
    → (unsub_user uid cid why quiet h).st ≡ h.st
unfolding unsub_user
st-unsub_user uid cid why quiet h = st-unsub_each h.conns uid cid why quiet h
