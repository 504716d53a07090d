-- ===== src/Subs/Presence.antt =====
-- Presence counts exactly the subscribed sessions of each user in each channel.
use mathlib.Core.Path.{ap₂, subst}
use back_channel.Prelude.{
  ℕ, zero, suc, ◌+◌, ◌-◌, ◌≡◌, ◌≢◌, refl, sym, ap, ◌∙◌, Bool, true, false, ◌&&◌, Option, none, some,
  List, [], ◌∷◌, nat_eq, nat_eq_iff, ◌==◌, ℕ_eq, ℤ_eq, eq_self, or_else, arith, if◌then◌else◌,
  Bool-cases, inl, inr,
}
use back_channel.Prelude.Int.{ℤ, int_eq_iff}
use back_channel.Prelude.Dict.{
  Dict, lookup, insert, erase, update, map_entries, lookup-insert, lookup-erase,
}
use back_channel.State.{Channel, User}
use back_channel.Frame.{Msg}
use back_channel.Hub.{Hub, Conn, has, push, push_conn, to_chan, user_of}
use back_channel.Messages.{messages, last_id}
use back_channel.Subs.{
  remove, add_sub, drop_sub, present_in, present, set_present, erase_present, push_all, arrive,
  subscribe, depart, unsub, depart_in, depart_to, announce_part, replay, expiry_cut, synced_frame,
}

-- 1 for a session of the user that is subscribed to the channel.
abbrev sits : ℕ → ℤ → Conn → ℕ
sits cid uid c = if (c.user.id == uid) && has cid c.subs then 1 else 0

-- How many sessions of a user are subscribed to a channel.
unfoldable pub count_subs : ℕ → ℤ → Dict ℕ Conn → ℕ
count_subs cid uid [] = 0
count_subs cid uid ((sid, c) ∷ rest) = sits cid uid c + count_subs cid uid rest

-- For every channel and user, presence is the number of subscribed sessions.
pub record IsCounted (h : Hub) : Type 0 where
  pub counts : (cid : ℕ) (uid : ℤ) → present h cid uid ≡ count_subs cid uid h.conns

-- Sending frames changes neither side.
record SameSeats (h h' : Hub) : Type 0 where
  presence : h'.presence ≡ h.presence
  seats : (cid : ℕ) (uid : ℤ) → count_subs cid uid h'.conns ≡ count_subs cid uid h.conns

SameSeats-refl : (h : Hub) → SameSeats h h
SameSeats-refl h = record { presence = refl; seats = λ cid uid. refl }

SameSeats-trans : {h h' h'' : Hub} → SameSeats h h' → SameSeats h' h'' → SameSeats h h''
SameSeats-trans p q = record {
  presence = q.presence ∙ p.presence;
  seats = λ cid uid. q.seats cid uid ∙ p.seats cid uid;
}

SameSeats-if :
    (b : Bool) {h h' h'' : Hub}
    → SameSeats h h'
    → SameSeats h h''
    → SameSeats h (if b then h' else h'')
SameSeats-if true p q = p
SameSeats-if false p q = q

push_conn-keeps :
    (m : Msg) (c : Conn) → ((push_conn m c).user ≡ c.user) × ((push_conn m c).subs ≡ c.subs)
unfolding push_conn
push_conn-keeps m c = ground arith

sits-push_conn :
    (cid : ℕ) (uid : ℤ) (m : Msg) (c : Conn) → sits cid uid (push_conn m c) ≡ sits cid uid c
sits-push_conn cid uid m c = rw (push_conn-keeps m c).0 (rw (push_conn-keeps m c).1)

count_subs-update :
    (cid : ℕ) (uid : ℤ) (sid : ℕ) (f : Conn → Conn) (c : Conn) (conns : Dict ℕ Conn)
    → lookup sid conns ≡ some c
    → count_subs cid uid (update sid f conns) + sits cid uid c
      ≡ count_subs cid uid conns + sits cid uid (f c)
unfolding count_subs lookup update
count_subs-update cid uid sid f c [] e = cc
count_subs-update cid uid sid f c ((s, d) ∷ rest) e = elim (Bool-cases (s == sid)) [
  | inl same ↦
      let p : some d ≡ some c = rw same at e in
      let q : d ≡ c = cc p in
      rw same (
        subst
          (λ x.
            sits cid uid (f d) + count_subs cid uid rest + sits cid uid x
            ≡ sits cid uid d + count_subs cid uid rest + sits cid uid (f x))
          q (omega arith))
  | inr other ↦
      let p : lookup sid rest ≡ some c = rw other at e in
      rw other (omega (arith, count_subs-update cid uid sid f c rest p))
]

count_subs-same :
    (cid : ℕ) (uid : ℤ) (sid : ℕ) (m : Msg) (conns : Dict ℕ Conn)
    → count_subs cid uid (update sid (push_conn m) conns) ≡ count_subs cid uid conns
unfolding count_subs update
count_subs-same cid uid sid m [] = refl
count_subs-same cid uid sid m ((s, d) ∷ rest) = elim (Bool-cases (s == sid)) [
  | inl same ↦ rw same (rw (sits-push_conn cid uid m d))
  | inr other ↦ rw other (omega (arith, count_subs-same cid uid sid m rest))
]

sits-if :
    (b : Bool) (cid : ℕ) (uid : ℤ) (m : Msg) (c : Conn)
    → sits cid uid (if b then push_conn m c else c) ≡ sits cid uid c
sits-if true cid uid m c = sits-push_conn cid uid m c
sits-if false cid uid m c = refl

count_subs-map :
    (cid : ℕ) (uid : ℤ) (to : ℕ) (m : Msg) (conns : Dict ℕ Conn)
    → count_subs cid uid (map_entries (λ sid c. if has to c.subs then push_conn m c else c) conns)
      ≡ count_subs cid uid conns
unfolding count_subs map_entries
count_subs-map cid uid to m [] = refl
count_subs-map cid uid to m ((s, d) ∷ rest) =
    ap₂ (λ (a b : ℕ). a + b) (sits-if (has to d.subs) cid uid m d)
      (count_subs-map cid uid to m rest)

SameSeats-push : (sid : ℕ) (m : Msg) (h : Hub) → SameSeats h (push sid m h)
unfolding push
SameSeats-push sid m h = record {
  presence = refl;
  seats = λ cid uid. count_subs-same cid uid sid m h.conns;
}

SameSeats-to_chan : (to : ℕ) (m : Msg) (h : Hub) → SameSeats h (to_chan to m h)
unfolding to_chan
SameSeats-to_chan to m h = record {
  presence = refl;
  seats = λ cid uid. count_subs-map cid uid to m h.conns;
}

SameSeats-push_all : (sid : ℕ) (ms : List Msg) (h : Hub) → SameSeats h (push_all sid ms h)
unfolding push_all
SameSeats-push_all sid [] h = SameSeats-refl h
SameSeats-push_all sid (m ∷ ms) h =
    SameSeats-trans (SameSeats-push sid m h) (SameSeats-push_all sid ms (push sid m h))

has-remove :
    (c x : ℕ) (xs : List ℕ) → has c (remove x xs) ≡ (if nat_eq x c then false else has c xs)
has-remove c x [] = ground arith
has-remove c x (y ∷ ys) = ground (arith, has-remove c x ys)

-- A session that was not subscribed has one seat more, and one that was has one fewer.
sits-add_sub :
    (cid : ℕ) (uid : ℤ) (c : Conn) (to : ℕ)
    → has to c.subs ≡ false
    → sits cid uid (add_sub to c)
      ≡ (if (to == cid) && (c.user.id == uid) then 1 else sits cid uid c)
sits-add_sub cid uid c to h = ground (arith, has-remove cid to c.subs)

sits-drop_sub :
    (cid : ℕ) (uid : ℤ) (c : Conn) (to : ℕ)
    → sits cid uid (drop_sub to c)
      ≡ (if (to == cid) && (c.user.id == uid) then 0 else sits cid uid c)
sits-drop_sub cid uid c to = ground (arith, has-remove cid to c.subs)

present-insert :
    (to : ℕ) (who : ℤ) (p : Dict ℤ ℕ) (h : Hub) (cid : ℕ) (uid : ℤ)
    → present (record h { presence = insert to p h.presence }) cid uid
      ≡ (if to == cid then or_else (lookup uid p) 0 else present h cid uid)
present-insert to who p h cid uid = rw (lookup-insert to cid p h.presence) (ground arith)

present-set :
    (to : ℕ) (who : ℤ) (n : ℕ) (h : Hub) (cid : ℕ) (uid : ℤ)
    → present (set_present to who n h) cid uid
      ≡ (if (to == cid) && (who == uid) then n else present h cid uid)
unfolding set_present
present-set to who n h cid uid =
    present-insert to who (insert who n (present_in h to)) h cid uid
    ∙ rw (lookup-insert who uid n (present_in h to)) (ground (arith, nat_eq_iff to cid))

present-erase :
    (to : ℕ) (who : ℤ) (h : Hub) (cid : ℕ) (uid : ℤ)
    → present (erase_present to who h) cid uid
      ≡ (if (to == cid) && (who == uid) then 0 else present h cid uid)
unfolding erase_present
present-erase to who h cid uid =
    present-insert to who (erase who (present_in h to)) h cid uid
    ∙ rw (lookup-erase who uid (present_in h to)) (ground (arith, nat_eq_iff to cid))

-- One user's number in one channel is set, and nobody changes seats.
record Shifts (to : ℕ) (who : ℤ) (n : ℕ) (h h' : Hub) : Type 0 where
  shown :
      (cid : ℕ) (uid : ℤ)
      → present h' cid uid ≡ (if (to == cid) && (who == uid) then n else present h cid uid)
  seats : (cid : ℕ) (uid : ℤ) → count_subs cid uid h'.conns ≡ count_subs cid uid h.conns

Shifts-SameSeats :
    {to : ℕ} {who : ℤ} {n : ℕ} {h h' h'' : Hub}
    → Shifts to who n h h'
    → SameSeats h' h''
    → Shifts to who n h h''
Shifts-SameSeats {to} {who} {n} {h} {h'} {h''} m s = record {
  shown = λ cid uid.
      ap (λ p. or_else (lookup uid (or_else (lookup cid p) [])) 0) s.presence ∙ m.shown cid uid;
  seats = λ cid uid. s.seats cid uid ∙ m.seats cid uid;
}

Shifts-set_present :
    (to : ℕ) (who : ℤ) (n : ℕ) (h : Hub) → Shifts to who n h (set_present to who n h)
Shifts-set_present to who n h = record {
  shown = λ cid uid. present-set to who n h cid uid;
  seats = λ cid uid. unfold set_present in refl;
}

Shifts-erase_present : (to : ℕ) (who : ℤ) (h : Hub) → Shifts to who 0 h (erase_present to who h)
Shifts-erase_present to who h = record {
  shown = λ cid uid. present-erase to who h cid uid;
  seats = λ cid uid. unfold erase_present in refl;
}

SameSeats-announce_part :
    (o : Option Channel) (u : User) (quiet : Bool) (h : Hub)
    → SameSeats h (announce_part o u quiet h)
unfolding announce_part
SameSeats-announce_part none u quiet h = SameSeats-refl h
SameSeats-announce_part (some ch) u true h = SameSeats-refl h
SameSeats-announce_part (some ch) u false h = SameSeats-to_chan ch.id _ h

depart_to-Shifts :
    (n cid : ℕ) (c : Conn) (quiet : Bool) (h : Hub)
    → Shifts cid c.user.id n h (depart_to n cid c quiet h)
unfolding depart_to
depart_to-Shifts zero cid c quiet h =
    Shifts-SameSeats (Shifts-erase_present cid c.user.id h) (SameSeats-announce_part _ _ quiet _)
depart_to-Shifts (suc n) cid c quiet h = Shifts-set_present cid c.user.id (suc n) h

depart_in-Shifts :
    (o : Option (Dict ℤ ℕ)) (cid : ℕ) (c : Conn) (quiet : Bool) (h : Hub)
    → lookup cid h.presence ≡ o
    → present h cid c.user.id ≢ 0
    → Shifts cid c.user.id (present h cid c.user.id - 1) h (depart_in o cid c quiet h)
unfolding depart_in
depart_in-Shifts none cid c quiet h e some_seat = absurd (some_seat (rw e (unfold lookup in refl)))
depart_in-Shifts (some p) cid c quiet h e some_seat = depart_to-Shifts _ cid c quiet h

SameSeats-counts : {h h' : Hub} → SameSeats h h' → IsCounted h → IsCounted h'
SameSeats-counts {h} {h'} s k = record {
  counts = λ cid uid.
      ap (λ p. or_else (lookup uid (or_else (lookup cid p) [])) 0) s.presence
      ∙ (k.counts cid uid ∙ sym (s.seats cid uid));
}

-- The session gives up its seat, and presence is lowered by one.
unsub_seats :
    (sid : ℕ) (c : Conn) (cid : ℕ) (h : Hub) (x : ℕ) (u : ℤ)
    → lookup sid h.conns ≡ some c
    → has cid c.subs ≡ true
    → count_subs x u (update sid (drop_sub cid) h.conns)
        + (if (cid == x) && (c.user.id == u) then 1 else 0)
      ≡ count_subs x u h.conns
unsub_seats sid c cid h x u e here = ground (
  arith,
  count_subs-update x u sid (drop_sub cid) c h.conns e,
  sits-drop_sub x u c cid,
  nat_eq_iff cid x,
  int_eq_iff c.user.id u,
)

unsub_settles :
    (sid : ℕ) (c : Conn) (cid : ℕ) (h : Hub) (x : ℕ) (u : ℤ)
    → lookup sid h.conns ≡ some c
    → has cid c.subs ≡ true
    → IsCounted h
    → (if (cid == x) && (c.user.id == u) then present h cid c.user.id - 1 else present h x u)
      ≡ count_subs x u (update sid (drop_sub cid) h.conns)
unsub_settles sid c cid h x u e here k = ground (
  arith,
  unsub_seats sid c cid h x u e here,
  k.counts x u,
  nat_eq_iff cid x,
  int_eq_iff c.user.id u,
)

-- If presence is exact, it still is after a session leaves a channel, subscribed to it or not.
pub unsub-IsCounted :
    (sid : ℕ) (c : Conn) (cid : ℕ) (quiet : Bool) (h : Hub)
    → lookup sid h.conns ≡ some c
    → IsCounted h
    → IsCounted (unsub sid c cid quiet h)
unfolding unsub depart
unsub-IsCounted sid c cid quiet h e k = elim (Bool-cases (has cid c.subs)) [
  | inr away ↦ rw away k
  | inl here ↦
      let h' : Hub = record h { conns = update sid (drop_sub cid) h.conns } in
      let one : count_subs cid c.user.id h'.conns + 1 ≡ count_subs cid c.user.id h.conns =
        rw (eq_self c.user.id, eq_self cid) at (unsub_seats sid c cid h cid c.user.id e here) in
      let m : Shifts cid c.user.id (present h' cid c.user.id - 1) h'
          (depart_in (lookup cid h'.presence) cid c quiet h') =
        depart_in-Shifts _ cid c quiet h' refl (omega (arith, k.counts cid c.user.id)) in
      rw here (record {
        counts = λ x u. m.shown x u ∙ (unsub_settles sid c cid h x u e here k ∙ sym (m.seats x u));
      })
]

subscribe_seats :
    (sid : ℕ) (c : Conn) (to : ℕ) (h : Hub) (x : ℕ) (u : ℤ)
    → lookup sid h.conns ≡ some c
    → has to c.subs ≡ false
    → count_subs x u (update sid (add_sub to) h.conns)
      ≡ count_subs x u h.conns + (if (to == x) && (c.user.id == u) then 1 else 0)
subscribe_seats sid c to h x u e away = ground (
  arith,
  count_subs-update x u sid (add_sub to) c h.conns e,
  sits-add_sub x u c to away,
  nat_eq_iff to x,
  int_eq_iff c.user.id u,
)

subscribe_settles :
    (sid : ℕ) (c : Conn) (to : ℕ) (h : Hub) (x : ℕ) (u : ℤ)
    → lookup sid h.conns ≡ some c
    → has to c.subs ≡ false
    → IsCounted h
    → (if (to == x) && (c.user.id == u) then present h to c.user.id + 1 else present h x u)
      ≡ count_subs x u (update sid (add_sub to) h.conns)
subscribe_settles sid c to h x u e away k = ground (
  arith,
  subscribe_seats sid c to h x u e away,
  k.counts x u,
  nat_eq_iff to x,
  int_eq_iff c.user.id u,
)

arrive-Shifts :
    (ch : Channel) (c : Conn) (u : User) (h : Hub)
    → Shifts ch.id c.user.id (present h ch.id c.user.id + 1) h (arrive ch c u h)
unfolding arrive
arrive-Shifts ch c u h =
    Shifts-SameSeats (Shifts-set_present ch.id c.user.id _ h)
      (SameSeats-if _ (SameSeats-to_chan ch.id _ _) (SameSeats-refl _))

-- If presence is exact, it still is after a session joins a channel that it is not subscribed to.
pub subscribe-IsCounted :
    (sid : ℕ) (c : Conn) (ch : Channel) (since now : ℕ) (h : Hub)
    → lookup sid h.conns ≡ some c
    → has ch.id c.subs ≡ false
    → IsCounted h
    → IsCounted (subscribe sid c ch since now h)
unfolding subscribe
subscribe-IsCounted sid c ch since now h e away k =
    let h' : Hub = record h { conns = update sid (add_sub ch.id) h.conns } in
    let frames : List Msg = replay (messages h ch.id) since (expiry_cut ch.expire_sec now) in
    let h'' : Hub = push sid (synced_frame ch.name (last_id h ch.id)) (push_all sid frames h') in
    let s : SameSeats h' h'' =
      SameSeats-trans (SameSeats-push_all sid frames h') (SameSeats-push sid _ _) in
    let m : Shifts ch.id c.user.id (present h'' ch.id c.user.id + 1) h''
        (arrive ch c (user_of h c) h'') =
      arrive-Shifts ch c (user_of h c) h'' in
    let same : (x : ℕ) (u : ℤ) → present h'' x u ≡ present h x u =
      λ x u. ap (λ p. or_else (lookup u (or_else (lookup x p) [])) 0) s.presence in
    record {
      counts = λ x u.
          m.shown x u
          ∙ (rw (same ch.id c.user.id)
                (rw (same x u) (subscribe_settles sid c ch.id h x u e away k))
              ∙ sym (m.seats x u ∙ s.seats x u));
    }
