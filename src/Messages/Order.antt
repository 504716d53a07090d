-- ===== src/Messages/Order.antt =====
-- The messages of a channel are in the order of their ids, and there are never many more than `keep`.
use back_channel.Prelude.{
  ℕ, zero, suc, ◌+◌, ◌-◌, ◌/◌, ◌≤◌, ◌<◌, ◌≡◌, refl, List, [], ◌∷◌, ◌++◌, length, drop, length-drop,
  Bool-cases, inl, inr, arith, if◌then◌else◌, ◌==◌, ℕ_eq,
}
use back_channel.Prelude.Dict.{lookup-insert}
use back_channel.State.{Channel}
use back_channel.Frame.{Msg}
use back_channel.Hub.{Hub, to_chan}
use back_channel.Messages.{messages, trim_kept, append_log, stamp, post}

-- Ids rise strictly, from above `lo` to at most `hi`.
abbrev pub Ascends : ℕ → ℕ → List Msg → Type 0
Ascends lo hi [] = lo ≤ hi
Ascends lo hi (m ∷ ms) = (lo < m.id) × Ascends m.id hi ms

pub Ascends-le : (lo hi : ℕ) (ms : List Msg) → Ascends lo hi ms → lo ≤ hi
Ascends-le lo hi [] h = h
Ascends-le lo hi (m ∷ ms) h = omega (arith, Ascends-le m.id hi ms h.1)

Ascends-weaken : (lo' lo hi : ℕ) (ms : List Msg) → lo' ≤ lo → Ascends lo hi ms → Ascends lo' hi ms
Ascends-weaken lo' lo hi [] p h = omega arith
Ascends-weaken lo' lo hi (m ∷ ms) p h = (omega arith, h.1)

Ascends-raise : (lo hi hi' : ℕ) (ms : List Msg) → hi ≤ hi' → Ascends lo hi ms → Ascends lo hi' ms
Ascends-raise lo hi hi' [] p h = omega arith
Ascends-raise lo hi hi' (m ∷ ms) p h = (h.0, Ascends-raise m.id hi hi' ms p h.1)

Ascends-snoc :
    (lo hi : ℕ) (ms : List Msg) (m : Msg)
    → hi < m.id
    → Ascends lo hi ms
    → Ascends lo m.id (ms ++ m ∷ [])
Ascends-snoc lo hi [] m p h = (omega arith, omega arith)
Ascends-snoc lo hi (x ∷ ms) m p h = (h.0, Ascends-snoc x.id hi ms m p h.1)

Ascends-drop : (n lo hi : ℕ) (ms : List Msg) → Ascends lo hi ms → Ascends lo hi (drop n ms)
Ascends-drop zero lo hi ms h = h
Ascends-drop (suc n) lo hi [] h = h
Ascends-drop (suc n) lo hi (m ∷ ms) h =
    Ascends-drop n lo hi ms (Ascends-weaken lo m.id hi ms (omega arith) h.1)

-- In every channel the ids rise, none is above the last id given out, and at most `keep` and a
-- quarter messages are held.
pub record IsOrdered (h : Hub) : Type 0 where
  pub ascends : (cid : ℕ) → Ascends 0 h.next_id (messages h cid)
  pub bounded : (cid : ℕ) → length (messages h cid) ≤ h.keep + h.keep / 4

trim_kept-length : (keep : ℕ) (ms : List Msg) → length (trim_kept keep ms) ≤ keep + keep / 4
unfolding trim_kept
trim_kept-length keep ms = ground (arith, length-drop (length ms - keep) ms)

trim_kept-Ascends :
    (keep lo hi : ℕ) (ms : List Msg) → Ascends lo hi ms → Ascends lo hi (trim_kept keep ms)
unfolding trim_kept
trim_kept-Ascends keep lo hi ms h = ground (arith, Ascends-drop (length ms - keep) lo hi ms h)

pub messages-post :
    (ch : Channel) (m : Msg) (now : ℕ) (h : Hub) (cid : ℕ)
    → messages (post ch m now h) cid ≡ (
        if ch.id == cid
        then trim_kept h.keep (messages h ch.id ++ stamp h ch m now ∷ [])
        else messages h cid)
unfolding post to_chan append_log
messages-post ch m now h cid = ground (
  arith,
  lookup-insert ch.id cid (trim_kept h.keep (messages h ch.id ++ stamp h ch m now ∷ [])) h.msgs,
)

pub next_id-post :
    (ch : Channel) (m : Msg) (now : ℕ) (h : Hub)
    → ((post ch m now h).next_id ≡ h.next_id + 1) × ((post ch m now h).keep ≡ h.keep)
unfolding post to_chan append_log
next_id-post ch m now h = (refl, refl)

post-Ascends :
    (ch : Channel) (m : Msg) (now : ℕ) (h : Hub) (cid : ℕ)
    → IsOrdered h
    → Ascends 0 (h.next_id + 1) (messages (post ch m now h) cid)
post-Ascends ch m now h cid o =
    rw (messages-post ch m now h cid) (elim (Bool-cases (ch.id == cid)) [
      | inl here ↦ rw here (
          trim_kept-Ascends h.keep 0 (h.next_id + 1) _ (
            Ascends-snoc 0 h.next_id (messages h ch.id) (stamp h ch m now) (omega arith)
              (o.ascends ch.id)))
      | inr there ↦
          rw there (
            Ascends-raise 0 h.next_id (h.next_id + 1) (messages h cid) (omega arith)
              (o.ascends cid))
    ])

post-bounded :
    (ch : Channel) (m : Msg) (now : ℕ) (h : Hub) (cid : ℕ)
    → IsOrdered h
    → length (messages (post ch m now h) cid) ≤ h.keep + h.keep / 4
post-bounded ch m now h cid o =
    rw (messages-post ch m now h cid) (elim (Bool-cases (ch.id == cid)) [
      | inl here ↦ rw here (trim_kept-length h.keep _)
      | inr there ↦ rw there (o.bounded cid)
    ])

-- If the messages of every channel are in order and within the bound, they still are after a post.
pub post-IsOrdered :
    (ch : Channel) (m : Msg) (now : ℕ) (h : Hub) → IsOrdered h → IsOrdered (post ch m now h)
post-IsOrdered ch m now h o = record {
  ascends = λ cid. rw (next_id-post ch m now h).0 (post-Ascends ch m now h cid o);
  bounded = λ cid. rw (next_id-post ch m now h).1 (post-bounded ch m now h cid o);
}
