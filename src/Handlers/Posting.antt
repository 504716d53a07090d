-- ===== src/Handlers/Posting.antt =====
-- What a message must pass to be posted (code/hub.go, `handleMsg`).
use back_channel.Prelude.{
  ℕ, ◌+◌, ◌≡◌, refl, ◌⊎◌, inl, inr, Bool, true, false, ◌&&◌, Option, none, some, List, [], ◌∷◌,
  ◌++◌, length, ltb, Bool-cases, arith, ℤ_eq,
}
use back_channel.Prelude.Int.{pos, ltb_ℤ, ◌≤ℤ◌, ◌-ℤ◌}
use back_channel.Prelude.Dict.{lookup, insert, erase}
use back_channel.Prelude.Text.{trim_space}
use back_channel.State.{Channel, Membership, User}
use back_channel.Frame.{Msg}
use back_channel.Hub.{
  Hub, Conn, list_at, chan_for, user_of, push, to_chan, audit, mark_dirty, set_chan,
}
use back_channel.Files.Keeps.{SameMessages}
use back_channel.Limits.Bucket.{Key, key_eq, allow_rate, per_second, tokens_of}
use back_channel.Limits.Rates.{
  note_rate_hit, mute_flood, hits_after, lim, max_msg_bytes, msg_rate_for,
}
use back_channel.Messages.{post, append_log, stamp}
use back_channel.Perms.{can_send, rank_in}
use back_channel.Handlers.{handle_msg, msg_to, rated, posted, is_muted, chat_frame, is_blank}

-- The answer of the limiter to a message.
abbrev pub granted : Channel → User → ℕ → Hub → Bool
granted ch u now h =
    let (rate, burst) = msg_rate_for h u ch (rank_in u ch) in
    (allow_rate h.msg_lim (Key.chat u.id ch.id) (per_second rate) (tokens_of burst) (tokens_of 1000)
      now).0

-- One message was posted: in a channel that the user sees and may post in, by a user who is not muted
-- there, not too long, and within the rate limit.
pub record Posts (c : Conn) (m : Msg) (now : ℕ) (h h' : Hub) : Type 0 where
  pub ch : Channel
  pub seen : chan_for h (user_of h c) m.ch ≡ some ch
  pub short : pos (length m.text) ≤ℤ max_msg_bytes h
  pub may : can_send (rank_in (user_of h c) ch) ch ≡ true
  pub unmuted : is_muted ch (user_of h c).id now ≡ false
  pub within : granted ch (user_of h c) now h ≡ true
  pub next : h'.next_id ≡ h.next_id + 1
  pub logged : h'.log ≡ h.log ++ stamp h ch (chat_frame (user_of h c) m) now ∷ []

SameMessages-mute_flood :
    (o : Option Membership) (u : User) (ch : Channel) (hits now : ℕ) (h : Hub)
    → SameMessages h (mute_flood o u ch hits now h).1
unfolding mute_flood to_chan audit mark_dirty set_chan
SameMessages-mute_flood none u ch hits now h = record {
  msgs = refl;
  next_id = refl;
  keep = refl;
  log = refl;
}
SameMessages-mute_flood (some mem) u ch hits now h = record {
  msgs = refl;
  next_id = refl;
  keep = refl;
  log = refl;
}

SameMessages-note_rate_hit :
    (u : User) (ch : Channel) (now : ℕ) (h : Hub) → SameMessages h (note_rate_hit u ch now h).1
unfolding note_rate_hit
SameMessages-note_rate_hit u ch now h =
    let key : Key = Key.chat u.id ch.id in
    let hits : List ℕ =
      hits_after (pos now -ℤ pos 300_000) (list_at (lookup key h.rate_hits)) ++ now ∷ [] in
    let noted : Hub = record h { rate_hits = insert key hits h.rate_hits } in
    let cleared : Hub = record h { rate_hits = erase key noted.rate_hits } in
    elim (Bool-cases (ltb 0 (lim h).auto_mute_hits && ltb (lim h).auto_mute_hits (length hits))) [
      | inr few ↦ rw few (record { msgs = refl; next_id = refl; keep = refl; log = refl })
      | inl many ↦
          let s : SameMessages cleared
              (mute_flood (lookup u.id ch.members) u ch (length hits) now cleared).1 =
            SameMessages-mute_flood (lookup u.id ch.members) u ch (length hits) now cleared in
          rw many (record { msgs = s.msgs; next_id = s.next_id; keep = s.keep; log = s.log })
    ]

-- A refusal is pushed to the connection.
SameMessages-push : (sid : ℕ) (m : Msg) (h : Hub) → SameMessages h (push sid m h)
unfolding push
SameMessages-push sid m h = record { msgs = refl; next_id = refl; keep = refl; log = refl }

rated-cases :
    (sid : ℕ) (c : Conn) (ch : Channel) (m : Msg) (now : ℕ) (h : Hub)
    → chan_for h (user_of h c) m.ch ≡ some ch
    → pos (length m.text) ≤ℤ max_msg_bytes h
    → can_send (rank_in (user_of h c) ch) ch ≡ true
    → is_muted ch (user_of h c).id now ≡ false
    → SameMessages h (rated sid (user_of h c) ch m now h)
      ⊎ Posts c m now h (rated sid (user_of h c) ch m now h)
unfolding rated posted push post append_log to_chan
rated-cases sid c ch m now h e short may unmuted =
    elim (Bool-cases (granted ch (user_of h c) now h)) [
      | inl yes_posted ↦ inr (
          rw yes_posted (record {
            ch = ch;
            seen = e;
            short = short;
            may = may;
            unmuted = unmuted;
            within = yes_posted;
            next = refl;
            logged = refl;
          }))
      | inr refused ↦
          let s = SameMessages-note_rate_hit (user_of h c) ch now _ in
          inl
            (rw refused (record { msgs = s.msgs; next_id = s.next_id; keep = s.keep; log = s.log }))
    ]

msg_to-cases :
    (o : Option Channel) (sid : ℕ) (c : Conn) (m : Msg) (now : ℕ) (h : Hub)
    → chan_for h (user_of h c) m.ch ≡ o
    → SameMessages h (msg_to o sid (user_of h c) m now h)
      ⊎ Posts c m now h (msg_to o sid (user_of h c) m now h)
unfolding msg_to
msg_to-cases none sid c m now h e = inl (SameMessages-push sid _ h)
msg_to-cases (some ch) sid c m now h e =
    elim (Bool-cases (ltb_ℤ (max_msg_bytes h) (pos (length m.text)))) [
      | inl long ↦ inl (rw long (SameMessages-push sid _ h))
      | inr short ↦ elim (Bool-cases (can_send (rank_in (user_of h c) ch) ch)) [
        | inr denied ↦ inl (rw (short, denied) (SameMessages-push sid _ h))
        | inl may ↦ elim (Bool-cases (is_muted ch (user_of h c).id now)) [
          | inl muted ↦ inl (rw (short, may, muted) (SameMessages-push sid _ h))
          | inr unmuted ↦
              rw (short, may, unmuted) (rated-cases sid c ch m now h e (ground arith) may unmuted)
        ]
      ]
    ]

-- A message frame either leaves messages, ids and log as they are, or posts one message, which takes
-- the next id and one line of the log; and it posts only in a channel that the user sees and may post
-- in, when the user is not muted there, the text is not too long, and the limiter grants it.
pub handle_msg-Posts :
    (sid : ℕ) (c : Conn) (m : Msg) (now : ℕ) (h : Hub)
    → SameMessages h (handle_msg sid c m now h) ⊎ Posts c m now h (handle_msg sid c m now h)
unfolding handle_msg
handle_msg-Posts sid c m now h = elim (Bool-cases (is_blank (trim_space m.text))) [
  | inl blank ↦ inl (rw blank (record { msgs = refl; next_id = refl; keep = refl; log = refl }))
  | inr given ↦ rw given (msg_to-cases (chan_for h (user_of h c) m.ch) sid c m now h refl)
]
