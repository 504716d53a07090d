-- ===== src/Limits/Rates.antt =====
-- The limits that apply to a user in a channel, and the automatic mute (code/limits.go). Rates are in
-- thousandths, as in `State`; `int64` is the wrap-around of a shift to bytes.
use back_channel.Prelude.{
  ℕ, ◌*◌, Bool, true, false, ◌&&◌, Option, none, some, List, [], ◌∷◌, ◌++◌, length, ltb, leb, ℕ_eq,
  ℤ_eq, if◌then◌else◌,
}
use back_channel.Prelude.Int.{ℤ, pos, ltb_ℤ, pos_part, ◌*ℤ◌, ◌+ℤ◌, ◌-ℤ◌, int64}
use back_channel.Prelude.Dict.{lookup, insert, erase}
use back_channel.Prelude.Text.{Text, str}
use back_channel.Prelude.Decimal.{show_nat}
use back_channel.State.{Channel, Membership, User, Limits}
use back_channel.Frame.{Msg, Kind, LimitInfo, frame}
use back_channel.Hub.{Hub, list_at, mark_dirty, set_chan, to_chan, audit}
use back_channel.Files.{used_by}
use back_channel.Limits.Bucket.{Key, key_eq}
use back_channel.Perms.{rank_mod}

abbrev pub lim : Hub → Limits
lim h = h.st.settings.limits

-- A limit that is set where it is above 0, and another otherwise.
abbrev override : ℤ → ℤ → ℤ
override x y = if ltb_ℤ (pos 0) x then x else y

-- The server's rate, then the channel's, then the user's; mods get three times as much.
unfoldable pub msg_rate_for : Hub → User → Channel → ℕ → ℕ × ℕ
msg_rate_for h u ch rank =
    let rate = pos_part (override u.msg_rate (override ch.msg_rate (pos (lim h).msg_rate))) in
    let burst = (lim h).msg_burst in
    (if leb rank_mod rank then rate * 3 else rate, if ltb burst 1000 then 1000 else burst)

unfoldable pub max_msg_bytes : Hub → ℤ
max_msg_bytes h = int64 (pos (lim h).max_msg_kb *ℤ pos 1024)

abbrev megabytes : ℤ → ℤ
megabytes n = int64 (n *ℤ pos 1_048_576)

unfoldable pub max_file_for : Hub → Option Channel → ℤ
max_file_for h none = megabytes (pos (lim h).max_file_mb)
max_file_for h (some ch) = megabytes (override ch.max_file_mb (pos (lim h).max_file_mb))

-- The quota in bytes; 0 is none.
unfoldable pub quota_for : Hub → User → ℤ
quota_for h u = megabytes (override u.quota_mb (pos (lim h).quota_mb))

unfoldable pub upload_rate_for : Hub → User → ℤ
upload_rate_for h u = override u.upload_rate (pos (lim h).upload_rate)

unfoldable pub limits_for : Hub → User → LimitInfo
unfolding quota_for
limits_for h u =
    let q = quota_for h u in
    let left = q -ℤ pos (used_by h u.id) in
    record {
      max_msg = max_msg_bytes h;
      max_file = megabytes (pos (lim h).max_file_mb);
      quota_left = if ltb_ℤ (pos 0) q then if ltb_ℤ left (pos 0) then pos 0 else left else pos 0;
    }

-- The hits after a time.
unfoldable pub hits_after : ℤ → List ℕ → List ℕ
hits_after cut [] = []
hits_after cut (t ∷ ts) =
    let rest = hits_after cut ts in if ltb_ℤ cut (pos t) then t ∷ rest else rest

muted_frame : Channel → User → ℤ → Msg
muted_frame ch u until = record (frame Kind.muted) {
  ch = ch.name;
  sender = u.name;
  by = str "hub";
  until = until;
  text = str "flooding";
}

abbrev automute_detail : ℕ → ℕ → Text
automute_detail hits min =
    show_nat hits ++ str " rate-limit hits in 5 min → muted " ++ show_nat min ++ str " min"

-- The mute of a member; a guest is no member, and only has the hits forgotten.
unfoldable pub mute_flood : Option Membership → User → Channel → ℕ → ℕ → Hub → Bool × Hub
unfolding muted_frame
mute_flood none u ch hits now h = (false, h)
mute_flood (some mem) u ch hits now h =
    let min = (lim h).auto_mute_min in
    let until = int64 (pos now +ℤ int64 (pos min *ℤ pos 60_000)) in
    let ch' = record ch { members = insert u.id (record mem { muted_until = until }) ch.members } in
    (
      true,
      to_chan ch.id (muted_frame ch u until) (
          audit none (str "automute") u.name (some ch) (automute_detail hits min) now
            (mark_dirty (set_chan ch' h))),
    )

-- A refused message is noted, and too many of them within five minutes mute the user.
unfoldable pub note_rate_hit : User → Channel → ℕ → Hub → Bool × Hub
unfolding hits_after mute_flood
note_rate_hit u ch now h =
    let key = Key.chat u.id ch.id in
    let hits = hits_after (pos now -ℤ pos 300_000) (list_at (lookup key h.rate_hits)) ++ now ∷ [] in
    let noted = record h { rate_hits = insert key hits h.rate_hits } in
    if ltb 0 (lim h).auto_mute_hits && ltb (lim h).auto_mute_hits (length hits)
    then mute_flood (lookup u.id ch.members) u ch (length hits) now
        (record noted { rate_hits = erase key noted.rate_hits })
    else (false, noted)
