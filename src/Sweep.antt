-- ===== src/Sweep.antt =====
-- The janitor's work (code/limits.go, `expireMessages` and `sweep`).
use back_channel.Prelude.{
  ℕ, zero, suc, ◌+◌, ◌-◌, ◌*◌, Bool, true, false, ◌&&◌, ◌||◌, Option, none, some, List, [], ◌∷◌,
  ltb, nat_eq, ◌==◌, ℕ_eq, ℤ_eq, list_eq, if◌then◌else◌,
}
use back_channel.Prelude.Int.{ℤ, pos, ltb_ℤ, ◌*ℤ◌, ◌-ℤ◌, int64}
use back_channel.Prelude.Dict.{Dict, insert}
use back_channel.Prelude.Text.{Text}
use back_channel.State.{Channel, Membership, Ban, Invite, User, Status}
use back_channel.Frame.{Msg, Kind, frame}
use back_channel.Hub.{Hub, mark_dirty, save, to_chan}
use back_channel.Files.{unref_file}
use back_channel.Messages.{has_file, messages, compact_log}

-- The oldest messages, up to the first that is not older than `cut`, lose their files; what is left of
-- the messages, the ids that are gone, and the hub.
unfoldable pub expire_prefix : ℕ → ℤ → List Msg → Hub → List Msg × List ℕ × Hub
expire_prefix cid cut [] h = ([], [], h)
expire_prefix cid cut (x ∷ xs) h =
    let (ms, ids, h') =
      expire_prefix cid cut xs (if has_file x then unref_file x.fid cid h else h) in
    if ltb_ℤ (pos x.ts) cut then (ms, x.id ∷ ids, h') else (x ∷ xs, [], h)

gone_frame : Channel → List ℕ → Msg
gone_frame ch ids = record (frame Kind.expired) { ch = ch.name; ids = ids }

-- Nothing changes for a channel of which nothing expires.
keep_rest : Channel → List Msg × List ℕ × Hub → Hub → Hub
unfolding gone_frame
keep_rest ch (ms, [], h') h = h
keep_rest ch (ms, id ∷ ids, h') h = to_chan ch.id (gone_frame ch (id ∷ ids)) (record h' {
  msgs = insert ch.id ms h'.msgs;
  removed = h'.removed + back_channel.Prelude.length (id ∷ ids);
})

unfoldable pub expire_channel : Channel → ℕ → Hub → Hub
unfolding expire_prefix keep_rest
expire_channel ch now h =
    if ltb_ℤ (pos 0) ch.expire_sec
    then (let cut = int64 (pos now -ℤ int64 (ch.expire_sec *ℤ pos 1000)) in
        keep_rest ch (expire_prefix ch.id cut (messages h ch.id) h) h)
    else h

expire_channels : Dict ℕ Channel → ℕ → Hub → Hub
unfolding expire_channel
expire_channels [] now h = h
expire_channels ((cid, ch) ∷ rest) now h = expire_channels rest now (expire_channel ch now h)

abbrev compacted : ℕ → Hub → Hub
compacted now h = record (compact_log h) { removed = 0; last_comp = now }

-- `expireMessages`: the log is compacted once enough is gone, or some is and ten minutes have passed.
unfoldable pub expire_messages : ℕ → Hub → Hub
unfolding expire_channels
expire_messages now h =
    let h' = expire_channels h.st.channels now h in
    if ltb 1000 h'.removed || (ltb 0 h'.removed && ltb 600_000 (now - h'.last_comp))
    then compacted now h'
    else h'

-- ---- sweep ----

-- Whether a time that is set has passed.
abbrev is_over : ℤ → ℕ → Bool
is_over t now = ltb_ℤ (pos 0) t && ltb_ℤ t (pos now)

sweep_bans : Dict ℤ Ban → ℕ → Bool × Dict ℤ Ban
sweep_bans [] now = (false, [])
sweep_bans ((uid, b) ∷ rest) now =
    let (changed, kept) = sweep_bans rest now in
    if is_over b.until now then (true, kept) else (changed, (uid, b) ∷ kept)

sweep_mutes : Dict ℤ Membership → ℕ → Bool × Dict ℤ Membership
sweep_mutes [] now = (false, [])
sweep_mutes ((uid, mem) ∷ rest) now =
    let (changed, kept) = sweep_mutes rest now in
    if is_over mem.muted_until now
    then (true, (uid, record mem { muted_until = pos 0 }) ∷ kept)
    else (changed, (uid, mem) ∷ kept)

sweep_channels : Dict ℕ Channel → ℕ → Bool × Dict ℕ Channel
unfolding sweep_bans sweep_mutes
sweep_channels [] now = (false, [])
sweep_channels ((cid, ch) ∷ rest) now =
    let (changed, kept) = sweep_channels rest now in
    let (b, bans) = sweep_bans ch.bans now in
    let (m, members) = sweep_mutes ch.members now in
    (changed || b || m, (cid, record ch { bans = bans; members = members }) ∷ kept)

sweep_invites : Dict Text Invite → ℕ → Bool × Dict Text Invite
sweep_invites [] now = (false, [])
sweep_invites ((code, inv) ∷ rest) now =
    let (changed, kept) = sweep_invites rest now in
    if is_over inv.expires_at now || (inv.uses_left == pos 0)
    then (true, kept)
    else (changed, (code, inv) ∷ kept)

abbrev is_banned : Status → Bool
is_banned Status.banned = true
is_banned _ = false

sweep_users : Dict ℤ User → ℕ → Bool × Dict ℤ User
sweep_users [] now = (false, [])
sweep_users ((uid, u) ∷ rest) now =
    let (changed, kept) = sweep_users rest now in
    if is_banned u.status && is_over u.ban_until now
    then (
      true,
      (uid, record u { status = Status.active; ban_reason = []; ban_until = pos 0 }) ∷ kept,
    )
    else (changed, (uid, u) ∷ kept)

-- What has run out goes: bans, mutes, invites, and bans from the server.
unfoldable pub sweep_state : ℕ → Hub → Hub
unfolding sweep_channels sweep_invites sweep_users
sweep_state now h =
    let (c, channels) = sweep_channels h.st.channels now in
    let (i, invites) = sweep_invites h.st.invites now in
    let (u, users) = sweep_users h.st.users now in
    let h' = record h {
      st = record h.st { channels = channels; invites = invites; users = users };
    } in
    if c || i || u then mark_dirty h' else h'

-- `sweep`; what `expireMessages` has compacted itself counts as no change.
unfoldable pub sweep : ℕ → Hub → Hub
unfolding expire_messages sweep_state
sweep now h =
    let h1 = expire_messages now h in
    let h2 = sweep_state now h1 in
    let h3 = if ltb 0 h1.removed then compacted now h2 else h2 in if h3.dirty then save h3 else h3
