-- ===== src/Messages/Loading.antt =====
-- The messages in memory after a start (code/store.go, `loadMessages`).
use back_channel.Prelude.{
  ℕ, ◌+◌, ◌/◌, ◌≡◌, refl, ap, ◌∙◌, Option, none, some, List, [], length, ltb, ℕ_eq, inl, inr, arith,
  Bool-cases,
}
use mathlib.Core.Option
use back_channel.Prelude.Dict.{lookup, map_entries, lookup-map_entries}
use back_channel.Frame.{Msg}
use back_channel.Hub.{Hub, list_at}
use back_channel.Messages.{
  messages, compact_log, load_log, load_messages, has_channel, count_kept, last_kept,
}
use back_channel.Messages.Recovery.{reload}
use back_channel.Messages.Compaction.{IsFiled, reload-compact_log}

list_at-map :
    (keep : ℕ) (o : Option (List Msg))
    → list_at (Option.map (last_kept keep) o) ≡ last_kept keep (list_at o)
unfolding last_kept
list_at-map keep none = ground arith
list_at-map keep (some ms) = refl

-- What `loadMessages` has in memory, whether it compacts the log or not.
pub messages-load_messages :
    (h : Hub) (cid : ℕ)
    → messages (load_messages h) cid ≡ last_kept h.keep (reload (has_channel h) h.log cid)
unfolding load_messages compact_log reload
messages-load_messages h cid =
    let d = load_log (has_channel h) h.log [] in
    let cut = map_entries (λ c ms. last_kept h.keep ms) d in
    elim (Bool-cases (ltb (count_kept cut + count_kept cut / 2 + 200) (length h.log))) [
      | inl grown ↦ rw grown (
          ap list_at (lookup-map_entries (λ c ms. last_kept h.keep ms) cid d)
          ∙ list_at-map h.keep (lookup cid d))
      | inr small ↦ rw small (
          ap list_at (lookup-map_entries (λ c ms. last_kept h.keep ms) cid d)
          ∙ list_at-map h.keep (lookup cid d))
    ]

-- A hub that starts with the log that another hub has compacted has in memory, for every channel, the
-- last `keep` of the messages that the other held, in their order, if in the memory of the other each
-- channel stands once, with its own messages, by rising ids, and the channel is one of the hub that
-- starts.
pub load_messages-compact_log :
    (h later : Hub)
    → later.log ≡ (compact_log h).log
    → IsFiled (has_channel later) h.next_id h.msgs
    → (cid : ℕ) → messages (load_messages later) cid ≡ last_kept later.keep (messages h cid)
load_messages-compact_log h later same f cid =
    messages-load_messages later cid
    ∙ ap (λ log. last_kept later.keep (reload (has_channel later) log cid)) same
    ∙ ap (last_kept later.keep) (reload-compact_log (has_channel later) h f cid)
