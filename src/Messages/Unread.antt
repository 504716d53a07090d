-- ===== src/Messages/Unread.antt =====
-- The binary search for the first unread message, and the count of unread messages.
use back_channel.Prelude.{
  ℕ, zero, suc, ◌+◌, ◌≤◌, ◌<◌, ◌≡◌, refl, true, false, List, [], ◌∷◌, length, drop, ltb, arith,
  if◌then◌else◌, ap, ◌∙◌, lt→ltb,
}
use back_channel.Frame.{Msg}
use back_channel.Hub.{Hub}
use back_channel.Hub.Search.{Splits, search-Splits}
use back_channel.Messages.{messages, newer_at, first_newer, count_live, unread_count, is_deleted}
use back_channel.Messages.Order.{Ascends, IsOrdered}

newer_above :
    (ms : List Msg) (lo hi since j : ℕ) → since ≤ lo → Ascends lo hi ms → newer_at ms since j ≡ true
newer_above [] lo hi since j p h = refl
newer_above (m ∷ ms) lo hi since zero p h = lt→ltb _ _ (omega arith)
newer_above (m ∷ ms) lo hi since (suc j) p h = newer_above ms m.id hi since j (omega arith) h.1

newer_at_mono :
    (ms : List Msg) (lo hi since i j : ℕ)
    → Ascends lo hi ms
    → i ≤ j
    → newer_at ms since i ≡ true
    → newer_at ms since j ≡ true
newer_at_mono [] lo hi since i j h p e = refl
newer_at_mono (m ∷ ms) lo hi since (suc i) zero h p e = absurd (omega arith)
newer_at_mono (m ∷ ms) lo hi since (suc i) (suc j) h p e =
    newer_at_mono ms m.id hi since i j h.1 (omega arith) e
newer_at_mono (m ∷ ms) lo hi since zero zero h p e = e
newer_at_mono (m ∷ ms) lo hi since zero (suc j) h p e =
    newer_above ms m.id hi since j (ground arith) h.1

-- The messages after `since`, one by one.
abbrev pub newer : ℕ → List Msg → List Msg
newer since [] = []
newer since (m ∷ ms) = if ltb since m.id then m ∷ newer since ms else newer since ms

drop-newer :
    (k : ℕ) (ms : List Msg) (since : ℕ)
    → ((x : ℕ) → x < k → newer_at ms since x ≡ false)
    → ((x : ℕ) → k ≤ x → x < length ms → newer_at ms since x ≡ true)
    → k ≤ length ms
    → drop k ms ≡ newer since ms
drop-newer zero [] since b a h = refl
drop-newer zero (m ∷ ms) since b a h = rw (a 0 (omega arith) (omega arith)) (
    ap (◌∷◌ m) (
      drop-newer zero ms since (λ x p. absurd (omega arith))
        (λ x p q. a (suc x) (omega arith) (omega arith)) (omega arith)))
drop-newer (suc k) [] since b a h = absurd (omega arith)
drop-newer (suc k) (m ∷ ms) since b a h = rw (b 0 (omega arith)) (
    drop-newer k ms since (λ x p. b (suc x) (omega arith))
      (λ x p q. a (suc x) (omega arith) (omega arith)) (omega arith))

drop-first_newer :
    (ms : List Msg) (lo hi since : ℕ)
    → Ascends lo hi ms
    → drop (first_newer ms since) ms ≡ newer since ms
unfolding first_newer
drop-first_newer ms lo hi since h =
    let s : Splits (newer_at ms since) 0 (length ms) (first_newer ms since) =
      search-Splits (newer_at ms since) (λ i j. newer_at_mono ms lo hi since i j h) (length ms) in
    drop-newer _ ms since (λ x p. s.before x (omega arith) p) s.after s.high

-- How many of the messages are live and newer than `since`: a plain count.
abbrev pub unread : ℕ → List Msg → ℕ
unread since [] = 0
unread since (m ∷ ms) =
    (if ltb since m.id then if is_deleted m.t then 0 else 1 else 0) + unread since ms

count_live-newer : (since : ℕ) (ms : List Msg) → count_live (newer since ms) ≡ unread since ms
unfolding count_live
count_live-newer since [] = refl
count_live-newer since (m ∷ ms) = ground (arith, count_live-newer since ms)

-- In a hub whose messages are in order, the binary search loses and adds nothing: `unreadCount` is
-- the number of messages of the channel that are not deleted and whose id is above `since`.
pub unread_count-eq-unread :
    (h : Hub) (cid since : ℕ)
    → IsOrdered h
    → unread_count h cid since ≡ unread since (messages h cid)
unfolding unread_count
unread_count-eq-unread h cid since o =
    ap count_live (drop-first_newer (messages h cid) 0 h.next_id since (o.ascends cid))
    ∙ count_live-newer since (messages h cid)
