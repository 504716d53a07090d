-- ===== src/Commands/Deletions.antt =====
-- The commands that delete messages (code/cmds.go, `del` and `purge`).
use back_channel.Prelude.{
  ℕ, Bool, true, false, ◌&&◌, not, Option, none, some, List, [], ◌∷◌, ◌++◌, length, take, nat_eq,
  ◌==◌, ℕ_eq, ℤ_eq, list_eq, if◌then◌else◌,
}
use mathlib.Core.List.{reverse}
use back_channel.Prelude.Int.{ℤ, pos, ltb_ℤ, pos_part}
use back_channel.Prelude.Text.{Text, str, to_lower}
use back_channel.Prelude.Decimal.{parse_saturated, show_nat}
use back_channel.State.{Channel, User}
use back_channel.Frame.{Msg, Kind, Code, frame}
use back_channel.Hub.{Hub, Conn, user_of, to_chan, audit}
use back_channel.Messages.{is_deleted, messages, tombstone}
use back_channel.Perms.{Act, can}
use back_channel.Commands.{Reply, arg, atoi, ok, fail, ch_ctx, in_chan}

-- `strings.TrimPrefix(s, "#")`
without_hash : Text → Text
without_hash [] = []
without_hash (c ∷ s) = if nat_eq c b'#' then s else c ∷ s

-- The first message with an id.
find_message : ℤ → List Msg → Option Msg
find_message id [] = none
find_message id (x ∷ xs) = let rest = find_message id xs in if pos x.id == id then some x else rest

abbrev no_message : Msg → Channel → Msg
no_message m ch = fail m Code.notfound (in_chan (str "no such message in ") ch)

abbrev deleted_frame : Channel → ℕ → User → Msg
deleted_frame ch id u = record (frame Kind.deleted) { ch = ch.name; id = id; by = u.name }

del_found : Option Msg → Channel → ℕ → Conn → Msg → ℕ → Hub → Reply
del_found none ch rank c m now h = (h, no_message m ch)
del_found (some found) ch rank c m now h =
    let u = user_of h c in
    let own = found.sender == u.name in
    if is_deleted found.t
    then (h, no_message m ch)
    else if not own && not (can rank Act.del_any)
    then (h, fail m Code.perm (str "you can only delete your own messages"))
    else let h' = to_chan ch.id (deleted_frame ch found.id u) (tombstone ch.id found.id u.name h) in
      let text = str "#" ++ show_nat found.id in
      (
        if own then h' else audit (some u) (str "del") found.sender (some ch) text now h',
        ok m (str "deleted " ++ text),
      )

unfoldable pub del : Conn → Msg → ℕ → Hub → Reply
unfolding del_found find_message without_hash
del c m now h =
    ch_ctx c Act.del_own m
      (λ ch rank.
        del_found (find_message (parse_saturated (without_hash (arg m "id"))) (messages h ch.id)) ch
          rank c m now h)
      h

-- The ids of the live messages that pass a test.
ids_where : (Msg → Bool) → List Msg → List ℕ
ids_where p [] = []
ids_where p (x ∷ xs) =
    let rest = ids_where p xs in if not (is_deleted x.t) && p x then x.id ∷ rest else rest

abbrev is_given : Text → Bool
is_given [] = false
is_given (c ∷ s) = true

-- The messages that `purge` is asked to delete: of a user, before an id, or the last ones, newest
-- first.
purged_ids : Msg → List Msg → Option (List ℕ)
unfolding ids_where without_hash
purged_ids m ms =
    if is_given (arg m "user")
    then some (ids_where (λ x. to_lower x.sender == to_lower (arg m "user")) ms)
    else if is_given (arg m "before")
    then some
        (ids_where (λ x. ltb_ℤ (pos x.id) (parse_saturated (without_hash (arg m "before")))) ms)
    else if is_given (arg m "last")
    then some (take (pos_part (atoi m "last" (pos 0))) (ids_where (λ x. true) (reverse ms)))
    else none

tombstone_all : ℕ → List ℕ → Text → Hub → Hub
tombstone_all cid [] by h = h
tombstone_all cid (id ∷ ids) by h = tombstone_all cid ids by (tombstone cid id by h)

tell_purged : List ℕ → Channel → User → Hub → Hub
tell_purged [] ch u h = h
tell_purged (id ∷ ids) ch u h =
    to_chan ch.id (record (frame Kind.purged) { ch = ch.name; ids = id ∷ ids; by = u.name }) h

purge_ids : Option (List ℕ) → Channel → Conn → Msg → ℕ → Hub → Reply
unfolding tombstone_all tell_purged
purge_ids none ch c m now h =
    (h, fail m Code.badarg (str "purge what? user=NAME | last=N | before=#ID"))
purge_ids (some ids) ch c m now h =
    let u = user_of h c in
    let text = show_nat (length ids) ++ str " messages" in
    (
      audit (some u) (str "purge") (arg m "user") (some ch) text now
          (tell_purged ids ch u (tombstone_all ch.id ids u.name h)),
      ok m (str "purged " ++ text),
    )

unfoldable pub purge : Conn → Msg → ℕ → Hub → Reply
unfolding purge_ids purged_ids
purge c m now h =
    ch_ctx c Act.purge m (λ ch rank. purge_ids (purged_ids m (messages h ch.id)) ch c m now h) h
