-- ===== src/Perms/Matrix.antt =====
-- The permission matrix of PHASE2-DESIGN.md §4 as a table, and what code/perms.go grants.
use mathlib.Core.Bool.{xor}
use back_channel.Prelude.{
  not, ◌&&◌, ℕ, zero, suc, ◌-◌, ◌≡◌, Option, none, some, Bool, true, false, List, [], ◌∷◌, arith,
  if◌then◌else◌,
}
use back_channel.State.{Channel}
use back_channel.Perms.{Act, can, can_send}

-- A cell of the document: allowed, only on one's own content, only on users of lower rank, or denied.
pub data Mark : Type 0 where
  yes own lower no : Mark

-- One row of the document: the columns from "server owner" to "readonly".
abbrev Row : Type 0
Row = List Mark

abbrev everyone : Row
everyone = Mark.yes ∷ Mark.yes ∷ Mark.yes ∷ Mark.yes ∷ Mark.yes ∷ Mark.yes ∷ Mark.yes ∷ []

abbrev posters : Row
posters = Mark.yes ∷ Mark.yes ∷ Mark.yes ∷ Mark.yes ∷ Mark.yes ∷ Mark.yes ∷ Mark.no ∷ []

-- "delete message"
abbrev pub deleters : Row
deleters = Mark.yes ∷ Mark.yes ∷ Mark.yes ∷ Mark.yes ∷ Mark.yes ∷ Mark.own ∷ Mark.no ∷ []

abbrev moderators : Row
moderators = Mark.yes ∷ Mark.yes ∷ Mark.yes ∷ Mark.yes ∷ Mark.yes ∷ Mark.no ∷ Mark.no ∷ []

-- "kick from channel", "ban from channel", "mute in channel"
abbrev wardens : Row
wardens = Mark.yes ∷ Mark.yes ∷ Mark.yes ∷ Mark.lower ∷ Mark.lower ∷ Mark.no ∷ Mark.no ∷ []

-- "revoke invite"
abbrev revokers : Row
revokers = Mark.yes ∷ Mark.yes ∷ Mark.yes ∷ Mark.yes ∷ Mark.own ∷ Mark.no ∷ Mark.no ∷ []

-- "promote/demote in channel"
abbrev promoters : Row
promoters = Mark.yes ∷ Mark.yes ∷ Mark.yes ∷ Mark.lower ∷ Mark.no ∷ Mark.no ∷ Mark.no ∷ []

abbrev admins : Row
admins = Mark.yes ∷ Mark.yes ∷ Mark.yes ∷ Mark.yes ∷ Mark.no ∷ Mark.no ∷ Mark.no ∷ []

abbrev owners : Row
owners = Mark.yes ∷ Mark.yes ∷ Mark.yes ∷ Mark.no ∷ Mark.no ∷ Mark.no ∷ Mark.no ∷ []

-- The row of an action. The document has none for adding an account, handing the channel over and a new
-- channel key. The code has two actions for "delete message": on one's own messages, and on any.
abbrev pub row : Act → Option Row
row Act.read = some everyone
row Act.send = some posters
row Act.del_own = some deleters
row Act.del_any = some deleters
row Act.topic = some moderators
row Act.invite = some moderators
row Act.revoke_any = some revokers
row Act.kick = some wardens
row Act.ban = some wardens
row Act.mute = some wardens
row Act.role = some promoters
row Act.purge = some owners
row Act.settings = some admins
row Act.delete = some owners
row Act.members = some everyone
row Act.add = none
row Act.transfer = none
row Act.e2e_rotate = none

-- Whether an action is one on one's own content alone.
abbrev pub is_own : Act → Bool
is_own Act.del_own = true
is_own _ = false

-- What a cell grants: `own` is for the actions on one's own content, and `≤` grants the action, which
-- `can_target` then restricts to users of lower rank.
abbrev pub grants : Act → Mark → Bool
grants a Mark.yes = true
grants a Mark.own = is_own a
grants a Mark.lower = true
grants a Mark.no = false

column : ℕ → Row → Mark
column n [] = Mark.no
column zero (b ∷ bs) = b
column (suc n) (b ∷ bs) = column n bs

-- The cell of a rank: 7 is the first column and 1 the last. Rank 0 has no column and no rights.
unfoldable pub cell : ℕ → Row → Mark
unfolding column
cell rank bs = column (7 - rank) bs

abbrev agrees_in : Option Row → Act → ℕ → Bool
agrees_in none a r = true
agrees_in (some bs) a r = not (xor (can r a) (grants a (cell r bs)))

abbrev agrees : Act → ℕ → Bool
agrees a r = agrees_in (row a) a r

-- A test passed by every rank below `top`.
ranks_pass : (Act → ℕ → Bool) → Act → ℕ → Bool
ranks_pass test a zero = true
ranks_pass test a (suc top) = test a top && ranks_pass test a top

-- Posting asks for the rank of a member; in an announcements channel for that of a moderator, and
-- there the permissions to post and to moderate are the same.
pub can_send-eq-can :
    (rank : ℕ) (ch : Channel)
    → can_send rank ch ≡ (if ch.readonly then can rank Act.kick else can rank Act.send)
unfolding can_send
can_send-eq-can rank ch = ground arith
