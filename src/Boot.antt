-- ===== src/Boot.antt =====
-- The start of a hub (code/store.go, `reindex`, `loadOrInit`, `importV1History`, `loadAudit`; code/hub.go,
-- `indexFiles`). What is on disk is an argument.
pub mod Accounts
use back_channel.Prelude.{
  ℕ, ◌+◌, ◌-◌, Bool, true, false, ◌&&◌, ◌||◌, not, Option, none, some, List, [], ◌∷◌, ◌++◌, length,
  drop, ltb, leb, nat_eq, ◌==◌, ℕ_eq, ℤ_eq, list_eq, or_else, is_some, if◌then◌else◌,
}
use mathlib.Core.List.{reverse}
use back_channel.Prelude.Int.{ℤ, pos}
use back_channel.Prelude.Dict.{Dict, lookup, insert}
use back_channel.Prelude.Text.{Text, str, to_lower, trim_space}
use back_channel.State.{State, ServerRole, User, Channel, FileMeta, new_state}
use back_channel.Frame.{Msg, Kind}
use back_channel.Hub.{Hub, AuditRec, save, mark_dirty, set_chan, audit_cap, new_hub}
use back_channel.Files.{ref_file, used_by}
use back_channel.Messages.{has_file, is_file}
use back_channel.Http.Request.{cut}
use back_channel.Auth.{new_user_hashed}
use back_channel.Auth.Password.{Library, hash_password}
use back_channel.Commands.Channels.{new_channel}

-- ---- the indexes of names ----

index_users : Dict ℤ User → Dict Text ℤ → Dict Text ℤ
index_users [] names = names
index_users ((id, u) ∷ rest) names = index_users rest (insert (to_lower u.name) id names)

index_chans : Dict ℕ Channel → Dict Text ℕ → Dict Text ℕ
index_chans [] names = names
index_chans ((id, ch) ∷ rest) names = index_chans rest (insert (to_lower ch.name) id names)

unfoldable pub reindex : Hub → Hub
unfolding index_users index_chans
reindex h = record h {
  by_name = index_users h.st.users [];
  ch_by_name = index_chans h.st.channels [];
}

-- ---- the first start ----

-- A message of the first version's history that is taken over.
abbrev is_old_message : Kind → Bool
is_old_message Kind.msg = true
is_old_message Kind.file = true
is_old_message _ = false

unfoldable pub import_v1 : List Msg → Channel → List Msg
import_v1 [] def = []
import_v1 (m ∷ ms) def =
    let rest = import_v1 ms def in
    if nat_eq m.id 0 || not (is_old_message m.t)
    then rest
    else record m { ch = def.name; cid = def.id } ∷ rest

-- What an earlier version has left in the directory: its token, and its history.
pub record Leftovers : Type 0 where
  pub token : Option Text
  pub history : Option (List Msg)

take_token : Option Text → Hub → Hub
take_token none h = h
take_token (some token) h = record h {
  st = record h.st {
    settings = record h.st.settings { legacy_token = trim_space token; guest_access = true };
  };
}

take_history : Option (List Msg) → Channel → Hub → Hub
take_history none def h = h
take_history (some old) def h = record h { log = h.log ++ import_v1 old def }

-- The owner's account and the default channel; `pass` is drawn at random.
unfoldable pub first_start : Library → Text → Text → Leftovers → ℕ → Hub → Hub
unfolding take_token take_history
first_start lib salt pass old now h =
    let h0 = reindex (record h { st = new_state }) in
    let (h1, owner) =
      new_user_hashed (str "owner") (hash_password lib salt pass) ServerRole.owner (pos 0) now h0 in
    let (h2, blank) = new_channel h1.st.settings.default_channel owner.id now h1 in
    let def : Channel = record blank { is_default = true; topic = str "everyone lands here" } in
    save (take_history old.history def (take_token old.token (set_chan def h2)))

-- `loadOrInit`: the state that was saved, if there is one.
unfoldable pub load_or_init : Option State → Library → Text → Text → Leftovers → ℕ → Hub → Hub
unfolding first_start reindex
load_or_init (some st) lib salt pass old now h = reindex (record h { st = st })
load_or_init none lib salt pass old now h = first_start lib salt pass old now h

unfoldable pub load_audit : List AuditRec → Hub → Hub
load_audit records h =
    let all = h.audit_log ++ records in
    record h {
      audit_log = if ltb audit_cap (length all) then drop (length all - audit_cap) all else all;
    }

-- ---- the files ----

-- A file in the directory files/: its name, its text if it can be read, its size, and its time.
pub record Entry : Type 0 where
  pub name : Text
  pub text : Option Text
  pub size : ℕ
  pub modified : ℕ

abbrev suffix : Text
suffix = str ".sha256"

drop_prefix : Text → Text → Option Text
drop_prefix [] s = some s
drop_prefix (p ∷ ps) [] = none
drop_prefix (p ∷ ps) (c ∷ s) = let rest = drop_prefix ps s in if nat_eq p c then rest else none

-- The id of a sidecar, whose name ends in the suffix.
sidecar_id : Text → Option Text
unfolding drop_prefix
sidecar_id name = elim (drop_prefix (reverse suffix) (reverse name)) [
  | none ↦ none
  | some s ↦ some (reverse s)
]

-- The hash of a file that has none yet.
fill_sha : Text → FileMeta → Text → Text → Hub → Hub
fill_sha [] meta fid sha h = record h {
  st = record h.st { files = insert fid (record meta { sha = sha }) h.st.files };
}
fill_sha (c ∷ old) meta fid sha h = h

complete : Option FileMeta → Text → Text → Hub → Hub
unfolding fill_sha
complete none fid sha h = h
complete (some meta) fid sha h = fill_sha meta.sha meta fid sha h

read_sidecar : Option Text → Text → Hub → Hub
unfolding complete
read_sidecar none fid h = h
read_sidecar (some text) fid h =
    let sha = trim_space text in
    complete (lookup fid h.st.files) fid sha (record h { hashes = insert sha fid h.hashes })

-- A file of the first version is taken over, owned by nobody.
adopt : Option FileMeta → Text → Text → Entry → Hub → Hub
adopt (some meta) fid name e h = h
adopt none fid name e h =
    let meta : FileMeta = record {
      fid = fid;
      sha = [];
      name = name;
      size = e.size;
      owner = pos 0;
      created_at = e.modified;
    } in
    mark_dirty (record h { st = record h.st { files = insert fid meta h.st.files } })

see_file : Option (Text × Text) → Entry → Hub → Hub
unfolding adopt
see_file none e h = h
see_file (some (fid, name)) e h = adopt (lookup fid h.st.files) fid name e h

see_entry : Option Text → Entry → Hub → Hub
unfolding read_sidecar see_file
see_entry (some fid) e h = read_sidecar e.text fid h
see_entry none e h = see_file (cut b'_' e.name) e h

unfoldable pub see_entries : List Entry → Hub → Hub
unfolding see_entry sidecar_id
see_entries [] h = h
see_entries (e ∷ es) h = see_entries es (see_entry (sidecar_id e.name) e h)

index_hash : Text → Text → Hub → Hub
index_hash [] fid h = h
index_hash (c ∷ sha) fid h = record h { hashes = insert (c ∷ sha) fid h.hashes }

unfoldable pub charge_files : Dict Text FileMeta → Hub → Hub
unfolding index_hash
charge_files [] h = h
charge_files ((fid, meta) ∷ rest) h =
    let h1 = index_hash meta.sha fid h in
    charge_files rest (record h1 {
      used = insert meta.owner (used_by h1 meta.owner + meta.size) h1.used;
      total_bytes = h1.total_bytes + meta.size;
    })

unfoldable pub ref_messages : ℕ → List Msg → Hub → Hub
ref_messages cid [] h = h
ref_messages cid (m ∷ ms) h = ref_messages cid ms (if has_file m then ref_file m.fid cid h else h)

unfoldable pub ref_channels : Dict ℕ (List Msg) → Hub → Hub
unfolding ref_messages
ref_channels [] h = h
ref_channels ((cid, ms) ∷ rest) h = ref_channels rest (ref_messages cid ms h)

-- `indexFiles`
unfoldable pub index_files : List Entry → Hub → Hub
unfolding see_entries charge_files ref_channels
index_files es h = let h1 = see_entries es h in ref_channels h1.msgs (charge_files h1.st.files h1)
