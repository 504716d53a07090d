-- ===== src/Commands/Server.antt =====
-- Server administration (code/cmds.go, `useradd`, `userban`, `userunban`, `usermod` and `prune`).
pub mod Settings
pub mod Accounts
use back_channel.Prelude.{
  ℕ, zero, suc, ◌+◌, Bool, true, false, ◌&&◌, ◌||◌, not, Option, none, some, List, [], ◌∷◌, ◌++◌,
  length, ltb, leb, nat_eq, ◌==◌, ℕ_eq, ℤ_eq, list_eq, string_eq, String, is_some, or_else,
  if◌then◌else◌,
}
use back_channel.Prelude.Int.{ℤ, pos, ltb_ℤ, ◌+ℤ◌, ◌*ℤ◌, int64}
use back_channel.Prelude.Dict.{Dict, lookup}
use back_channel.Prelude.Text.{Text, str, to_lower}
use back_channel.Prelude.Decimal.{show_nat, show_int}
use back_channel.State.{ServerRole, ChanRole, Status, User, Channel, FileMeta}
use back_channel.Frame.{Msg, Kind, Code, frame}
use back_channel.Hub.{
  Hub, Conn, user_of, user_by_name, default_chan, set_chan, set_user, kick_sessions, save, audit,
}
use back_channel.Files.{file_ref_count, delete_file}
use back_channel.Names.{valid_name}
use back_channel.Perms.{can_server_act, can_server_target, is_server_owner}
use back_channel.Auth.{new_user_hashed, user_blocked, set_sessions, again}
use back_channel.Auth.Password.{Library, hash_password}
use back_channel.Commands.{Reply, arg, atoi, ok, fail}
use back_channel.Commands.Members.{set_member, joined}
use back_channel.Commands.Accounts.{without_sessions}

abbrev pub admins_only : Msg → Msg
admins_only m = fail m Code.perm (str "server admins only")

-- ---- useradd ----

join_default : Option Channel → User → Conn → ℕ → Hub → Hub
join_default none u c now h = h
join_default (some def) u c now h =
    set_chan (set_member u.id (joined ChanRole.member now c.user.id) def) h

created_lines : User → Text → List Text
created_lines u pw =
    (str "created " ++ u.name ++ str " — temporary password: " ++ pw)
    ∷ (str "  they run:  bch -hub <hub address> -user " ++ u.name ++ str "   and then /passwd")
    ∷ []

abbrev given_or : Text → Text → Text
given_or [] drawn = drawn
given_or (c ∷ s) drawn = c ∷ s

-- `drawn` is the password that is made up where none is given.
abbrev pub chosen_pass : Text → Msg → Text
chosen_pass drawn m = given_or (arg m "pass") drawn

unfoldable pub useradd : Library → Text → Text → Conn → Msg → ℕ → Hub → Reply
unfolding join_default created_lines
useradd lib salt drawn c m now h =
    let pw = chosen_pass drawn m in
    let shown : Text = elim (arg m "pass") [
      | [] ↦ drawn
      | c ∷ s ↦ or_else (lookup "pass" m.args) []
    ] in
    let name = to_lower (arg m "name") in
    if not (can_server_act (user_of h c))
    then (h, admins_only m)
    else if not (valid_name name 2 24 true)
    then (h, fail m Code.badarg (str "username: 2-24 chars, a-z 0-9 _ . -"))
    else if is_some (user_by_name h name)
    then (h, fail m Code.exists (str "that username is taken"))
    else if leb h.st.settings.max_users (length h.st.users)
    then (h, fail m Code.limit (str "user limit reached"))
    else let (h1, u) =
        new_user_hashed name (hash_password lib salt pw) ServerRole.user c.user.id now h in
      (
        save (
            audit (some (user_of h c)) (str "useradd") u.name none [] now
              (join_default (default_chan h1) u c now h1)),
        record (ok m []) { lines = created_lines u shown },
      )

-- ---- userban and userunban ----

abbrev no_user : Msg → Msg
no_user m = fail m Code.notfound (str "no such user")

unfoldable pub show_server_role : ServerRole → Text
show_server_role ServerRole.owner = str "owner"
show_server_role ServerRole.admin = str "admin"
show_server_role ServerRole.user = str "user"
show_server_role ServerRole.guest = str "guest"
show_server_role (ServerRole.other s) = s

server_target : Option User → Conn → Msg → (User → Reply) → Hub → Reply
unfolding show_server_role
server_target none c m body h = (h, no_user m)
server_target (some t) c m body h = if can_server_target (user_of h c) t then body t else (
  h,
  fail m Code.perm
      (str "you can't act on " ++ t.name ++ str " (" ++ show_server_role t.role ++ str ")"),
)

-- The account that `user` names, if the actor is a server admin and outranks it.
unfoldable pub on_account : Conn → Msg → (User → Reply) → Hub → Reply
unfolding server_target
on_account c m body h =
    if can_server_act (user_of h c)
    then server_target (user_by_name h (arg m "user")) c m body h
    else (h, admins_only m)

abbrev pub reinstated : User → User
reinstated t = record t { status = Status.active; ban_reason = []; ban_until = pos 0 }

unfoldable pub userunban : Conn → Msg → ℕ → Hub → Reply
unfolding on_account
userunban c m now h =
    on_account c m
      (λ t. (
        save (
            audit (some (user_of h c)) (str "userunban") t.name none [] now
              (set_user (reinstated t) h)),
        ok m (t.name ++ str " may log in again"),
      ))
      h

abbrev days_until : ℤ → ℕ → ℤ
days_until days now =
    if ltb_ℤ (pos 0) days then int64 (pos now +ℤ int64 (days *ℤ pos 86_400_000)) else pos 0

abbrev pub banned : User → Msg → ℕ → User
banned t m now = record t {
  status = Status.banned;
  ban_reason = arg m "reason";
  ban_until = days_until (atoi m "days" (pos 0)) now;
}

-- The text for the connections is `userBlocked`, which lifts the ban again if its end has passed.
kick_banned : Hub × Text → User → Hub
kick_banned (h, text) t =
    kick_sessions t.id (record (frame Kind.err) { code = Code.banned; text = text }) h

unfoldable pub ban_account : Library → User → Conn → Msg → ℕ → Hub → Reply
unfolding kick_banned
ban_account lib t c m now h =
    let t' = banned t m now in
    let h1 = kick_banned (user_blocked lib t' now (set_user t' h)) t in
    let detail = str "days=" ++ show_int (atoi m "days" (pos 0)) ++ str " " ++ arg m "reason" in
    (
      save (audit (some (user_of h c)) (str "userban") t.name none detail now h1),
      ok m (t.name ++ str " banned from the hub"),
    )

unfoldable pub userban : Library → Conn → Msg → ℕ → Hub → Reply
unfolding ban_account on_account
userban lib c m now h = on_account c m (λ t. ban_account lib t c m now h) h

-- ---- prune ----

-- The files that nothing refers to, with their bytes.
unfoldable pub orphans : Hub → Dict Text FileMeta → List (Text × ℕ)
orphans h [] = []
orphans h ((fid, meta) ∷ rest) =
    let others = orphans h rest in
    if nat_eq (file_ref_count h fid) 0 then (fid, meta.size) ∷ others else others

unfoldable pub delete_files : List (Text × ℕ) → Hub → Hub
delete_files [] h = h
delete_files ((fid, n) ∷ rest) h = delete_files rest (delete_file fid h)

abbrev pub bytes_of : List (Text × ℕ) → ℕ
bytes_of [] = 0
bytes_of ((fid, n) ∷ rest) = n + bytes_of rest

-- `size` prints a number of bytes.
unfoldable pub prune : (ℕ → Text) → Conn → Msg → ℕ → Hub → Reply
unfolding orphans delete_files
prune size c m now h =
    if can_server_act (user_of h c)
    then (let gone = orphans h h.st.files in
        let files = show_nat (length gone) in
        let bytes = size (bytes_of gone) in
        (
          save (
              audit (some (user_of h c)) (str "prune") [] none (files ++ str " files " ++ bytes) now
                (delete_files gone h)),
          ok m (str "removed " ++ files ++ str " unreferenced files (" ++ bytes ++ str ")"),
        ))
    else (h, admins_only m)
