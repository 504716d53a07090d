-- ===== src/Tests/Entry.antt =====
-- Passwords, a login and a logout, invites and roles in the small hub.
use back_channel.Prelude.{
  ℕ, list_eq, ◌+◌, ◌-◌, ◌≡◌, ◌⊎◌, inr, refl, true, false, some, none, [], ◌∷◌, map, length, nat_eq,
  arith, All, text_eq, is_some, ℤ_eq,
}
use back_channel.Prelude.Decimal.{parse_int64}
use back_channel.Prelude.Int.{ℤ, int_eq_iff, pos}
use back_channel.Prelude.Dict.{lookup, insert}
use back_channel.Prelude.Text.{Text, str, to_lower, trim_space}
use back_channel.State.{Invite, ChanRole, ServerRole, User}
use back_channel.Frame.{Msg, Kind, Auth, frame}
use back_channel.Hub.{Hub, Conn, user_by_name, session_count, save, set_user}
use back_channel.Auth.{Outcome, Draws}
use back_channel.Auth.Password.{Library, split, hash_password, check_password}
use back_channel.Auth.Password.RoundTrip.{IsLibrary, check_password-hash_password}
use back_channel.Auth.Login.{by_password, authenticate}
use back_channel.Limits.Bucket.{exhausted}
use back_channel.Auth.{enter, finish_auth, new_session, user_blocked, device_of}
use back_channel.Auth.Login.Ways.{Shown, authenticate-Admits}
use back_channel.Auth.Login.Credentials.{Admits}
use back_channel.Commands.{ok, arg}
use back_channel.Commands.Accounts.{logout, is_all}
use back_channel.Commands.Accounts.Logout.{logout-keeps}
use back_channel.Commands.Checks.{IsRefused}
use back_channel.Commands.Roles.{role}
use back_channel.Commands.Roles.Grants.{Grants, role-Grants}
use back_channel.Commands.Invites.{without_dashes}
use back_channel.Commands.Invites.Uses.{successes, successes-eq-promised, IsCode}
use back_channel.Perms.{is_server_owner, srv_rank}
use back_channel.Prelude.Dict.Sums.{sum_by}
use back_channel.Commands.Server.Accounts.{usermod}
use back_channel.Commands.Server.Accounts.Owners.{HasOneOwner}
use back_channel.Commands.Server.Accounts.Ownership.{usermod-HasOneOwner}
use back_channel.Tests.Messages.{ada, bob, hub, state, connection}

-- ---- passwords ----

-- A key of 32 bytes that depends on the password.
abbrev stretched : ℕ → Text → Text
stretched n pw = length pw ∷ map (λ c. length pw) (str "0123456789012345678901234567890")

-- Text without a `$`, and back.
abbrev shifted : Text → Text
shifted = map (λ c. c + 37)

abbrev shifted_back : Text → Text
shifted_back = map (λ c. c - 37)

abbrev library : Library
library = record {
  derive = λ pw salt iter n. some (stretched n pw);
  encode = shifted;
  decode = λ s. some (shifted_back s);
  digest = λ s. s;
  date = λ t. [];
}

shifted_back-shifted : (s : Text) → shifted_back (shifted s) ≡ s
shifted_back-shifted [] = refl
shifted_back-shifted (c ∷ s) =
    let e : c + 37 - 37 ≡ c = omega arith in rw (e, shifted_back-shifted s) refl

shifted-plain : (s : Text) → All (λ c. nat_eq c b'$' ≡ false) (shifted s)
shifted-plain [] = tt
shifted-plain (c ∷ s) = (ground arith, shifted-plain s)

library-IsLibrary : IsLibrary library
unfolding str
library-IsLibrary = record {
  decodes = λ s. rw (shifted_back-shifted s) refl;
  plain = shifted-plain;
  derives = λ pw salt. (stretched 32 pw, refl, refl);
}

check_password-hash_password_example :
    check_password library (hash_password library (str "salt") (str "secret")) (str "secret") ≡ true
check_password-hash_password_example =
    check_password-hash_password library library-IsLibrary (str "salt") (str "secret")

-- ---- a login and a logout ----

-- Ada has the password `open sesame`, of which the key is the password itself.
abbrev plainly : Library
plainly = record library { derive = λ pw salt iter n. some pw; decode = λ s. some s }

abbrev entrance : Hub
entrance = record hub {
  st = record state {
    users = (pos 1, record ada { pass = str "$pbkdf2-sha256$1$x$open sesame" }) ∷ (pos 2, bob) ∷ [];
  };
}

abbrev draws : Draws
draws = record { raw = str "t0k3n"; salt = []; dummy = [] }

abbrev credentials : Auth
credentials = record {
  user = str "ada";
  pass = str "open sesame";
  invite = [];
  session = [];
  register = false;
}

abbrev hello : Msg
hello = record (frame Kind.hello) { v = 2; auth = some credentials }

abbrev entered : Hub × Outcome
entered = by_password plainly draws (λ h. h) credentials hello (str "10.0.0.7") 5 entrance

authenticate-Admits_example :
    Admits
      (Shown plainly (λ h. h) hello (str "10.0.0.7") 5 entrance)
      (authenticate plainly draws (λ h. h) hello (str "10.0.0.7") 5 entrance)
authenticate-Admits_example =
    authenticate-Admits plainly draws (λ h. h) hello (str "10.0.0.7") 5 entrance

abbrev entered_conn : Conn
entered_conn = record (connection (record ada { pass = str "$pbkdf2-sha256$1$x$open sesame" })) {
  device = str "device";
  ip = str "10.0.0.7";
}

entered_is : entered ≡ (entered.0, Outcome.admitted entered_conn (str "t0k3n"))
unfolding by_password exhausted check_password user_by_name split lookup str enter finish_auth
    new_session user_blocked device_of trim_space to_lower session_count text_eq parse_int64 save
    set_user
entered_is = refl

abbrev goodbye : Msg
goodbye = frame Kind.cmd

not_all : is_all goodbye ≡ false
unfolding arg str text_eq trim_space lookup
not_all = refl

not_kept : lookup [] entered.0.st.sessions ≡ none
unfolding by_password exhausted check_password user_by_name split lookup str enter finish_auth
    new_session user_blocked device_of trim_space to_lower session_count text_eq parse_int64 save
    set_user insert
not_kept = refl

logout-keeps_example :
    ((logout 3 entered_conn goodbye entered.0).0.st.sessions ≡ entered.0.st.sessions)
    × ((logout 3 entered_conn goodbye entered.0).1 ≡ ok goodbye (str "logged out"))
logout-keeps_example =
    logout-keeps plainly draws (λ h. h) credentials hello (str "10.0.0.7") 5 entrance entered.0
      entered_conn (str "t0k3n") entered_is 3 goodbye entered.0 not_all not_kept

-- ---- roles and invites ----

abbrev promote : Msg
promote = record (frame Kind.cmd) {
  ch = str "design";
  args = ("user", str "bob") ∷ ("role", str "readonly") ∷ [];
}

role-Grants_example :
    IsRefused hub (role (connection ada) promote 5 hub)
    ⊎ Grants (connection ada) promote hub (role (connection ada) promote 5 hub).0
role-Grants_example = role-Grants (connection ada) promote 5 hub

-- An invite for two.
abbrev ticket : Invite
ticket = record {
  code = str "k7f2-9qz3x";
  channel_id = 7;
  created_by = pos 1;
  created_at = 0;
  uses_left = pos 2;
  expires_at = pos 0;
  role = ChanRole.member;
  signup = false;
}

abbrev inviting : Hub
inviting = record hub { st = record state { invites = (str "k7f2-9qz3x", ticket) ∷ [] } }

ticket-IsCode : IsCode (str "k7f2-9qz3x") inviting.st.invites
unfolding str trim_space without_dashes lookup text_eq
ticket-IsCode = record { trimmed = refl; undashed = inr refl }

ticket_found : lookup (str "k7f2-9qz3x") inviting.st.invites ≡ some ticket
unfolding lookup str text_eq
ticket_found = refl

successes-eq-promised_example : successes 3 (str "k7f2-9qz3x") 5 inviting ≡ 2
successes-eq-promised_example =
    successes-eq-promised 3 2 (str "k7f2-9qz3x") 5 inviting ticket-IsCode
      (record { inv = ticket; there = ticket_found; own = refl; uses = refl; fresh = refl })

-- ---- the owner of the hub ----

abbrev owned : Hub
owned = record hub {
  st = record state { users = (pos 1, record ada { role = ServerRole.owner }) ∷ (pos 2, bob) ∷ [] };
}

abbrev handing_over : Msg
handing_over = record (frame Kind.cmd) { args = ("user", str "bob") ∷ ("role", str "owner") ∷ [] }

owned-keyed : (k : ℤ) (u : User) → lookup k owned.st.users ≡ some u → u.id ≡ k
unfolding lookup
owned-keyed k u e = ground (arith, int_eq_iff (pos 1) k, int_eq_iff (pos 2) k, e)

owned-HasOneOwner : HasOneOwner owned.st.users
unfolding lookup sum_by is_server_owner srv_rank
owned-HasOneOwner = record {
  distinct = (refl, (refl, tt));
  keyed = λ k u e. owned-keyed k u e;
  sole = refl;
}

owned_actor : is_some (lookup (pos 1) owned.st.users) ≡ true
unfolding lookup
owned_actor = refl

usermod-HasOneOwner_example :
    HasOneOwner (usermod (λ v. pos 0) [] (connection ada) handing_over 5 owned).0.st.users
usermod-HasOneOwner_example =
    usermod-HasOneOwner (λ v. pos 0) [] (connection ada) handing_over 5 owned owned-HasOneOwner
      owned_actor
