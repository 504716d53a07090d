-- ===== src/Auth/Login/Ways.antt =====
-- Every way into the hub (code/hub.go, `authenticate`), and what whoever takes it has shown.
use back_channel.Prelude.{
  ℕ, ◌≤◌, ◌<◌, ◌≡◌, refl, ◌⊎◌, inl, inr, Bool, true, false, ◌&&◌, ◌||◌, not, Option, none, some, [],
  ◌∷◌, length, ltb, leb, arith, list_eq, ℤ_eq, ℕ_eq, is_some, if◌then◌else◌,
}
use back_channel.Prelude.Dict.{lookup}
use back_channel.Prelude.Text.{Text, to_lower, trim_space}
use back_channel.State.{User, Session, Channel, Invite}
use back_channel.Frame.{Msg, Auth}
use back_channel.Hub.{Hub, Conn, user_by_name}
use back_channel.Names.{valid_name}
use back_channel.Limits.Bucket.{Key, exhausted}
use back_channel.Commands.Invites.{valid_invite}
use back_channel.Auth.{Outcome, Draws, refuse, is_blank, user_blocked, again}
use back_channel.Auth.Password.{Library}
use back_channel.Auth.Login.{
  authenticate, by_credentials, by_session, session_found, session_owner, resume, by_password,
  by_signup, signup_locked, signup_with, signup_chan, enter_new, is_open, by_token, is_guest_token,
  count_attempt,
}
use back_channel.Auth.Login.Credentials.{
  Admits, Admits-finish_auth, Admits-enter, Opened, by_password-Admits,
}

-- The name that is asked for.
abbrev pub asked_name : Auth → Text
asked_name a = to_lower (trim_space a.user)

-- A session token that the hub keeps the hash of, of an account that is there and is not blocked; it
-- lets in as that account.
pub record Resumed (lib : Library) (h : Hub) (now : ℕ) (a : Auth) (c : Conn) : Type 0 where
  pub kept : Session
  pub account : User
  pub found : lookup (lib.digest a.session) h.st.sessions ≡ some kept
  pub owned : lookup kept.user_id h.st.users ≡ some account
  pub unblocked : (user_blocked lib account now h).1 ≡ []
  pub own : c.user ≡ record (again (user_blocked lib account now h).0 account) { last_seen = now }
  pub known : c.sess_hash ≡ lib.digest a.session

-- A signup, in the hub as it is once the password has been hashed: the name and the password are well
-- formed, the name is free, the hub has room, and registration is open or an invite allows a signup.
pub record SignedUp (h : Hub) (a : Auth) (now : ℕ) : Type 0 where
  pub well_named : valid_name (asked_name a) 2 24 true ≡ true
  pub long : 8 ≤ length a.pass
  pub free : user_by_name h (asked_name a) ≡ none
  pub room : length h.st.users < h.st.settings.max_users
  pub allowed :
      (is_open h.st.settings.registration ≡ true)
      ⊎ ((inv : Invite) × ((valid_invite a.invite now h).1 ≡ some inv) × (inv.signup ≡ true))

-- What is known of a session that was let in.
pub data Shown (lib : Library) (away : Hub → Hub) (hello : Msg) (ip : Text) (now : ℕ) (h : Hub)
    (c : Conn) : Type 0 where
  session :
      (a : Auth)
      → hello.auth ≡ some a
      → Resumed lib h now a c
      → c.guest ≡ false
      → Shown lib away hello ip now h c
  password :
      (a : Auth)
      → hello.auth ≡ some a
      → Opened lib a.pass h (away h) now (asked_name a) c
      → Shown lib away hello ip now h c
  signup :
      (a : Auth)
      → hello.auth ≡ some a
      → SignedUp (away (count_attempt (Key.signup ip) now h)) a now
      → c.guest ≡ false
      → Shown lib away hello ip now h c
  token : is_guest_token h hello.token ≡ true → c.guest ≡ true → Shown lib away hello ip now h c

-- A weaker claim on the session.
Admits-map :
    (P Q : Conn → Type 0) → ((c : Conn) → P c → Q c) → (r : Hub × Outcome) → Admits P r → Admits Q r
Admits-map P Q f (h, Outcome.refused m) p = tt
Admits-map P Q f (h, Outcome.admitted c raw) p = f c p

-- A test whose branches are known to hold what they must.
Admits-if :
    (P : Conn → Type 0) (b : Bool) (x y : Hub × Outcome)
    → (b ≡ true → Admits P x)
    → (b ≡ false → Admits P y)
    → Admits P (if b then x else y)
Admits-if P true x y p q = p refl
Admits-if P false x y p q = q refl

not_some : (o : Option User) → is_some o ≡ false → o ≡ none
not_some none e = refl
not_some (some u) e = ground arith

-- ---- a session token ----

Admits-resume :
    (P : Conn → Type 0) (b : Hub × Text) (u : User) (sh : Text) (se : Session) (hello : Msg)
    (ip : Text) (now : ℕ)
    → (b.1 ≡ []
        → (c : Conn) → c.user ≡ record (again b.0 u) { last_seen = now }
        → c.guest ≡ false
        → c.sess_hash ≡ sh
        → P c)
    → Admits P (resume b u sh se hello ip now)
unfolding resume refuse
Admits-resume P (h, b ∷ locked) u sh se hello ip now p = tt
Admits-resume P (h, []) u sh se hello ip now p =
    Admits-finish_auth P _ hello [] now _ (p refl _ refl refl refl)

Admits-owner :
    (o : Option User) (lib : Library) (a : Auth) (se : Session) (hello : Msg) (ip : Text) (now : ℕ)
    (h : Hub)
    → lookup (lib.digest a.session) h.st.sessions ≡ some se
    → lookup se.user_id h.st.users ≡ o
    → Admits
        (λ c. Resumed lib h now a c × (c.guest ≡ false))
        (session_owner o lib (lib.digest a.session) se hello ip now h)
unfolding session_owner refuse
Admits-owner none lib a se hello ip now h found owned = tt
Admits-owner (some u) lib a se hello ip now h found owned =
    Admits-resume (λ c. Resumed lib h now a c × (c.guest ≡ false)) (user_blocked lib u now h) u
      (lib.digest a.session) se hello ip now
      (λ unblocked c own guest known. (
        record {
          kept = se;
          account = u;
          found = found;
          owned = owned;
          unblocked = unblocked;
          own = own;
          known = known;
        },
        guest,
      ))

Admits-found :
    (o : Option Session) (lib : Library) (a : Auth) (hello : Msg) (ip : Text) (now : ℕ) (h : Hub)
    → lookup (lib.digest a.session) h.st.sessions ≡ o
    → Admits
        (λ c. Resumed lib h now a c × (c.guest ≡ false))
        (session_found o lib (lib.digest a.session) hello ip now h)
unfolding session_found refuse
Admits-found none lib a hello ip now h found = tt
Admits-found (some se) lib a hello ip now h found =
    Admits-owner (lookup se.user_id h.st.users) lib a se hello ip now h found refl

-- ---- a signup ----

module _ (P : Conn → Type 0) (p : (c : Conn) → c.guest ≡ false → P c) where
  Admits-enter_new :
      (r : Hub × User) (lib : Library) (hello : Msg) (ip raw : Text) (now : ℕ)
      → Admits P (enter_new r lib hello ip raw now)
  unfolding enter_new
  Admits-enter_new (h, u) lib hello ip raw now =
      Admits-enter P lib u hello ip raw now h (λ c own guest hash. p c guest)

  Admits-signup_chan :
      (o : Option Channel) (inv : Invite) (lib : Library) (draws : Draws) (a : Auth) (name : Text)
      (hello : Msg) (ip : Text) (now : ℕ) (h : Hub)
      → Admits P (signup_chan o inv lib draws a name hello ip now h)
  unfolding signup_chan refuse
  Admits-signup_chan none inv lib draws a name hello ip now h = tt
  Admits-signup_chan (some ch) inv lib draws a name hello ip now h =
      Admits-enter_new _ lib hello ip draws.raw now

Admits-signup_with :
    (P : Conn → Type 0) (r : Hub × Option Invite) (lib : Library) (draws : Draws) (a : Auth)
    (name : Text) (hello : Msg) (ip : Text) (now : ℕ)
    → ((inv : Invite) → r.1 ≡ some inv → inv.signup ≡ true → (c : Conn) → c.guest ≡ false → P c)
    → Admits P (signup_with r lib draws a name hello ip now)
unfolding signup_with refuse
Admits-signup_with P (h, none) lib draws a name hello ip now p = tt
Admits-signup_with P (h, some inv) lib draws a name hello ip now p =
    Admits-if P inv.signup _ _
      (λ signs.
        Admits-signup_chan P (p inv refl signs) (lookup inv.channel_id h.st.channels) inv lib draws
          a name hello ip now h)
      (λ e. tt)

Admits-signup_locked :
    (lib : Library) (draws : Draws) (a : Auth) (hello : Msg) (ip : Text) (now : ℕ) (h : Hub)
    → valid_name (asked_name a) 2 24 true ≡ true
    → 8 ≤ length a.pass
    → Admits
        (λ c. SignedUp h a now × (c.guest ≡ false))
        (signup_locked lib draws a (asked_name a) hello ip now h)
unfolding signup_locked refuse
Admits-signup_locked lib draws a hello ip now h named long =
    let P : Conn → Type 0 = λ c. SignedUp h a now × (c.guest ≡ false) in
    Admits-if P (is_some (user_by_name h (asked_name a))) _ _ (λ e. tt)
      (λ free.
        Admits-if P (leb h.st.settings.max_users (length h.st.users)) _ _ (λ e. tt)
          (λ room.
            let signed : ((is_open h.st.settings.registration ≡ true)
                  ⊎ ((inv : Invite) × ((valid_invite a.invite now h).1 ≡ some inv)
                      × (inv.signup ≡ true)))
                → (c : Conn) → c.guest ≡ false
                → P c =
              λ allowed c guest. (
                record {
                  well_named = named;
                  long = long;
                  free = not_some _ free;
                  room = ground (arith, room);
                  allowed = allowed;
                },
                guest,
              ) in
            Admits-if P (not (is_blank a.invite)) _ _
              (λ e.
                Admits-signup_with P (valid_invite a.invite now h) lib draws a (asked_name a) hello
                  ip now (λ inv found signs. signed (inr (inv, found, signs))))
              (λ e.
                Admits-if P (is_open h.st.settings.registration) _ _
                  (λ public. Admits-enter_new P (signed (inl public)) _ lib hello ip draws.raw now)
                  (λ e. tt))))

Admits-by_signup :
    (lib : Library) (draws : Draws) (away : Hub → Hub) (a : Auth) (hello : Msg) (ip : Text)
    (now : ℕ) (h : Hub)
    → Admits
        (λ c. SignedUp (away (count_attempt (Key.signup ip) now h)) a now × (c.guest ≡ false))
        (by_signup lib draws away a hello ip now h)
unfolding by_signup refuse
Admits-by_signup lib draws away a hello ip now h =
    let h1 = away (count_attempt (Key.signup ip) now h) in
    let P : Conn → Type 0 = λ c. SignedUp h1 a now × (c.guest ≡ false) in
    Admits-if P (not (valid_name (asked_name a) 2 24 true)) _ _ (λ e. tt)
      (λ named.
        Admits-if P (ltb (length a.pass) 8) _ _ (λ e. tt)
          (λ long.
            Admits-if P (exhausted h.login_lim (Key.signup ip) now) _ _ (λ e. tt)
              (λ fresh.
                Admits-signup_locked lib draws a hello ip now h1 (ground (arith, named))
                  (ground (arith, long)))))

-- ---- the token of guests ----

Admits-by_token :
    (hello : Msg) (ip : Text) (now : ℕ) (h : Hub)
    → Admits
        (λ c. (is_guest_token h hello.token ≡ true) × (c.guest ≡ true))
        (by_token hello ip now h)
unfolding by_token refuse
Admits-by_token hello ip now h =
    let P : Conn → Type 0 = λ c. (is_guest_token h hello.token ≡ true) × (c.guest ≡ true) in
    Admits-if P (is_blank hello.token) _ _ (λ e. tt)
      (λ given.
        Admits-if P (is_guest_token h hello.token) _ _
          (λ right. Admits-finish_auth P _ hello [] now h (right, refl)) (λ e. tt))

Admits-by_credentials :
    (o : Option Auth) (lib : Library) (draws : Draws) (away : Hub → Hub) (hello : Msg) (ip : Text)
    (now : ℕ) (h : Hub)
    → hello.auth ≡ o
    → Admits (Shown lib away hello ip now h) (by_credentials o lib draws away hello ip now h)
unfolding by_credentials by_session
Admits-by_credentials none lib draws away hello ip now h e =
    Admits-map _ (Shown lib away hello ip now h) (λ c p. Shown.token p.0 p.1)
      (by_token hello ip now h) (Admits-by_token hello ip now h)
Admits-by_credentials (some a) lib draws away hello ip now h e =
    let P = Shown lib away hello ip now h in
    Admits-if P (not (is_blank a.session)) _ _
      (λ s.
        Admits-map _ P (λ c p. Shown.session a e p.0 p.1)
          (session_found (lookup (lib.digest a.session) h.st.sessions) lib (lib.digest a.session)
            hello ip now h)
          (Admits-found (lookup (lib.digest a.session) h.st.sessions) lib a hello ip now h refl))
      (λ s.
        Admits-if P (not (is_blank a.user) && (not (is_blank a.invite) || a.register)) _ _
          (λ s.
            Admits-map _ P (λ c p. Shown.signup a e p.0 p.1)
              (by_signup lib draws away a hello ip now h)
              (Admits-by_signup lib draws away a hello ip now h))
          (λ s.
            Admits-if P (not (is_blank a.user)) _ _
              (λ s.
                Admits-map _ P (λ c p. Shown.password a e p)
                  (by_password lib draws away a hello ip now h)
                  (by_password-Admits lib draws away a hello ip now h))
              (λ s.
                Admits-map _ P (λ c p. Shown.token p.0 p.1) (by_token hello ip now h)
                  (Admits-by_token hello ip now h))))

-- Whoever is let in has shown a session token that the hub keeps the hash of and whose account is there
-- and not blocked, and enters as that account; or a password that fits the stored hash of an account,
-- and enters as the account that has its name once the password is checked, which is not blocked; or
-- has signed up, with a name that was free, a
-- long enough password, room in the hub, and open registration or an invite for a signup; or has shown
-- the token of guests while guests are let in, and only then is a guest.
pub authenticate-Admits :
    (lib : Library) (draws : Draws) (away : Hub → Hub) (hello : Msg) (ip : Text) (now : ℕ) (h : Hub)
    → Admits (Shown lib away hello ip now h) (authenticate lib draws away hello ip now h)
unfolding authenticate
authenticate-Admits lib draws away hello ip now h =
    Admits-by_credentials hello.auth lib draws away hello ip now h refl
