-- ===== src/Auth/Login/Credentials.antt =====
-- Who is let in, of those who ask with a user's name and a password.
use back_channel.Prelude.{
  ℕ, ◌≡◌, refl, inl, inr, true, false, ◌&&◌, Option, none, some, [], ◌∷◌, ltb, leb, arith,
  Bool-cases, list_eq, ℤ_eq,
}
use back_channel.Prelude.Text.{Text, to_lower, trim_space}
use back_channel.State.{User}
use back_channel.Frame.{Msg, Auth}
use back_channel.Hub.{Hub, Conn, user_by_name, session_count}
use back_channel.Limits.Bucket.{Key, exhausted}
use back_channel.Limits.Rates.{lim}
use back_channel.Auth.{
  Outcome, Draws, refuse, finish_auth, enter, user_blocked, again, opened, new_session, device_of,
}
use back_channel.Auth.Password.{Library, check_password}
use back_channel.Auth.Login.{by_password, login_checked, login_user, login_blocked, fits}

-- What is known of a session, if a hello is let in.
abbrev pub Admits : (Conn → Type 0) → Hub × Outcome → Type 0
Admits P (h, Outcome.refused m) = Unit
Admits P (h, Outcome.admitted c raw) = P c

pub Admits-finish_auth :
    (P : Conn → Type 0) (c : Conn) (hello : Msg) (raw : Text) (now : ℕ) (h : Hub)
    → P c
    → Admits P (finish_auth c hello raw now h)
unfolding finish_auth refuse
Admits-finish_auth P c hello raw now h p =
    elim (Bool-cases
      (ltb 0 (lim h).conns_per_user && leb (lim h).conns_per_user (session_count h c.user.id))) [
        | inl full ↦ rw full tt
        | inr room ↦ rw room p
      ]

-- A session that a password has opened: the password fits the stored hash of the account of the name,
-- and the session is for the account that has the name when the lock is taken again, which is not
-- blocked.
pub record Opened (lib : Library) (pw : Text) (before later : Hub) (now : ℕ) (name : Text)
    (c : Conn) : Type 0 where
  pub account : User
  pub named : user_by_name before name ≡ some account
  pub fitting : check_password lib account.pass pw ≡ true
  pub entered : User
  pub still : user_by_name later name ≡ some entered
  pub unblocked : (user_blocked lib entered now later).1 ≡ []
  pub own : c.user ≡ again (user_blocked lib entered now later).0 entered
  pub no_guest : c.guest ≡ false
  pub no_hash : c.sess_hash ≡ []

fits-account :
    (lib : Library) (draws : Draws) (o : Option User) (pw : Text)
    → fits lib draws o pw ≡ true
    → (u : User) × (o ≡ some u) × (check_password lib u.pass pw ≡ true)
fits-account lib draws none pw e = ground arith
fits-account lib draws (some u) pw e = (u, refl, ground arith)

pub Admits-enter :
    (P : Conn → Type 0) (lib : Library) (u : User) (hello : Msg) (ip raw : Text) (now : ℕ) (h : Hub)
    → ((c : Conn) → c.user ≡ u → c.guest ≡ false → c.sess_hash ≡ [] → P c)
    → Admits P (enter lib u hello ip raw now h)
unfolding enter
Admits-enter P lib u hello ip raw now h p =
    Admits-finish_auth P (opened u false hello ip []) hello raw now
      (new_session lib u (device_of hello) ip raw now h) (p _ refl refl refl)

Admits-login_blocked :
    (P : Conn → Type 0) (b : Hub × Text) (lib : Library) (u : User) (hello : Msg) (ip raw : Text)
    (now : ℕ)
    → (b.1 ≡ [] → (c : Conn) → c.user ≡ again b.0 u → c.guest ≡ false → c.sess_hash ≡ [] → P c)
    → Admits P (login_blocked b lib u hello ip raw now)
unfolding login_blocked refuse
Admits-login_blocked P (h, b ∷ locked) lib u hello ip raw now p = tt
Admits-login_blocked P (h, []) lib u hello ip raw now p =
    Admits-enter P lib (again h u) hello ip raw now h (p refl)

Admits-login_user :
    (P : Conn → Type 0) (o : Option User) (lib : Library) (hello : Msg) (ip raw : Text) (now : ℕ)
    (h : Hub)
    → ((u : User)
        → o ≡ some u
        → (user_blocked lib u now h).1 ≡ []
        → (c : Conn) → c.user ≡ again (user_blocked lib u now h).0 u
        → c.guest ≡ false
        → c.sess_hash ≡ []
        → P c)
    → Admits P (login_user o lib hello ip raw now h)
unfolding login_user refuse
Admits-login_user P none lib hello ip raw now h p = tt
Admits-login_user P (some u) lib hello ip raw now h p =
    Admits-login_blocked P (user_blocked lib u now h) lib u hello ip raw now (p u refl)

-- Whoever is let in by a password has named an account whose stored hash the password fits, and enters
-- as the account of that name, which is not blocked; the session is no guest's, and the connection does
-- not know the session that it has opened: its hash is empty.
pub by_password-Admits :
    (lib : Library) (draws : Draws) (away : Hub → Hub) (a : Auth) (hello : Msg) (ip : Text)
    (now : ℕ) (h : Hub)
    → Admits
        (Opened lib a.pass h (away h) now (to_lower (trim_space a.user)))
        (by_password lib draws away a hello ip now h)
unfolding by_password login_checked refuse
by_password-Admits lib draws away a hello ip now h =
    let name = to_lower (trim_space a.user) in
    elim (Bool-cases (exhausted h.login_lim (Key.login name) now)) [
      | inl tired ↦ rw tired tt
      | inr fresh ↦ elim (Bool-cases (fits lib draws (user_by_name h name) a.pass)) [
        | inr wrong ↦ rw (fresh, wrong) tt
        | inl right ↦
            let (u, named, fitting) = fits-account lib draws (user_by_name h name) a.pass right in
            rw (fresh, right)
              (Admits-login_user (Opened lib a.pass h (away h) now name)
                (user_by_name (away h) name) lib hello ip draws.raw now (away h)
                (λ v still unblocked c own no_guest no_hash. record {
                  account = u;
                  named = named;
                  fitting = fitting;
                  entered = v;
                  still = still;
                  unblocked = unblocked;
                  own = own;
                  no_guest = no_guest;
                  no_hash = no_hash;
                }))
      ]
    ]
