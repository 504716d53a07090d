-- ===== src/Commands/Checks.antt =====
-- The two checks of commands either refuse and change nothing, or let the rest of the command run.
use back_channel.Prelude.{
  ◌≡◌, refl, true, false, not, ◌&&◌, ◌⊎◌, inl, inr, ℕ, Option, none, some, ltb, is_some, Bool-cases,
  ℤ_eq,
}
use back_channel.Prelude.Dict.{lookup}
use back_channel.State.{Channel, User}
use back_channel.Frame.{Msg}
use back_channel.Hub.{Hub, Conn, user_of, user_by_name, chan_for}
use back_channel.Perms.{Act, can, can_target, rank_in, srv_rank, srv_admin}
use back_channel.Commands.{Reply, arg, fail, ch_ctx, ctx_in, target, target_in}

-- A refusal: nothing has changed, and the answer is not ok.
pub record IsRefused (h : Hub) (r : Reply) : Type 0 where
  pub unchanged : r.0 ≡ h
  pub not_ok : r.1.ok ≡ false

-- The channel that a command runs in.
pub record Enters (c : Conn) (a : Act) (m : Msg) (body : Channel → ℕ → Reply) (h : Hub) (r : Reply)
    : Type 0 where
  pub ch : Channel
  pub seen : chan_for h (user_of h c) m.ch ≡ some ch
  pub allowed : can (rank_in (user_of h c) ch) a ≡ true
  pub runs : r ≡ body ch (rank_in (user_of h c) ch)

ctx_in-cases :
    (o : Option Channel) (c : Conn) (a : Act) (m : Msg) (body : Channel → ℕ → Reply) (h : Hub)
    → chan_for h (user_of h c) m.ch ≡ o
    → IsRefused h (ctx_in o (user_of h c) a m body h)
      ⊎ Enters c a m body h (ctx_in o (user_of h c) a m body h)
unfolding fail
ctx_in-cases none c a m body h e = inl (record { unchanged = refl; not_ok = refl })
ctx_in-cases (some ch) c a m body h e = elim (Bool-cases (can (rank_in (user_of h c) ch) a)) [
  | inr denied ↦ inl (rw denied (record { unchanged = refl; not_ok = refl }))
  | inl granted ↦ inr (record { ch = ch; seen = e; allowed = granted; runs = rw granted })
]

pub ch_ctx-cases :
    (c : Conn) (a : Act) (m : Msg) (body : Channel → ℕ → Reply) (h : Hub)
    → IsRefused h (ch_ctx c a m body h) ⊎ Enters c a m body h (ch_ctx c a m body h)
unfolding ch_ctx
ch_ctx-cases c a m body h = ctx_in-cases (chan_for h (user_of h c) m.ch) c a m body h refl

-- The user that a command acts on.
pub record Reaches (ch : Channel) (rank : ℕ) (m : Msg) (body : User → Reply) (h : Hub) (r : Reply)
    : Type 0 where
  pub t : User
  pub named : user_by_name h (arg m "user") ≡ some t
  pub outranked : can_target rank (rank_in t ch) ≡ true
  pub runs : r ≡ body t

target_in-cases :
    (o : Option User) (ch : Channel) (rank : ℕ) (m : Msg) (body : User → Reply) (h : Hub)
    → user_by_name h (arg m "user") ≡ o
    → IsRefused h (target_in o ch rank m body h)
      ⊎ Reaches ch rank m body h (target_in o ch rank m body h)
unfolding fail
target_in-cases none ch rank m body h e = inl (record { unchanged = refl; not_ok = refl })
target_in-cases (some t) ch rank m body h e =
    elim (Bool-cases (not (is_some (lookup t.id ch.members)) && ltb (srv_rank t) srv_admin)) [
      | inl outside ↦ inl (rw outside (record { unchanged = refl; not_ok = refl }))
      | inr inside ↦ elim (Bool-cases (can_target rank (rank_in t ch))) [
        | inr denied ↦ inl (rw (inside, denied) (record { unchanged = refl; not_ok = refl }))
        | inl granted ↦
            inr (record { t = t; named = e; outranked = granted; runs = rw (inside, granted) })
      ]
    ]

pub target-cases :
    (ch : Channel) (rank : ℕ) (m : Msg) (body : User → Reply) (h : Hub)
    → IsRefused h (target ch rank m body h) ⊎ Reaches ch rank m body h (target ch rank m body h)
unfolding target
target-cases ch rank m body h =
    target_in-cases (user_by_name h (arg m "user")) ch rank m body h refl
