-- ===== src/Commands/Members/Bans.antt =====
-- What a ban leaves behind (code/cmds.go, `ban`).
use back_channel.Prelude.{
  ℕ, ◌≡◌, ap, ◌⊎◌, ◌∙◌, inl, inr, true, none, some, ℕ_eq, ℤ_eq, eq_self, is_some,
}
use mathlib.Core.Path.{subst, sym}
use back_channel.Prelude.Int.{ℤ}
use back_channel.Prelude.Dict.{lookup, insert, lookup-insert, lookup-erase}
use back_channel.Prelude.Text.{Text, str}
use back_channel.State.{Channel, Ban, User}
use back_channel.Frame.{Msg}
use back_channel.Hub.{Hub, Conn, user_of, user_by_name, chan_for, set_chan, save, to_chan, audit}
use back_channel.Subs.Keeps.{st-unsub_user}
use back_channel.Perms.{Act, can, can_target, rank_in}
use back_channel.Commands.{arg}
use back_channel.Commands.Checks.{IsRefused, ch_ctx-cases, target-cases}
use back_channel.Commands.Members.{ban, ban_user, new_ban, remove_user, drop_member, add_ban}

channels-remove_user :
    (action : Text) (ev : Msg) (t : User) (ch : Channel) (c : Conn) (reason : Text) (now : ℕ)
    (h : Hub)
    → (remove_user action ev t ch c reason now h).st.channels ≡ insert ch.id ch h.st.channels
unfolding remove_user save audit to_chan set_chan
channels-remove_user action ev t ch c reason now h =
    ap (λ st. st.channels) (st-unsub_user t.id ch.id ev true (set_chan ch h))

-- A ban that was carried out: the actor sees the channel, may ban there and outranks the user whom the
-- argument names, who afterwards is no member of the channel and is banned from it.
pub record Bans (c : Conn) (m : Msg) (h h' : Hub) : Type 0 where
  pub ch : Channel
  pub t : User
  pub after : Channel
  pub seen : chan_for h (user_of h c) m.ch ≡ some ch
  pub allowed : can (rank_in (user_of h c) ch) Act.ban ≡ true
  pub named : user_by_name h (arg m "user") ≡ some t
  pub outranked : can_target (rank_in (user_of h c) ch) (rank_in t ch) ≡ true
  pub stored : lookup ch.id h'.st.channels ≡ some after
  pub left : lookup t.id after.members ≡ none
  pub banned : is_some (lookup t.id after.bans) ≡ true

channels-ban_user :
    (t : User) (ch : Channel) (c : Conn) (m : Msg) (now : ℕ) (h : Hub)
    → lookup ch.id (ban_user t ch c m now h).0.st.channels
      ≡ some (drop_member t.id (add_ban t.id (new_ban c m now) ch))
unfolding ban_user drop_member add_ban
channels-ban_user t ch c m now h =
    let ch' : Channel = drop_member t.id (add_ban t.id (new_ban c m now) ch) in
    rw (channels-remove_user (str "ban") _ t ch' c (arg m "reason") now h)
      (rw (lookup-insert ch.id ch.id ch' h.st.channels) (rw (eq_self ch.id)))

ban_user-left :
    (uid : ℤ) (b : Ban) (ch : Channel)
    → (lookup uid (drop_member uid (add_ban uid b ch)).members ≡ none)
      × (lookup uid (drop_member uid (add_ban uid b ch)).bans ≡ some b)
unfolding drop_member add_ban
ban_user-left uid b ch = (
  rw (lookup-erase uid uid ch.members) (rw (eq_self uid)),
  rw (lookup-insert uid uid b ch.bans) (rw (eq_self uid)),
)

-- A ban is refused, and then nothing changes and the answer is not ok; or the actor sees the channel,
-- may ban there and outranks the user whom the argument names, and that user is afterwards no member
-- of the channel and banned from it.
pub ban-Bans :
    (c : Conn) (m : Msg) (now : ℕ) (h : Hub)
    → IsRefused h (ban c m now h) ⊎ Bans c m h (ban c m now h).0
unfolding ban
ban-Bans c m now h = elim (ch_ctx-cases c Act.ban m _ h) [
  | inl refused ↦ inl refused
  | inr e ↦
      elim (target-cases e.ch (rank_in (user_of h c) e.ch) m (λ t. ban_user t e.ch c m now h) h) [
        | inl refused ↦ inl (subst (IsRefused h) (sym e.runs) refused)
        | inr r ↦
            let done : ban c m now h ≡ ban_user r.t e.ch c m now h = e.runs ∙ r.runs in
            let gone = ban_user-left r.t.id (new_ban c m now) e.ch in
            inr (
              subst (λ reply. Bans c m h reply.0) (sym done)
                (record {
                  ch = e.ch;
                  t = r.t;
                  after = drop_member r.t.id (add_ban r.t.id (new_ban c m now) e.ch);
                  seen = e.seen;
                  allowed = e.allowed;
                  named = r.named;
                  outranked = r.outranked;
                  stored = channels-ban_user r.t e.ch c m now h;
                  left = gone.0;
                  banned = ap is_some gone.1;
                }))
      ]
]
