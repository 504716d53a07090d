-- ===== src/Handlers/Hidden.antt =====
-- A channel that a user may not see is answered like one that does not exist.
use back_channel.Prelude.{ℕ, ◌≡◌, refl, Option, none, some, arith, if◌then◌else◌}
use back_channel.Prelude.Text.{Text, trim_space}
use back_channel.State.{Channel, User}
use back_channel.Frame.{Msg, Kind, Code, err_nochan, text_nochan}
use back_channel.Hub.{Hub, Conn, chan_for, visible, named_chan, user_of, push}
use back_channel.Handlers.{
  handle_sub, handle_msg, handle_key_req, handle_key_share, handle_read, sub_to, msg_to, keyreq_to,
  keyshare_to, read_in, is_blank,
}
use back_channel.Perms.{rank_in, Act}
use back_channel.Commands.{Reply, fail, ch_ctx}
use back_channel.Commands.Dispatch.{Outside}
use back_channel.Connection.{on_frame, tell_who}

visible-none :
    (u : User) (o : Option Channel)
    → ((ch : Channel) → o ≡ some ch → rank_in u ch ≡ 0)
    → visible u o ≡ none
visible-none u none hidden = refl
visible-none u (some ch) hidden = rw (hidden ch refl)

chan_for-none :
    (h : Hub) (u : User) (name : Text)
    → ((ch : Channel) → named_chan h name ≡ some ch → rank_in u ch ≡ 0)
    → chan_for h u name ≡ none
unfolding chan_for
chan_for-none h u name hidden = visible-none u (named_chan h name) hidden

-- If every channel of the name in a frame, if there is one, is hidden from the user, whose rank there
-- is 0, then `sub`, `who` and a message that is not blank get the one error frame and change nothing
-- else; a request for a key, a key that is shared and a mark of what is read change nothing; and a
-- command that `ch_ctx` checks, whatever it would do, changes nothing and fails with that error.
pub handlers_hide :
    (out : Outside) (a : Act) (body : Channel → ℕ → Reply) (sid : ℕ) (c : Conn) (m : Msg) (now : ℕ)
    (h : Hub)
    → ((ch : Channel) → named_chan h m.ch ≡ some ch → rank_in (user_of h c) ch ≡ 0)
    → (handle_sub sid c m now h ≡ push sid (err_nochan m.rid m.ch) h)
      × (handle_msg sid c m now h
          ≡ (if is_blank (trim_space m.text) then h else push sid (err_nochan m.rid m.ch) h))
      × (handle_key_req sid c m now h ≡ h)
      × (handle_key_share sid c m h ≡ h)
      × (handle_read sid c m h ≡ h)
      × (on_frame out Kind.who sid c m now h ≡ push sid (err_nochan m.rid m.ch) h)
      × (ch_ctx c a m body h ≡ (h, fail m Code.nochan text_nochan))
unfolding handle_sub handle_msg handle_key_req handle_key_share handle_read sub_to msg_to keyreq_to
    keyshare_to read_in on_frame tell_who ch_ctx
handlers_hide out a body sid c m now h hidden =
    let e : chan_for h (user_of h c) m.ch ≡ none = chan_for-none h (user_of h c) m.ch hidden in
    (rw e (ground arith), rw e, rw e, rw e, rw e (ground arith), rw e, rw e)
