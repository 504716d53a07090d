-- ===== src/Tests/Commands.antt =====
-- Frames and commands of an outsider and of a moderator.
use back_channel.Prelude.{
  ◌≡◌, ◌⊎◌, refl, ap, map, some, none, [], ◌∷◌, or_else, if◌then◌else◌, text_eq,
}
use mathlib.Core.Path.{subst}
use back_channel.Prelude.Int.{pos}
use back_channel.Prelude.Dict.{lookup}
use back_channel.Prelude.Text.{str, trim_space, trim_left, is_space, to_lower, lower_byte}
use back_channel.State.{Channel}
use back_channel.Frame.{Msg, Kind, Code, frame, err_nochan, text_nochan}
use back_channel.Hub.{Conn, push, named_chan, chan_by_name, user_of}
use back_channel.Perms.{rank_in, Act}
use back_channel.Commands.{ch_ctx, ok, fail}
use back_channel.Commands.Dispatch.{Outside}
use back_channel.Connection.{on_frame}
use back_channel.Files.Keeps.{SameMessages}
use back_channel.Handlers.{
  handle_sub, handle_msg, handle_key_req, handle_key_share, handle_read, is_blank,
}
use back_channel.Handlers.Hidden.{handlers_hide}
use back_channel.Handlers.Posting.{Posts, handle_msg-Posts}
use back_channel.Commands.Checks.{IsRefused}
use back_channel.Commands.Members.{ban}
use back_channel.Commands.Members.Bans.{Bans, ban-Bans}
use back_channel.Tests.Messages.{ada, hub, design, connection}

-- Eve has an account, and is no member of the channel.
abbrev eve : Conn
eve = connection (record ada { id = pos 9; name = str "eve" })

abbrev outside : Outside
outside = record {
  lib = record {
    derive = λ pw salt iter n. some (map (λ c. 0) pw);
    encode = λ s. s;
    decode = λ s. some s;
    digest = λ s. s;
    date = λ t. [];
  };
  salt = [];
  password = [];
  code = str "k7f2-9qz3x";
  token = [];
  away = λ h. h;
  float = λ v. none;
  float_or_zero = λ v. pos 0;
  printed_args = λ args. [];
  server_lines = λ h. [];
  channel_lines = λ ch. [];
  session_lines = λ h c. [];
  time = λ t. [];
  uptime = [];
}

abbrev hello_design : Msg
hello_design = record (frame Kind.msg) { ch = str "design"; text = str "hello" }

design_hidden :
    (ch : Channel) → named_chan hub (str "design") ≡ some ch → rank_in (user_of hub eve) ch ≡ 0
unfolding str lookup chan_by_name user_of rank_in trim_space trim_left is_space to_lower lower_byte
    text_eq
design_hidden ch e =
    subst (λ x. rank_in (user_of hub eve) x ≡ 0) (ap (λ o. or_else o design) e) refl

handlers_hide_example :
    (handle_sub 1 eve hello_design 5 hub ≡ push 1 (err_nochan [] (str "design")) hub)
    × (handle_msg 1 eve hello_design 5 hub ≡ (
        if is_blank (trim_space (str "hello"))
        then hub
        else push 1 (err_nochan [] (str "design")) hub))
    × (handle_key_req 1 eve hello_design 5 hub ≡ hub)
    × (handle_key_share 1 eve hello_design hub ≡ hub)
    × (handle_read 1 eve hello_design hub ≡ hub)
    × (on_frame outside Kind.who 1 eve hello_design 5 hub
        ≡ push 1 (err_nochan [] (str "design")) hub)
    × (ch_ctx eve Act.purge hello_design (λ ch rank. (hub, ok hello_design (str "purged"))) hub
        ≡ (hub, fail hello_design Code.nochan text_nochan))
handlers_hide_example =
    handlers_hide outside Act.purge (λ ch rank. (hub, ok hello_design (str "purged"))) 1 eve
      hello_design 5 hub design_hidden

handle_msg-Posts_example :
    SameMessages hub (handle_msg 1 (connection ada) hello_design 5 hub)
    ⊎ Posts (connection ada) hello_design 5 hub (handle_msg 1 (connection ada) hello_design 5 hub)
handle_msg-Posts_example = handle_msg-Posts 1 (connection ada) hello_design 5 hub

abbrev ban_bob : Msg
ban_bob = record (frame Kind.cmd) {
  ch = str "design";
  args = ("user", str "bob") ∷ ("days", str "3") ∷ [];
}

ban-Bans_example :
    IsRefused hub (ban (connection ada) ban_bob 5 hub)
    ⊎ Bans (connection ada) ban_bob hub (ban (connection ada) ban_bob 5 hub).0
ban-Bans_example = ban-Bans (connection ada) ban_bob 5 hub
