-- ===== src/Commands/Encryption.antt =====
-- The commands of encrypted channels (code/cmds.go, `e2epeers` and `e2erotate`).
use back_channel.Prelude.{
  ℕ, ◌+◌, Bool, true, false, not, Option, none, some, List, [], ◌∷◌, ◌++◌, nat_eq, ◌==◌, ℤ_eq,
  list_eq, if◌then◌else◌,
}
use back_channel.Prelude.Dict.{Dict, lookup}
use back_channel.Prelude.Text.{Text, str}
use back_channel.Prelude.Decimal.{show_nat}
use back_channel.State.{Channel, DeviceKey}
use back_channel.Frame.{Msg, Code, ChanInfo, Peer}
use back_channel.Hub.{Hub, Conn, user_of, set_chan, save, audit}
use back_channel.Perms.{Act, rank_in, rank_none}
use back_channel.Commands.{Reply, ok, fail, ch_ctx}

device_key : Option (Dict Text DeviceKey) → Text → Option DeviceKey
device_key none device = none
device_key (some keys) device = lookup device keys

peer_of : Option DeviceKey → Hub → Conn → List Peer → List Peer
peer_of none h c peers = peers
peer_of (some k) h c peers =
    (let p : Peer = record {
      user = (user_of h c).name;
      device = c.device;
      public_key = k.public_key;
    } in
      p)
    ∷ peers

-- The devices that are connected, may see the channel, and have a key.
unfoldable pub peers_of : Hub → Channel → Dict ℕ Conn → List Peer
unfolding device_key peer_of
peers_of h ch [] = []
peers_of h ch ((sid, c) ∷ rest) =
    let others = peers_of h ch rest in
    if nat_eq (rank_in (user_of h c) ch) rank_none
    then others
    else peer_of (device_key (lookup c.user.id h.st.device_keys) c.device) h c others

abbrev not_encrypted : Msg → Channel → Msg
not_encrypted m ch = fail m Code.badarg (str "#" ++ ch.name ++ str " is not end-to-end encrypted")

unfoldable pub e2epeers : Conn → Msg → Hub → Reply
unfolding peers_of
e2epeers c m h =
    ch_ctx c Act.members m
      (λ ch rank.
        if ch.e2e
        then (h, record (ok m []) { peers = peers_of h ch h.conns })
        else (h, not_encrypted m ch))
      h

epoch_info : Channel → ℕ → ChanInfo
epoch_info ch epoch = record {
  name = ch.name;
  topic = [];
  role = [];
  unread = 0;
  last = 0;
  readonly = false;
  members = 0;
  is_default = false;
  expire = back_channel.Prelude.Int.pos 0;
  e2e = true;
  epoch = epoch;
}

rotate : Channel → Conn → Msg → ℕ → Hub → Reply
unfolding epoch_info
rotate ch c m now h =
    let epoch = ch.key_epoch + 1 in
    let ch' : Channel = record ch { key_epoch = epoch } in
    (
      save (
          audit (some (user_of h c)) (str "e2erotate") [] (some ch')
            (str "epoch " ++ show_nat epoch) now (set_chan ch' h)),
      record (ok m (
          str "#"
          ++ ch.name
          ++ str " rotated to epoch "
          ++ show_nat epoch
          ++ str " — share the new key with peers")) { channels = epoch_info ch epoch ∷ [] },
    )

-- A rotation counts the epoch of the channel's key up.
unfoldable pub e2erotate : Conn → Msg → ℕ → Hub → Reply
unfolding rotate
e2erotate c m now h =
    ch_ctx c Act.e2e_rotate m
      (λ ch rank. if ch.e2e then rotate ch c m now h else (h, not_encrypted m ch)) h
