-- ===== src/Commands/Server/Settings.antt =====
-- The settings of the server and of a channel (code/cmds.go, `set` with `applySetting`, `settings`). They
-- are changed one by one, in the order in which Go visits the map of arguments.
use back_channel.Prelude.{
  ℕ, Bool, true, false, ◌||◌, not, Option, none, some, List, [], ◌∷◌, ◌++◌, ◌==◌, ℕ_eq, list_eq,
  string_eq, String, if◌then◌else◌,
}
use back_channel.Prelude.Int.{ℤ, pos, negsuc, ◌*ℤ◌, int64}
use back_channel.Prelude.Dict.{map_entries}
use back_channel.Prelude.Text.{Text, str}
use back_channel.Prelude.Decimal.{parse_int64}
use back_channel.State.{Registration, Channel, Settings, Limits}
use back_channel.Frame.{Msg, Kind, Code, ChanInfo, frame}
use back_channel.Hub.{Hub, Conn, user_of, chan_by_name, set_chan, save, to_chan, audit}
use back_channel.Limits.Expire.{parse_expire, fmt_expire}
use back_channel.Sweep.{expire_messages}
use back_channel.Perms.{Act, is_server_owner}
use back_channel.Commands.{Reply, atoi, ok, fail, ch_ctx}

-- What one setting comes to: an error text, or the hub with the setting changed.
abbrev Set : Type 0
Set = Hub × Text

unfoldable pub with_settings : Settings → Hub → Hub
with_settings s h = record h { st = record h.st { settings = s } }

unfoldable pub with_limits : Limits → Hub → Hub
unfolding with_settings
with_limits l h = with_settings (record h.st.settings { limits = l }) h

-- A number that is not negative, and what is done with it.
abbrev non_negative : Option ℤ → Text → String → (ℕ → Hub) → Hub → Set
non_negative (some (pos n)) kind k set h = (set n, [])
non_negative (some (negsuc n)) kind k set h = (h, str k ++ str " must be a non-negative " ++ kind)
non_negative none kind k set h = (h, str k ++ str " must be a non-negative " ++ kind)

unfoldable pub num : String → Text → (ℕ → Limits) → Hub → Set
unfolding with_limits
num k v set h = non_negative (parse_int64 v) (str "integer") k (λ n. with_limits (set n) h) h

unfoldable pub num_settings : String → Text → (ℕ → Settings) → Hub → Set
unfolding with_settings
num_settings k v set h =
    non_negative (parse_int64 v) (str "integer") k (λ n. with_settings (set n) h) h

-- `float` reads a number as `strconv.ParseFloat` does, in thousandths, where it reads one.
unfoldable pub flt : (Text → Option ℤ) → String → Text → (ℕ → Limits) → Hub → Set
unfolding with_limits
flt float k v set h = non_negative (float v) (str "number") k (λ n. with_limits (set n) h) h

unfoldable pub on_off : Text → Option Bool
on_off v =
    if (v == str "on") || (v == str "true") || (v == str "yes")
    then some true
    else if (v == str "off") || (v == str "false") || (v == str "no")
    then some false
    else none

set_registration : Text → Hub → Set
unfolding with_settings
set_registration v h =
    let s = h.st.settings in
    if v == str "invite"
    then (with_settings (record s { registration = Registration.invite }) h, [])
    else if v == str "admin"
    then (with_settings (record s { registration = Registration.admin_only }) h, [])
    else if v == str "open"
    then (with_settings (record s { registration = Registration.anyone }) h, [])
    else (h, str "registration: invite, admin or open")

set_user_channels : Option Bool → String → Hub → Set
unfolding with_settings
set_user_channels none k h = (h, str k ++ str ": on or off")
set_user_channels (some b) k h =
    (with_settings (record h.st.settings { allow_user_channels = b }) h, [])

abbrev token_or : Text → Text → Text
token_or [] drawn = drawn
token_or (c ∷ s) drawn = c ∷ s

-- Turning guest access on draws a token where there is none.
set_guest_access : Option Bool → Text → String → Hub → Set
unfolding with_settings
set_guest_access none drawn k h = (h, str k ++ str ": on or off")
set_guest_access (some b) drawn k h =
    let s = h.st.settings in
    let token = if b then token_or s.legacy_token drawn else s.legacy_token in
    (with_settings (record s { guest_access = b; legacy_token = token }) h, [])

not_default : ℕ → Channel → Channel
not_default cid ch = record ch { is_default = false }

-- Exactly one channel is the default one.
unfoldable pub set_default : Option Channel → Hub → Set
unfolding not_default with_settings
set_default none h = (h, str "no such channel")
set_default (some ch) h =
    let h1 = record h { st = record h.st { channels = map_entries not_default h.st.channels } } in
    (
      with_settings (record h1.st.settings { default_channel = ch.name })
          (set_chan (record ch { is_default = true }) h1),
      [],
    )

apply_limit : (Text → Option ℤ) → String → Text → Limits → Hub → Set
unfolding num flt
apply_limit float k v l h =
    if k == "msg_rate"
    then flt float k v (λ n. record l { msg_rate = n }) h
    else if k == "msg_burst"
    then flt float k v (λ n. record l { msg_burst = n }) h
    else if k == "max_msg_kb"
    then num k v (λ n. record l { max_msg_kb = n }) h
    else if k == "upload_rate"
    then flt float k v (λ n. record l { upload_rate = n }) h
    else if k == "max_file_mb"
    then num k v (λ n. record l { max_file_mb = n }) h
    else if k == "quota_mb"
    then num k v (λ n. record l { quota_mb = n }) h
    else if k == "invite_rate"
    then flt float k v (λ n. record l { invite_rate = n }) h
    else if k == "login_rate"
    then flt float k v (λ n. record l { login_rate = n }) h
    else if k == "conn_rate"
    then flt float k v (λ n. record l { conn_rate = n }) h
    else if k == "sessions_max"
    then num k v (λ n. record l { sessions_max = n }) h
    else if k == "conns_per_user"
    then num k v (λ n. record l { conns_per_user = n }) h
    else if k == "max_uploads"
    then num k v (λ n. record l { max_uploads = n }) h
    else if k == "auto_mute_hits"
    then num k v (λ n. record l { auto_mute_hits = n }) h
    else if k == "auto_mute_min"
    then num k v (λ n. record l { auto_mute_min = n }) h
    else (h, str "unknown setting " ++ str k)

-- `applySetting`; `drawn` is a token drawn at random.
unfoldable pub apply_setting : (Text → Option ℤ) → Text → String → Text → Hub → Set
unfolding apply_limit set_registration set_user_channels set_guest_access set_default on_off
    num_settings
apply_setting float drawn k v h =
    let s = h.st.settings in
    if k == "registration"
    then set_registration v h
    else if k == "allow_user_channels"
    then set_user_channels (on_off v) k h
    else if k == "guest_access"
    then set_guest_access (on_off v) drawn k h
    else if k == "legacy_token"
    then (with_settings (record s { legacy_token = if v == str "new" then drawn else v }) h, [])
    else if k == "default_channel"
    then set_default (chan_by_name h v) h
    else if k == "max_users"
    then num_settings k v (λ n. record s { max_users = n }) h
    else if k == "max_channels"
    then num_settings k v (λ n. record s { max_channels = n }) h
    else apply_limit float k v s.limits h

unfoldable pub apply_settings : (Text → Option ℤ) → Text → List (String × Text) → Hub → Set
unfolding apply_setting
apply_settings float drawn [] h = (h, [])
apply_settings float drawn ((k, v) ∷ rest) h =
    let (h', error) = apply_setting float drawn k v h in
    elim error [ [] ↦ apply_settings float drawn rest h' | c ∷ s ↦ (h', c ∷ s) ]

settings_set : Set → Conn → Msg → Text → ℕ → Reply
settings_set (h, c' ∷ error) c m printed now = (h, fail m Code.badarg (c' ∷ error))
settings_set (h, []) c m printed now = (
  save (audit (some (user_of h c)) (str "set") [] none printed now h),
  ok m (str "settings updated"),
)

abbrev has_args : List (String × Text) → Bool
has_args [] = false
has_args (kv ∷ rest) = true

-- `printed` is `fmt.Sprint` of the arguments, and `shown` the lines of `settingsLines`.
unfoldable pub set : (Text → Option ℤ) → Text → Text → List Text → Conn → Msg → ℕ → Hub → Reply
unfolding apply_settings settings_set
set float drawn printed shown c m now h =
    if not (is_server_owner (user_of h c))
    then (h, fail m Code.perm (str "server owner only"))
    else if has_args m.args
    then settings_set (apply_settings float drawn m.args h) c m printed now
    else (h, record (ok m []) { lines = shown })

-- ---- the settings of a channel ----

-- What one setting of a channel comes to: the channel, or an error text.
pub data Tuned : Type 0 where
  tuned : Channel → Tuned
  bad_setting : Text → Tuned

expire_in : Option ℤ → Channel → Tuned
expire_in none ch = Tuned.bad_setting (str "expire: 10m, 2h, 7d, 1w or off (minimum 1m)")
expire_in (some sec) ch = Tuned.tuned (record ch { expire_sec = sec })

rate_in : Option ℤ → Channel → Tuned
rate_in none ch = Tuned.tuned ch
rate_in (some rate) ch = Tuned.tuned (record ch { msg_rate = rate })

unfoldable pub tune : (Text → Option ℤ) → Msg → String → Text → Channel → Tuned
unfolding expire_in rate_in
tune float m k v ch =
    if k == "expire"
    then expire_in (parse_expire v) ch
    else if k == "retention_days"
    then Tuned.tuned
        (record ch { expire_sec = int64 (atoi m "retention_days" (pos 0) *ℤ pos 86_400) })
    else if k == "max_file_mb"
    then Tuned.tuned (record ch { max_file_mb = atoi m "max_file_mb" ch.max_file_mb })
    else if k == "msg_rate"
    then rate_in (float v) ch
    else if k == "readonly"
    then Tuned.tuned (record ch { readonly = (v == str "on") || (v == str "true") })
    else Tuned.bad_setting
        (str "unknown setting " ++ str k ++ str " (expire, max_file_mb, msg_rate, readonly)")

-- The channel after the settings up to the first bad one, and its error.
unfoldable pub tune_all : (Text → Option ℤ) → Msg → List (String × Text) → Channel → Channel × Text
unfolding tune
tune_all float m [] ch = (ch, [])
tune_all float m ((k, v) ∷ rest) ch = elim (tune float m k v ch) [
  | Tuned.bad_setting e ↦ (ch, e)
  | Tuned.tuned ch' ↦ tune_all float m rest ch'
]

settings_info : Channel → ChanInfo
settings_info ch = record {
  name = ch.name;
  topic = ch.topic;
  role = [];
  unread = 0;
  last = 0;
  readonly = ch.readonly;
  members = 0;
  is_default = false;
  expire = ch.expire_sec;
  e2e = false;
  epoch = 0;
}

settings_tuned : Channel × Text → Conn → Msg → Text → ℕ → Hub → Reply
unfolding settings_info
settings_tuned (ch, e ∷ error) c m printed now h = (set_chan ch h, fail m Code.badarg (e ∷ error))
settings_tuned (ch, []) c m printed now h =
    let u = user_of h c in
    let h1 =
      expire_messages now
        (save (audit (some u) (str "settings") [] (some ch) printed now (set_chan ch h))) in
    (
      to_chan ch.id
          (record (frame Kind.settings) {
            ch = ch.name;
            by = u.name;
            channels = settings_info ch ∷ [];
          })
          h1,
      ok m (
          str "#"
          ++ ch.name
          ++ str " settings updated (expire="
          ++ fmt_expire ch.expire_sec
          ++ str ")"),
    )

-- `shown` are the lines of a call without arguments. A shorter expiry applies at once.
unfoldable pub settings :
    (Text → Option ℤ) → Text → (Channel → List Text) → Conn → Msg → ℕ → Hub → Reply
unfolding tune_all settings_tuned
settings float printed shown c m now h =
    ch_ctx c Act.settings m
      (λ ch rank.
        if has_args m.args
        then settings_tuned (tune_all float m m.args ch) c m printed now h
        else (h, record (ok m []) { lines = shown ch }))
      h
