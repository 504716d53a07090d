-- ===== src/Http/Serve.antt =====
-- Downloads and the dispatch of requests (code/files.go, `handleHTTP`).
pub mod Secrecy
use back_channel.Prelude.{
  ℕ, ◌+◌, ◌-◌, ◌/◌, Bool, true, false, ◌&&◌, ◌||◌, not, Option, none, some, List, [], ◌∷◌, ◌++◌,
  length, drop, ltb, leb, nat_eq, ◌==◌, ℕ_eq, ℤ_eq, list_eq, or_else, is_some, if◌then◌else◌,
}
use back_channel.Prelude.Int.{ℤ, pos, ltb_ℤ, ◌+ℤ◌, ◌-ℤ◌, ◌*ℤ◌, pos_part, int64}
use back_channel.Prelude.Dict.{Dict, lookup, insert}
use back_channel.Prelude.Text.{Text, str, to_lower, trim_space}
use back_channel.Prelude.Decimal.{show_nat, parse_saturated}
use back_channel.Prelude.Print.{human_size}
use back_channel.State.{User, Session, Channel, FileMeta}
use back_channel.Frame.{Msg, Kind, frame, text_nochan}
use back_channel.Hub.{Hub, mark_dirty, chan_for, to_user}
use back_channel.Files.{commit_file, ref_file, refs_of, used_by}
use back_channel.Names.{sanitize_name}
use back_channel.Limits.Bucket.{Key, allow_rate, per_minute, tokens_of}
use back_channel.Limits.Rates.{lim, max_file_for, quota_for, upload_rate_for}
use back_channel.Messages.{post}
use back_channel.Handlers.{is_muted}
use back_channel.Perms.{rank_in, can_send, rank_readonly, srv_rank, srv_admin}
use back_channel.Commands.Accounts.{has_prefix}
use back_channel.Auth.{user_blocked, set_sessions, again}
use back_channel.Auth.Login.{guest_nick, guest_user, is_guest_token}
use back_channel.Auth.Password.{Library}
use back_channel.Http.Request.{Request, read_request}
use back_channel.Connection.{conn_allow}
use back_channel.Commands.Listings.Server.{message_count}
use back_channel.Http.Requester.{http_auth}
use back_channel.Http.Upload.{Answer, Receipt, upload}

abbrev may_read : Option Channel → User → Bool
may_read none u = false
may_read (some ch) u = leb rank_readonly (rank_in u ch)

unfoldable pub reads_some : Hub → User → Dict ℕ ℕ → Bool
reads_some h u [] = false
reads_some h u ((cid, n) ∷ refs) =
    let rest = reads_some h u refs in may_read (lookup cid h.st.channels) u || rest

-- Whether a user may have a file: a server admin, or whoever reads a channel with a message about it.
unfoldable pub may_download : Hub → User → Text → Bool
unfolding reads_some
may_download h u fid = leb srv_admin (srv_rank u) || reads_some h u (refs_of h fid)

pub no_file : Answer
no_file = Answer.status 404 (str "no such file\n")

-- `strings.TrimPrefix`
unfoldable pub trim_prefix : Text → Text → Text
trim_prefix prefix s = if has_prefix prefix s then drop (length prefix) s else s

-- What the name that follows the id of a stored file is sent as.
abbrev pub sent_name : Text → Text → Text
sent_name fid base = trim_prefix (fid ++ b'_' ∷ []) base

-- One answer to a file that is not there, and to one that is not for the user. `found` is what the
-- directory files/ holds: the name of the first file that `filepath.Glob` matches with the id, `_` and
-- `*`, if there is one and it can be opened.
unfoldable pub serve_file : (Text → Option Text) → User → Text → Hub → Answer
unfolding no_file
serve_file found u name h =
    let fid = sanitize_name name in
    if may_download h u fid
    then elim (found fid) [ none ↦ no_file | some base ↦ Answer.download (sent_name fid base) ]
    else no_file

-- ---- the dispatch of requests ----

status_line : Hub → Text
status_line h =
    str "backchannel hub 2.0.0 — "
    ++ show_nat (length h.conns)
    ++ str " connections, "
    ++ show_nat (length h.st.channels)
    ++ str " channels, "
    ++ show_nat (message_count h)
    ++ str " messages\n"

serve_path :
    (Text → Option Text)
    → Receipt
    → (Hub → Hub)
    → User
    → Bool
    → Request
    → Text
    → ℕ
    → Hub
    → Hub × Answer
serve_path found got away u guest req fid now h =
    if req.path == str "/up"
    then upload got away u guest req fid now h
    else if has_prefix (str "/f/") req.path
    then (h, serve_file found u (drop 3 req.path) h)
    else (h, Answer.status 404 (str "not found\n"))

serve_as :
    Hub × Option (User × Bool)
    → (Text → Option Text)
    → Receipt
    → (Hub → Hub)
    → Request
    → Text
    → ℕ
    → Hub × Answer
unfolding serve_path
serve_as (h, none) found got away req fid now = (h, Answer.status 401 (str "unauthorized\n"))
serve_as (h, some (u, guest)) found got away req fid now =
    serve_path found got away u guest req fid now h

serve :
    Option Request
    → Library
    → (Text → Option Text)
    → Receipt
    → (Hub → Hub)
    → Text
    → ℕ
    → Hub
    → Hub × Answer
unfolding serve_as status_line
serve none lib found got away fid now h = (h, Answer.status 400 (str "bad request\n"))
serve (some req) lib found got away fid now h =
    if req.path == str "/"
    then (h, Answer.status 200 (status_line h))
    else serve_as (http_auth lib req now h) found got away req fid now

-- `handleHTTP`: a request counts as half a connection, and one too many is not answered.
unfoldable pub handle_http :
    Library
    → Text
    → (Text → Option Text)
    → Receipt
    → (Hub → Hub)
    → Text
    → Text
    → ℕ
    → Hub
    → Hub × Option Answer
unfolding serve
handle_http lib ip found got away stream fid now h =
    let (granted, h1) = conn_allow ip 500 now h in
    if granted
    then (let (h2, a) = serve (read_request stream) lib found got away fid now h1 in (h2, some a))
    else (h1, none)
