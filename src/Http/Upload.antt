-- ===== src/Http/Upload.antt =====
-- Uploads (code/files.go, `upload`): what is checked before the bytes come, and what is done with them. The
-- bytes are received without the lock: `away` is what others do meanwhile.
pub mod Admission
pub mod Counting
use back_channel.Prelude.{
  ℕ, ◌+◌, ◌-◌, ◌/◌, Bool, true, false, ◌&&◌, ◌||◌, not, Option, none, some, List, [], ◌∷◌, ◌++◌,
  length, drop, ltb, leb, nat_eq, ◌==◌, ℕ_eq, ℤ_eq, list_eq, or_else, is_some, if◌then◌else◌,
}
use back_channel.Prelude.Int.{ℤ, pos, ltb_ℤ, ◌+ℤ◌, ◌-ℤ◌, ◌*ℤ◌, pos_part, int64}
use back_channel.Prelude.Dict.{Dict, lookup, insert}
use back_channel.Prelude.Text.{Text, str, to_lower, trim_space}
use back_channel.Prelude.Decimal.{show_nat, parse_saturated}
use back_channel.Prelude.Print.{human_size}
use back_channel.State.{User, Session, Channel, FileMeta}
use back_channel.Frame.{Msg, Kind, frame, text_nochan}
use back_channel.Hub.{Hub, mark_dirty, chan_for, to_user}
use back_channel.Files.{commit_file, ref_file, refs_of, used_by}
use back_channel.Names.{sanitize_name}
use back_channel.Limits.Bucket.{Key, allow_rate, per_minute, tokens_of}
use back_channel.Limits.Rates.{lim, max_file_for, quota_for, upload_rate_for}
use back_channel.Messages.{post}
use back_channel.Handlers.{is_muted}
use back_channel.Perms.{rank_in, can_send, rank_readonly, srv_rank, srv_admin}
use back_channel.Commands.Accounts.{has_prefix}
use back_channel.Auth.{user_blocked, set_sessions, again}
use back_channel.Auth.Login.{guest_nick, guest_user, is_guest_token}
use back_channel.Auth.Password.{Library}
use back_channel.Http.Request.{Request, read_request}
use back_channel.Connection.{conn_allow}
use back_channel.Http.Requester.{header_of, query_of, is_blank}

-- An answer: its status and its text.
pub data Answer : Type 0 where
  status : ℕ → Text → Answer
  download : Text → Answer

-- An upload may go on in a channel, or is answered at once.
pub data Verdict : Type 0 where
  denied : Answer → Verdict
  admit : ℕ → Verdict

abbrev deny : ℕ → Text → Hub → Hub × Verdict
deny n text h = (h, Verdict.denied (Answer.status n (text ++ b'\n' ∷ [])))

abbrev pub uploads_of : Hub → ℤ → ℕ
uploads_of h uid = or_else (lookup uid h.uploading) 0

-- Whether a file of `n` bytes is more than a user's quota leaves.
abbrev pub over_quota : Hub → User → Bool → ℕ → Bool
over_quota h u guest n =
    not guest
    && ltb_ℤ (pos 0) (quota_for h u)
    && ltb_ℤ (quota_for h u) (int64 (pos (used_by h u.id) +ℤ pos n))

abbrev quota_text : Hub → User → Text
quota_text h u =
    str "storage quota exceeded ("
    ++ human_size (pos_part (quota_for h u -ℤ pos (used_by h u.id)))
    ++ str " left of "
    ++ human_size (pos_part (quota_for h u))
    ++ str ") — delete old files or ask an admin"

-- The last two checks count uploads: how often, and how many at once.
count_upload : Bool → ℕ → User → Hub → Hub × Verdict
count_upload false cid u h = deny 429 (str "too many uploads — slow down") h
count_upload true cid u h =
    let max = (lim h).max_uploads in
    if ltb 0 max && leb max (uploads_of h u.id)
    then deny 429 (str "too many concurrent uploads (max " ++ show_nat max ++ str ")") h
    else (
      record h { uploading = insert u.id (uploads_of h u.id + 1) h.uploading },
      Verdict.admit cid,
    )

rate_upload : ℕ → User → ℕ → Hub → Hub × Verdict
unfolding count_upload
rate_upload cid u now h =
    let (granted, l) =
      allow_rate h.up_lim (Key.up u.id) (per_minute (pos_part (upload_rate_for h u)))
        (tokens_of 5000) (tokens_of 1000) now in
    count_upload granted cid u (record h { up_lim = l })

admit_in : Option Channel → User → Bool → ℕ → ℕ → Hub → Hub × Verdict
unfolding rate_upload
admit_in none u guest n now h = deny 404 text_nochan h
admit_in (some ch) u guest n now h =
    if not (can_send (rank_in u ch) ch)
    then deny 403 (str "you can't post in #" ++ ch.name) h
    else if is_muted ch u.id now
    then deny 403 (str "you are muted in #" ++ ch.name) h
    else if ltb_ℤ (max_file_for h (some ch)) (pos n)
    then deny 413
        (str "file too large (max "
          ++ human_size (pos_part (max_file_for h (some ch)))
          ++ str " in #"
          ++ ch.name
          ++ str ")")
        h
    else if over_quota h u guest n
    then deny 413 (quota_text h u) h
    else rate_upload ch.id u now h

-- The part of `upload` before the bytes arrive.
unfoldable pub admit_upload : User → Bool → Text → ℕ → ℕ → Hub → Hub × Verdict
unfolding admit_in
admit_upload u guest ch n now h = admit_in (chan_for h u ch) u guest n now h

-- The end of the lock's first part: the upload no longer counts.
unfoldable pub upload_done : User → Hub → Hub
upload_done u h = record h {
  uploading = insert u.id (or_else (lookup u.id h.uploading) 0 - 1) h.uploading;
}

file_frame : User → Text → FileMeta → ℕ → Msg
file_frame u device meta epoch = record (frame Kind.file) {
  sender = u.name;
  device = device;
  name = meta.name;
  size = meta.size;
  fid = meta.fid;
  sha = meta.sha;
  epoch = epoch;
}

-- The announcement of a file, under the id that its bytes are kept under.
announce : Text × Hub → Channel → User → Text → FileMeta → ℕ → ℕ → Hub
unfolding file_frame
announce (fid, h) ch u device meta epoch now =
    ref_file fid ch.id (post ch (file_frame u device (record meta { fid = fid }) epoch) now h)

quota_frame : ℕ → ℕ → ℤ → Msg
quota_frame pct used quota = record (frame Kind.quota) {
  text =
      str "storage "
      ++ show_nat pct
      ++ str "% used ("
      ++ human_size used
      ++ str " of "
      ++ human_size (pos_part quota)
      ++ str ")";
}

-- A share of the quota that is reached is told to all connections of the user.
warn_at : ℕ → ℕ → ℤ → User → Hub → Hub
unfolding quota_frame
warn_at pct before quota u h =
    let line = pos_part (int64 (quota *ℤ pos pct)) / 100 in
    let after = used_by h u.id in
    if ltb before line && leb line after
    then to_user u.id (quota_frame pct after quota) none h
    else h

warn_quota : Bool → ℕ → ℤ → User → Hub → Hub
unfolding warn_at
warn_quota guest before quota u h =
    if ltb_ℤ (pos 0) quota && not guest
    then warn_at 100 before quota u (warn_at 80 before quota u h)
    else h

stored_text : Text → FileMeta → Text
stored_text fid meta =
    str "{\"fid\":\""
    ++ fid
    ++ str "\",\"size\":"
    ++ show_nat meta.size
    ++ str ",\"name\":\""
    ++ meta.name
    ++ str "\",\"sha256\":\""
    ++ meta.sha
    ++ str "\"}\n"

commit_in : Option Channel → User → Bool → ℤ → Text → FileMeta → ℕ → ℕ → Hub → Hub × Answer
unfolding announce warn_quota stored_text
commit_in none u guest quota device meta epoch now h =
    (h, Answer.status 404 (text_nochan ++ b'\n' ∷ []))
commit_in (some ch) u guest quota device meta epoch now h =
    let (fid, h1) = commit_file meta guest h in
    (
      warn_quota guest (used_by h u.id) quota u (announce (fid, h1) ch u device meta epoch now),
      Answer.status 200 (stored_text fid meta),
    )

-- The part of `upload` after the bytes: the channel may have gone meanwhile.
unfoldable pub commit_upload : ℕ → User → Bool → ℤ → Text → FileMeta → ℕ → ℕ → Hub → Hub × Answer
unfolding commit_in
commit_upload cid u guest quota device meta epoch now h =
    commit_in (lookup cid h.st.channels) u guest quota device meta epoch now h

-- How the bytes came: all of them, with their hash, or an error.
pub data Receipt : Type 0 where
  received : Text → Receipt
  broken : Text → Receipt

abbrev meta_of : Request → User → Text → Text → ℕ → FileMeta
meta_of req u fid sha now = record {
  fid = fid;
  sha = sha;
  name = sanitize_name (query_of req (str "name"));
  size = req.size;
  owner = u.id;
  created_at = now;
}

finish_upload : Receipt → ℕ → User → Bool → ℤ → Request → Text → ℕ → Hub → Hub × Answer
unfolding commit_upload
finish_upload (broken text) cid u guest quota req fid now h = (h, Answer.status 500 text)
finish_upload (received sha) cid u guest quota req fid now h =
    commit_upload cid u guest quota (query_of req (str "device")) (meta_of req u fid sha now)
      (pos_part (parse_saturated (query_of req (str "epoch")))) now h

-- The upload does not count any more, however it has ended.
uploaded : User → Hub × Answer → Hub × Answer
uploaded u (h, a) = (upload_done u h, a)

receive :
    Hub × Verdict → Receipt → (Hub → Hub) → User → Bool → ℤ → Request → Text → ℕ → Hub × Answer
unfolding finish_upload uploaded
receive (h, denied a) got away u guest quota req fid now = (h, a)
receive (h, admit cid) got away u guest quota req fid now =
    uploaded u (finish_upload got cid u guest quota req fid now (away h))

-- `upload`: `fid` is drawn at random.
unfoldable pub upload :
    Receipt → (Hub → Hub) → User → Bool → Request → Text → ℕ → Hub → Hub × Answer
unfolding receive
upload got away u guest req fid now h =
    if not (req.method == str "PUT") && not (req.method == str "POST")
    then (h, Answer.status 405 (str "use PUT\n"))
    else if is_blank (header_of req (str "content-length"))
    then (h, Answer.status 411 (str "Content-Length required\n"))
    else receive (admit_upload u guest (query_of req (str "ch")) req.size now h) got away u guest
        (quota_for h u) req fid now
