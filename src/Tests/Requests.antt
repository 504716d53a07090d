-- ===== src/Tests/Requests.antt =====
-- Uploads, downloads, headers, a limiter, and a restart in the small hub.
use back_channel.Prelude.{
  ◌+◌, ◌≤◌, ◌≡◌, refl, true, false, Option, none, some, ◌==◌, if◌then◌else◌, List, [], ◌∷◌, arith,
  ℕ_eq, ℤ_eq, list_eq,
}
use back_channel.Prelude.Int.{pos}
use back_channel.Prelude.Dict.{lookup}
use back_channel.Prelude.Text.{Text, str}
use back_channel.Frame.{Kind, frame}
use back_channel.Hub.{Hub}
use back_channel.Limits.Bucket.{Key, allow_rate, new_limiter, token}
use back_channel.Limits.Bucket.Refill.{allow_rate-waited}
use back_channel.Http.Request.{Request, read_headers}
use back_channel.Http.Request.Bounds.{read_headers-same, read_headers-Within, Within}
use back_channel.Http.Upload.{Receipt, upload, uploads_of}
use back_channel.Http.Upload.Counting.{upload-balanced}
use back_channel.Messages.{messages, compact_log, load_messages, has_channel, last_kept}
use back_channel.Messages.Compaction.{IsStayed, IsFiled}
use back_channel.Messages.Loading.{load_messages-compact_log}
use back_channel.Messages.Fresh.{Below, load_messages-Below}
use back_channel.Boot.{Entry}
use back_channel.Tests.Messages.{ada, hub}

-- ---- limits ----

-- Half a token in a second: a token is there again after two.
allow_rate-waited_example :
    (allow_rate
      (allow_rate (new_limiter 1_800_000 token) (Key.clip (pos 1)) 1_800_000 token token 5).1
      (Key.clip (pos 1))
      1_800_000
      token
      token
      (5 + 2000)).0
    ≡ true
allow_rate-waited_example =
    allow_rate-waited (new_limiter 1_800_000 token) (Key.clip (pos 1)) 1_800_000 token token 5 2000
      (omega arith) (omega arith)

-- ---- headers ----

abbrev stream : Text
stream = b'h' ∷ b':' ∷ b'1' ∷ b'\r' ∷ b'\n' ∷ b'\r' ∷ b'\n' ∷ b'x' ∷ []

read_headers-same_example : read_headers 8 stream 0 [] ≡ read_headers 100 stream 0 []
read_headers-same_example = read_headers-same 8 100 stream 0 [] (omega arith) (omega arith)

read_headers-Within_example : Within stream 0 (read_headers 8 stream 0 [])
read_headers-Within_example = read_headers-Within 8 stream 0 []

-- ---- uploads and downloads ----

abbrev put : Request
put = record {
  method = str "PUT";
  path = str "/up";
  query = (str "ch", str "design") ∷ (str "name", str "plan.txt") ∷ [];
  header = (str "content-length", str "12") ∷ [];
  size = 12;
  body = [];
}

upload-balanced_example :
    uploads_of
      (upload (Receipt.received (str "9a")) (λ h. h) ada false put (str "f1") 5 hub).0
      (pos 1)
    ≡ uploads_of hub (pos 1)
upload-balanced_example =
    upload-balanced ada (λ h. h) (λ k. refl) (Receipt.received (str "9a")) false put (str "f1") 5
      hub

-- A file is found for the id of the plan.
abbrev directory : Text → Option Text
directory fid = if fid == str "f1" then some (str "f1_plan.txt") else none

-- ---- a restart ----

-- Two messages, the first of them deleted.
abbrev held : Hub
held = record hub {
  next_id = 2;
  msgs =
      (
        7,
        record (frame Kind.deleted) { cid = 7; id = 1 }
            ∷ record (frame Kind.msg) { cid = 7; id = 2 }
            ∷ [],
      )
      ∷ [];
}

-- The hub after a restart, which keeps one message of each channel.
abbrev restarted : Hub
restarted = record hub { keep = 1; next_id = 0; msgs = []; log = (compact_log held).log }

held-IsFiled : IsFiled (has_channel restarted) 2 held.msgs
unfolding lookup
held-IsFiled = (
  refl,
  (omega arith, (omega arith, omega arith)),
  (refl, (refl, tt)),
  (
    record { numbered = omega arith; lives = refl; stays = IsStayed.tomb_stays },
    (record { numbered = omega arith; lives = refl; stays = IsStayed.text_stays }, tt),
  ),
  tt,
)

load_messages-compact_log_example :
    messages (load_messages restarted) 7 ≡ last_kept 1 (messages held 7)
load_messages-compact_log_example = load_messages-compact_log held restarted refl held-IsFiled 7

load_messages-Below_example :
    (restarted.next_id ≤ (load_messages restarted).next_id)
    × Below (load_messages restarted).next_id restarted.log
    × Below (load_messages restarted).next_id (messages (load_messages restarted) 7)
load_messages-Below_example = load_messages-Below restarted 7

abbrev on_disk : List Entry
on_disk = record { name = str "f9_plan.txt"; text = none; size = 12; modified = 3 } ∷ []
