-- ===== src/Http/Serve/Secrecy.antt =====
-- Who gets a file (code/files.go, `serveFile`).
use back_channel.Prelude.{ℕ, ◌≡◌, ◌≤◌, ◌⊎◌, Option, none, some, ◌∷◌, ℤ_eq, ℕ_eq, list_eq}
use back_channel.Prelude.Dict.{Dict, lookup}
use back_channel.Prelude.Text.{Text}
use back_channel.State.{User, Channel}
use back_channel.Hub.{Hub}
use back_channel.Files.{refs_of}
use back_channel.Perms.{rank_in, rank_readonly, srv_rank, srv_admin}
use back_channel.Http.Upload.{Answer}
use back_channel.Http.Serve.{no_file, sent_name}

-- One of some channels, named with their numbers of messages, is one that a user reads.
pub data Reads (h : Hub) (u : User) : Dict ℕ ℕ → Type 0 where
  here :
      {cid n : ℕ} {refs : Dict ℕ ℕ} (ch : Channel)
      → lookup cid h.st.channels ≡ some ch
      → rank_readonly ≤ rank_in u ch
      → Reads h u ((cid, n) ∷ refs)
  there : {cid n : ℕ} {refs : Dict ℕ ℕ} → Reads h u refs → Reads h u ((cid, n) ∷ refs)

-- Who may have a file: a server admin, or a reader of a channel with a message about it.
abbrev pub MayHave : Hub → User → Text → Type 0
MayHave h u fid = (srv_admin ≤ srv_rank u) ⊎ Reads h u (refs_of h fid)

-- The answer to a request for a file.
pub data Serves (found : Text → Option Text) (u : User) (fid : Text) (h : Hub)
    : Answer → Type 0 where
  given :
      (base : Text)
      → found fid ≡ some base
      → MayHave h u fid
      → Serves found u fid h (Answer.download (sent_name fid base))
  not_there : found fid ≡ none → Serves found u fid h no_file
  not_allowed : ¬ MayHave h u fid → Serves found u fid h no_file
