-- ===== src/Boot/Accounts.antt =====
-- The accounts that are counted anew at the start (code/hub.go, `indexFiles`).
use back_channel.Prelude.{◌≡◌, ℤ_eq, ℕ_eq, list_eq}
use back_channel.Prelude.Dict.{Dict}
use back_channel.Prelude.Text.{Text}
use back_channel.Hub.{Hub}

-- Neither the bytes charged, nor the bytes in all, nor the files are touched.
pub record SameAccounts (h h' : Hub) : Type 0 where
  pub used : h'.used ≡ h.used
  pub total : h'.total_bytes ≡ h.total_bytes

-- What references are counted from changes no account, and no file.
SameFiles : Hub → Hub → Type 0
SameFiles h h' = SameAccounts h h' × (h'.st.files ≡ h.st.files)
