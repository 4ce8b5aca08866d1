-- ===== src/Upload/Rclone.antt =====
-- internal/upload/upload.go: the environment that configures rclone for a destination, and the
-- lines of it that are logged. `obscure` is rclone's own command, `getenv` the process's variables.
-- The log lines that call MaskSecret are left out.
pub mod Redacted
use ivault.Common.{
  ℕ, ◌≡◌, refl, Bool, true, false, ◌||◌, Option, none, some, List, [], ◌∷◌, ◌++◌, inl, inr, any,
  Bool-cases, arith, if◌then◌else◌,
}
use ivault.Common.Text.{Text, codes, text_eq, has_prefix, contains, cut}
use ivault.Upload.{Destination}

-- addEnv, for the remote named REMOTE.
unfoldable pub env_pair : Text → Text → List Text
env_pair key value =
    (codes "RCLONE_CONFIG_REMOTE_" ++ key ++ b'=' ∷ value)
    ∷ (codes "RCLONE_CONFIG_remote_" ++ key ++ b'=' ∷ value)
    ∷ []

abbrev pub env_unless_empty : Text → Text → List Text
env_unless_empty key [] = []
env_unless_empty key (c ∷ value) = env_pair key (c ∷ value)

abbrev pub or_else : Text → Text → Text
or_else [] other = other
or_else (c ∷ s) other = c ∷ s

module _ (obscure getenv : Text → Text) where
  unfoldable pub login_env : Text → Destination → List Text
  unfolding env_pair
  login_env kind t =
      env_pair (codes "TYPE") kind
      ++ env_pair (codes "HOST") t.host
      ++ env_pair (codes "USER") t.username
      ++ env_pair (codes "PASS") (obscure t.password)

  unfoldable pub drive_env : Destination → List Text
  unfolding env_pair
  drive_env t =
      env_pair (codes "TYPE") (codes "drive")
      ++ env_pair (codes "SCOPE") (codes "drive.file")
      ++ env_unless_empty (codes "CLIENT_ID")
          (or_else t.client_id (getenv (codes "GOOGLE_CLIENT_ID")))
      ++ env_unless_empty (codes "CLIENT_SECRET")
          (or_else t.client_secret (getenv (codes "GOOGLE_CLIENT_SECRET")))
      ++ env_pair (codes "TOKEN") (
          codes "{\"access_token\":\"\",\"token_type\":\"Bearer\",\"refresh_token\":\""
          ++ t.password
          ++ codes "\",\"expiry\":\"0001-01-01T00:00:00Z\"}")
      ++ env_pair (codes "ROOT_FOLDER_ID") t.subfolder

  -- What setupRCloneEnv adds to the environment of the process.
  unfoldable pub rclone_env : Destination → List Text
  unfolding login_env drive_env env_pair text_eq
  rclone_env t =
      if text_eq t.type (codes "smb")
      then login_env (codes "smb") t ++ env_unless_empty (codes "DOMAIN") t.domain
      else if text_eq t.type (codes "sftp")
      then login_env (codes "sftp") t
      else if text_eq t.type (codes "google_drive")
      then drive_env t
      else []

unfoldable pub is_secret : Text → Bool
unfolding contains
is_secret key =
    contains key (codes "_PASS")
    || contains key (codes "_TOKEN")
    || contains key (codes "_CLIENT_SECRET")

abbrev pub env_line : Option (Text × Text) → List Text
env_line none = []
env_line (some (key, value)) =
    (codes "  " ++ key ++ b'=' ∷ (if is_secret key then codes "[REDACTED]" else value)) ∷ []

-- The log lines for an environment.
unfoldable pub logged_env : List Text → List Text
unfolding cut has_prefix is_secret
logged_env [] = []
logged_env (e ∷ es) =
    let rest = logged_env es in
    if has_prefix e (codes "RCLONE_CONFIG_") then env_line (cut e b'=') ++ rest else rest
