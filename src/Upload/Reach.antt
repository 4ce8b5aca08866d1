-- ===== src/Upload/Reach.antt =====
-- internal/upload/upload.go: the calls of rclone and of the network that test a destination, upload a
-- file and make a directory. rclone, the network and the clock are the input.
use ivault.Common.{ℕ, Bool, Option, none, some, List, [], ◌∷◌, ◌++◌, any, if◌then◌else◌}
use ivault.Common.Text.{Text, codes, text_eq, trim_space}
use ivault.Common.Decimal.{format_uint}
use ivault.Upload.{Destination}
use ivault.Upload.Rclone.{rclone_env}

-- What a command with its arguments and its added variables comes to: the milliseconds, the output,
-- and the error's text, `none` for nil.
pub record Ran : Type 0 where
  pub ms : ℕ
  pub out : Text
  pub err : Option Text

-- `run` is exec.Command, `dial` net.DialTimeout with the milliseconds, `quote` strconv.Quote.
pub record Tools : Type 0 where
  pub run : List Text → List Text → Ran
  pub dial : Text → ℕ × Option Text
  pub quote : Text → Text
  pub getenv : Text → Text

-- obscurePassword
unfoldable pub obscure_password : Tools → Text → Text
unfolding trim_space
obscure_password t p =
    let r = t.run (codes "rclone" ∷ codes "obscure" ∷ p ∷ []) [] in
    elim r.err [ none ↦ trim_space r.out | some e ↦ [] ]

-- The environment that setupRCloneEnv adds.
unfoldable pub env_of : Tools → Destination → List Text
unfolding rclone_env obscure_password
env_of t target = rclone_env (obscure_password t) t.getenv target

abbrev pub drive_error : Ran → ℕ × Option Text
drive_error r = elim r.err [
  | none ↦ (r.ms, none)
  | some e ↦ (
    r.ms,
    some (codes "google drive check failed: " ++ e ++ codes " (" ++ trim_space r.out ++ codes ")"),
  )
]

abbrev pub port_of : Text → ℕ
port_of kind =
    if text_eq kind (codes "ftp") then 21 else if text_eq kind (codes "sftp") then 22 else 445

-- TestReachable: the milliseconds, and the error's text.
unfoldable pub test_reachable : Tools → Destination → ℕ × Option Text
unfolding text_eq any env_of trim_space format_uint
test_reachable t target =
    if text_eq target.type (codes "google_drive")
    then drive_error (
        t.run
          (codes "rclone"
            ∷ codes "lsd"
            ∷ codes "--config"
            ∷ codes "/dev/null"
            ∷ codes "REMOTE:"
            ∷ [])
          (env_of t target))
    else if any (text_eq target.type) (codes "smb" ∷ codes "sftp" ∷ codes "ftp" ∷ [])
    then if text_eq target.host []
      then (0, some (codes "no host configured for " ++ target.type ++ codes " destination"))
      else t.dial (target.host ++ codes ":" ++ format_uint (port_of target.type))
    else (0, some (codes "reachability test not supported for type " ++ t.quote target.type))

-- How os.Pipe, Start and Wait of uploadFile end, each with an error's text, and the context.
pub record Attempt : Type 0 where
  pub pipe : Option Text
  pub start : Option Text
  pub wait : Option Text
  pub cancelled : Bool

abbrev pub upload_args : Text → Text → List Text
upload_args src dst =
    codes "rclone"
    ∷ codes "copyto"
    ∷ codes "--config"
    ∷ codes "/dev/null"
    ∷ codes "--retries"
    ∷ codes "3"
    ∷ codes "--low-level-retries"
    ∷ codes "10"
    ∷ codes "--stats"
    ∷ codes "1s"
    ∷ codes "-vv"
    ∷ src
    ∷ dst
    ∷ []

abbrev pub error_of : Attempt → Option Text
error_of a = elim a.pipe [
  | some e ↦ some (codes "create pipe: " ++ e)
  | none ↦ elim a.start [
    | some e ↦ some (codes "rclone start: " ++ e)
    | none ↦ elim a.wait [
      | some e ↦ some (if a.cancelled then codes "cancelled" else codes "rclone: " ++ e)
      | none ↦ none
    ]
  ]
]

-- uploadFile's error, `none` for nil; `launch` is the command with its arguments and variables.
unfoldable pub upload_file :
    Tools → (List Text → List Text → Attempt) → Text → Text → Destination → Option Text
unfolding env_of
upload_file t launch src dst target = error_of (launch (upload_args src dst) (env_of t target))

-- createRemoteDir
unfoldable pub create_remote_dir : Tools → Text → Destination → Option Text
unfolding env_of
create_remote_dir t path target =
    (t.run (codes "rclone" ∷ codes "mkdir" ∷ codes "--config" ∷ codes "/dev/null" ∷ path ∷ [])
      (env_of t target)).err
