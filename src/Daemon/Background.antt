-- ===== src/Daemon/Background.antt =====
-- main.go: what follows a maintenance cycle in the background. The upload with its notes in the
-- config table, the folder of the device, and the recovery at start.
use ivault.Common.{
  ℕ, Bool, true, false, ◌&&◌, ◌||◌, Option, none, some, List, [], ◌∷◌, ◌++◌, any, take, leb, ltb,
  ◌==◌, if◌then◌else◌,
}
use ivault.Common.Text.{Text, codes, text_eq, trim_space, trim_by}
use ivault.Db.{Db, Now, attempt, log, set_config, reset_stuck_files}
use ivault.Upload.{Destination, display_name}

-- agent.RecordDestinationBackup
unfoldable pub record_destination_backup : Text → Text → Db → Db
unfolding text_eq set_config
record_destination_backup now id d =
    if text_eq id [] then d else set_config (codes "dest_backup_" ++ id) now d

unfoldable pub record_backups : Text → List Text → Db → Db
unfolding record_destination_backup
record_backups now [] d = d
record_backups now (id ∷ ids) d = record_backups now ids (record_destination_backup now id d)

-- The destination with the highest priority that took a backup names the last sync.
unfoldable pub record_last_destination : List Text → List Destination → Db → Db
unfolding any text_eq set_config display_name
record_last_destination used [] d = d
record_last_destination used (t ∷ ts) d =
    let rest = record_last_destination used ts d in
    if any (text_eq t.id) used
    then set_config (codes "last_sync_destination") (display_name t) d
    else rest

-- After UploadAll returned without an error; `now` is the time in RFC 3339.
unfoldable pub record_sync : Text → List Text → List Text → List Destination → Db → Db
unfolding set_config record_backups record_last_destination
record_sync now [] used dests d = d
record_sync now (f ∷ fs) used dests d =
    record_last_destination used dests
      (record_backups now used (set_config (codes "last_sync_at") now d))

-- What UploadAll gives back, in the background of the cycle.
pub data Upload : Type 0 where
  upload_error : Text → Upload
  uploads : List Text → List Text → Upload

-- The destinations of an upload; one whose JSON does not decode is left out.
unfoldable pub decode_destinations : (Text → Option Destination) → List Text → List Destination
decode_destinations decode [] = []
decode_destinations decode (raw ∷ raws) =
    let rest = decode_destinations decode raws in
    elim (decode raw) [ none ↦ rest | some d ↦ d ∷ rest ]

-- The rows and settings after the upload; log lines carry `line`, the text of their message.
unfoldable pub finish_background : Now → Text → Text → Upload → List Destination → Db → Db
unfolding log record_sync
finish_background t now line (upload_error e) dests d = log t (codes "error") (codes "upload") e d
finish_background t now line (uploads files used) dests d =
    record_sync now files used dests (log t (codes "info") (codes "upload") line d)

-- startupRecovery, after the unmount; `true` is a driver that carries the statement out.
unfoldable pub startup_recovery : Bool → Db → Db × Bool
unfolding reset_stuck_files
startup_recovery carried_out d = (attempt carried_out reset_stuck_files d, carried_out)

unfoldable pub is_kept : ℕ → Bool
is_kept c =
    (leb b'a' c && leb c b'z')
    || (leb b'A' c && leb c b'Z')
    || (leb b'0' c && leb c b'9')
    || c == b' '
    || c == b'.'
    || c == b'_'
    || c == b'-'

-- The loop of sanitizeFolderName; the flag is prevDash.
unfoldable pub replace_others : Bool → Text → Text
unfolding is_kept
replace_others prev_dash [] = []
replace_others prev_dash (c ∷ s) =
    let kept = replace_others false s in
    let dashed = replace_others true s in
    if is_kept c then c ∷ kept else if prev_dash then dashed else b'-' ∷ dashed

unfoldable pub sanitize_folder_name : Text → Text
unfolding trim_by trim_space replace_others
sanitize_folder_name s = trim_by (λ c. c == b'-') (trim_space (replace_others false (trim_space s)))

-- An id is taken to be ASCII, so that its first six bytes are its first six letters.
unfoldable pub upload_device_folder : Text → Text → Text
unfolding sanitize_folder_name text_eq trim_space
upload_device_folder device_name device_id =
    let name = sanitize_folder_name device_name in
    let named = if text_eq name [] then codes "Relay" else name in
    if text_eq (trim_space device_id) []
    then named
    else named ++ b'-' ∷ take 6 (trim_space device_id)

-- The hours from `start` to `end`, past midnight where start > end.
unfoldable pub in_schedule_window : ℕ → ℕ → ℕ → Bool
in_schedule_window h start stop =
    if start == stop
    then true
    else if ltb start stop
    then leb start h && ltb h stop
    else leb start h || ltb h stop
