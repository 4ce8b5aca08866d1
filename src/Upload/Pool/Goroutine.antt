-- ===== src/Upload/Pool/Goroutine.antt =====
-- internal/upload/upload.go: one goroutine of `UploadAll`, step by step. A step holds a mutex or is
-- one call; the answers of the file system, of the driver and of rclone come with it.
use ivault.Common.{
  ℕ, ◌+◌, Bool, not, Option, none, some, List, [], ◌∷◌, ◌++◌, map, any, leb, if◌then◌else◌,
}
use ivault.Common.Text.{Text, codes, text_eq}
use ivault.Common.Assoc.{Assoc, lookup, erase}
use ivault.Db.{
  Db, File, Now, attempt, update_file_state, update_file_error, update_file_uploaded,
  set_file_upload_ms, abandoned, uploading, queued, failed,
}
use ivault.Upload.{
  max_upload_attempts, Destination, UploadConfig, remote_rel, remote_dst, display_name,
}

-- What a step of a task is told: whether the staged file is there, the error of rclone (`none`
-- for success) and its time, whether the file can be removed, and which statements succeed.
pub record Answer : Type 0 where
  pub now : Now
  pub present : Bool
  pub error : Option Text
  pub ms : ℕ
  pub removable : Bool
  pub state_ok : Bool
  pub error_ok : Bool
  pub uploaded_ok : Bool
  pub ms_ok : Bool

-- A copy that rclone reported as done: where it went and what the staged file held.
pub record Delivery : Type 0 where
  pub target : Destination
  pub remote_path : Text
  pub bytes : Option Text

-- The state that the goroutines share. `made` has the directories that prepDest asked for,
-- `failures` the destinations of the log lines "upload FAILED", `cancelled` is gctx.Err() != nil.
pub record Shared : Type 0 where
  pub db : Db
  pub queue : Assoc Text
  pub dead : List Text
  pub prepped : List Text
  pub made : List Text
  pub uploaded : List Text
  pub used : List Text
  pub failures : List Text
  pub deliveries : List Delivery
  pub cancelled : Bool

-- Where a goroutine is: before its first statement, at the head of the loop with the destinations
-- left and the last error, between the test of deadDest and the return of uploadFile, or back with
-- nil or with an error.
pub data Phase : Type 0 where
  starting : Phase
  choosing : List Destination → Option Text → Phase
  sending : Destination → List Destination → Option Text → Phase
  done stopped : Phase

pub record Task : Type 0 where
  pub row : File
  pub phase : Phase

-- os.Stat, and the state "uploading".
unfoldable pub begin : UploadConfig → Answer → File → Shared → Phase × Shared
unfolding update_file_state
begin cfg a f s =
    if not a.present
    then (done, record s { db = attempt a.state_ok (update_file_state a.now f.id abandoned) s.db })
    else (
      choosing cfg.destinations none,
      record s { db = attempt a.state_ok (update_file_state a.now f.id uploading) s.db },
    )

-- No destination took the file.
abbrev pub message : Option Text → Text
message none = codes "no reachable destination"
message (some e) = e

unfoldable pub give_up : Answer → File → Option Text → Shared → Phase × Shared
unfolding update_file_state update_file_error
give_up a f last_err s =
    let d = attempt a.error_ok (update_file_error a.now f.id (message last_err)) s.db in
    let next = if leb max_upload_attempts (f.upload_attempts + 1) then abandoned else failed in
    (done, record s { db = attempt a.state_ok (update_file_state a.now f.id next) d })

-- The closure prepDest: the directories are asked for once for each destination.
unfoldable pub prep_dest : List Text → Destination → Shared → Shared
unfolding remote_dst any text_eq
prep_dest dirs target s =
    if any (text_eq target.id) s.prepped
    then s
    else record s { prepped = target.id ∷ s.prepped; made = s.made ++ map (remote_dst target) dirs }

-- The head of the loop over the destinations.
unfoldable pub choose :
    List Text → Answer → File → List Destination → Option Text → Shared → Phase × Shared
unfolding give_up prep_dest any text_eq
choose dirs a f [] last_err s = give_up a f last_err s
choose dirs a f (t ∷ ts) last_err s =
    if any (text_eq t.id) s.dead
    then (choosing ts last_err, s)
    else (sending t ts last_err, prep_dest dirs t s)

-- A map used as a set.
abbrev pub add_key : Text → List Text → List Text
add_key k ks = if any (text_eq k) ks then ks else k ∷ ks

-- uploadFile returned nil.
unfoldable pub record_upload : UploadConfig → Answer → File → Destination → Shared → Phase × Shared
unfolding update_file_uploaded set_file_upload_ms remote_dst remote_rel erase lookup display_name
    any text_eq
record_upload cfg a f t s =
    let path = remote_dst t (remote_rel cfg f.filename) in
    let d = attempt a.uploaded_ok (update_file_uploaded a.now f.id (display_name t) path) s.db in
    (
      done,
      record s {
        db = attempt a.ms_ok (set_file_upload_ms a.now f.id a.ms) d;
        queue = if a.removable then erase f.filename s.queue else s.queue;
        uploaded = s.uploaded ++ f.filename ∷ [];
        used = add_key t.id s.used;
        deliveries =
            record { target = t; remote_path = path; bytes = lookup f.filename s.queue }
            ∷ s.deliveries;
      },
    )

-- uploadFile returned an error. A goroutine that returns an error cancels the group's context.
unfoldable pub upload_failed :
    Answer → File → Destination → List Destination → Text → Shared → Phase × Shared
unfolding update_file_state
upload_failed a f t ts e s =
    if s.cancelled
    then (stopped, record s { db = attempt a.state_ok (update_file_state a.now f.id queued) s.db })
    else (choosing ts (some e), record s { dead = t.id ∷ s.dead; failures = t.id ∷ s.failures })

unfoldable pub finish_upload :
    UploadConfig
    → Answer
    → File
    → Destination
    → List Destination
    → Option Text
    → Shared
    → Phase × Shared
unfolding record_upload upload_failed
finish_upload cfg a f t ts none s = record_upload cfg a f t s
finish_upload cfg a f t ts (some e) s = upload_failed a f t ts e s

-- The next step of a goroutine.
unfoldable pub advance : UploadConfig → List Text → Answer → File → Phase → Shared → Phase × Shared
unfolding begin choose finish_upload
advance cfg dirs a f starting s = begin cfg a f s
advance cfg dirs a f (choosing ts last_err) s = choose dirs a f ts last_err s
advance cfg dirs a f (sending t ts last_err) s = finish_upload cfg a f t ts a.error s
advance cfg dirs a f done s = (done, s)
advance cfg dirs a f stopped s = (stopped, s)
