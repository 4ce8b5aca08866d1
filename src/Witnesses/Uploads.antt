-- ===== src/Witnesses/Uploads.antt =====
-- Tests and instances for internal/upload/upload.go.
use mathlib.Core.List.{cons≢nil}
use ivault.Common.{◌≤◌, ◌⊎◌, ◌≡◌, refl, true, none, some, List, [], ◌∷◌, arith, All, select}
use ivault.Common.Text.{Text, codes, text_eq}
use ivault.Common.Int.{pos}
use ivault.Common.Assoc.{lookup}
use ivault.Common.Sorting.{sort_by}
use ivault.Db.{Db, File, Now, empty_db, new_file, queued}
use ivault.Db.Queries.{get_queued_files}
use ivault.Upload.{Destination, UploadConfig, unique_dirs}
use ivault.Upload.Rclone.{rclone_env, logged_env}
use ivault.Upload.Rclone.Redacted.{logged_env-rclone_env}
use ivault.Upload.Pool.{
  Answer, Event, Pool, launch, proceed, active, run, run_queued, start_pool, step, upload_all,
}
use ivault.Upload.Pool.Broken.{times_failed, upload_all_failures}
use ivault.Upload.Pool.Kept.{IsSafe, upload_all-IsSafe}
use ivault.Upload.Pool.Ordered.{IsFallback}
use ivault.Upload.Pool.Ends.{steps_left, is_active, IsOver, IsStep, run_ends}
use ivault.Upload.Pool.Fallback.{upload_all-Fallback}
use ivault.Upload.Pool.Rows.{IsCarriedOut}

abbrev noon : Now
noon = record { stamp = codes "12:00:00"; millis = codes "12:00:00.000" }

abbrev nas : Destination
nas = record {
  id = codes "1";
  name = codes "office";
  type = codes "smb";
  host = codes "nas";
  share = codes "video";
  subfolder = codes "in";
  username = [];
  password = [];
  domain = [];
  path = [];
  client_id = [];
  client_secret = [];
}

abbrev cloud : Destination
cloud = record nas { id = codes "2"; name = []; type = codes "google_drive" }

abbrev both : UploadConfig
both = record {
  upload_queue = codes "/nvme/upload_queue";
  destinations = nas ∷ cloud ∷ [];
  workers = pos 0;
  device_folder = codes "pc1";
}

abbrev clip : File
clip = new_file noon 1 1 (codes "d/a.mov") 3 (codes "sum") queued

abbrev table : Db
table = record empty_db { files = clip ∷ []; next_file = 2 }

abbrev fine : Answer
fine = record {
  now = noon;
  present = true;
  error = none;
  ms = 5;
  removable = true;
  state_ok = true;
  error_ok = true;
  uploaded_ok = true;
  ms_ok = true;
}

-- The NAS refuses, the cloud takes the file.
abbrev turns : List Event
turns =
    launch
    ∷ proceed 0 fine
    ∷ proceed 0 fine
    ∷ proceed 0 (record fine { error = some (codes "refused") })
    ∷ proceed 0 fine
    ∷ proceed 0 fine
    ∷ launch
    ∷ []

abbrev after : Pool
after =
    run both (unique_dirs both (clip ∷ []) []) turns
      (start_pool table ((codes "d/a.mov", codes "xyz") ∷ []))

after-upload_all :
    upload_all both true turns table ((codes "d/a.mov", codes "xyz") ∷ []) ≡ some after
unfolding upload_all run_queued start_pool get_queued_files new_file select sort_by
after-upload_all = refl

test_uploaded : after.shared.uploaded ≡ codes "d/a.mov" ∷ []
unfolding get_queued_files new_file select sort_by text_eq run start_pool unique_dirs
test_uploaded = refl

test_used : after.shared.used ≡ codes "2" ∷ []
unfolding get_queued_files new_file select sort_by text_eq run start_pool unique_dirs
test_used = refl

test_failures : after.shared.failures ≡ codes "1" ∷ []
unfolding get_queued_files new_file select sort_by text_eq run start_pool unique_dirs
test_failures = refl

test_made : after.shared.made ≡ codes "REMOTE:video/in/pc1/d" ∷ codes "REMOTE:pc1/d" ∷ []
unfolding get_queued_files new_file select sort_by text_eq run start_pool unique_dirs
test_made = refl

test_queue : after.shared.queue ≡ []
unfolding get_queued_files new_file select sort_by text_eq run start_pool unique_dirs
test_queue = refl

test_no_destinations : upload_all (record both { destinations = [] }) true [] table [] ≡ none
unfolding upload_all run_queued start_pool get_queued_files new_file select sort_by
test_no_destinations = refl

upload_all_failures_example : times_failed (codes "1") after.shared.failures ≤ 2
upload_all_failures_example =
    upload_all_failures both (codes "1") true turns table ((codes "d/a.mov", codes "xyz") ∷ [])
      after after-upload_all

upload_all-IsSafe_example : IsSafe both (codes "d/a.mov") (codes "xyz") after.shared
unfolding lookup text_eq
upload_all-IsSafe_example =
    upload_all-IsSafe both true turns table ((codes "d/a.mov", codes "xyz") ∷ []) after
      (codes "d/a.mov") (codes "xyz") refl after-upload_all

upload_all-Fallback_example :
    All (IsFallback (nas ∷ cloud ∷ []) after.shared.dead) after.shared.deliveries
upload_all-Fallback_example =
    upload_all-Fallback both true turns table ((codes "d/a.mov", codes "xyz") ∷ []) after
      after-upload_all

abbrev ok : IsCarriedOut Unit fine
ok = (refl, refl, refl, λ gone. tt)

abbrev hidden : Text → Text
hidden s = b'x' ∷ s

abbrev no_variable : Text → Text
no_variable s = []

test_ftp : logged_env (rclone_env hidden no_variable (record nas { type = codes "ftp" })) ≡ []
unfolding logged_env rclone_env text_eq
test_ftp = refl

logged_env-rclone_env_example :
    logged_env (rclone_env hidden no_variable cloud)
    ≡ logged_env (rclone_env hidden no_variable (record cloud { password = codes "token" }))
logged_env-rclone_env_example = logged_env-rclone_env hidden no_variable cloud (codes "token")

abbrev waiting_pool : Pool
waiting_pool = start_pool table ((codes "d/a.mov", codes "xyz") ∷ [])

run_ends_example :
    (2 ≤ steps_left both waiting_pool)
    × (IsOver (run both [] (launch ∷ proceed 0 fine ∷ []) waiting_pool)
        ⊎ ((e : Event) × IsStep both (run both [] (launch ∷ proceed 0 fine ∷ []) waiting_pool) e))
unfolding start_pool get_queued_files new_file select sort_by is_active active step
run_ends_example =
    run_ends both [] (launch ∷ proceed 0 fine ∷ []) fine waiting_pool
      ((omega arith, λ e. cons≢nil e), (refl, tt))
