-- ===== src/Witnesses/Cycles.antt =====
-- Tests and instances for internal/ingest.
use ivault.Common.{◌≡◌, refl, true, false, none, some, List, [], ◌∷◌, arith, select}
use ivault.Common.Text.{Text, codes, text_eq}
use ivault.Common.Int.{pos}
use ivault.Common.Assoc.{lookup}
use ivault.Common.Sorting.{sort_by}
use ivault.Db.{
  Db, File, Now, empty_db, start_session, has_session, new_file, insert_file, update_file,
  update_row, set_state, update_file_state, set_file_ingest_ms, update_file_uploaded,
}
use ivault.Db.Queries.{get_file_by_checksum, get_uploaded_files_eligible_for_deletion}
use ivault.Db.Rows.{IsWellFormed}
use ivault.Ingest.{Filters, verdict}
use ivault.Ingest.Copy.{CopyEnv, copy_and_verify}
use ivault.Ingest.Walk.{
  Cycle, Entry, FileEntry, no_result, directory, file, mark_queued, stage, add, dedup, take_in,
  handle, visit, walk, record_file,
}
use ivault.Ingest.Walk.Again.{IsQuiet, walk_again}
use ivault.Ingest.Walk.Staged.{IsStaged, visit-IsStaged}
use ivault.Ingest.Walk.Stuck.{Later, later_walks, healthy, failed_copy_skipped}
use ivault.Ingest.Retention.{Drive, Updates, is_below, apply_retention}
use ivault.Ingest.Retention.Uploaded.{OnlyUploaded, apply_retention-OnlyUploaded}
use ivault.Ingest.Retention.Stops.{Ended, apply_retention-Ended, apply_retention_takes_name}

abbrev noon : Now
noon = record { stamp = codes "12:00:00"; millis = codes "12:00:00.000" }

-- A stand-in for SHA-256 that puts a mark before the bytes.
abbrev mark : Text → Text
mark bytes = b'#' ∷ bytes

abbrev good_copy : CopyEnv
good_copy = record {
  opened = true;
  created = true;
  bytes = codes "xyz";
  complete = true;
  synced = true;
  removable = true;
}

abbrev short_copy : CopyEnv
short_copy = record good_copy { bytes = codes "x"; complete = false }

abbrev clip : FileEntry
clip = record {
  rel_path = codes "DCIM/clip.mov";
  info = some 3;
  first_read = some (codes "xyz");
  lookup_ok = true;
  insert_ok = true;
  mkdir_ok = true;
  copy = good_copy;
  copy_ms = 5;
  copied_ok = true;
  queued_ok = true;
  ms_ok = true;
  now = noon;
}

abbrev all_files : Filters
all_files = record {
  skip_system_files = true;
  exts = [];
  ext_include = false;
  min_size_bytes = 0;
  max_size_bytes = 0;
}

abbrev start : Cycle
unfolding start_session
start = record { db = (start_session noon empty_db).1; queue = []; result = no_result }

abbrev drive_files : List Entry
drive_files = directory ∷ file clip ∷ file (record clip { rel_path = codes ".hidden" }) ∷ []

walk_fine : (walk mark all_files 1 drive_files start).1 ≡ none
unfolding walk visit handle take_in dedup add stage record_file mark_queued verdict
    get_file_by_checksum insert_file has_session new_file copy_and_verify text_eq start_session
walk_fine = refl

walk_again_example :
    let t = record (walk mark all_files 1 drive_files start).0 { result = no_result } in
    IsQuiet t (walk mark all_files 2 drive_files t).0 (walk mark all_files 2 drive_files t).1
walk_again_example = walk_again mark all_files 1 2 drive_files start no_result walk_fine

start-IsWellFormed : IsWellFormed start.db
unfolding start_session
start-IsWellFormed = record { rising = tt; below_next = tt }

visit-IsStaged_example :
    IsStaged mark clip (codes "#xyz") 1 (visit mark all_files 1 (file clip) start).0
unfolding visit handle take_in dedup add stage record_file verdict get_file_by_checksum insert_file
    has_session new_file copy_and_verify text_eq start_session
visit-IsStaged_example =
    visit-IsStaged mark all_files 1 3 clip (codes "xyz") start start-IsWellFormed refl refl refl
      refl refl refl

abbrev torn : FileEntry
torn = record clip { copy = short_copy }

-- A walk of the next day, and one after the upload queue was emptied.
abbrev next_days : List Later
next_days =
    record { change = λ d. d; queue = []; filters = all_files; session = 1; entries = drive_files }
    ∷ record {
      change = λ d. d;
      queue = [];
      filters = all_files;
      session = 1;
      entries = file (healthy torn) ∷ [];
    }
    ∷ []

failed_copy_skipped_example :
    let s' = later_walks mark next_days (visit mark all_files 1 (file torn) start).0 in
    let again = visit mark all_files 2 (file (healthy torn)) s' in IsQuiet s' again.0 again.1
unfolding visit handle take_in dedup add stage record_file verdict get_file_by_checksum insert_file
    has_session new_file copy_and_verify text_eq start_session
failed_copy_skipped_example =
    failed_copy_skipped mark all_files 1 2 torn start next_days refl
      ((λ c d h. h), ((λ c d h. h), tt))

-- A drive of ten blocks with one for each file, nine of them taken by the one file it holds.
abbrev full_drive : Drive
full_drive = record {
  usage_of = elim [
    | [] ↦ some (record { blocks = 10; free = 10 })
    | f ∷ fs ↦ some (record { blocks = 10; free = 1 })
  ];
  refuses = λ name. false;
}

abbrev marks : Updates
marks = record { now = noon; update_ok = λ id. true }

abbrev uploaded_row : File
unfolding new_file
uploaded_row = new_file noon 1 1 (codes "clip.mov") 3 (codes "#xyz") ivault.Db.FileState.uploaded

abbrev archive : Db
archive = record empty_db { files = uploaded_row ∷ []; next_file = 2 }

archive-IsWellFormed : IsWellFormed archive
unfolding new_file
archive-IsWellFormed = record { rising = (tt, tt); below_next = (omega arith, tt) }

apply_retention-OnlyUploaded_example :
    OnlyUploaded noon archive
      (apply_retention full_drive marks true
        (pos 80)
        ((codes "clip.mov", codes "new") ∷ [])
        archive).0.db
apply_retention-OnlyUploaded_example =
    apply_retention-OnlyUploaded full_drive marks true (pos 80)
      ((codes "clip.mov", codes "new") ∷ []) archive archive-IsWellFormed

apply_retention-Ended_example :
    Ended full_drive 80
      (get_uploaded_files_eligible_for_deletion archive)
      (apply_retention full_drive marks true
        (pos 80)
        ((codes "clip.mov", codes "new") ∷ [])
        archive).0.files
apply_retention-Ended_example =
    apply_retention-Ended full_drive marks (pos 80) 80 ((codes "clip.mov", codes "new") ∷ [])
      archive (record { blocks = 10; free = 1 }) refl refl

apply_retention_takes_name_example :
    lookup
      (codes "clip.mov")
      (apply_retention full_drive marks true
        (pos 80)
        ((codes "clip.mov", codes "new") ∷ [])
        archive).0.files
    ≡ none
unfolding get_uploaded_files_eligible_for_deletion new_file is_below sort_by select
apply_retention_takes_name_example =
    apply_retention_takes_name full_drive marks (pos 80) 80 ((codes "clip.mov", codes "new") ∷ [])
      archive (record { blocks = 10; free = 1 }) uploaded_row [] refl refl refl refl refl
