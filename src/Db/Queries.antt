-- ===== src/Db/Queries.antt =====
-- internal/db: the queries. SQLite leaves the order of ties open; here ties keep the order of ids.
use ivault.Common.{
  ℕ, Bool, false, ◌||◌, Option, none, some, List, [], ◌∷◌, map, take, select, ltb, if◌then◌else◌,
}
use ivault.Common.Text.{Text, text_eq, text_lt}
use ivault.Common.Sorting.{sort_by}
use ivault.Db.{Db, File, FileState, file_state_eq, queued, failed, uploaded, LogRow}

-- The row with the largest id among those with the checksum.
abbrev pub newer : File → Option File → File
newer f none = f
newer f (some g) = if ltb f.id g.id then g else f

unfoldable pub latest : Text → List File → Option File
latest checksum [] = none
latest checksum (f ∷ fs) =
    let rest = latest checksum fs in
    if text_eq f.checksum checksum then some (newer f rest) else rest

-- GetFileByChecksum: `none` is the nil of "no such row".
unfoldable pub get_file_by_checksum : Db → Text → Option File
unfolding latest
get_file_by_checksum d checksum = latest checksum d.files

abbrev pub is_pending : File → Bool
is_pending f = file_state_eq f.state queued || file_state_eq f.state failed

unfoldable pub get_queued_files : Db → List File
get_queued_files d = sort_by (λ (f : File). f.discovered_at) (select is_pending d.files)

-- COALESCE(column, '')
abbrev pub coalesce : Option Text → Text
coalesce none = []
coalesce (some t) = t

pub record FileChange : Type 0 where
  pub checksum : Text
  pub filename : Text
  pub size_bytes : ℕ
  pub state : FileState
  pub upload_attempts : ℕ
  pub error_message : Text
  pub discovered_at : Text
  pub uploaded_at : Text
  pub updated_at : Text
  pub ingest_ms : Option ℕ
  pub upload_ms : Option ℕ
  pub destination : Text

unfoldable pub to_change : File → FileChange
to_change f = record {
  checksum = f.checksum;
  filename = f.filename;
  size_bytes = f.size_bytes;
  state = f.state;
  upload_attempts = f.upload_attempts;
  error_message = coalesce f.error_message;
  discovered_at = f.discovered_at;
  uploaded_at = coalesce f.uploaded_at;
  updated_at = coalesce f.updated_at;
  ingest_ms = f.ingest_ms;
  upload_ms = f.upload_ms;
  destination = coalesce f.destination_name;
}

-- `updated_at > ?`, which no text exceeds where the column is NULL.
abbrev pub is_after : Text → Option Text → Bool
is_after watermark none = false
is_after watermark (some t) = text_lt watermark t

abbrev pub change_key : File → Text
change_key f = coalesce f.updated_at

-- The rows of GetFilesChangedSince before LIMIT.
unfoldable pub changed_rows : List File → Text → List File
changed_rows files watermark =
    sort_by change_key (select (λ (f : File). is_after watermark f.updated_at) files)

unfoldable pub get_files_changed_since : Db → Text → ℕ → List FileChange
unfolding changed_rows to_change
get_files_changed_since d watermark limit =
    map to_change (take limit (changed_rows d.files watermark))

-- A NULL uploaded_at comes first.
unfoldable pub get_uploaded_files_eligible_for_deletion : Db → List File
get_uploaded_files_eligible_for_deletion d =
    sort_by (λ (f : File). coalesce f.uploaded_at)
      (select (λ (f : File). file_state_eq f.state uploaded) d.files)

unfoldable pub recent_logs : Db → ℕ → List LogRow
recent_logs d limit = take limit (mathlib.Core.List.reverse d.logs)
