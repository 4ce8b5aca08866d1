-- ===== src/Db.antt =====
-- internal/db: the tables that the daemon keeps in SQLite, and one function for each statement.
-- A table is the list of its rows by increasing id. A statement that the driver refuses changes
-- nothing; `attempt` is a statement with the driver's answer. Times are the texts that SQLite
-- stores; `Now` holds CURRENT_TIMESTAMP and strftime('%Y-%m-%d %H:%M:%f').
pub mod Queries
pub mod Delta
pub mod Config
pub mod Known
pub mod Rows
pub mod Opening
pub mod Migrated
use ivault.Common.{
  ℕ, ◌+◌, Bool, true, false, not, ◌&&◌, ◌||◌, Option, none, some, List, [], ◌∷◌, ◌++◌, map, any,
  ltb, leb, ◌==◌, if◌then◌else◌,
}
use ivault.Common.Text.{Text, codes, text_eq}
use ivault.Common.Assoc.{Assoc, lookup, insert}

pub data FileState : Type 0 where
  discovered copied queued uploading uploaded failed abandoned deleted : FileState

abbrev pub file_state_number : FileState → ℕ
file_state_number discovered = 0
file_state_number copied = 1
file_state_number queued = 2
file_state_number uploading = 3
file_state_number uploaded = 4
file_state_number failed = 5
file_state_number abandoned = 6
file_state_number deleted = 7

abbrev pub file_state_eq : FileState → FileState → Bool
file_state_eq a b = file_state_number a == file_state_number b

pub record Now : Type 0 where
  pub stamp : Text
  pub millis : Text

-- A row of `files`. The column destination_id, which nothing writes, is left out.
pub record File : Type 0 where
  pub id : ℕ
  pub session_id : ℕ
  pub filename : Text
  pub size_bytes : ℕ
  pub checksum : Text
  pub state : FileState
  pub discovered_at : Text
  pub copied_at : Option Text
  pub queued_at : Option Text
  pub uploaded_at : Option Text
  pub deleted_at : Option Text
  pub upload_attempts : ℕ
  pub destination_name : Option Text
  pub remote_path : Option Text
  pub error_message : Option Text
  pub ingest_ms : Option ℕ
  pub upload_ms : Option ℕ
  pub updated_at : Option Text

pub record Session : Type 0 where
  pub id : ℕ
  pub started_at : Text
  pub ended_at : Option Text
  pub status : Text
  pub files_found : ℕ
  pub files_copied : ℕ
  pub bytes_copied : ℕ

pub record LogRow : Type 0 where
  pub id : ℕ
  pub ts : Text
  pub level : Text
  pub component : Text
  pub message : Text

-- `next_file` and `next_session` are the AUTOINCREMENT counters.
pub record Db : Type 0 where
  pub config : Assoc Text
  pub files : List File
  pub next_file : ℕ
  pub sessions : List Session
  pub next_session : ℕ
  pub logs : List LogRow
  pub next_log : ℕ

abbrev pub empty_db : Db
empty_db = record {
  config = [];
  files = [];
  next_file = 1;
  sessions = [];
  next_session = 1;
  logs = [];
  next_log = 1;
}

-- A statement that the driver carries out or refuses.
abbrev pub attempt : Bool → (Db → Db) → Db → Db
attempt true f d = f d
attempt false f d = d

-- The config table.
-- The column updated_at of the config table, which nothing reads, is left out.
unfoldable pub set_config : Text → Text → Db → Db
unfolding insert
set_config key value d = record d { config = insert key value d.config }

-- `none` is sql.ErrNoRows.
unfoldable pub get_config : Db → Text → Option Text
unfolding lookup
get_config d key = lookup key d.config

-- The log table.
unfoldable pub log : Now → Text → Text → Text → Db → Db
log now level component message d = record d {
  logs =
      d.logs
      ++ record {
        id = d.next_log;
        ts = now.stamp;
        level = level;
        component = component;
        message = message;
      }
        ∷ [];
  next_log = d.next_log + 1;
}

-- Sessions.
unfoldable pub start_session : Now → Db → ℕ × Db
start_session now d = (
  d.next_session,
  record d {
    sessions =
        d.sessions
        ++ record {
          id = d.next_session;
          started_at = now.stamp;
          ended_at = none;
          status = codes "active";
          files_found = 0;
          files_copied = 0;
          bytes_copied = 0;
        }
          ∷ [];
    next_session = d.next_session + 1;
  },
)

-- `UPDATE … WHERE id = ?` on the sessions and on the files.
unfoldable pub end_session : Now → ℕ → ℕ → ℕ → ℕ → Text → Db → Db
end_session now id found kept bytes status d = record d {
  sessions =
      map
        (λ (s : Session).
          if s.id == id
          then record s {
            ended_at = some now.stamp;
            status = status;
            files_found = found;
            files_copied = kept;
            bytes_copied = bytes;
          }
          else s)
        d.sessions;
}

unfoldable pub update_row : ℕ → (File → File) → List File → List File
update_row id f [] = []
update_row id f (r ∷ rs) = (if r.id == id then f r else r) ∷ update_row id f rs

unfoldable pub update_file : ℕ → (File → File) → Db → Db
unfolding update_row
update_file id f d = record d { files = update_row id f d.files }

-- What an insert gives: a new row, in the state that the caller asks for.
unfoldable pub new_file : Now → ℕ → ℕ → Text → ℕ → Text → FileState → File
new_file now id session filename size checksum state = record {
  id = id;
  session_id = session;
  filename = filename;
  size_bytes = size;
  checksum = checksum;
  state = state;
  discovered_at = now.stamp;
  copied_at = none;
  queued_at = none;
  uploaded_at = none;
  deleted_at = none;
  upload_attempts = 0;
  destination_name = none;
  remote_path = none;
  error_message = none;
  ingest_ms = none;
  upload_ms = none;
  updated_at = some now.millis;
}

unfoldable pub has_session : ℕ → List Session → Bool
has_session id [] = false
has_session id (s ∷ ss) = if s.id == id then true else has_session id ss

-- The foreign key on sessions(id) is enforced: `none` is the error.
unfoldable pub insert_file : Now → ℕ → Text → ℕ → Text → FileState → Db → Option (ℕ × Db)
unfolding new_file
insert_file now session filename size checksum state d =
    if has_session session d.sessions
    then some (
      d.next_file,
      record d {
        files = d.files ++ new_file now d.next_file session filename size checksum state ∷ [];
        next_file = d.next_file + 1;
      },
    )
    else none

-- The column that goes with a state, in the `switch` of UpdateFileState.
abbrev pub stamp_state : Now → FileState → File → File
stamp_state now copied f = record f { copied_at = some now.stamp }
stamp_state now queued f = record f { queued_at = some now.stamp }
stamp_state now uploaded f = record f { uploaded_at = some now.stamp }
stamp_state now deleted f = record f { deleted_at = some now.stamp }
stamp_state now _ f = f

unfoldable pub set_state : Now → FileState → File → File
set_state now s f = record (stamp_state now s f) { state = s; updated_at = some now.millis }

unfoldable pub update_file_state : Now → ℕ → FileState → Db → Db
unfolding update_file set_state
update_file_state now id s d = update_file id (set_state now s) d

unfoldable pub set_file_ingest_ms : Now → ℕ → ℕ → Db → Db
unfolding update_file
set_file_ingest_ms now id ms d =
    update_file id (λ f. record f { ingest_ms = some ms; updated_at = some now.millis }) d

unfoldable pub set_file_upload_ms : Now → ℕ → ℕ → Db → Db
unfolding update_file
set_file_upload_ms now id ms d =
    update_file id (λ f. record f { upload_ms = some ms; updated_at = some now.millis }) d

unfoldable pub update_file_error : Now → ℕ → Text → Db → Db
unfolding update_file
update_file_error now id msg d =
    update_file id
      (λ f. record f {
        error_message = some msg;
        upload_attempts = f.upload_attempts + 1;
        updated_at = some now.millis;
      })
      d

unfoldable pub update_file_uploaded : Now → ℕ → Text → Text → Db → Db
unfolding update_file
update_file_uploaded now id dest_name remote_path d =
    update_file id
      (λ f. record f {
        state = uploaded;
        uploaded_at = some now.stamp;
        updated_at = some now.millis;
        destination_name = some dest_name;
        remote_path = some remote_path;
      })
      d

-- Unlike the other updates this one leaves updated_at as it is.
abbrev pub unstick : File → File
unstick f = if file_state_eq f.state uploading then record f { state = queued } else f

unfoldable pub reset_stuck_files : Db → Db
reset_stuck_files d = record d { files = map unstick d.files }
