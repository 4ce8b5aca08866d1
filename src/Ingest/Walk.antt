-- ===== src/Ingest/Walk.antt =====
-- internal/ingest/ingest.go: the callback of the walk over the mounted drive, and the walk, which
-- stops at the first error that the callback returns.
pub mod Counts
pub mod Settled
pub mod Again
pub mod Stuck
pub mod Staged
use ivault.Common.{ℕ, ◌+◌, Bool, true, false, Option, none, some, List, [], ◌∷◌, if◌then◌else◌}
use ivault.Common.Text.{Text}
use ivault.Common.Assoc.{Assoc}
use ivault.Db.{
  Db, Now, attempt, insert_file, update_file_state, set_file_ingest_ms, discovered, copied, queued,
}
use ivault.Db.Queries.{get_file_by_checksum}
use ivault.Ingest.{
  Filters, Verdict, verdict, provision_file, system_file, no_info, too_small, too_large,
  wrong_extension, wanted,
}
use ivault.Ingest.Copy.{CopyEnv, checksum_file, copy_and_verify}

pub record IngestResult : Type 0 where
  pub files_found : ℕ
  pub files_copied : ℕ
  pub bytes_copied : ℕ
  pub skipped : ℕ
  pub skipped_system : ℕ
  pub skipped_too_small : ℕ
  pub skipped_too_large : ℕ
  pub skipped_extension : ℕ

abbrev pub no_result : IngestResult
no_result = record {
  files_found = 0;
  files_copied = 0;
  bytes_copied = 0;
  skipped = 0;
  skipped_system = 0;
  skipped_too_small = 0;
  skipped_too_large = 0;
  skipped_extension = 0;
}

-- A file of the drive, with what the file system and the driver answer while it is visited.
pub record FileEntry : Type 0 where
  pub rel_path : Text
  pub info : Option ℕ
  pub first_read : Option Text
  pub lookup_ok : Bool
  pub insert_ok : Bool
  pub mkdir_ok : Bool
  pub copy : CopyEnv
  pub copy_ms : ℕ
  pub copied_ok : Bool
  pub queued_ok : Bool
  pub ms_ok : Bool
  pub now : Now

-- What WalkDir hands to the callback.
pub data Entry : Type 0 where
  walk_error directory : Entry
  file : FileEntry → Entry

-- The error that the callback returns.
pub data Fault : Type 0 where
  walk_failed checksum_failed db_lookup_failed db_insert_failed mkdir_failed copy_failed : Fault

-- What a walk changes: the tables, the upload queue, the counts.
pub record Cycle : Type 0 where
  pub db : Db
  pub queue : Assoc Text
  pub result : IngestResult

abbrev pub Visited : Type 0
Visited = Cycle × Option Fault

-- The driver's answer to the insert comes before the foreign key's.
unfoldable pub record_file : ℕ → FileEntry → ℕ → Text → Db → Option (ℕ × Db)
record_file session e size sum d =
    if e.insert_ok then insert_file e.now session e.rel_path size sum discovered d else none

-- The three updates after a copy; their errors are ignored.
unfoldable pub mark_queued : FileEntry → ℕ → Db → Db
mark_queued e id d =
    let d₁ = attempt e.copied_ok (update_file_state e.now id copied) d in
    let d₂ = attempt e.queued_ok (update_file_state e.now id queued) d₁ in
    attempt e.ms_ok (set_file_ingest_ms e.now id e.copy_ms) d₂

module _ (sha256 : Text → Text) where
  -- From MkdirAll to the end of the callback.
  unfoldable pub stage : FileEntry → ℕ → Text → ℕ → Cycle → Visited
  stage e size sum id s =
      if e.mkdir_ok
      then (let (queue, verified) = copy_and_verify sha256 e.copy e.rel_path sum s.queue in
          if verified
          then (
            record {
              db = mark_queued e id s.db;
              queue = queue;
              result = record s.result {
                files_copied = s.result.files_copied + 1;
                bytes_copied = s.result.bytes_copied + size;
              };
            },
            none,
          )
          else (record s { queue = queue }, some copy_failed))
      else (s, some mkdir_failed)

  -- From the insert on.
  unfoldable pub add : ℕ → FileEntry → ℕ → Text → Cycle → Visited
  add session e size sum s = elim (record_file session e size sum s.db) [
    | none ↦ (s, some db_insert_failed)
    | some (id, d) ↦ stage e size sum id (record s { db = d })
  ]

  -- The dedup by the checksum.
  unfoldable pub dedup : ℕ → FileEntry → ℕ → Text → Cycle → Visited
  dedup session e size sum s =
      if e.lookup_ok
      then elim (get_file_by_checksum s.db sum) [
        | some existing ↦
            (record s { result = record s.result { skipped = s.result.skipped + 1 } }, none)
        | none ↦ add session e size sum s
      ]
      else (s, some db_lookup_failed)

  unfoldable pub take_summed : ℕ → FileEntry → ℕ → Option Text → Cycle → Visited
  take_summed session e size none s = (s, some checksum_failed)
  take_summed session e size (some sum) s = dedup session e size sum s

  -- A file that the rules let through.
  unfoldable pub take_in : ℕ → FileEntry → ℕ → Cycle → Visited
  unfolding checksum_file take_summed
  take_in session e size s = take_summed session e size (checksum_file sha256 e.first_read) s

  -- What the callback does with a file, by the verdict of the ignore rules.
  unfoldable pub handle : ℕ → FileEntry → Verdict → Cycle → Visited
  handle session e provision_file s = (s, none)
  handle session e system_file s =
      (record s { result = record s.result { skipped_system = s.result.skipped_system + 1 } }, none)
  handle session e no_info s = (s, none)
  handle session e too_small s = (
    record s { result = record s.result { skipped_too_small = s.result.skipped_too_small + 1 } },
    none,
  )
  handle session e too_large s = (
    record s { result = record s.result { skipped_too_large = s.result.skipped_too_large + 1 } },
    none,
  )
  handle session e wrong_extension s = (
    record s { result = record s.result { skipped_extension = s.result.skipped_extension + 1 } },
    none,
  )
  handle session e (wanted size) s =
      take_in session e size
        (record s { result = record s.result { files_found = s.result.files_found + 1 } })

  unfoldable pub visit : Filters → ℕ → Entry → Cycle → Visited
  visit filters session walk_error s = (s, some walk_failed)
  visit filters session directory s = (s, none)
  visit filters session (file e) s = handle session e (verdict filters e.rel_path e.info) s

  unfoldable pub walk : Filters → ℕ → List Entry → Cycle → Visited
  walk filters session [] s = (s, none)
  walk filters session (e ∷ es) s =
      let (s', fault) = visit filters session e s in
      let rest = walk filters session es s' in elim fault [ none ↦ rest | some x ↦ (s', some x) ]
