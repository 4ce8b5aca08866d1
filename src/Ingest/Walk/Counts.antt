-- ===== src/Ingest/Walk/Counts.antt =====
-- The counts of a walk (internal/ingest/ingest.go).
use ivault.Common.{ℕ, suc, ◌+◌, ◌≡◌, Option, none, some, List, [], ◌∷◌, arith}
use ivault.Common.Text.{Text}
use ivault.Ingest.{Filters, Verdict, provision_file, wanted}
use ivault.Ingest.Walk.{
  Cycle, FileEntry, Entry, Fault, IngestResult, walk_error, directory, file, stage, add, dedup,
  take_in, handle, visit, walk,
}

-- How far the files found are ahead of the files settled: one file, where an error stopped it.
abbrev pub behind : Option Fault → ℕ
behind none = 0
behind (some Fault.walk_failed) = 0
behind (some _) = 1

module _ (sha256 : Text → Text) where
  abbrev settled : IngestResult → ℕ
  settled r = r.files_copied + r.skipped

  take_in_counts :
      (session : ℕ) (e : FileEntry) (size : ℕ) (s : Cycle)
      → let (s', fault) = take_in sha256 session e size s in
        (s'.result.files_found ≡ s.result.files_found)
        × (settled s'.result + behind fault ≡ suc (settled s.result))
  unfolding take_in dedup add stage
  take_in_counts session e size s = ground arith

  handle_counts :
      (session : ℕ) (e : FileEntry) (v : Verdict) (s : Cycle)
      → s.result.files_found ≡ settled s.result
      → let (s', fault) = handle sha256 session e v s in
        s'.result.files_found ≡ settled s'.result + behind fault
  unfolding handle
  handle_counts session e provision_file s h = omega arith
  handle_counts session e (wanted size) s h = ground (
    arith,
    take_in_counts session e size
        (record s { result = record s.result { files_found = s.result.files_found + 1 } }),
  )
  handle_counts session e _ s h = omega arith

  visit_counts :
      (filters : Filters) (session : ℕ) (e : Entry) (s : Cycle)
      → s.result.files_found ≡ settled s.result
      → let (s', fault) = visit sha256 filters session e s in
        s'.result.files_found ≡ settled s'.result + behind fault
  unfolding visit
  visit_counts filters session walk_error s h = omega arith
  visit_counts filters session directory s h = omega arith
  visit_counts filters session (file e) s h = handle_counts session e _ s h

  -- A walk that starts with every found file copied or skipped ends so if it meets no error, and
  -- with exactly one file more found than settled if an error of a found file stopped it.
  pub walk_counts :
      (filters : Filters) (session : ℕ) (es : List Entry) (s : Cycle)
      → s.result.files_found ≡ s.result.files_copied + s.result.skipped
      → let (s', fault) = walk sha256 filters session es s in
        s'.result.files_found ≡ s'.result.files_copied + s'.result.skipped + behind fault
  unfolding walk
  walk_counts filters session [] s h = omega arith
  walk_counts filters session (e ∷ es) s h = ground (
    arith,
    visit_counts filters session e s h,
    walk_counts filters session es (visit sha256 filters session e s).0,
  )
