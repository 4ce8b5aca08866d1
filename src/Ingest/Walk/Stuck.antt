-- ===== src/Ingest/Walk/Stuck.antt =====
-- What the walk of internal/ingest/ingest.go makes of a file whose copy once failed, and which
-- files it never records.
use ivault.Common.{
  ℕ, ◌≡◌, refl, Bool, true, false, Option, some, List, [], ◌∷◌, All, arith, Option-cases, inl, inr,
}
use ivault.Common.Text.{Text}
use ivault.Common.Assoc.{Assoc}
use ivault.Db.{Db}
use ivault.Db.Known.{known}
use ivault.Ingest.{Filters, Verdict, verdict, wanted, provision_file}
use ivault.Ingest.Walk.{
  Cycle, Entry, FileEntry, Fault, no_result, file, dedup, take_in, handle, visit, walk,
}
use ivault.Ingest.Walk.Settled.{IsSettledFile, add-known}
use ivault.Ingest.Walk.Again.{IsQuiet, visit-IsQuiet, known-walk}

-- The errors after which the file's row has been inserted.
abbrev pub is_late : Option Fault → Bool
is_late (some Fault.mkdir_failed) = true
is_late (some Fault.copy_failed) = true
is_late _ = false

-- The same file when everything answers: the drive, the driver and the upload queue.
abbrev pub healthy : FileEntry → FileEntry
healthy e = record e {
  lookup_ok = true;
  insert_ok = true;
  mkdir_ok = true;
  copied_ok = true;
  queued_ok = true;
  ms_ok = true;
}

pub record Later : Type 0 where
  pub change : Db → Db
  pub queue : Assoc Text
  pub filters : Filters
  pub session : ℕ
  pub entries : List Entry

-- As every statement of files.go does: none deletes a row or changes a checksum.
abbrev pub KeepsChecksums : Later → Type 0
KeepsChecksums l = (c : Text) (d : Db) → known c d.files ≡ true → known c (l.change d).files ≡ true

module _ (sha256 : Text → Text) where
  dedup_late :
      (session : ℕ) (e : FileEntry) (size : ℕ) (sum : Text) (s : Cycle)
      → is_late (dedup sha256 session e size sum s).1 ≡ true
      → known sum (dedup sha256 session e size sum s).0.db.files ≡ true
  unfolding dedup
  dedup_late session e size sum s h =
      ground (arith, add-known sha256 session e size sum s (λ bad. ground arith))

  handle_late :
      (session : ℕ) (e : FileEntry) (v : Verdict) (s : Cycle)
      → is_late (handle sha256 session e v s).1 ≡ true
      → IsSettledFile sha256 (healthy e) v (handle sha256 session e v s).0.db
  unfolding handle take_in
  handle_late session e provision_file s h = tt
  handle_late session e (wanted size) s h = elim (Option-cases e.first_read) [
    | inl unread ↦ cc (simp unread at h)
    | inr (bytes, r) ↦
        (bytes, r, refl, simp r (dedup_late session e size (sha256 bytes) _ (simp r at h)))
  ]
  handle_late session e _ s h = tt

  -- A later cycle: what else has changed the tables by then, the upload queue and the counts at its
  -- start, and its walk with the rules of that time.
  unfoldable pub later_walk : Later → Cycle → Cycle
  later_walk l s =
      (walk sha256 l.filters l.session l.entries
        (record { db = l.change s.db; queue = l.queue; result = no_result })).0

  unfoldable pub later_walks : List Later → Cycle → Cycle
  unfolding later_walk
  later_walks [] s = s
  later_walks (l ∷ ls) s = later_walks ls (later_walk l s)

  known-walks :
      (c : Text) (ls : List Later) (s : Cycle)
      → All KeepsChecksums ls
      → known c s.db.files ≡ true
      → known c (later_walks ls s).db.files ≡ true
  unfolding later_walks later_walk
  known-walks c [] s keep h = h
  known-walks c (l ∷ ls) s keep h = known-walks c ls (later_walk l s) keep.1 (
      known-walk sha256 c l.filters l.session l.entries
        (record { db = l.change s.db; queue = l.queue; result = no_result }) (keep.0 c s.db h))

  Settled-walks :
      (e : FileEntry) (v : Verdict) (ls : List Later) (s : Cycle)
      → All KeepsChecksums ls
      → IsSettledFile sha256 e v s.db
      → IsSettledFile sha256 e v (later_walks ls s).db
  Settled-walks e (wanted size) ls s keep (bytes, r, l, k) =
      (bytes, r, l, known-walks (sha256 bytes) ls s keep k)
  Settled-walks e _ ls s keep h = tt

  -- A file whose copy into the upload queue failed after its row was inserted is skipped by every
  -- later visit with the same bytes and rules, however many walks come before it and whatever else happens to
  -- the tables, where no checksum is lost, and to the upload queue: with everything in order, the
  -- visit meets no error, copies nothing, and leaves the tables and the upload queue as they are.
  pub failed_copy_skipped :
      (filters : Filters) (session session' : ℕ) (e : FileEntry) (s : Cycle) (ls : List Later)
      → is_late (visit sha256 filters session (file e) s).1 ≡ true
      → All KeepsChecksums ls
      → let s' = later_walks ls (visit sha256 filters session (file e) s).0 in
        let again = visit sha256 filters session' (file (healthy e)) s' in
        IsQuiet s' again.0 again.1
  unfolding visit
  failed_copy_skipped filters session session' e s ls h keep =
      let v = verdict filters e.rel_path e.info in
      visit-IsQuiet sha256 filters session' (file (healthy e)) _ (
        Settled-walks (healthy e) v ls (handle sha256 session e v s).0 keep
          (handle_late session e v s h))
