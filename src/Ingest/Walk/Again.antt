-- ===== src/Ingest/Walk/Again.antt =====
-- A second walk over the same files (internal/ingest/ingest.go) finds nothing to do.
use mathlib.Core.Path.{subst}
use ivault.Common.{
  ℕ, ◌+◌, ◌≡◌, ◌∙◌, sym, true, Option, none, some, List, [], ◌∷◌, arith, All, Option-cases, inl,
  inr,
}
use ivault.Common.Text.{Text}
use ivault.Db.Queries.{get_file_by_checksum}
use ivault.Db.Known.{known, latest-known}
use ivault.Ingest.{Filters, Verdict, verdict, provision_file, wanted}
use ivault.Ingest.Walk.{
  Cycle, Visited, FileEntry, Entry, Fault, IngestResult, walk_error, directory, file, dedup,
  take_in, handle, visit, walk,
}
use ivault.Ingest.Walk.Settled.{IsSettled, IsSettledFile, visit-IsSettled, known-visit}

-- A step that copies nothing and changes neither the tables nor the upload queue.
pub record IsQuiet (s s' : Cycle) (fault : Option Fault) : Type 0 where
  pub fine : fault ≡ none
  pub same_db : s'.db ≡ s.db
  pub same_queue : s'.queue ≡ s.queue
  pub same_copied : s'.result.files_copied ≡ s.result.files_copied

module _ (sha256 : Text → Text) where
  dedup-IsQuiet :
      (session : ℕ) (e : FileEntry) (size : ℕ) (sum : Text) (s : Cycle)
      → e.lookup_ok ≡ true
      → known sum s.db.files ≡ true
      → IsQuiet s (dedup sha256 session e size sum s).0 (dedup sha256 session e size sum s).1
  unfolding dedup get_file_by_checksum
  dedup-IsQuiet session e size sum s l k = ground (arith, latest-known sum s.db.files k)

  handle-IsQuiet :
      (session : ℕ) (e : FileEntry) (v : Verdict) (s : Cycle)
      → IsSettledFile sha256 e v s.db
      → IsQuiet s (handle sha256 session e v s).0 (handle sha256 session e v s).1
  unfolding handle take_in
  handle-IsQuiet session e provision_file s h = ground arith
  handle-IsQuiet session e (wanted size) s (bytes, r, l, k) = simp r (
      ground (
        arith,
        dedup-IsQuiet session e size (sha256 bytes)
            (record s { result = record s.result { files_found = s.result.files_found + 1 } }) l k,
      ))
  handle-IsQuiet session e _ s h = ground arith

  pub visit-IsQuiet :
      (filters : Filters) (session : ℕ) (e : Entry) (s : Cycle)
      → IsSettled sha256 filters e s.db
      → IsQuiet s (visit sha256 filters session e s).0 (visit sha256 filters session e s).1
  unfolding visit
  visit-IsQuiet filters session walk_error s h = absurd h
  visit-IsQuiet filters session directory s h = ground arith
  visit-IsQuiet filters session (file e) s h = handle-IsQuiet session e _ s h

  walk_on :
      (filters : Filters) (session : ℕ) (e : Entry) (es : List Entry) (s : Cycle)
      → (visit sha256 filters session e s).1 ≡ none
      → walk sha256 filters session (e ∷ es) s
        ≡ walk sha256 filters session es (visit sha256 filters session e s).0
  unfolding walk
  walk_on filters session e es s h = rw (h, walk)

  walk_stop :
      (filters : Filters) (session : ℕ) (e : Entry) (es : List Entry) (s : Cycle) (x : Fault)
      → (visit sha256 filters session e s).1 ≡ some x
      → walk sha256 filters session (e ∷ es) s ≡ ((visit sha256 filters session e s).0, some x)
  unfolding walk
  walk_stop filters session e es s x h = rw (h, walk)

  walk-IsQuiet :
      (filters : Filters) (session : ℕ) (es : List Entry) (s : Cycle)
      → All (λ e. IsSettled sha256 filters e s.db) es
      → IsQuiet s (walk sha256 filters session es s).0 (walk sha256 filters session es s).1
  walk-IsQuiet filters session [] s h = unfold walk in ground arith
  walk-IsQuiet filters session (e ∷ es) s h =
      let q = visit-IsQuiet filters session e s h.0 in
      let hs : All (λ x. IsSettled sha256 filters x (visit sha256 filters session e s).0.db) es =
        rw q.same_db h.1 in
      let rest = walk-IsQuiet filters session es (visit sha256 filters session e s).0 hs in
      rw (walk_on filters session e es s q.fine) (record {
        fine = rest.fine;
        same_db = rest.same_db ∙ q.same_db;
        same_queue = rest.same_queue ∙ q.same_queue;
        same_copied = rest.same_copied ∙ q.same_copied;
      })

  IsSettled-visit :
      (filters : Filters) (session : ℕ) (e x : Entry) (s : Cycle)
      → IsSettled sha256 filters e s.db
      → IsSettled sha256 filters e (visit sha256 filters session x s).0.db
  IsSettled-visit filters session walk_error x s h = h
  IsSettled-visit filters session directory x s h = tt
  IsSettled-visit filters session (file e) x s h = keep (verdict filters e.rel_path e.info) h
    where
      keep :
          (v : Verdict)
          → IsSettledFile sha256 e v s.db
          → IsSettledFile sha256 e v (visit sha256 filters session x s).0.db
      keep provision_file k = tt
      keep (wanted size) k =
          (k.0, k.1, k.2, known-visit sha256 (sha256 k.0) filters session x s k.3)
      keep _ k = tt

  IsSettled-walk :
      (filters : Filters) (session : ℕ) (e : Entry) (es : List Entry) (s : Cycle)
      → IsSettled sha256 filters e s.db
      → IsSettled sha256 filters e (walk sha256 filters session es s).0.db
  IsSettled-walk filters session e [] s h = unfold walk in h
  IsSettled-walk filters session e (x ∷ es) s h =
      let k = IsSettled-visit filters session e x s h in
      elim (Option-cases (visit sha256 filters session x s).1) [
        | inl fine ↦
            rw (walk_on filters session x es s fine)
              (IsSettled-walk filters session e es (visit sha256 filters session x s).0 k)
        | inr (f, failed) ↦ rw (walk_stop filters session x es s f failed) k
      ]

  -- A walk keeps knowing what the table knows.
  pub known-walk :
      (c : Text) (filters : Filters) (session : ℕ) (es : List Entry) (s : Cycle)
      → known c s.db.files ≡ true
      → known c (walk sha256 filters session es s).0.db.files ≡ true
  known-walk c filters session [] s h = unfold walk in h
  known-walk c filters session (x ∷ es) s h =
      let k = known-visit sha256 c filters session x s h in
      elim (Option-cases (visit sha256 filters session x s).1) [
        | inl fine ↦
            rw (walk_on filters session x es s fine)
              (known-walk c filters session es (visit sha256 filters session x s).0 k)
        | inr (f, failed) ↦ rw (walk_stop filters session x es s f failed) k
      ]

  walk_settles :
      (filters : Filters) (session : ℕ) (es : List Entry) (s : Cycle)
      → (walk sha256 filters session es s).1 ≡ none
      → All (λ e. IsSettled sha256 filters e (walk sha256 filters session es s).0.db) es
  walk_settles filters session [] s h = tt
  walk_settles filters session (e ∷ es) s h =
      elim (Option-cases (visit sha256 filters session e s).1) [
        | inl fine ↦
            let s' = (visit sha256 filters session e s).0 in
            subst (λ (w : Visited). All (λ x. IsSettled sha256 filters x w.0.db) (e ∷ es))
              (sym (walk_on filters session e es s fine))
              (
                IsSettled-walk filters session e es s'
                    (visit-IsSettled sha256 filters session e s fine),
                walk_settles filters session es s' (rw (walk_on filters session e es s fine) at h),
              )
        | inr (f, failed) ↦ cc (walk_stop filters session e es s f failed)
      ]

  -- After a walk that met no error, a second walk over the same files, whatever its session and
  -- its counts so far, meets no error, copies no file, and changes neither the tables nor the
  -- upload queue.
  pub walk_again :
      (filters : Filters) (session session' : ℕ) (es : List Entry) (s : Cycle) (r : IngestResult)
      → (walk sha256 filters session es s).1 ≡ none
      → let t = record (walk sha256 filters session es s).0 { result = r } in
        IsQuiet t (walk sha256 filters session' es t).0 (walk sha256 filters session' es t).1
  walk_again filters session session' es s r h =
      walk-IsQuiet filters session' es (record (walk sha256 filters session es s).0 { result = r })
        (walk_settles filters session es s h)
