-- ===== src/Ingest/Walk/Settled.antt =====
-- A second walk over the same files (internal/ingest/ingest.go) finds nothing to do.
use ivault.Common.{
  ◌≢◌, ℕ, ◌≡◌, refl, ◌∙◌, Bool, true, false, Option, none, some, arith, Option-cases, inl, inr,
  if◌then◌else◌,
}
use ivault.Common.Text.{Text, text_eq, text_eq_refl}
use ivault.Db.{Db, attempt, copied, queued, discovered}
use ivault.Db.Queries.{get_file_by_checksum, latest}
use ivault.Db.Known.{
  known, known-latest, known-update_file_state, known-set_file_ingest_ms, known-insert_file,
}
use ivault.Ingest.{Filters, Verdict, verdict, provision_file, wanted}
use ivault.Ingest.Walk.{
  Cycle, FileEntry, Entry, db_insert_failed, walk_error, directory, file, mark_queued, stage, add,
  dedup, take_summed, take_in, handle, visit, record_file,
}

known-attempt :
    (c : Text) (b : Bool) (f : Db → Db) (d : Db)
    → known c (f d).files ≡ known c d.files
    → known c (attempt b f d).files ≡ known c d.files
known-attempt c true f d h = h
known-attempt c false f d h = refl

known-mark_queued :
    (c : Text) (e : FileEntry) (id : ℕ) (d : Db)
    → known c (mark_queued e id d).files ≡ known c d.files
unfolding mark_queued
known-mark_queued c e id d =
    known-attempt c e.ms_ok _ _ (known-set_file_ingest_ms c e.now id e.copy_ms _)
    ∙ known-attempt c e.queued_ok _ _ (known-update_file_state c e.now id queued _)
    ∙ known-attempt c e.copied_ok _ _ (known-update_file_state c e.now id copied d)

if_same : (b : Bool) → (if b then true else true) ≡ true
if_same true = refl
if_same false = refl

module _ (sha256 : Text → Text) where
  -- The walk has nothing left to do with a file: the rules drop it, or the driver answers and the
  -- files table knows its checksum.
  abbrev pub IsSettledFile : FileEntry → Verdict → Db → Type 0
  IsSettledFile e (wanted size) d =
      (bytes : Text) × (e.first_read ≡ some bytes)
      × (e.lookup_ok ≡ true)
      × (known (sha256 bytes) d.files ≡ true)
  IsSettledFile e _ d = Unit

  abbrev pub IsSettled : Filters → Entry → Db → Type 0
  IsSettled filters walk_error d = ⊥
  IsSettled filters directory d = Unit
  IsSettled filters (file e) d = IsSettledFile e (verdict filters e.rel_path e.info) d

  known-stage :
      (c : Text) (e : FileEntry) (size : ℕ) (sum : Text) (id : ℕ) (s : Cycle)
      → known c (stage sha256 e size sum id s).0.db.files ≡ known c s.db.files
  unfolding stage
  known-stage c e size sum id s = ground (arith, known-mark_queued c e id s.db)

  known-record_file :
      (c : Text) (session : ℕ) (e : FileEntry) (size : ℕ) (sum : Text) (d d' : Db) (id : ℕ)
      → record_file session e size sum d ≡ some (id, d')
      → known c d'.files ≡ (if known c d.files then true else text_eq sum c)
  unfolding record_file
  known-record_file c session e size sum d d' id h =
      ground (arith, known-insert_file c e.now session size e.rel_path sum discovered d d' id)

  -- What the table knows it keeps knowing.
  known-add :
      (c : Text) (session : ℕ) (e : FileEntry) (size : ℕ) (sum : Text) (s : Cycle)
      → known c s.db.files ≡ true
      → known c (add sha256 session e size sum s).0.db.files ≡ true
  unfolding add
  known-add c session e size sum s h = elim (Option-cases (record_file session e size sum s.db)) [
    | inl refused ↦ rw (refused, add) h
    | inr ((id, d), made) ↦
        rw (made, add)
          (known-stage c e size sum id (record s { db = d })
            ∙ known-record_file c session e size sum s.db d id made
            ∙ rw h refl)
  ]

  known-dedup :
      (c : Text) (session : ℕ) (e : FileEntry) (size : ℕ) (sum : Text) (s : Cycle)
      → known c s.db.files ≡ true
      → known c (dedup sha256 session e size sum s).0.db.files ≡ true
  unfolding dedup
  known-dedup c session e size sum s h = ground (arith, known-add c session e size sum s h)

  known-take_summed :
      (c : Text) (session : ℕ) (e : FileEntry) (size : ℕ) (o : Option Text) (s : Cycle)
      → known c s.db.files ≡ true
      → known c (take_summed sha256 session e size o s).0.db.files ≡ true
  unfolding take_summed
  known-take_summed c session e size none s h = h
  known-take_summed c session e size (some sum) s h = known-dedup c session e size sum s h

  known-handle :
      (c : Text) (session : ℕ) (e : FileEntry) (v : Verdict) (s : Cycle)
      → known c s.db.files ≡ true
      → known c (handle sha256 session e v s).0.db.files ≡ true
  unfolding handle take_in
  known-handle c session e provision_file s h = h
  known-handle c session e (wanted size) s h = known-take_summed c session e size _ _ h
  known-handle c session e _ s h = h

  pub known-visit :
      (c : Text) (filters : Filters) (session : ℕ) (e : Entry) (s : Cycle)
      → known c s.db.files ≡ true
      → known c (visit sha256 filters session e s).0.db.files ≡ true
  unfolding visit
  known-visit c filters session walk_error s h = h
  known-visit c filters session directory s h = h
  known-visit c filters session (file e) s h = known-handle c session e _ s h

  -- A file whose row was inserted is known, whatever became of its copy.
  pub add-known :
      (session : ℕ) (e : FileEntry) (size : ℕ) (sum : Text) (s : Cycle)
      → (add sha256 session e size sum s).1 ≢ some db_insert_failed
      → known sum (add sha256 session e size sum s).0.db.files ≡ true
  unfolding add
  add-known session e size sum s h = elim (Option-cases (record_file session e size sum s.db)) [
    | inl refused ↦ absurd (h (rw (refused, add)))
    | inr ((id, d), made) ↦
        rw (made, add)
          (known-stage sum e size sum id (record s { db = d })
            ∙ known-record_file sum session e size sum s.db d id made
            ∙ rw (text_eq_refl sum) (if_same (known sum s.db.files)))
  ]

  dedup-known :
      (session : ℕ) (e : FileEntry) (size : ℕ) (sum : Text) (s : Cycle)
      → (dedup sha256 session e size sum s).1 ≡ none
      → (e.lookup_ok ≡ true) × (known sum (dedup sha256 session e size sum s).0.db.files ≡ true)
  unfolding dedup get_file_by_checksum
  dedup-known session e size sum s h = elim (Option-cases (latest sum s.db.files)) [
    | inl new ↦ ground (arith, add-known session e size sum s (λ bad. ground arith))
    | inr (old, found) ↦ ground (arith, known-latest sum s.db.files old found)
  ]

  take_in-known :
      (session : ℕ) (e : FileEntry) (size : ℕ) (s : Cycle)
      → (take_in sha256 session e size s).1 ≡ none
      → (bytes : Text) × (e.first_read ≡ some bytes)
        × (e.lookup_ok ≡ true)
        × (known (sha256 bytes) (take_in sha256 session e size s).0.db.files ≡ true)
  unfolding take_in
  take_in-known session e size s h = elim (Option-cases e.first_read) [
    | inl unread ↦ cc (simp unread at h)
    | inr (bytes, r) ↦
        let k = dedup-known session e size (sha256 bytes) s (simp r at h) in
        (bytes, r, k.0, simp r k.1)
  ]

  handle-IsSettled :
      (session : ℕ) (e : FileEntry) (v : Verdict) (s : Cycle)
      → (handle sha256 session e v s).1 ≡ none
      → IsSettledFile e v (handle sha256 session e v s).0.db
  unfolding handle
  handle-IsSettled session e provision_file s h = tt
  handle-IsSettled session e (wanted size) s h = take_in-known session e size _ h
  handle-IsSettled session e _ s h = tt

  pub visit-IsSettled :
      (filters : Filters) (session : ℕ) (e : Entry) (s : Cycle)
      → (visit sha256 filters session e s).1 ≡ none
      → IsSettled filters e (visit sha256 filters session e s).0.db
  unfolding visit
  visit-IsSettled filters session walk_error s h = cc
  visit-IsSettled filters session directory s h = tt
  visit-IsSettled filters session (file e) s h = handle-IsSettled session e _ s h
