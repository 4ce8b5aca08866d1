-- ===== src/Ingest/Walk/Staged.antt =====
-- What the walk of internal/ingest/ingest.go leaves of a file that it takes in, for the upload engine
-- to find.
use mathlib.Core.Path.{subst}
use ivault.Common.{
  ℕ, ◌+◌, ◌<◌, ◌≡◌, refl, ap, sym, ◌∙◌, ◌⊎◌, true, none, some, List, [], ◌∷◌, ◌++◌, All, arith,
  Bool-cases, inl, inr, ◌==◌,
}
use ivault.Common.Text.{Text}
use ivault.Common.Assoc.{lookup}
use ivault.Db.{
  Db, File, has_session, attempt, copied, queued, discovered, new_file, insert_file, update_file,
  set_state, update_file_state, set_file_ingest_ms,
}
use ivault.Db.Queries.{get_file_by_checksum}
use ivault.Db.Rows.{IsWellFormed, row, row-update_row, id-set_state}
use ivault.Ingest.{Filters, verdict, wanted}
use ivault.Ingest.Copy.{copy_and_verify, copy_and_verify_verified, checksum_file}
use ivault.Ingest.Walk.{
  Cycle, FileEntry, Visited, db_insert_failed, file, take_summed, mark_queued, record_file, stage,
  add, dedup, take_in, handle, visit,
}

row_last :
    (n : ℕ) (fs : List File) (x : File)
    → All (λ f. f.id < n) fs
    → x.id ≡ n
    → row n (fs ++ x ∷ []) ≡ some x
unfolding row
row_last n [] x h e = ground (arith, e)
row_last n (f ∷ fs) x h e = ground (arith, row_last n fs x h.1 e)

row_updated :
    (id : ℕ) (u : File → File) (keep : (f : File) → (u f).id ≡ f.id) (d : Db) (f : File)
    → row id d.files ≡ some f
    → row id (update_file id u d).files ≡ some (u f)
unfolding update_file
row_updated id u keep d f h =
    let same : (id == id) ≡ true = ground arith in
    row-update_row id u keep id d.files ∙ simp (same, h) refl

-- The row with an id has a name, a checksum and a state.
abbrev pub HasRow : ℕ → Text → Text → Db → Type 0
HasRow id name sum d =
    (f : File) × (row id d.files ≡ some f)
    × (f.filename ≡ name)
    × (f.checksum ≡ sum)
    × (f.state ≡ queued)

mark_queued_row :
    (e : FileEntry) (id : ℕ) (d : Db) (f : File)
    → e.copied_ok ≡ true
    → e.queued_ok ≡ true
    → row id d.files ≡ some f
    → HasRow id f.filename f.checksum (mark_queued e id d)
unfolding mark_queued attempt update_file_state set_file_ingest_ms set_state
mark_queued_row e id d f copied_ok queued_ok h =
    let once = row_updated id (set_state e.now copied) (id-set_state e.now copied) d f h in
    let d₁ = update_file id (set_state e.now copied) d in
    let twice =
      row_updated id (set_state e.now queued) (id-set_state e.now queued) d₁
        (set_state e.now copied f) once in
    let d₂ = update_file id (set_state e.now queued) d₁ in
    let g = set_state e.now queued (set_state e.now copied f) in
    elim (Bool-cases e.ms_ok) [
      | inr off ↦ (g, simp (copied_ok, queued_ok, off) twice, refl, refl, refl)
      | inl on ↦
          let timed : File → File =
            λ k. record k { ingest_ms = some e.copy_ms; updated_at = some e.now.millis } in
          (
            timed g,
            simp (copied_ok, queued_ok, on) (row_updated id timed (λ k. refl) d₂ g twice),
            refl,
            refl,
            refl,
          )
    ]

record_file_cases :
    (session : ℕ) (e : FileEntry) (size : ℕ) (sum : Text) (d : Db)
    → (record_file session e size sum d ≡ none)
      ⊎ ((d' : Db) × (record_file session e size sum d ≡ some (d.next_file, d'))
          × (d'.files
              ≡ d.files ++ new_file e.now d.next_file session e.rel_path size sum discovered ∷ []))
unfolding record_file insert_file
record_file_cases session e size sum d = elim (Bool-cases e.insert_ok) [
  | inr off ↦ inl (simp off refl)
  | inl on ↦ elim (Bool-cases (has_session session d.sessions)) [
    | inr no_session ↦ inl (simp (on, no_session) refl)
    | inl known_session ↦
        let x = new_file e.now d.next_file session e.rel_path size sum discovered in
        let d' : Db = record d { files = d.files ++ x ∷ []; next_file = d.next_file + 1 } in
        inr (d', simp (on, known_session) refl, refl)
  ]
]

module _ (sha256 : Text → Text) where
  -- The upload queue has the file, with the bytes that were verified, and the table its row.
  abbrev pub IsStaged : FileEntry → Text → ℕ → Cycle → Type 0
  IsStaged e sum id s =
      (lookup e.rel_path s.queue ≡ some e.copy.bytes)
      × (sha256 e.copy.bytes ≡ sum)
      × HasRow id e.rel_path sum s.db

  Staged-stage :
      (e : FileEntry) (size : ℕ) (sum : Text) (id : ℕ) (s : Cycle) (f : File)
      → e.copied_ok ≡ true
      → e.queued_ok ≡ true
      → row id s.db.files ≡ some f
      → f.filename ≡ e.rel_path
      → f.checksum ≡ sum
      → (stage sha256 e size sum id s).1 ≡ none
      → IsStaged e sum id (stage sha256 e size sum id s).0
  unfolding stage
  Staged-stage e size sum id s f c q here name of done = elim (Bool-cases e.mkdir_ok) [
    | inr no_dir ↦ cc (simp no_dir at done)
    | inl dir ↦ elim (Bool-cases (copy_and_verify sha256 e.copy e.rel_path sum s.queue).1) [
      | inr bad ↦ cc (simp (dir, bad) at done)
      | inl good ↦
          let (there, same) = copy_and_verify_verified sha256 e.copy e.rel_path sum s.queue good in
          let filled : (stage sha256 e size sum id s).0.queue
              ≡ (copy_and_verify sha256 e.copy e.rel_path sum s.queue).0 =
            simp (dir, good) refl in
          let marked : (stage sha256 e size sum id s).0.db ≡ mark_queued e id s.db =
            simp (dir, good) refl in
          let (g, found, name', of', state) = mark_queued_row e id s.db f c q here in
          (
            ap (lookup e.rel_path) filled ∙ there,
            same,
            (g, ap (λ (d : Db). row id d.files) marked ∙ found, name' ∙ name, of' ∙ of, state),
          )
    ]
  ]

  Staged-add :
      (session : ℕ) (e : FileEntry) (size : ℕ) (sum : Text) (s : Cycle)
      → IsWellFormed s.db
      → e.copied_ok ≡ true
      → e.queued_ok ≡ true
      → (add sha256 session e size sum s).1 ≡ none
      → IsStaged e sum s.db.next_file (add sha256 session e size sum s).0
  unfolding add
  Staged-add session e size sum s wf c q done = elim (record_file_cases session e size sum s.db) [
    | inl failed ↦
        let refused : (add sha256 session e size sum s).1 ≡ some db_insert_failed =
          rw (failed, add) refl in
        cc (refused, done)
    | inr (d, recorded, here) ↦
        let n = s.db.next_file in
        let x = new_file e.now n session e.rel_path size sum discovered in
        let t : Cycle = record s { db = d } in
        let same : add sha256 session e size sum s ≡ stage sha256 e size sum n t =
          rw (recorded, add) refl in
        let found =
          ap (row n) here ∙ row_last n s.db.files x wf.below_next (unfold new_file in refl) in
        subst (λ (v : Visited). IsStaged e sum n v.0) (sym same)
          (Staged-stage e size sum n t x c q found (unfold new_file in refl)
            (unfold new_file in refl) (ap (λ v. v.1) (sym same) ∙ done))
  ]

  -- A file that the rules let through, whose checksum no row has, and whose visit meets no error,
  -- where the driver carries out the two updates of its state: the upload queue then has the file
  -- under its path, with the bytes whose checksum is that of the file on the drive, and the row that
  -- was added for it has its path, this checksum and the state "queued".
  pub visit-IsStaged :
      (filters : Filters) (session size : ℕ) (e : FileEntry) (bytes : Text) (s : Cycle)
      → IsWellFormed s.db
      → verdict filters e.rel_path e.info ≡ wanted size
      → e.first_read ≡ some bytes
      → get_file_by_checksum s.db (sha256 bytes) ≡ none
      → e.copied_ok ≡ true
      → e.queued_ok ≡ true
      → (visit sha256 filters session (file e) s).1 ≡ none
      → IsStaged e (sha256 bytes) s.db.next_file (visit sha256 filters session (file e) s).0
  unfolding visit handle take_in take_summed dedup checksum_file
  visit-IsStaged filters session size e bytes s wf taken read new_to_us c q done =
      elim (Bool-cases e.lookup_ok) [
        | inr off ↦ cc (simp (taken, read, off) at done)
        | inl on ↦
            let t : Cycle = record s {
              result = record s.result { files_found = s.result.files_found + 1 };
            } in
            let same : visit sha256 filters session (file e) s
                ≡ add sha256 session e size (sha256 bytes) t =
              simp (taken, read, on, new_to_us) refl in
            subst (λ (v : Visited). IsStaged e (sha256 bytes) s.db.next_file v.0) (sym same)
              (Staged-add session e size (sha256 bytes) t wf c q (ap (λ v. v.1) (sym same) ∙ done))
      ]
