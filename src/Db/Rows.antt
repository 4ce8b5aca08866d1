-- ===== src/Db/Rows.antt =====
-- The files table of internal/db/files.go: ids are unique, and an update by id reaches one row.
use mathlib.Core.Option
use ivault.Common.{
  ℕ, ◌+◌, ◌<◌, ◌≡◌, refl, Option, none, some, List, [], ◌∷◌, ◌++◌, map, arith, All, All-append,
  ◌==◌, Bool-cases, inl, inr, if◌then◌else◌,
}
use ivault.Common.Text.{Text}
use ivault.Common.Sorting.{All-map}
use ivault.Db.{
  Db, File, FileState, Now, new_file, insert_file, update_row, update_file, set_state,
  update_file_state, set_file_ingest_ms, set_file_upload_ms, update_file_error,
  update_file_uploaded, unstick, reset_stuck_files,
}

-- Ids rise along the table.
abbrev pub IsRising : List File → Type 0
IsRising [] = Unit
IsRising (f ∷ fs) = All (λ g. f.id < g.id) fs × IsRising fs

pub record IsWellFormed (d : Db) : Type 0 where
  pub rising : IsRising d.files
  pub below_next : All (λ f. f.id < d.next_file) d.files

-- The row with an id.
unfoldable pub row : ℕ → List File → Option File
row id [] = none
row id (f ∷ fs) = if f.id == id then some f else row id fs

module _ (id : ℕ) (u : File → File) (keep : (f : File) → (u f).id ≡ f.id) where
  All-update_row {κ} :
      (P : File → Type κ) (fs : List File)
      → ((f : File) → P f → P (u f))
      → All P fs
      → All P (update_row id u fs)
  unfolding update_row
  All-update_row P [] k h = tt
  All-update_row P (f ∷ fs) k h = elim (Bool-cases (f.id == id)) [
    | inl e ↦ rw e (k f h.0, All-update_row P fs k h.1)
    | inr e ↦ rw e (h.0, All-update_row P fs k h.1)
  ]

  update_row-IsRising : (fs : List File) → IsRising fs → IsRising (update_row id u fs)
  unfolding update_row
  update_row-IsRising [] h = tt
  update_row-IsRising (f ∷ fs) h = elim (Bool-cases (f.id == id)) [
    | inl e ↦ rw e (
      rw (keep f) (All-update_row (λ g. f.id < g.id) fs (λ g p. rw (keep g) p) h.0),
      update_row-IsRising fs h.1,
    )
    | inr e ↦ rw e (
      All-update_row (λ g. f.id < g.id) fs (λ g p. rw (keep g) p) h.0,
      update_row-IsRising fs h.1,
    )
  ]

  -- An update by id changes the row with the id and no other.
  pub row-update_row :
      (j : ℕ) (fs : List File)
      → row j (update_row id u fs) ≡ (if j == id then Option.map u (row j fs) else row j fs)
  unfolding row update_row
  row-update_row j [] = ground arith
  row-update_row j (f ∷ fs) = ground (arith, keep f, row-update_row j fs)

  pub update_row_below :
      (n : ℕ) (fs : List File) → All (λ f. f.id < n) fs → All (λ f. f.id < n) (update_row id u fs)
  update_row_below n fs h = All-update_row (λ f. f.id < n) fs (λ f p. rw (keep f) p) h

  update_file-IsWellFormed : (d : Db) → IsWellFormed d → IsWellFormed (update_file id u d)
  unfolding update_file
  update_file-IsWellFormed d h = record {
    rising = update_row-IsRising d.files h.rising;
    below_next = update_row_below d.next_file d.files h.below_next;
  }

row_skip :
    (f : File) (fs gs : List File)
    → All (λ g. f.id < g.id) gs
    → All (λ g. row g.id fs ≡ some g) gs
    → All (λ g. row g.id (f ∷ fs) ≡ some g) gs
unfolding row
row_skip f fs [] p q = tt
row_skip f fs (g ∷ gs) p q = (ground arith, row_skip f fs gs p.1 q.1)

-- A row is found by its id.
pub row_self : (fs : List File) → IsRising fs → All (λ f. row f.id fs ≡ some f) fs
unfolding row
row_self [] h = tt
row_self (f ∷ fs) h = (ground arith, row_skip f fs fs h.0 (row_self fs h.1))

pub id-set_state : (now : Now) (s : FileState) (f : File) → (set_state now s f).id ≡ f.id
unfolding set_state
id-set_state now s f = ground arith

append-IsRising :
    (fs : List File) (x : File) → All (λ f. f.id < x.id) fs → IsRising fs → IsRising (fs ++ x ∷ [])
append-IsRising [] x h r = (tt, tt)
append-IsRising (f ∷ fs) x h r =
    (All-append (λ g. f.id < g.id) fs (x ∷ []) r.0 (h.0, tt), append-IsRising fs x h.1 r.1)

-- What an insert that succeeds makes of the table.
pub insert_file_made :
    (now : Now) (session size : ℕ) (name sum : Text) (s : FileState) (d d' : Db) (id : ℕ)
    → insert_file now session name size sum s d ≡ some (id, d')
    → (d'.files ≡ d.files ++ new_file now d.next_file session name size sum s ∷ [])
      × (d'.next_file ≡ d.next_file + 1)
unfolding insert_file
insert_file_made now session size name sum s d d' id e = ground arith

insert_file-IsWellFormed :
    (now : Now) (session size : ℕ) (name sum : Text) (s : FileState) (d d' : Db) (id : ℕ)
    → IsWellFormed d
    → insert_file now session name size sum s d ≡ some (id, d')
    → IsWellFormed d'
unfolding new_file
insert_file-IsWellFormed now session size name sum s d d' id h e =
    let (files, next) = insert_file_made now session size name sum s d d' id e in
    record {
      rising = rw files (append-IsRising d.files _ h.below_next h.rising);
      below_next =
          rw (files, next)
            (All-append (λ f. f.id < d.next_file + 1) d.files _
              (All-map d.files (λ f p. omega arith) h.below_next) (omega arith, tt));
    }

module _ (u : File → File) (keep : (f : File) → (u f).id ≡ f.id) where
  All-map_rows :
      (P : ℕ → Type 0) (fs : List File) → All (λ f. P f.id) fs → All (λ f. P f.id) (map u fs)
  All-map_rows P [] h = tt
  All-map_rows P (f ∷ fs) h = (rw (keep f) h.0, All-map_rows P fs h.1)

  map-IsRising : (fs : List File) → IsRising fs → IsRising (map u fs)
  map-IsRising [] h = tt
  map-IsRising (f ∷ fs) h = (rw (keep f) (All-map_rows (λ n. f.id < n) fs h.0), map-IsRising fs h.1)

id-unstick : (f : File) → (unstick f).id ≡ f.id
id-unstick f = ground arith

-- Every statement of files.go keeps the ids of the table rising and below the next id, so that an
-- id names at most one row: the insert, each update by id, and the reset of stuck files.
pub statements-IsWellFormed :
    (now : Now) (d : Db)
    → IsWellFormed d
    → ((id : ℕ) (s : FileState) → IsWellFormed (update_file_state now id s d))
      × ((id ms : ℕ) → IsWellFormed (set_file_ingest_ms now id ms d))
      × ((id ms : ℕ) → IsWellFormed (set_file_upload_ms now id ms d))
      × ((id : ℕ) (msg : Text) → IsWellFormed (update_file_error now id msg d))
      × ((id : ℕ) (dest path : Text) → IsWellFormed (update_file_uploaded now id dest path d))
      × IsWellFormed (reset_stuck_files d)
      × ((session size id : ℕ) (name sum : Text) (s : FileState) (d' : Db)
          → insert_file now session name size sum s d ≡ some (id, d')
          → IsWellFormed d')
unfolding update_file_state set_file_ingest_ms set_file_upload_ms update_file_error
    update_file_uploaded reset_stuck_files
statements-IsWellFormed now d h = (
  λ id s. update_file-IsWellFormed id (set_state now s) (id-set_state now s) d h,
  λ id ms. update_file-IsWellFormed id _ (λ f. refl) d h,
  λ id ms. update_file-IsWellFormed id _ (λ f. refl) d h,
  λ id msg. update_file-IsWellFormed id _ (λ f. refl) d h,
  λ id dest path. update_file-IsWellFormed id _ (λ f. refl) d h,
  record {
    rising = map-IsRising unstick id-unstick d.files h.rising;
    below_next = All-map_rows unstick id-unstick (λ n. n < d.next_file) d.files h.below_next;
  },
  λ session size id name sum s d' e.
      insert_file-IsWellFormed now session size name sum s d d' id h e,
)
