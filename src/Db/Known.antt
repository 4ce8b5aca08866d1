-- ===== src/Db/Known.antt =====
-- The dedup query of internal/db/files.go, GetFileByChecksum, and what the statements keep of it.
use ivault.Common.{
  ℕ, ◌≡◌, refl, Bool, true, false, none, some, List, [], ◌∷◌, ◌++◌, arith, ◌==◌, Bool-cases,
  Option-cases, inl, inr, if◌then◌else◌,
}
use ivault.Common.Text.{Text, text_eq}
use ivault.Db.{
  Db, File, FileState, Now, new_file, insert_file, update_row, set_state, update_file_state,
  set_file_ingest_ms,
}
use ivault.Db.Queries.{latest}

-- Some row has the checksum.
unfoldable pub known : Text → List File → Bool
known checksum [] = false
known checksum (f ∷ fs) = if text_eq f.checksum checksum then true else known checksum fs

pub latest-none : (c : Text) (fs : List File) → latest c fs ≡ none → known c fs ≡ false
unfolding latest known
latest-none c [] h = refl
latest-none c (f ∷ fs) h = ground (arith, latest-none c fs)

pub latest-known :
    (c : Text) (fs : List File) → known c fs ≡ true → (f : File) × (latest c fs ≡ some f)
latest-known c fs h = elim (Option-cases (latest c fs)) [
  | inl e ↦ cc (latest-none c fs e)
  | inr found ↦ found
]

pub known-latest : (c : Text) (fs : List File) (f : File) → latest c fs ≡ some f → known c fs ≡ true
unfolding latest known
known-latest c [] f h = cc
known-latest c (g ∷ fs) f h = elim (Bool-cases (text_eq g.checksum c)) [
  | inl e ↦ rw e
  | inr e ↦ rw e (known-latest c fs f (rw e at h))
]

known-append :
    (c : Text) (fs gs : List File) → known c (fs ++ gs) ≡ (if known c fs then true else known c gs)
unfolding known
known-append c [] gs = refl
known-append c (f ∷ fs) gs = ground (arith, known-append c fs gs)

-- An update that keeps the checksums keeps what is known.
pub known-update_row :
    (c : Text) (id : ℕ) (u : File → File) (fs : List File)
    → ((f : File) → (u f).checksum ≡ f.checksum)
    → known c (update_row id u fs) ≡ known c fs
unfolding known update_row
known-update_row c id u [] h = refl
known-update_row c id u (f ∷ fs) h = elim (Bool-cases (f.id == id)) [
  | inl e ↦ rw (e, h f, known-update_row c id u fs h)
  | inr e ↦ rw (e, known-update_row c id u fs h)
]

checksum-set_state :
    (now : Now) (s : FileState) (f : File) → (set_state now s f).checksum ≡ f.checksum
unfolding set_state
checksum-set_state now s f = ground arith

pub known-update_file_state :
    (c : Text) (now : Now) (id : ℕ) (s : FileState) (d : Db)
    → known c (update_file_state now id s d).files ≡ known c d.files
unfolding update_file_state
known-update_file_state c now id s d =
    known-update_row c id (set_state now s) d.files (checksum-set_state now s)

pub known-set_file_ingest_ms :
    (c : Text) (now : Now) (id ms : ℕ) (d : Db)
    → known c (set_file_ingest_ms now id ms d).files ≡ known c d.files
unfolding set_file_ingest_ms
known-set_file_ingest_ms c now id ms d = known-update_row c id _ d.files (λ f. refl)

pub known-insert_file :
    (c : Text) (now : Now) (session size : ℕ) (name sum : Text) (s : FileState) (d d' : Db) (id : ℕ)
    → insert_file now session name size sum s d ≡ some (id, d')
    → known c d'.files ≡ (if known c d.files then true else text_eq sum c)
unfolding insert_file known
known-insert_file c now session size name sum s d d' id h =
    ground (arith, known-append c d.files (new_file now d.next_file session name size sum s ∷ []))
