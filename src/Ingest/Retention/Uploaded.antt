-- ===== src/Ingest/Retention/Uploaded.antt =====
-- `ApplyRetention` of internal/ingest/ingest.go touches only rows that the table calls uploaded,
-- and only names of such rows; the bytes under the name are not compared.
use mathlib.Core.Option
use ivault.Common.{
  ℕ, ◌≡◌, refl, ◌∙◌, Bool, true, false, some, List, [], ◌∷◌, arith, All, All-selected, select, ◌==◌,
  Bool-cases, ◌⊎◌, inl, inr, if◌then◌else◌,
}
use ivault.Common.Text.{Text, text_eq}
use ivault.Common.Int.{ℤ}
use ivault.Common.Assoc.{Assoc, lookup, lookup-erase}
use ivault.Common.Sorting.{All-select, All-sort_by, All-map}
use ivault.Db.{
  Db, File, Now, attempt, update_file, set_state, update_file_state, deleted, uploaded,
  file_state_eq,
}
use ivault.Db.Rows.{row, row-update_row, id-set_state, IsWellFormed, row_self}
use ivault.Db.Queries.{coalesce, get_uploaded_files_eligible_for_deletion}
use ivault.Ingest.Retention.{Drive, Updates, delete_one, apply_retention}
use ivault.Ingest.Retention.Loop.{apply_retention_inv}

set_state_twice :
    (now : Now) (f : File)
    → set_state now deleted (set_state now deleted f) ≡ set_state now deleted f
unfolding set_state
set_state_twice now f = refl

-- Row by row: unchanged, or an uploaded row marked deleted.
abbrev pub OnlyUploaded : Now → Db → Db → Type 0
OnlyUploaded now d d' =
    (id : ℕ)
    → (row id d'.files ≡ row id d.files)
      ⊎ ((f : File) × (row id d.files ≡ some f)
          × (f.state ≡ uploaded)
          × (row id d'.files ≡ some (set_state now deleted f)))

abbrev IsEligible : Db → File → Type 0
IsEligible d f = (row f.id d.files ≡ some f) × (f.state ≡ uploaded)

row-update_file_state :
    (now : Now) (id j : ℕ) (d : Db)
    → row j (update_file_state now id deleted d).files
      ≡ (if j == id then Option.map (set_state now deleted) (row j d.files) else row j d.files)
unfolding update_file_state update_file
row-update_file_state now id j d =
    row-update_row id (set_state now deleted) (id-set_state now deleted) j d.files

-- One more row marked.
mark_row :
    (now : Now) (f : File) (d d' : Db)
    → IsEligible d f
    → OnlyUploaded now d d'
    → row f.id (update_file_state now f.id deleted d').files ≡ some (set_state now deleted f)
mark_row now f d d' (found, up) h = row-update_file_state now f.id f.id d' ∙ elim (h f.id) [
  | inl e ↦ rw (e, found) (ground arith)
  | inr (g, was, gup, is) ↦ rw is (ground (arith, set_state_twice now g))
]

mark-OnlyUploaded :
    (now : Now) (d d' : Db) (f : File) (ok : Bool)
    → IsEligible d f
    → OnlyUploaded now d d'
    → OnlyUploaded now d (attempt ok (update_file_state now f.id deleted) d')
mark-OnlyUploaded now d d' f false e h id = h id
mark-OnlyUploaded now d d' f true e h id = elim (Bool-cases (id == f.id)) [
  | inl same ↦
      let eq : id ≡ f.id = ground arith in rw eq (inr (f, e.0, e.1, mark_row now f d d' e h))
  | inr other ↦ rw (row-update_file_state now f.id id d', other) (h id)
]

eligible :
    (d : Db) → IsWellFormed d → All (IsEligible d) (get_uploaded_files_eligible_for_deletion d)
unfolding get_uploaded_files_eligible_for_deletion
eligible d w =
    All-sort_by (λ (f : File). coalesce f.uploaded_at) (IsEligible d) _
      (join_all (select is_uploaded d.files)
        (All-select (λ f. row f.id d.files ≡ some f) is_uploaded d.files
          (row_self d.files w.rising))
        (All-map (select is_uploaded d.files) (λ f h. ground arith)
          (All-selected is_uploaded d.files)))
  where
    is_uploaded : File → Bool
    is_uploaded f = file_state_eq f.state uploaded

    join_all :
        (fs : List File)
        → All (λ f. row f.id d.files ≡ some f) fs
        → All (λ f. f.state ≡ uploaded) fs
        → All (IsEligible d) fs
    join_all [] p q = tt
    join_all (f ∷ fs) p q = ((p.0, q.0), join_all fs p.1 q.1)

-- `ApplyRetention`, whatever the threshold and the answers of the drive and the driver, leaves
-- every row as it was, except that uploaded rows may be marked deleted.
pub apply_retention-OnlyUploaded :
    (drive : Drive) (up : Updates) (listed : Bool) (percent : ℤ) (files : Assoc Text) (d : Db)
    → IsWellFormed d
    → OnlyUploaded up.now d (apply_retention drive up listed percent files d).0.db
apply_retention-OnlyUploaded drive up listed percent files d w =
    apply_retention_inv drive up listed percent files d (λ r. OnlyUploaded up.now d r.db)
      (IsEligible d)
      (λ threshold f r e h.
        unfold delete_one in mark-OnlyUploaded up.now d r.db f (up.update_ok f.id) e h)
      (eligible d w) (λ id. inl refl)

-- No file leaves the drive unless an uploaded row bears its name.
pub apply_retention_names :
    (drive : Drive) (up : Updates) (listed : Bool) (percent : ℤ) (files : Assoc Text) (d : Db)
    (name : Text)
    → All (λ f. text_eq f.filename name ≡ false) (get_uploaded_files_eligible_for_deletion d)
    → lookup name (apply_retention drive up listed percent files d).0.files ≡ lookup name files
apply_retention_names drive up listed percent files d name h =
    apply_retention_inv drive up listed percent files d
      (λ r. lookup name r.files ≡ lookup name files) (λ f. text_eq f.filename name ≡ false)
      (λ threshold f r e k.
        unfold delete_one in ground (arith, lookup-erase f.filename name r.files))
      h refl
