-- ===== src/Ingest/Retention/Stops.antt =====
-- Where the loop of `ApplyRetention` in internal/ingest/ingest.go stops, and what it takes along.
use mathlib.Core.Path.{subst}
use ivault.Common.{
  ℕ, ◌≡◌, sym, true, false, none, some, List, [], ◌∷◌, arith, All, Bool-cases, Option-cases, ◌⊎◌,
  inl, inr,
}
use ivault.Common.Text.{Text, text_eq_refl}
use ivault.Common.Int.{ℤ}
use ivault.Common.Assoc.{Assoc, lookup, lookup-erase}
use ivault.Db.{Db, File}
use ivault.Db.Queries.{get_uploaded_files_eligible_for_deletion}
use ivault.Ingest.Retention.{
  Usage, Drive, Room, Updates, delete_one, is_refused, free_space, is_below, in_range,
  apply_retention,
}
use ivault.Ingest.Retention.Loop.{
  free_space_stop, free_space_skip, free_space_blind, free_space_next, free_space_inv,
}

All-trivial {ℓ} : {A : Type ℓ} (xs : List A) → All (λ x. Unit {0}) xs
All-trivial [] = tt
All-trivial (x ∷ xs) = (tt, All-trivial xs)

-- Why the loop ended: statfs failed, the use is below the threshold, or every listed file is gone
-- from the drive or refused to go.
abbrev pub Ended : Drive → ℕ → List File → Assoc Text → Type 0
Ended drive threshold fs files =
    (drive.usage_of files ≡ none)
    ⊎ (((u : Usage) × (drive.usage_of files ≡ some u) × (is_below threshold u ≡ true))
        ⊎ All (λ f. (lookup f.filename files ≡ none) ⊎ (drive.refuses f.filename ≡ true)) fs)

Ended-cons :
    (drive : Drive) (threshold : ℕ) (f : File) (fs : List File) (files : Assoc Text)
    → (lookup f.filename files ≡ none) ⊎ (drive.refuses f.filename ≡ true)
    → Ended drive threshold fs files
    → Ended drive threshold (f ∷ fs) files
Ended-cons drive threshold f fs files h (inl e) = inl e
Ended-cons drive threshold f fs files h (inr (inl e)) = inr (inl e)
Ended-cons drive threshold f fs files h (inr (inr e)) = inr (inr (h, e))

Ended-path :
    (drive : Drive) (threshold : ℕ) (fs : List File) (r r' : Room)
    → r ≡ r'
    → Ended drive threshold fs r'.files
    → Ended drive threshold fs r.files
Ended-path drive threshold fs r r' e =
    subst (λ (x : Room). Ended drive threshold fs x.files) (sym e)

module _ (drive : Drive) (up : Updates) (threshold : ℕ) where
  deleted_gone :
      (f : File) (r : Room) → lookup f.filename (delete_one drive up threshold f r).files ≡ none
  unfolding delete_one
  deleted_gone f r = rw (lookup-erase f.filename f.filename r.files, text_eq_refl f.filename)

  -- A name that is gone stays gone.
  stays_gone :
      (name : Text) (fs : List File) (used : Usage) (r : Room)
      → lookup name r.files ≡ none
      → lookup name (free_space drive up threshold fs used r).files ≡ none
  stays_gone name fs used r h =
      free_space_inv drive up threshold (λ r. lookup name r.files ≡ none) (λ f. Unit {0})
        (λ f r q p. unfold delete_one in ground (arith, lookup-erase f.filename name r.files)) fs
        used r (All-trivial fs) h

  refused_name :
      (name : Text) (files : Assoc Text)
      → is_refused drive up threshold name files ≡ true
      → drive.refuses name ≡ true
  unfolding is_refused
  refused_name name files h = ground arith

  free_space-Ended :
      (fs : List File) (used : Usage) (r : Room)
      → drive.usage_of r.files ≡ some used
      → Ended drive threshold fs (free_space drive up threshold fs used r).files
  free_space-Ended [] used r h = inr (inr tt)
  free_space-Ended (f ∷ fs) used r h = elim (Bool-cases (is_below threshold used)) [
    | inl b ↦
        Ended-path drive threshold (f ∷ fs) _ _ (free_space_stop drive up threshold f fs used r b)
          (inr (inl (used, h, b)))
    | inr b ↦ elim (Bool-cases (is_refused drive up threshold f.filename r.files)) [
      | inl x ↦
          Ended-path drive threshold (f ∷ fs) _ _
            (free_space_skip drive up threshold f fs used r b x)
            (Ended-cons drive threshold f fs _ (inr (refused_name f.filename r.files x))
              (free_space-Ended fs used r h))
      | inr x ↦
          let r' = delete_one drive up threshold f r in
          elim (Option-cases (drive.usage_of r'.files)) [
            | inl u ↦
                Ended-path drive threshold (f ∷ fs) _ _
                  (free_space_blind drive up threshold f fs used r b x u) (inl u)
            | inr (v, u) ↦
                Ended-path drive threshold (f ∷ fs) _ _
                  (free_space_next drive up threshold f fs used r v b x u)
                  (Ended-cons drive threshold f fs _
                    (inl (stays_gone f.filename fs v r' (deleted_gone f r)))
                    (free_space-Ended fs v r' u))
          ]
    ]
  ]

-- With a threshold of 1 to 99 percent, a drive whose use can be read and a list that can be read,
-- `ApplyRetention` ends only because statfs failed, or the use is below the threshold, or every
-- uploaded file is gone from the drive or could not be removed.
pub apply_retention-Ended :
    (drive : Drive) (up : Updates) (percent : ℤ) (threshold : ℕ) (files : Assoc Text) (d : Db)
    (used : Usage)
    → in_range percent ≡ some threshold
    → drive.usage_of files ≡ some used
    → Ended drive threshold
        (get_uploaded_files_eligible_for_deletion d)
        (apply_retention drive up true percent files d).0.files
unfolding apply_retention
apply_retention-Ended drive up percent threshold files d used t h =
    rw (t, h, apply_retention)
      (elim (Bool-cases (is_below threshold used)) [
        | inl b ↦ rw b (inr (inl (used, h, b)))
        | inr b ↦ rw b (
            free_space-Ended drive up threshold (get_uploaded_files_eligible_for_deletion d) used _
              h)
      ])

-- Over the threshold, the file that bears the name of the oldest uploaded row leaves the drive,
-- whatever its bytes are: they need not be those that were uploaded.
pub apply_retention_takes_name :
    (drive : Drive) (up : Updates) (percent : ℤ) (threshold : ℕ) (files : Assoc Text) (d : Db)
    (used : Usage) (f : File) (fs : List File)
    → in_range percent ≡ some threshold
    → drive.usage_of files ≡ some used
    → is_below threshold used ≡ false
    → get_uploaded_files_eligible_for_deletion d ≡ f ∷ fs
    → drive.refuses f.filename ≡ false
    → lookup f.filename (apply_retention drive up true percent files d).0.files ≡ none
unfolding apply_retention is_refused
apply_retention_takes_name drive up percent threshold files d used f fs t h b e x =
    let start : Room = record { files = files; db = d; count = 0 } in
    let free : is_refused drive up threshold f.filename files ≡ false = ground arith in
    let r' = delete_one drive up threshold f start in
    rw (t, h, apply_retention)
      (rw (b, e)
        (elim (Option-cases (drive.usage_of r'.files)) [
          | inl u ↦
              rw (free_space_blind drive up threshold f fs used start b free u)
                (deleted_gone drive up threshold f start)
          | inr (v, u) ↦ rw (free_space_next drive up threshold f fs used start v b free u) (
              stays_gone drive up threshold f.filename fs v r'
                (deleted_gone drive up threshold f start))
        ]))
