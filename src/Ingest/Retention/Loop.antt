-- ===== src/Ingest/Retention/Loop.antt =====
-- The loop of `ApplyRetention` in internal/ingest/ingest.go: what every deletion keeps, it keeps.
use ivault.Common.{
  ℕ, ◌≡◌, Bool, true, false, none, some, List, [], ◌∷◌, All, Bool-cases, Option-cases, inl, inr,
}
use ivault.Common.Text.{Text}
use ivault.Common.Int.{ℤ}
use ivault.Common.Assoc.{Assoc}
use ivault.Db.{Db, File}
use ivault.Db.Queries.{get_uploaded_files_eligible_for_deletion}
use ivault.Ingest.Retention.{
  Usage, Drive, Room, Updates, delete_one, is_refused, free_space, is_below, in_range,
  apply_retention,
}

module _ (drive : Drive) (up : Updates) (threshold : ℕ) where
  module _ (f : File) (fs : List File) (used : Usage) (r : Room) where
    pub free_space_stop :
        is_below threshold used ≡ true → free_space drive up threshold (f ∷ fs) used r ≡ r
    unfolding free_space
    free_space_stop b = rw b

    pub free_space_skip :
        is_below threshold used ≡ false
        → is_refused drive up threshold f.filename r.files ≡ true
        → free_space drive up threshold (f ∷ fs) used r ≡ free_space drive up threshold fs used r
    unfolding free_space
    free_space_skip b x = rw (b, x)

    pub free_space_blind :
        is_below threshold used ≡ false
        → is_refused drive up threshold f.filename r.files ≡ false
        → drive.usage_of (delete_one drive up threshold f r).files ≡ none
        → free_space drive up threshold (f ∷ fs) used r ≡ delete_one drive up threshold f r
    unfolding free_space
    free_space_blind b x u = rw (b, x, u, free_space)

    pub free_space_next :
        (v : Usage)
        → is_below threshold used ≡ false
        → is_refused drive up threshold f.filename r.files ≡ false
        → drive.usage_of (delete_one drive up threshold f r).files ≡ some v
        → free_space drive up threshold (f ∷ fs) used r
          ≡ free_space drive up threshold fs v (delete_one drive up threshold f r)
    unfolding free_space
    free_space_next v b x u = rw (b, x, u, free_space)

  module _ {ℓ κ} (P : Room → Type ℓ) (Q : File → Type κ)
      (keep : (f : File) (r : Room) → Q f → P r → P (delete_one drive up threshold f r)) where
    pub free_space_inv :
        (fs : List File) (used : Usage) (r : Room)
        → All Q fs
        → P r
        → P (free_space drive up threshold fs used r)
    free_space_inv [] used r q p = unfold free_space in p
    free_space_inv (f ∷ fs) used r q p = elim (Bool-cases (is_below threshold used)) [
      | inl b ↦ rw (free_space_stop f fs used r b) p
      | inr b ↦ elim (Bool-cases (is_refused drive up threshold f.filename r.files)) [
        | inl x ↦ rw (free_space_skip f fs used r b x) (free_space_inv fs used r q.1 p)
        | inr x ↦
            let p' = keep f r q.0 p in
            elim (Option-cases (drive.usage_of (delete_one drive up threshold f r).files)) [
              | inl u ↦ rw (free_space_blind f fs used r b x u) p'
              | inr (v, u) ↦
                  rw (free_space_next f fs used r v b x u)
                    (free_space_inv fs v (delete_one drive up threshold f r) q.1 p')
            ]
      ]
    ]

-- What holds at the start and is kept by each deletion of a listed file holds at the end.
pub apply_retention_inv {ℓ κ} :
    (drive : Drive) (up : Updates) (listed : Bool) (percent : ℤ) (files : Assoc Text) (d : Db)
    (P : Room → Type ℓ) (Q : File → Type κ)
    → ((threshold : ℕ) (f : File) (r : Room) → Q f → P r → P (delete_one drive up threshold f r))
    → All Q (get_uploaded_files_eligible_for_deletion d)
    → P (record { files = files; db = d; count = 0 })
    → P (apply_retention drive up listed percent files d).0
unfolding apply_retention
apply_retention_inv drive up listed percent files d P Q keep q p =
    elim (Option-cases (in_range percent)) [
      | inl out ↦ rw (out, apply_retention) p
      | inr (t, inside) ↦ elim (Option-cases (drive.usage_of files)) [
        | inl blind ↦ rw (inside, blind, apply_retention) p
        | inr (used, seen) ↦ elim (Bool-cases (is_below t used)) [
          | inl b ↦ rw (inside, seen, apply_retention) (rw b p)
          | inr b ↦ elim (Bool-cases listed) [
            | inl l ↦
                rw (inside, seen, apply_retention)
                  (rw (b, l)
                    (free_space_inv drive up t P Q (keep t)
                      (get_uploaded_files_eligible_for_deletion d) used _ q p))
            | inr l ↦ rw (inside, seen, apply_retention) (rw (b, l) p)
          ]
        ]
      ]
    ]
