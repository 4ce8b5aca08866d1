-- ===== src/Ingest/Retention.antt =====
-- internal/ingest/ingest.go, `ApplyRetention`: the oldest uploaded files leave the drive until its
-- use is below the threshold. The percentages are compared as exact fractions.
pub mod Loop
pub mod Uploaded
pub mod Stops
use ivault.Common.{
  ℕ, suc, ◌+◌, ◌-◌, ◌*◌, Bool, true, false, Option, none, some, List, [], ◌∷◌, ltb, leb, ◌==◌,
  if◌then◌else◌,
}
use ivault.Common.Text.{Text}
use ivault.Common.Int.{ℤ, pos, negsuc}
use ivault.Common.Assoc.{Assoc, lookup, erase}
use ivault.Db.{Db, File, Now, attempt, update_file_state, deleted}
use ivault.Db.Queries.{get_uploaded_files_eligible_for_deletion}

-- What statfs says of the drive.
pub record Usage : Type 0 where
  pub blocks : ℕ
  pub free : ℕ

-- `usedPct < threshold`; a drive without blocks counts as empty.
unfoldable pub is_below : ℕ → Usage → Bool
is_below threshold u =
    if u.blocks == 0 then true else ltb ((u.blocks - u.free) * 100) (threshold * u.blocks)

-- The mounted drive: its files, what statfs answers for them (`none` is an error), and which
-- names the file system refuses to remove.
pub record Drive : Type 1 where
  pub usage_of : Assoc Text → Option Usage
  pub refuses : Text → Bool

pub record Room : Type 0 where
  pub files : Assoc Text
  pub db : Db
  pub count : ℕ

pub data RetentionError : Type 0 where
  statfs_failed list_failed : RetentionError

-- `now` and `update_ok` are those of the updates by the row's id.
pub record Updates : Type 0 where
  pub now : Now
  pub update_ok : ℕ → Bool

module _ (drive : Drive) (up : Updates) (threshold : ℕ) where
  -- os.Remove, with a missing file taken for a removed one, and the row marked.
  unfoldable pub delete_one : File → Room → Room
  delete_one f r = record {
    files = erase f.filename r.files;
    db = attempt (up.update_ok f.id) (update_file_state up.now f.id deleted) r.db;
    count = r.count + 1;
  }

  -- Whether os.Remove fails with an error other than "not exist".
  unfoldable pub is_refused : Text → Assoc Text → Bool
  is_refused name files = elim (lookup name files) [
    | none ↦ false
    | some bytes ↦ drive.refuses name
  ]

  unfoldable pub free_space : List File → Usage → Room → Room
  free_space [] used r = r
  free_space (f ∷ fs) used r =
      let skip = free_space fs used r in
      let r' = delete_one f r in
      let next : Usage → Room = λ u. free_space fs u r' in
      if is_below threshold used
      then r
      else if is_refused f.filename r.files
      then skip
      else elim (drive.usage_of r'.files) [ none ↦ r' | some u ↦ next u ]

abbrev pub in_range : ℤ → Option ℕ
in_range (negsuc n) = none
in_range (pos n) = if leb n 0 then none else if leb 100 n then none else some n

-- The files deleted are the `count` of the room; `listed` is the driver's answer to the query.
unfoldable pub apply_retention :
    Drive → Updates → Bool → ℤ → Assoc Text → Db → Room × Option RetentionError
unfolding free_space
apply_retention drive up listed percent files d =
    let start : Room = record { files = files; db = d; count = 0 } in
    elim (in_range percent) [
      | none ↦ (start, none)
      | some threshold ↦ elim (drive.usage_of files) [
        | none ↦ (start, some statfs_failed)
        | some used ↦
            if is_below threshold used
            then (start, none)
            else if listed
            then (
              free_space drive up threshold (get_uploaded_files_eligible_for_deletion d) used start,
              none,
            )
            else (start, some list_failed)
      ]
    ]
