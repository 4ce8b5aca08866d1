-- ===== src/Db/Migrated.antt =====
-- internal/db/db.go: what Open makes of a files table, new, current or of an older version.
use mathlib.Core.Path.{subst}
use ivault.Common.{
  ◌≡◌, refl, ap, ◌∙◌, sym, ◌⊎◌, Bool, true, false, Option, none, some, List, [], ◌∷◌, ◌++◌, any,
  All, inl, inr, Bool-cases,
}
use ivault.Common.Text.{Text, codes, text_eq, text_eq_iff}
use ivault.Db.Opening.{
  FilesTable, Driver, has_column, indexed_columns, create_table, create_indexes,
  add_column_if_missing, add_columns, later_columns, migrate_added, migrate, open_database,
}

has_column-add :
    (c : Text) (cs added : List Text) → has_column c cs ≡ true → has_column c (cs ++ added) ≡ true
unfolding has_column any
has_column-add c [] added h = cc h
has_column-add c (k ∷ cs) added h = elim (Bool-cases (text_eq c k)) [
  | inl e ↦ rw e refl
  | inr e ↦ rw e (has_column-add c cs added (simp e at h))
]

has_column-last : (c : Text) (cs : List Text) → has_column c (cs ++ (c ∷ [])) ≡ true
unfolding has_column any
has_column-last c [] = rw ((text_eq_iff c c).1 refl) refl
has_column-last c (k ∷ cs) = elim (Bool-cases (text_eq c k)) [
  | inl e ↦ rw e refl
  | inr e ↦ rw e (has_column-last c cs)
]

-- Every column of the first table is one of the second.
abbrev pub IsWider : FilesTable → FilesTable → Type 0
IsWider t t' =
    (t'.rows ≡ t.rows)
    × ((c : Text) → has_column c t.columns ≡ true → has_column c t'.columns ≡ true)

add_column_lem :
    (d : Driver) (c : Text) (t : FilesTable)
    → let r = add_column_if_missing d c t in
      (r.1 ≡ none)
      ⊎ ((b : Bool) × (r.1 ≡ some b) × IsWider t r.0 × (has_column c r.0.columns ≡ true))
unfolding add_column_if_missing
add_column_lem d c t = elim (Bool-cases (d.lists c)) [
  | inr e ↦ rw e (inl refl)
  | inl e ↦ rw e elim (Bool-cases (has_column c t.columns)) [
    | inl h ↦ rw h (inr (false, refl, (refl, λ k p. p), h))
    | inr h ↦ rw h elim (Bool-cases (d.alters c)) [
      | inr a ↦ rw a (inl refl)
      | inl a ↦ rw a (
          inr (
            true,
            refl,
            (refl, λ k p. has_column-add k t.columns (c ∷ []) p),
            has_column-last c t.columns,
          ))
    ]
  ]
]

add_column_present :
    (d : Driver) (c : Text) (t : FilesTable)
    → has_column c t.columns ≡ true
    → (add_column_if_missing d c t ≡ (t, some false)) ⊎ (add_column_if_missing d c t ≡ (t, none))
unfolding add_column_if_missing
add_column_present d c t h = elim (Bool-cases (d.lists c)) [
  | inl e ↦ rw (e, h) (inl refl)
  | inr e ↦ rw e (inr refl)
]

abbrev pub HaveColumns : List Text → FilesTable → Type 0
HaveColumns cs t = All (λ c. has_column c t.columns ≡ true) cs

HaveColumns-wider :
    (cs : List Text) (t t' : FilesTable) → IsWider t t' → HaveColumns cs t → HaveColumns cs t'
HaveColumns-wider [] t t' w h = tt
HaveColumns-wider (c ∷ cs) t t' w h = (w.1 c h.0, HaveColumns-wider cs t t' w h.1)

add_columns_lem :
    (d : Driver) (cs : List Text) (t : FilesTable)
    → (add_columns d cs t).1 ≡ true
    → IsWider t (add_columns d cs t).0 × HaveColumns cs (add_columns d cs t).0
unfolding add_columns
add_columns_lem d [] t h = ((refl, λ k p. p), tt)
add_columns_lem d (c ∷ cs) t h = elim (add_column_lem d c t) [
  | inl e ↦ cc (simp e at h)
  | inr (b, e, (same, wide), there) ↦
      let t' = (add_column_if_missing d c t).0 in
      let on : add_columns d (c ∷ cs) t ≡ add_columns d cs t' = rw e refl in
      let ((same', wide'), rest) = add_columns_lem d cs t' (simp e at h) in
      subst (λ (r : FilesTable × Bool). IsWider t r.0 × HaveColumns (c ∷ cs) r.0) (sym on)
        ((same' ∙ same, λ k p. wide' k (wide k p)), (wide' c there, rest))
]

add_columns_present :
    (d : Driver) (cs : List Text) (t : FilesTable) → HaveColumns cs t → (add_columns d cs t).0 ≡ t
unfolding add_columns
add_columns_present d [] t h = refl
add_columns_present d (c ∷ cs) t h = elim (add_column_present d c t h.0) [
  | inl e ↦ rw e (add_columns_present d cs t h.1)
  | inr e ↦ rw e refl
]

abbrev pub migrated_columns : List Text
migrated_columns = codes "updated_at" ∷ later_columns

-- The indexes of the schema reach a table only if it has their columns.
create_indexes_lem :
    (d : Driver) (cs : List Text) (t : FilesTable) → create_indexes d cs t ≡ true → HaveColumns cs t
unfolding create_indexes
create_indexes_lem d [] t h = tt
create_indexes_lem d (c ∷ cs) t h = elim (Bool-cases (has_column c t.columns)) [
  | inr e ↦ cc (simp e at h)
  | inl e ↦ elim (Bool-cases (d.indexes c)) [
    | inr k ↦ cc (simp (e, k) at h)
    | inl k ↦ (e, create_indexes_lem d cs t (simp (e, k) at h))
  ]
]

migrate_lem :
    (d : Driver) (t : FilesTable)
    → has_column (codes "updated_at") t.columns ≡ true
    → (migrate d t).1 ≡ true
    → IsWider t (migrate d t).0 × HaveColumns migrated_columns (migrate d t).0
unfolding migrate migrate_added
migrate_lem d t there h = elim (add_column_present d (codes "updated_at") t there) [
  | inr e ↦ cc (simp e at h)
  | inl e ↦
      let (wider, later) = add_columns_lem d later_columns t (simp e at h) in
      rw e (wider, (wider.1 (codes "updated_at") there, later))
]

migrate_again : (d : Driver) (t : FilesTable) → HaveColumns migrated_columns t → (migrate d t).0 ≡ t
unfolding migrate migrate_added
migrate_again d t h = elim (add_column_present d (codes "updated_at") t h.0) [
  | inr e ↦ rw e refl
  | inl e ↦ rw e (add_columns_present d later_columns t h.1)
]

-- Open's answer with a table that the schema's indexes fit, and with one that they do not.
open_database_fits :
    (d : Driver) (t : Option FilesTable)
    → (open_database d t).1 ≡ true
    → (create_indexes d indexed_columns (create_table t) ≡ true)
      × (open_database d t ≡ (some (migrate d (create_table t)).0, (migrate d (create_table t)).1))
unfolding open_database
open_database_fits d t h = elim (Bool-cases d.opens) [
  | inr e ↦ cc (simp e at h)
  | inl e ↦ elim (Bool-cases (create_indexes d indexed_columns (create_table t))) [
    | inr k ↦ cc (simp (e, k) at h)
    | inl k ↦ (k, rw (e, k) refl)
  ]
]

-- The answer of Open can be true only where the files table had the column updated_at or was new.
-- Then every later column is there as well, no column is lost, no row differs from before, so that
-- the UPDATE of the migration has touched none, and the next Open, whatever the driver answers it,
-- leaves the table as it is.
pub open_database-Migrated :
    (d d' : Driver) (before : Option FilesTable)
    → (open_database d before).1 ≡ true
    → HaveColumns indexed_columns (create_table before)
      × (t : FilesTable) × ((open_database d before).0 ≡ some t)
      × IsWider (create_table before) t
      × HaveColumns migrated_columns t
      × ((open_database d' (some t)).0 ≡ some t)
unfolding open_database create_indexes
open_database-Migrated d d' before h =
    let (indexed, opened) = open_database_fits d before h in
    let had = create_indexes_lem d indexed_columns (create_table before) indexed in
    let t = (migrate d (create_table before)).0 in
    let (wider, all) =
      migrate_lem d (create_table before) had.1.1.0 (ap (λ r. r.1) (sym opened) ∙ h) in
    let again : (open_database d' (some t)).0 ≡ some t = elim (Bool-cases d'.opens) [
      | inr e ↦ rw e refl
      | inl e ↦ elim (Bool-cases (create_indexes d' indexed_columns t)) [
        | inr k ↦ rw (e, k) refl
        | inl k ↦ rw (e, k, migrate_again d' t all) refl
      ]
    ] in
    (had, t, ap (λ r. r.0) opened, wider, all, again)

pub open_database_refuses :
    (d : Driver) (t : FilesTable)
    → has_column (codes "updated_at") t.columns ≡ false
    → open_database d (some t) ≡ (some t, false)
unfolding open_database
open_database_refuses d t h = elim (Bool-cases d.opens) [
  | inr e ↦ rw e refl
  | inl e ↦ elim (Bool-cases (create_indexes d indexed_columns t)) [
    | inr k ↦ rw (e, k) refl
    | inl k ↦ absurd cc (h, (create_indexes_lem d indexed_columns t k).1.1.0)
  ]
]
