-- ===== src/Db/Opening.antt =====
-- internal/db/db.go: opening the database, with what schema.sql and the migration make of the files
-- table. A table is its columns and its rows; a cell of a column that the table has not is `none`.
use ivault.Common.{
  Bool, true, false, Option, none, some, List, [], ◌∷◌, ◌++◌, map, any, if◌then◌else◌,
}
use ivault.Common.Text.{Text, codes, text_eq}
use ivault.Db.{File}

pub record FilesTable : Type 0 where
  pub columns : List Text
  pub rows : List File

-- What the driver answers to each statement: sqlite3's Open and the schema up to the table, CREATE
-- INDEX on a column, PRAGMA table_info with its rows, ALTER TABLE, and the UPDATE.
pub record Driver : Type 0 where
  pub opens : Bool
  pub indexes : Text → Bool
  pub lists : Text → Bool
  pub alters : Text → Bool
  pub backfills : Bool

unfoldable pub has_column : Text → List Text → Bool
unfolding text_eq any
has_column c cs = any (text_eq c) cs

-- The columns of CREATE TABLE files.
abbrev pub schema_columns : List Text
schema_columns =
    codes "id"
    ∷ codes "session_id"
    ∷ codes "filename"
    ∷ codes "size_bytes"
    ∷ codes "checksum_sha256"
    ∷ codes "state"
    ∷ codes "discovered_at"
    ∷ codes "copied_at"
    ∷ codes "queued_at"
    ∷ codes "uploaded_at"
    ∷ codes "deleted_at"
    ∷ codes "upload_attempts"
    ∷ codes "destination_id"
    ∷ codes "destination_name"
    ∷ codes "remote_path"
    ∷ codes "error_message"
    ∷ codes "ingest_ms"
    ∷ codes "upload_ms"
    ∷ codes "updated_at"
    ∷ []

-- The indexes of schema.sql on files, in their order.
abbrev pub indexed_columns : List Text
indexed_columns = codes "state" ∷ codes "checksum_sha256" ∷ codes "updated_at" ∷ []

-- CREATE TABLE IF NOT EXISTS
abbrev pub create_table : Option FilesTable → FilesTable
create_table none = record { columns = schema_columns; rows = [] }
create_table (some t) = t

-- CREATE INDEX IF NOT EXISTS; an index names a column of the table.
unfoldable pub create_indexes : Driver → List Text → FilesTable → Bool
unfolding has_column
create_indexes d [] t = true
create_indexes d (c ∷ cs) t =
    let rest = create_indexes d cs t in
    if has_column c t.columns then if d.indexes c then rest else false else false

-- addColumnIfMissing: `none` is an error, `some` says whether the column was added.
unfoldable pub add_column_if_missing : Driver → Text → FilesTable → FilesTable × Option Bool
unfolding has_column
add_column_if_missing d c t =
    if d.lists c
    then if has_column c t.columns
      then (t, some false)
      else if d.alters c
      then (record t { columns = t.columns ++ (c ∷ []) }, some true)
      else (t, none)
    else (t, none)

-- err == nil
abbrev pub succeeded : Option Bool → Bool
succeeded none = false
succeeded (some b) = true

unfoldable pub add_columns : Driver → List Text → FilesTable → FilesTable × Bool
unfolding add_column_if_missing
add_columns d [] t = (t, true)
add_columns d (c ∷ cs) t =
    let r = add_column_if_missing d c t in
    let rest = add_columns d cs r.0 in if succeeded r.1 then rest else (r.0, false)

abbrev pub or_next : Option Text → Text → Text
or_next none t = t
or_next (some t) u = t

-- The UPDATE: COALESCE(uploaded_at, queued_at, copied_at, discovered_at).
abbrev pub backfill_row : File → File
backfill_row f = elim f.updated_at [
  | none ↦ record f {
    updated_at =
        some (or_next f.uploaded_at (or_next f.queued_at (or_next f.copied_at f.discovered_at)));
  }
  | some t ↦ f
]

abbrev pub later_columns : List Text
later_columns = codes "ingest_ms" ∷ codes "upload_ms" ∷ codes "destination_name" ∷ []

unfoldable pub migrate_added : Driver → FilesTable × Option Bool → FilesTable × Bool
unfolding add_columns
migrate_added d (t, none) = (t, false)
migrate_added d (t, some false) = add_columns d later_columns t
migrate_added d (t, some true) =
    let rest = add_columns d later_columns (record t { rows = map backfill_row t.rows }) in
    if d.backfills then rest else (t, false)

-- migrate
unfoldable pub migrate : Driver → FilesTable → FilesTable × Bool
unfolding migrate_added add_column_if_missing
migrate d t = migrate_added d (add_column_if_missing d (codes "updated_at") t)

-- Open
unfoldable pub open_database : Driver → Option FilesTable → Option FilesTable × Bool
unfolding create_indexes migrate
open_database d before =
    let t = create_table before in
    let (t', ok) = migrate d t in
    if d.opens
    then if create_indexes d indexed_columns t then (some t', ok) else (some t, false)
    else (before, false)
