-- ===== src/Upload/Pool/Others.antt =====
-- What one step of the upload engine (internal/upload/upload.go) leaves alone: other files' rows.

use ivault.Common.{
  ℕ, ◌+◌, ◌≡◌, ◌≢◌, refl, ◌∙◌, Bool, true, false, Option, none, some, List, [], ◌∷◌, arith, leb,
  if◌then◌else◌,
}
use ivault.Common.Text.{Text}
use ivault.Db.{
  Db, File, attempt, update_file_state, update_file_error, update_file_uploaded, set_file_upload_ms,
  update_file, set_state, FileState, abandoned, failed, queued, uploading,
}
use ivault.Db.Rows.{row, row-update_row, id-set_state}
use ivault.Upload.{Destination, UploadConfig, max_upload_attempts}
use ivault.Upload.Pool.{
  Answer, Phase, Shared, starting, choosing, sending, done, stopped, message, begin, give_up,
  prep_dest, choose, record_upload, upload_failed, finish_upload, advance,
}

module _ (id j : ℕ) (differ : j ≢ id) where
  row_other :
      (u : File → File) (b : Bool) (d : Db)
      → ((f : File) → (u f).id ≡ f.id)
      → row j (attempt b (update_file id u) d).files ≡ row j d.files
  unfolding update_file
  row_other u true d keep = ground (arith, row-update_row id u keep j d.files)
  row_other u false d keep = refl

module _ (cfg : UploadConfig) (dirs : List Text) (a : Answer) (f : File) (j : ℕ)
    (differ : j ≢ f.id) where
  row-set :
      (n : FileState) (b : Bool) (d : Db)
      → row j (attempt b (update_file_state a.now f.id n) d).files ≡ row j d.files
  unfolding update_file_state
  row-set n b d = row_other f.id j differ (set_state a.now n) b d (id-set_state a.now n)

  row-error :
      (msg : Text) (b : Bool) (d : Db)
      → row j (attempt b (update_file_error a.now f.id msg) d).files ≡ row j d.files
  unfolding update_file_error
  row-error msg b d = row_other f.id j differ _ b d (λ x. refl)

  row-uploaded :
      (name path : Text) (b : Bool) (d : Db)
      → row j (attempt b (update_file_uploaded a.now f.id name path) d).files ≡ row j d.files
  unfolding update_file_uploaded
  row-uploaded name path b d = row_other f.id j differ _ b d (λ x. refl)

  row-ms :
      (b : Bool) (d : Db)
      → row j (attempt b (set_file_upload_ms a.now f.id a.ms) d).files ≡ row j d.files
  unfolding set_file_upload_ms
  row-ms b d = row_other f.id j differ _ b d (λ x. refl)

  row-choose :
      (ts : List Destination) (e : Option Text) (s : Shared)
      → row j (choose dirs a f ts e s).1.db.files ≡ row j s.db.files
  unfolding choose give_up prep_dest
  row-choose [] e s =
      row-set (if leb max_upload_attempts (f.upload_attempts + 1) then abandoned else failed)
        a.state_ok (attempt a.error_ok (update_file_error a.now f.id (message e)) s.db)
      ∙ row-error (message e) a.error_ok s.db
  row-choose (t ∷ ts) e s = ground arith

  row-finish :
      (t : Destination) (ts : List Destination) (err : Option Text) (s : Shared)
      → row j (finish_upload cfg a f t ts err s).1.db.files ≡ row j s.db.files
  unfolding finish_upload record_upload upload_failed
  row-finish t ts none s = row-ms a.ms_ok _ ∙ row-uploaded _ _ a.uploaded_ok s.db
  row-finish t ts (some err) s = ground (arith, row-set queued a.state_ok s.db)

  -- A step of a goroutine changes no row but its file's.
  pub row-advance :
      (p : Phase) (s : Shared) → row j (advance cfg dirs a f p s).1.db.files ≡ row j s.db.files
  unfolding advance begin
  row-advance starting s =
      ground (arith, row-set abandoned a.state_ok s.db, row-set uploading a.state_ok s.db)
  row-advance (choosing ts e) s = row-choose ts e s
  row-advance (sending t ts e) s = row-finish t ts a.error s
  row-advance done s = refl
  row-advance stopped s = refl
