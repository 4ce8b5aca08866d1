-- ===== src/Upload/Pool/Rows.antt =====
-- What one step of the upload engine (internal/upload/upload.go) does to the rows of the files.

use mathlib.Core.List.{append_assoc}
use ivault.Common.{
  ℕ, ◌+◌, ◌<◌, ◌≤◌, ◌≡◌, refl, ap, sym, ◌∙◌, ◌⊎◌, true, false, Option, none, some, List, [], ◌∷◌,
  ◌++◌, inl, inr, arith, any, Bool-cases, leb,
}
use ivault.Common.Text.{Text, text_eq}
use ivault.Db.{
  File, update_file_state, update_file_error, update_file_uploaded, set_file_upload_ms, update_file,
  update_row, set_state, FileState, abandoned, uploading, queued, failed, uploaded,
}
use ivault.Db.Rows.{row, row-update_row, id-set_state}
use ivault.Upload.{
  Destination, UploadConfig, remote_dst, remote_rel, display_name, max_upload_attempts,
}
use ivault.Upload.Pool.{
  Answer, Delivery, Phase, Shared, starting, choosing, sending, done, stopped, message, begin,
  give_up, prep_dest, choose, record_upload, upload_failed, finish_upload, advance,
}

-- The driver carries out the statements that matter for the state of a row; `Lost` is what a staged
-- file that is not there shows.
abbrev pub IsCarriedOut : Type 0 → Answer → Type 0
IsCarriedOut Lost a =
    (a.state_ok ≡ true) × (a.error_ok ≡ true) × (a.uploaded_ok ≡ true) × (a.present ≡ false → Lost)

-- The destinations are those of the configuration from some place on.
abbrev pub AreLast : UploadConfig → List Destination → Type 0
AreLast cfg ts = (before : List Destination) × (cfg.destinations ≡ before ++ ts)

-- rclone reported a copy to a path at a destination.
abbrev pub IsDelivered : List Delivery → Destination → Text → Type 0
IsDelivered [] t path = ⊥
IsDelivered (d ∷ ds) t path = ((d.target ≡ t) × (d.remote_path ≡ path)) ⊎ IsDelivered ds t path

-- The row of a goroutine that has returned nil: uploaded, with the name of a configured destination
-- and the path there on record, to which rclone reported a copy; failed, with one more attempt and
-- attempts left; abandoned, with one more attempt and none left; or abandoned with its attempts as
-- they were, where a file was lost.
abbrev pub IsFinished : Type 0 → UploadConfig → List Delivery → File → File → Type 0
IsFinished Lost cfg ds f g =
    ((g.state ≡ uploaded)
      × ((t : Destination) × (ts : List Destination) × AreLast cfg (t ∷ ts)
          × IsDelivered ds t (remote_dst t (remote_rel cfg f.filename))
          × (g.destination_name ≡ some (display_name t))
          × (g.remote_path ≡ some (remote_dst t (remote_rel cfg f.filename)))))
    ⊎ (((g.state ≡ failed)
          × (g.upload_attempts ≡ f.upload_attempts + 1)
          × (g.upload_attempts < max_upload_attempts))
        ⊎ (((g.state ≡ abandoned)
              × (g.upload_attempts ≡ f.upload_attempts + 1)
              × (max_upload_attempts ≤ g.upload_attempts))
            ⊎ ((g.state ≡ abandoned) × (g.upload_attempts ≡ f.upload_attempts) × Lost)))

-- What the table holds for a file, by where its goroutine is.
abbrev pub IsRow : Type 0 → UploadConfig → List Delivery → File → Phase → File → Type 0
IsRow Lost cfg ds f starting g = g ≡ f
IsRow Lost cfg ds f (choosing ts e) g =
    (g.state ≡ uploading) × (g.upload_attempts ≡ f.upload_attempts) × AreLast cfg ts
IsRow Lost cfg ds f (sending t ts e) g =
    (g.state ≡ uploading) × (g.upload_attempts ≡ f.upload_attempts) × AreLast cfg (t ∷ ts)
IsRow Lost cfg ds f done g = IsFinished Lost cfg ds f g
IsRow Lost cfg ds f stopped g = (g.state ≡ queued) × (g.upload_attempts ≡ f.upload_attempts)

abbrev pub IsFate : Type 0 → UploadConfig → File → Phase → Shared → Type 0
IsFate Lost cfg f p s =
    (g : File) × (row f.id s.db.files ≡ some g) × IsRow Lost cfg s.deliveries f p g

row_at :
    (id : ℕ) (u : File → File) (fs : List File) (g : File)
    → ((f : File) → (u f).id ≡ f.id)
    → row id fs ≡ some g
    → row id (update_row id u fs) ≡ some (u g)
row_at id u fs g keep h = ground (arith, row-update_row id u keep id fs)

module _ (Lost : Type 0) (cfg : UploadConfig) (dirs : List Text) (a : Answer) (f : File)
    (ok : IsCarriedOut Lost a) where
  Fate-begin :
      (s : Shared)
      → IsFate Lost cfg f starting s
      → let r = begin cfg a f s in IsFate Lost cfg f r.0 r.1
  unfolding begin update_file_state update_file set_state
  Fate-begin s (g, h, e) = elim (Bool-cases a.present) [
    | inl p ↦
        rw (p, ok.0)
          (
            set_state a.now uploading g,
            row_at f.id (set_state a.now uploading) s.db.files g (id-set_state a.now uploading) h,
            (refl, ap (λ (x : File). x.upload_attempts) e, ([], refl)),
          )
    | inr p ↦
        rw (p, ok.0)
          (
            set_state a.now abandoned g,
            row_at f.id (set_state a.now abandoned) s.db.files g (id-set_state a.now abandoned) h,
            inr (inr (inr (refl, ap (λ (x : File). x.upload_attempts) e, ok.3 p))),
          )
  ]

  Fate-give_up :
      (e : Option Text) (s : Shared)
      → IsFate Lost cfg f (choosing [] e) s
      → let r = give_up a f e s in IsFate Lost cfg f r.0 r.1
  unfolding give_up update_file_error update_file_state update_file set_state
  Fate-give_up e s (g, h, (st, att, last)) =
      let u : File → File = λ x. record x {
        error_message = some (message e);
        upload_attempts = x.upload_attempts + 1;
        updated_at = some a.now.millis;
      } in
      let h1 = row_at f.id u s.db.files g (λ x. refl) h in
      let after : (n : FileState)
          → row f.id (update_row f.id (set_state a.now n) (update_row f.id u s.db.files))
            ≡ some (set_state a.now n (u g)) =
        λ n.
          row_at f.id (set_state a.now n) (update_row f.id u s.db.files) (u g)
            (id-set_state a.now n) h1 in
      elim (Bool-cases (leb max_upload_attempts (f.upload_attempts + 1))) [
        | inl p ↦
            rw (ok.0, ok.1)
              (rw p (
                set_state a.now abandoned (u g),
                after abandoned,
                inr (inr (inl (refl, omega (arith, att), ground (arith, att)))),
              ))
        | inr p ↦
            rw (ok.0, ok.1)
              (rw p (
                set_state a.now failed (u g),
                after failed,
                inr (inl (refl, omega (arith, att), ground (arith, att))),
              ))
      ]

  Fate-choose :
      (ts : List Destination) (e : Option Text) (s : Shared)
      → IsFate Lost cfg f (choosing ts e) s
      → let r = choose dirs a f ts e s in IsFate Lost cfg f r.0 r.1
  unfolding choose prep_dest
  Fate-choose [] e s h = Fate-give_up e s h
  Fate-choose (t ∷ ts) e s (g, h, (st, att, (before, last))) =
      elim (Bool-cases (any (text_eq t.id) s.dead)) [
        | inl p ↦
            rw p (g, h, (st, att, (before ++ t ∷ [], last ∙ sym (append_assoc before (t ∷ []) ts))))
        | inr p ↦ elim (Bool-cases (any (text_eq t.id) s.prepped)) [
          | inl q ↦ rw (p, q) (g, h, (st, att, (before, last)))
          | inr q ↦ rw (p, q) (g, h, (st, att, (before, last)))
        ]
      ]

  Fate-record_upload :
      (t : Destination) (ts : List Destination) (e : Option Text) (s : Shared)
      → IsFate Lost cfg f (sending t ts e) s
      → let r = record_upload cfg a f t s in IsFate Lost cfg f r.0 r.1
  unfolding record_upload update_file_uploaded update_file set_file_upload_ms
  Fate-record_upload t ts e s (g, h, (st, att, last)) =
      let v : File → File = λ x. record x {
        state = uploaded;
        uploaded_at = some a.now.stamp;
        updated_at = some a.now.millis;
        destination_name = some (display_name t);
        remote_path = some (remote_dst t (remote_rel cfg f.filename));
      } in
      let w : File → File =
        λ x. record x { upload_ms = some a.ms; updated_at = some a.now.millis } in
      let h1 = row_at f.id v s.db.files g (λ x. refl) h in
      let h2 = row_at f.id w (update_row f.id v s.db.files) (v g) (λ x. refl) h1 in
      elim (Bool-cases a.ms_ok) [
        | inl p ↦
            rw (ok.2, p) (w (v g), h2, inl (refl, (t, ts, last, inl (refl, refl), refl, refl)))
        | inr p ↦ rw (ok.2, p) (v g, h1, inl (refl, (t, ts, last, inl (refl, refl), refl, refl)))
      ]

  Fate-upload_failed :
      (t : Destination) (ts : List Destination) (e : Option Text) (err : Text) (s : Shared)
      → IsFate Lost cfg f (sending t ts e) s
      → let r = upload_failed a f t ts err s in IsFate Lost cfg f r.0 r.1
  unfolding upload_failed update_file_state update_file set_state
  Fate-upload_failed t ts e err s (g, h, (st, att, (before, last))) =
      elim (Bool-cases s.cancelled) [
        | inl p ↦
            rw (p, ok.0)
              (
                set_state a.now queued g,
                row_at f.id (set_state a.now queued) s.db.files g (id-set_state a.now queued) h,
                (refl, att),
              )
        | inr p ↦
            rw p (g, h, (st, att, (before ++ t ∷ [], last ∙ sym (append_assoc before (t ∷ []) ts))))
      ]

  Fate-finish :
      (t : Destination) (ts : List Destination) (e err : Option Text) (s : Shared)
      → IsFate Lost cfg f (sending t ts e) s
      → let r = finish_upload cfg a f t ts err s in IsFate Lost cfg f r.0 r.1
  unfolding finish_upload
  Fate-finish t ts e none s h = Fate-record_upload t ts e s h
  Fate-finish t ts e (some err) s h = Fate-upload_failed t ts e err s h

  -- With the driver's answers, a step keeps the row where the goroutine is.
  pub Fate-advance :
      (p : Phase) (s : Shared)
      → IsFate Lost cfg f p s
      → let r = advance cfg dirs a f p s in IsFate Lost cfg f r.0 r.1
  unfolding advance
  Fate-advance starting s h = Fate-begin s h
  Fate-advance (choosing ts e) s h = Fate-choose ts e s h
  Fate-advance (sending t ts e) s h = Fate-finish t ts e a.error s h
  Fate-advance done s h = h
  Fate-advance stopped s h = h
