-- ===== src/Upload/Pool/Fates.antt =====
-- The rows of the files over a whole run of the upload engine (internal/upload/upload.go).
use mathlib.Core.Path.{subst}
use ivault.Common.{
  ℕ, zero, suc, ◌≡◌, ◌≢◌, refl, sym, ◌∙◌, Option, none, some, List, [], ◌∷◌, inl, inr, arith, All,
}
use ivault.Common.Text.{Text}
use ivault.Db.{File}
use ivault.Db.Rows.{row}
use ivault.Upload.{Destination, UploadConfig}
use ivault.Upload.Pool.{
  Answer, Task, Pool, Phase, Shared, starting, choosing, sending, done, stopped, begin, give_up,
  prep_dest, choose, record_upload, upload_failed, finish_upload, advance, advance_at, launch_next,
}
use ivault.Upload.Pool.Rows.{IsCarriedOut, IsDelivered, IsRow, IsFate, Fate-advance}
use ivault.Upload.Pool.Others.{row-advance}

abbrev pub AreDistinct : List File → Type 0
AreDistinct [] = Unit
AreDistinct (f ∷ fs) = All (λ (g : File). g.id ≢ f.id) fs × AreDistinct fs

-- Goroutines and waiting files are about different rows.
abbrev pub AreApart : List Task → List File → Type 0
AreApart [] fs = AreDistinct fs
AreApart (t ∷ ts) fs =
    All (λ (u : Task). u.row.id ≢ t.row.id) ts
    × All (λ (g : File). g.id ≢ t.row.id) fs
    × AreApart ts fs

abbrev pub IsTable : Type 0 → UploadConfig → List Task → List File → Shared → Type 0
IsTable Lost cfg ts fs s =
    All (λ (t : Task). IsFate Lost cfg t.row t.phase s) ts
    × All (λ (f : File). row f.id s.db.files ≡ some f) fs
    × AreApart ts fs

-- What rclone has reported stays reported.
abbrev IsKept : Shared → Shared → Type 0
IsKept s r =
    (t : Destination) (path : Text)
    → IsDelivered s.deliveries t path
    → IsDelivered r.deliveries t path

module _ (cfg : UploadConfig) (dirs : List Text) (a : Answer) (f : File) where
  deliveries-begin : (s : Shared) → (begin cfg a f s).1.deliveries ≡ s.deliveries
  unfolding begin
  deliveries-begin s = ground arith

  deliveries-choose :
      (ts : List Destination) (e : Option Text) (s : Shared)
      → (choose dirs a f ts e s).1.deliveries ≡ s.deliveries
  unfolding choose give_up prep_dest
  deliveries-choose [] e s = ground arith
  deliveries-choose (t ∷ ts) e s = ground arith

  deliveries-failed :
      (t : Destination) (ts : List Destination) (e : Text) (s : Shared)
      → (upload_failed a f t ts e s).1.deliveries ≡ s.deliveries
  unfolding upload_failed
  deliveries-failed t ts e s = ground arith

  Kept-finish :
      (t : Destination) (ts : List Destination) (err : Option Text) (s : Shared)
      → IsKept s (finish_upload cfg a f t ts err s).1
  unfolding finish_upload record_upload
  Kept-finish t ts none s u path h = inr h
  Kept-finish t ts (some e) s u path h =
      subst (λ ds. IsDelivered ds u path) (sym (deliveries-failed t ts e s)) h

  Kept-advance : (p : Phase) (s : Shared) → IsKept s (advance cfg dirs a f p s).1
  unfolding advance
  Kept-advance starting s u path h =
      subst (λ ds. IsDelivered ds u path) (sym (deliveries-begin s)) h
  Kept-advance (choosing ts e) s u path h =
      subst (λ ds. IsDelivered ds u path) (sym (deliveries-choose ts e s)) h
  Kept-advance (sending t ts e) s u path h = Kept-finish t ts a.error s u path h
  Kept-advance done s u path h = h
  Kept-advance stopped s u path h = h

module _ (Lost : Type 0) (cfg : UploadConfig) (s r : Shared) (kept : IsKept s r) where
  Row-kept :
      (f g : File) (p : Phase)
      → IsRow Lost cfg s.deliveries f p g
      → IsRow Lost cfg r.deliveries f p g
  Row-kept f g starting h = h
  Row-kept f g (choosing ts e) h = h
  Row-kept f g (sending t ts e) h = h
  Row-kept f g done (inl (st, (t, ts, last, told, named, at))) =
      inl (st, (t, ts, last, kept t _ told, named, at))
  Row-kept f g done (inr h) = inr h
  Row-kept f g stopped h = h

  module _ (j : ℕ) (same : (i : ℕ) → i ≢ j → row i r.db.files ≡ row i s.db.files) where
    fates_kept :
        (ts : List Task)
        → All (λ (t : Task). t.row.id ≢ j) ts
        → All (λ (t : Task). IsFate Lost cfg t.row t.phase s) ts
        → All (λ (t : Task). IsFate Lost cfg t.row t.phase r) ts
    fates_kept [] a h = tt
    fates_kept (t ∷ ts) a ((g, e, h), hs) =
        ((g, same t.row.id a.0 ∙ e, Row-kept t.row g t.phase h), fates_kept ts a.1 hs)

    rows_kept :
        (fs : List File)
        → All (λ (f : File). f.id ≢ j) fs
        → All (λ (f : File). row f.id s.db.files ≡ some f) fs
        → All (λ (f : File). row f.id r.db.files ≡ some f) fs
    rows_kept [] a h = tt
    rows_kept (f ∷ fs) a h = (same f.id a.0 ∙ h.0, rows_kept fs a.1 h.1)

module _ (cfg : UploadConfig) (dirs : List Text) (a : Answer) where
  row-advance_at :
      (j i : ℕ) (ts : List Task) (s : Shared)
      → All (λ (u : Task). u.row.id ≢ j) ts
      → row j (advance_at cfg dirs a i ts s).1.db.files ≡ row j s.db.files
  unfolding advance_at
  row-advance_at j i [] s h = refl
  row-advance_at j zero (t ∷ ts) s h = row-advance cfg dirs a t.row j (λ e. h.0 (sym e)) t.phase s
  row-advance_at j (suc i) (t ∷ ts) s h = row-advance_at j i ts s h.1

  Kept-advance_at :
      (i : ℕ) (ts : List Task) (s : Shared) → IsKept s (advance_at cfg dirs a i ts s).1
  unfolding advance_at
  Kept-advance_at i [] s u path h = h
  Kept-advance_at zero (t ∷ ts) s u path h = Kept-advance cfg dirs a t.row t.phase s u path h
  Kept-advance_at (suc i) (t ∷ ts) s u path h = Kept-advance_at i ts s u path h

  rows-advance_at :
      (j i : ℕ) (ts : List Task) (s : Shared)
      → All (λ (u : Task). u.row.id ≢ j) ts
      → All (λ (u : Task). u.row.id ≢ j) (advance_at cfg dirs a i ts s).0
  unfolding advance_at
  rows-advance_at j i [] s h = h
  rows-advance_at j zero (t ∷ ts) s h = h
  rows-advance_at j (suc i) (t ∷ ts) s h = (h.0, rows-advance_at j i ts s h.1)

  pub Table-advance_at :
      (Lost : Type 0) (i : ℕ) (ts : List Task) (fs : List File) (s : Shared)
      → IsCarriedOut Lost a
      → IsTable Lost cfg ts fs s
      → let r = advance_at cfg dirs a i ts s in IsTable Lost cfg r.0 fs r.1
  unfolding advance_at
  Table-advance_at Lost i [] fs s ok h = h
  Table-advance_at Lost zero (t ∷ ts) fs s ok ((h, hs), k, (u, v, w)) =
      let s' = (advance cfg dirs a t.row t.phase s).1 in
      let kept = Kept-advance cfg dirs a t.row t.phase s in
      let same : (j : ℕ) → j ≢ t.row.id → row j s'.db.files ≡ row j s.db.files =
        λ j n. row-advance cfg dirs a t.row j n t.phase s in
      (
        (
          Fate-advance Lost cfg dirs a t.row ok t.phase s h,
          fates_kept Lost cfg s s' kept t.row.id same ts u hs,
        ),
        rows_kept Lost cfg s s' kept t.row.id same fs v k,
        (u, v, w),
      )
  Table-advance_at Lost (suc i) (t ∷ ts) fs s ok (((g, e, r), hs), k, (u, v, w)) =
      let (hs', k', w') = Table-advance_at Lost i ts fs s ok (hs, k, w) in
      (
        (
          (
            g,
            row-advance_at t.row.id i ts s u ∙ e,
            Row-kept Lost cfg s (advance_at cfg dirs a i ts s).1 (Kept-advance_at i ts s) t.row g
                t.phase r,
          ),
          hs',
        ),
        k',
        (rows-advance_at t.row.id i ts s u, v, w'),
      )

Apart-launch :
    (f : File) (ts : List Task) (fs : List File)
    → AreApart ts (f ∷ fs)
    → All (λ (u : Task). u.row.id ≢ f.id) ts × All (λ (g : File). g.id ≢ f.id) fs × AreApart ts fs
Apart-launch f [] fs (h, k) = (tt, h, k)
Apart-launch f (t ∷ ts) fs (u, v, w) =
    let (x, y, z) = Apart-launch f ts fs w in (((λ e. v.0 (sym e)), x), y, (u, v.1, z))

module _ (Lost : Type 0) (cfg : UploadConfig) where
  pub Table-launch_next :
      (fs : List File) (p : Pool)
      → IsTable Lost cfg p.tasks fs p.shared
      → p.waiting ≡ fs
      → let q = launch_next fs p in IsTable Lost cfg q.tasks q.waiting q.shared
  unfolding launch_next
  Table-launch_next [] p h e = rw e h
  Table-launch_next (f ∷ fs) p (h, k, w) e = (((f, k.0, refl), h), k.1, Apart-launch f p.tasks fs w)
