-- ===== src/Upload/Pool/Kept.antt =====
-- What the upload engine (internal/upload/upload.go) does to the staged files.
use ivault.Common.{
  ℕ, zero, suc, ◌≡◌, refl, ap, ◌∙◌, ◌⊎◌, Bool, Option, none, some, List, [], ◌∷◌, inl, inr, arith,
  Bool-cases,
}
use ivault.Common.Text.{Text, text_eq, text_eq_iff}
use ivault.Common.Assoc.{Assoc, lookup, lookup-erase}
use ivault.Db.{Db, File}
use ivault.Upload.{Destination, UploadConfig, remote_dst, remote_rel}
use ivault.Upload.Pool.{
  Answer, Phase, Task, Event, Pool, Shared, Delivery, launch, interrupt, proceed, starting,
  choosing, sending, done, stopped, begin, give_up, prep_dest, choose, record_upload, upload_failed,
  finish_upload, advance, advance_at, step, upload_all, start_pool,
}
use ivault.Upload.Pool.Steps.{upload_all_inv, shared-launch}

-- Some copy brought these bytes to the path of the file at a destination.
abbrev pub IsDelivered : UploadConfig → Text → Text → List Delivery → Type 0
IsDelivered cfg name bytes [] = ⊥
IsDelivered cfg name bytes (d ∷ ds) =
    ((d.bytes ≡ some bytes) × (d.remote_path ≡ remote_dst d.target (remote_rel cfg name)))
    ⊎ IsDelivered cfg name bytes ds

abbrev pub IsSafe : UploadConfig → Text → Text → Shared → Type 0
IsSafe cfg name bytes s =
    (lookup name s.queue ≡ some bytes) ⊎ IsDelivered cfg name bytes s.deliveries

module _ (cfg : UploadConfig) (name bytes : Text) where
  Safe-record_upload :
      (a : Answer) (f : File) (t : Destination) (s : Shared)
      → IsSafe cfg name bytes s
      → IsSafe cfg name bytes (record_upload cfg a f t s).1
  unfolding record_upload
  Safe-record_upload a f t s (inr d) = inr (inr d)
  Safe-record_upload a f t s (inl q) = elim (Bool-cases (text_eq f.filename name)) [
    | inl e ↦
        let same = (text_eq_iff f.filename name).0 e in
        inr (
          inl (ap (λ n. lookup n s.queue) same ∙ q, ap (λ n. remote_dst t (remote_rel cfg n)) same))
    | inr e ↦ inl (ground (arith, lookup-erase f.filename name s.queue))
  ]

  Safe-same :
      (s r : Shared)
      → r.queue ≡ s.queue
      → r.deliveries ≡ s.deliveries
      → IsSafe cfg name bytes s
      → IsSafe cfg name bytes r
  Safe-same s r q d (inl h) = inl (ap (lookup name) q ∙ h)
  Safe-same s r q d (inr h) = inr (rw d h)

  queue-choose :
      (dirs : List Text) (a : Answer) (f : File) (ts : List Destination) (e : Option Text)
      (s : Shared)
      → (choose dirs a f ts e s).1.queue ≡ s.queue
  unfolding choose give_up prep_dest
  queue-choose dirs a f [] e s = refl
  queue-choose dirs a f (t ∷ ts) e s = ground arith

  deliveries-choose :
      (dirs : List Text) (a : Answer) (f : File) (ts : List Destination) (e : Option Text)
      (s : Shared)
      → (choose dirs a f ts e s).1.deliveries ≡ s.deliveries
  unfolding choose give_up prep_dest
  deliveries-choose dirs a f [] e s = refl
  deliveries-choose dirs a f (t ∷ ts) e s = ground arith

  Safe-finish :
      (a : Answer) (f : File) (t : Destination) (ts : List Destination) (err : Option Text)
      (s : Shared)
      → IsSafe cfg name bytes s
      → IsSafe cfg name bytes (finish_upload cfg a f t ts err s).1
  unfolding finish_upload upload_failed
  Safe-finish a f t ts none s h = Safe-record_upload a f t s h
  Safe-finish a f t ts (some e) s h =
      Safe-same s (finish_upload cfg a f t ts (some e) s).1 (ground arith) (ground arith) h

  Safe-advance :
      (dirs : List Text) (a : Answer) (f : File) (p : Phase) (s : Shared)
      → IsSafe cfg name bytes s
      → IsSafe cfg name bytes (advance cfg dirs a f p s).1
  unfolding advance begin
  Safe-advance dirs a f starting s h =
      Safe-same s (begin cfg a f s).1 (ground arith) (ground arith) h
  Safe-advance dirs a f (choosing ts e) s h =
      Safe-same s (choose dirs a f ts e s).1 (queue-choose dirs a f ts e s)
        (deliveries-choose dirs a f ts e s) h
  Safe-advance dirs a f (sending t ts e) s h = Safe-finish a f t ts a.error s h
  Safe-advance dirs a f done s h = h
  Safe-advance dirs a f stopped s h = h

  Safe-advance_at :
      (dirs : List Text) (a : Answer) (i : ℕ) (ts : List Task) (s : Shared)
      → IsSafe cfg name bytes s
      → IsSafe cfg name bytes (advance_at cfg dirs a i ts s).1
  unfolding advance_at
  Safe-advance_at dirs a i [] s h = h
  Safe-advance_at dirs a zero (t ∷ ts) s h = Safe-advance dirs a t.row t.phase s h
  Safe-advance_at dirs a (suc i) (t ∷ ts) s h = Safe-advance_at dirs a i ts s h

  Safe-step :
      (dirs : List Text) (e : Event) (p : Pool)
      → IsSafe cfg name bytes p.shared
      → IsSafe cfg name bytes (step cfg dirs e p).shared
  unfolding step
  Safe-step dirs launch p h =
      Safe-same p.shared (step cfg dirs launch p).shared
        (ap (λ (s : Shared). s.queue) (shared-launch cfg dirs p))
        (ap (λ (s : Shared). s.deliveries) (shared-launch cfg dirs p)) h
  Safe-step dirs interrupt p h = h
  Safe-step dirs (proceed i a) p h = Safe-advance_at dirs a i p.tasks p.shared h

-- No staged file is lost, however the goroutines take turns and whichever calls fail: a file that
-- was in the upload queue is still there with its bytes, or rclone reported a copy that brought
-- these bytes to the path of that file at a destination.
pub upload_all-IsSafe :
    (cfg : UploadConfig) (listed : Bool) (es : List Event) (d : Db) (queue : Assoc Text) (q : Pool)
    (name bytes : Text)
    → lookup name queue ≡ some bytes
    → upload_all cfg listed es d queue ≡ some q
    → IsSafe cfg name bytes q.shared
unfolding start_pool
upload_all-IsSafe cfg listed es d queue q name bytes h =
    upload_all_inv (λ p. IsSafe cfg name bytes p.shared) cfg (Safe-step cfg name bytes) listed es d
      queue q (inl h)
