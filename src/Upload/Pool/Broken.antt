-- ===== src/Upload/Pool/Broken.antt =====
-- Broken destinations in the upload engine (internal/upload/upload.go, the map deadDest).
use ivault.Common.{
  ℕ, zero, suc, ◌+◌, ◌≤◌, ◌≡◌, Bool, Option, none, some, List, [], ◌∷◌, inl, inr, arith, any,
  Bool-cases, ltb, if◌then◌else◌,
}
use ivault.Common.Text.{Text, text_eq, text_eq_iff}
use ivault.Common.Assoc.{Assoc}
use ivault.Db.{Db, File}
use ivault.Upload.{Destination, UploadConfig, slots}
use ivault.Upload.Pool.{
  Answer, Phase, Task, Event, Pool, Shared, launch, interrupt, proceed, starting, choosing, sending,
  done, stopped, holds_slot, active, begin, give_up, prep_dest, choose, record_upload,
  upload_failed, finish_upload, advance, advance_at, launch_next, step, upload_all, start_pool,
}
use ivault.Upload.Pool.Steps.{upload_all_inv}
use ivault.Upload.Pool.Slots.{active-step}

-- How many times the destination was logged as failed.
unfoldable pub times_failed : Text → List Text → ℕ
times_failed id [] = 0
times_failed id (d ∷ ds) = (if text_eq id d then 1 else 0) + times_failed id ds

unfoldable pub sends : Text → Phase → ℕ
sends id (sending t ts e) = if text_eq id t.id then 1 else 0
sends id _ = 0

unfoldable pub sending_to : Text → List Task → ℕ
unfolding sends
sending_to id [] = 0
sending_to id (t ∷ ts) = sends id t.phase + sending_to id ts

sends_le : (id : Text) (p : Phase) → sends id p ≤ holds_slot p
unfolding sends holds_slot
sends_le id starting = omega arith
sends_le id (choosing ts e) = omega arith
sends_le id (sending t ts e) = ground arith
sends_le id done = omega arith
sends_le id stopped = omega arith

pub sending_to_le : (id : Text) (ts : List Task) → sending_to id ts ≤ active ts
unfolding sending_to active
sending_to_le id [] = omega arith
sending_to_le id (t ∷ ts) = omega (arith, sends_le id t.phase, sending_to_le id ts)

-- The failures so far and those that may still come stay within the slots: before the first
-- failure the count is 0, after it the running copies are the only ones left.
abbrev pub IsBounded : Text → ℕ → ℕ → Shared → Type 0
IsBounded id n running s =
    (if any (text_eq id) s.dead
      then times_failed id s.failures + running
      else times_failed id s.failures)
    ≤ (if any (text_eq id) s.dead then n else 0)

module _ (dirs : List Text) (t : Destination) (s : Shared) where
  pub dead-prep_dest : (prep_dest dirs t s).dead ≡ s.dead
  unfolding prep_dest
  dead-prep_dest = ground arith

  failures-prep_dest : (prep_dest dirs t s).failures ≡ s.failures
  unfolding prep_dest
  failures-prep_dest = ground arith

module _ (cfg : UploadConfig) (dirs : List Text) (id : Text) (n others : ℕ) where
  Bounded-choose :
      (a : Answer) (f : File) (ts : List Destination) (e : Option Text) (s : Shared)
      → 1 + others ≤ n
      → IsBounded id n others s
      → let r = choose dirs a f ts e s in IsBounded id n (sends id r.0 + others) r.1
  unfolding choose sends give_up
  Bounded-choose a f [] e s k h = ground arith
  Bounded-choose a f (t ∷ ts) e s k h =
      ground (arith, text_eq_iff id t.id, dead-prep_dest dirs t s, failures-prep_dest dirs t s)

  Bounded-finish :
      (a : Answer) (f : File) (t : Destination) (ts : List Destination) (err : Option Text)
      (s : Shared)
      → (if text_eq id t.id then 1 else 0) + others ≤ n
      → IsBounded id n ((if text_eq id t.id then 1 else 0) + others) s
      → let r = finish_upload cfg a f t ts err s in IsBounded id n (sends id r.0 + others) r.1
  unfolding finish_upload record_upload upload_failed sends times_failed any
  Bounded-finish a f t ts none s k h = ground arith
  Bounded-finish a f t ts (some e) s k h = ground arith

  Bounded-advance :
      (a : Answer) (f : File) (p : Phase) (s : Shared)
      → holds_slot p + others ≤ n
      → IsBounded id n (sends id p + others) s
      → let r = advance cfg dirs a f p s in IsBounded id n (sends id r.0 + others) r.1
  unfolding advance sends holds_slot begin
  Bounded-advance a f starting s k h = ground arith
  Bounded-advance a f (choosing ts e) s k h = Bounded-choose a f ts e s k (ground arith)
  Bounded-advance a f (sending t ts e) s k h = Bounded-finish a f t ts a.error s (ground arith) h
  Bounded-advance a f done s k h = h
  Bounded-advance a f stopped s k h = h

module _ (cfg : UploadConfig) (dirs : List Text) (id : Text) (n : ℕ) where
  Bounded-advance_at :
      (a : Answer) (i : ℕ) (ts : List Task) (s : Shared) (k : ℕ)
      → active ts + k ≤ n
      → IsBounded id n (sending_to id ts + k) s
      → let r = advance_at cfg dirs a i ts s in IsBounded id n (sending_to id r.0 + k) r.1
  unfolding advance_at active sending_to
  Bounded-advance_at a i [] s k le h = h
  Bounded-advance_at a zero (t ∷ ts) s k le h =
      let goal =
        Bounded-advance cfg dirs id n (sending_to id ts + k) a t.row t.phase s
          (omega (arith, sending_to_le id ts)) (ground arith) in
      ground arith
  Bounded-advance_at a (suc i) (t ∷ ts) s k le h =
      let rest =
        Bounded-advance_at a i ts s (sends id t.phase + k) (omega (arith, sends_le id t.phase))
          (ground arith) in
      ground arith

-- The engine within its slots, and the destination's failures within them too.
abbrev pub IsFair : UploadConfig → Text → Pool → Type 0
IsFair cfg id p =
    (active p.tasks ≤ slots cfg.workers)
    × IsBounded id (slots cfg.workers) (sending_to id p.tasks) p.shared

module _ (cfg : UploadConfig) (id : Text) where
  Fair-launch_next :
      (fs : List File) (p : Pool) (n : ℕ)
      → IsBounded id n (sending_to id p.tasks) p.shared
      → IsBounded id n (sending_to id (launch_next fs p).tasks) (launch_next fs p).shared
  unfolding launch_next sending_to sends
  Fair-launch_next [] p n h = h
  Fair-launch_next (f ∷ fs) p n h = ground arith

  Fair-step :
      (dirs : List Text) (e : Event) (p : Pool)
      → IsFair cfg id p
      → IsFair cfg id (step cfg dirs e p)
  unfolding step
  Fair-step dirs launch p h = (
    active-step cfg dirs launch p h.0,
    elim (Bool-cases (ltb (active p.tasks) (slots cfg.workers))) [
      | inl e ↦ rw e (Fair-launch_next p.waiting p (slots cfg.workers) h.1)
      | inr e ↦ rw e h.1
    ],
  )
  Fair-step dirs interrupt p h = h
  Fair-step dirs (proceed i a) p h =
      let kept =
        Bounded-advance_at cfg dirs id (slots cfg.workers) a i p.tasks p.shared 0
          (omega (arith, h.0)) (ground (arith, h.1)) in
      (active-step cfg dirs (proceed i a) p h.0, ground (arith, kept))

  Fair-start_pool : (d : Db) (queue : Assoc Text) → IsFair cfg id (start_pool d queue)
  unfolding start_pool active sending_to any times_failed
  Fair-start_pool d queue = (omega arith, omega arith)

  Bounded-times_failed :
      (n running : ℕ) (s : Shared) → IsBounded id n running s → times_failed id s.failures ≤ n
  Bounded-times_failed n running s h = ground arith

-- However the goroutines take turns and however many files are queued, a destination fails at
-- most as many times in one run of the engine as the engine has slots.
pub upload_all_failures :
    (cfg : UploadConfig) (id : Text) (listed : Bool) (es : List Event) (d : Db) (queue : Assoc Text)
    (q : Pool)
    → upload_all cfg listed es d queue ≡ some q
    → times_failed id q.shared.failures ≤ slots cfg.workers
upload_all_failures cfg id listed es d queue q e =
    Bounded-times_failed cfg id (slots cfg.workers) (sending_to id q.tasks) q.shared
      (upload_all_inv (IsFair cfg id) cfg (Fair-step cfg id) listed es d queue q
        (Fair-start_pool cfg id d queue) e).1
