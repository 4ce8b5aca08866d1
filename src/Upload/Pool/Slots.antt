-- ===== src/Upload/Pool/Slots.antt =====
-- The slots of the upload engine (internal/upload/upload.go, the channel `sem`).
use ivault.Common.{ℕ, zero, suc, ◌+◌, ◌≤◌, ◌≡◌, Bool, some, List, [], ◌∷◌, arith}
use ivault.Common.Text.{Text}
use ivault.Common.Assoc.{Assoc}
use ivault.Db.{Db, File}
use ivault.Upload.{UploadConfig, slots}
use ivault.Upload.Pool.{
  Answer, Phase, Task, Event, Pool, Shared, launch, interrupt, proceed, starting, choosing, sending,
  done, stopped, holds_slot, active, advance, advance_at, launch_next, step, upload_all, start_pool,
}
use ivault.Upload.Pool.Steps.{upload_all_inv}

holds_slot_le : (p : Phase) → holds_slot p ≤ 1
unfolding holds_slot
holds_slot_le starting = omega arith
holds_slot_le (choosing ts e) = omega arith
holds_slot_le (sending t ts e) = omega arith
holds_slot_le done = omega arith
holds_slot_le stopped = omega arith

module _ (cfg : UploadConfig) (dirs : List Text) where
  holds_slot-advance :
      (a : Answer) (f : File) (p : Phase) (s : Shared)
      → holds_slot (advance cfg dirs a f p s).0 ≤ holds_slot p
  unfolding advance holds_slot
  holds_slot-advance a f starting s = holds_slot_le (advance cfg dirs a f starting s).0
  holds_slot-advance a f (choosing ts e) s =
      holds_slot_le (advance cfg dirs a f (choosing ts e) s).0
  holds_slot-advance a f (sending t ts e) s =
      holds_slot_le (advance cfg dirs a f (sending t ts e) s).0
  holds_slot-advance a f done s = omega arith
  holds_slot-advance a f stopped s = omega arith

  active-advance_at :
      (a : Answer) (i : ℕ) (ts : List Task) (s : Shared)
      → active (advance_at cfg dirs a i ts s).0 ≤ active ts
  unfolding advance_at active
  active-advance_at a i [] s = omega arith
  active-advance_at a zero (t ∷ ts) s = omega (arith, holds_slot-advance a t.row t.phase s)
  active-advance_at a (suc i) (t ∷ ts) s = omega (arith, active-advance_at a i ts s)

  active-launch_next :
      (fs : List File) (p : Pool) → active (launch_next fs p).tasks ≤ active p.tasks + 1
  unfolding launch_next active holds_slot
  active-launch_next [] p = omega arith
  active-launch_next (f ∷ fs) p = omega arith

  pub active-step :
      (e : Event) (p : Pool)
      → active p.tasks ≤ slots cfg.workers
      → active (step cfg dirs e p).tasks ≤ slots cfg.workers
  unfolding step
  active-step launch p h = ground (arith, active-launch_next p.waiting p)
  active-step interrupt p h = h
  active-step (proceed i a) p h = omega (arith, active-advance_at a i p.tasks p.shared)

active-start_pool : (d : Db) (queue : Assoc Text) (n : ℕ) → active (start_pool d queue).tasks ≤ n
unfolding start_pool active
active-start_pool d queue n = omega arith

-- However the goroutines take turns, no more of them are at work at once than the configuration
-- has workers, or than two where it has none.
pub upload_all-slots :
    (cfg : UploadConfig) (listed : Bool) (es : List Event) (d : Db) (queue : Assoc Text) (q : Pool)
    → upload_all cfg listed es d queue ≡ some q
    → active q.tasks ≤ slots cfg.workers
upload_all-slots cfg listed es d queue q =
    upload_all_inv (λ p. active p.tasks ≤ slots cfg.workers) cfg (active-step cfg) listed es d queue
      q (active-start_pool d queue (slots cfg.workers))
