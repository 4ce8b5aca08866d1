-- ===== src/Upload/Pool/Ends.antt =====
-- The upload engine (internal/upload/upload.go) comes to an end: a bound on its steps.
use mathlib.Core.List.{cons≢nil}
use ivault.Common.{
  ℕ, zero, suc, ◌+◌, ◌*◌, ◌≤◌, ◌<◌, ◌≡◌, ◌≢◌, ◌⊎◌, refl, ap, Bool, true, false, Option, none, some,
  List, [], ◌∷◌, inl, inr, arith, length, ltb, Bool-cases,
}
use ivault.Common.Text.{Text}
use ivault.Common.Int.{ℤ, pos, negsuc}
use ivault.Db.{File}
use ivault.Upload.{Destination, UploadConfig, slots}
use ivault.Upload.Pool.{
  Answer, Phase, Task, Event, Pool, Shared, launch, interrupt, proceed, starting, choosing, sending,
  done, stopped, begin, give_up, choose, record_upload, upload_failed, finish_upload, holds_slot,
  active, advance, advance_at, launch_next, step, run,
}

-- The steps that a goroutine has left, at most.
abbrev pub work : UploadConfig → Phase → ℕ
work cfg starting = 2 * length cfg.destinations + 2
work cfg (choosing ts e) = 2 * length ts + 1
work cfg (sending t ts e) = 2 * length ts + 2
work cfg done = 0
work cfg stopped = 0

unfoldable pub work_of : UploadConfig → List Task → ℕ
work_of cfg [] = 0
work_of cfg (t ∷ ts) = work cfg t.phase + work_of cfg ts

abbrev pub steps_left : UploadConfig → Pool → ℕ
steps_left cfg p = work_of cfg p.tasks + length p.waiting * (2 * length cfg.destinations + 3)

-- The goroutine with this number is at work.
unfoldable pub is_active : ℕ → List Task → Bool
unfolding holds_slot
is_active i [] = false
is_active zero (t ∷ ts) = ltb 0 (holds_slot t.phase)
is_active (suc i) (t ∷ ts) = is_active i ts

-- The event takes a step: a file waits and a slot is free, or the goroutine is at work.
abbrev pub IsStep : UploadConfig → Pool → Event → Type 0
IsStep cfg p launch = (active p.tasks < slots cfg.workers) × (p.waiting ≢ [])
IsStep cfg p (proceed i a) = is_active i p.tasks ≡ true
IsStep cfg p interrupt = ⊥

abbrev pub AreSteps : UploadConfig → List Text → Pool → List Event → Type 0
AreSteps cfg dirs p [] = Unit
AreSteps cfg dirs p (e ∷ es) = IsStep cfg p e × AreSteps cfg dirs (step cfg dirs e p) es

module _ (cfg : UploadConfig) (dirs : List Text) where
  work-choose :
      (a : Answer) (f : File) (ts : List Destination) (e : Option Text) (s : Shared)
      → work cfg (choose dirs a f ts e s).0 < work cfg (choosing ts e)
  unfolding choose give_up
  work-choose a f [] e s = omega arith
  work-choose a f (t ∷ ts) e s = ground arith

  work-finish :
      (a : Answer) (f : File) (t : Destination) (ts : List Destination) (err e : Option Text)
      (s : Shared)
      → work cfg (finish_upload cfg a f t ts err s).0 < work cfg (sending t ts e)
  unfolding finish_upload record_upload upload_failed
  work-finish a f t ts none e s = omega arith
  work-finish a f t ts (some err) e s = ground arith

  work-advance :
      (a : Answer) (f : File) (p : Phase) (s : Shared)
      → ltb 0 (holds_slot p) ≡ true
      → work cfg (advance cfg dirs a f p s).0 < work cfg p
  unfolding advance begin holds_slot
  work-advance a f starting s h = ground arith
  work-advance a f (choosing ts e) s h = work-choose a f ts e s
  work-advance a f (sending t ts e) s h = work-finish a f t ts a.error e s
  work-advance a f done s h = ground arith
  work-advance a f stopped s h = ground arith

  work-advance_at :
      (a : Answer) (i : ℕ) (ts : List Task) (s : Shared)
      → is_active i ts ≡ true
      → work_of cfg (advance_at cfg dirs a i ts s).0 < work_of cfg ts
  unfolding advance_at work_of is_active
  work-advance_at a i [] s h = ground arith
  work-advance_at a zero (t ∷ ts) s h = omega (arith, work-advance a t.row t.phase s h)
  work-advance_at a (suc i) (t ∷ ts) s h = omega (arith, work-advance_at a i ts s h)

  steps_left-launch_next :
      (fs : List File) (p : Pool)
      → p.waiting ≡ fs
      → fs ≢ []
      → steps_left cfg (launch_next fs p) < steps_left cfg p
  unfolding launch_next work_of
  steps_left-launch_next [] p e h = absurd (h refl)
  steps_left-launch_next (f ∷ fs) p e h =
      omega (arith, ap (λ (q : List File). length q * (2 * length cfg.destinations + 3)) e)

  steps_left-step :
      (p : Pool) (e : Event)
      → IsStep cfg p e
      → steps_left cfg (step cfg dirs e p) < steps_left cfg p
  unfolding step
  steps_left-step p launch (free, h) = ground (arith, steps_left-launch_next p.waiting p refl h)
  steps_left-step p (proceed i a) h = omega (arith, work-advance_at a i p.tasks p.shared h)
  steps_left-step p interrupt h = absurd h

  steps_left-run :
      (es : List Event) (p : Pool)
      → AreSteps cfg dirs p es
      → length es + steps_left cfg (run cfg dirs es p) ≤ steps_left cfg p
  unfolding run
  steps_left-run [] p h = omega arith
  steps_left-run (e ∷ es) p h =
      omega (arith, steps_left-step p e h.0, steps_left-run es (step cfg dirs e p) h.1)

slots_positive : (n : ℤ) → 0 < slots n
slots_positive (pos n) = ground arith
slots_positive (negsuc n) = omega arith

find_active : (ts : List Task) → (active ts ≡ 0) ⊎ ((i : ℕ) × (is_active i ts ≡ true))
unfolding active is_active
find_active [] = inl refl
find_active (t ∷ ts) = elim (Bool-cases (ltb 0 (holds_slot t.phase))) [
  | inl e ↦ inr (zero, e)
  | inr e ↦ elim (find_active ts) [
    | inl none_left ↦ inl (ground arith)
    | inr (i, h) ↦ inr (suc i, h)
  ]
]

list_cases : (fs : List File) → (fs ≡ []) ⊎ (fs ≢ [])
list_cases [] = inl refl
list_cases (f ∷ fs) = inr (λ e. cons≢nil e)

-- No goroutine is at work and no file waits.
abbrev pub IsOver : Pool → Type 0
IsOver p = (active p.tasks ≡ 0) × (p.waiting ≡ [])

progress : (cfg : UploadConfig) (a : Answer) (p : Pool) → IsOver p ⊎ ((e : Event) × IsStep cfg p e)
progress cfg a p = elim (find_active p.tasks) [
  | inr (i, h) ↦ inr (proceed i a, h)
  | inl idle ↦ elim (list_cases p.waiting) [
    | inl e ↦ inl (idle, e)
    | inr h ↦ inr (launch, (omega (arith, slots_positive cfg.workers, idle), h))
  ]
]

-- The engine comes to an end, however its goroutines take turns: each file takes at most two steps
-- for each destination and three more, and as long as the engine is not over it can take a step.
pub run_ends :
    (cfg : UploadConfig) (dirs : List Text) (es : List Event) (a : Answer) (p : Pool)
    → AreSteps cfg dirs p es
    → (length es ≤ steps_left cfg p)
      × (IsOver (run cfg dirs es p) ⊎ ((e : Event) × IsStep cfg (run cfg dirs es p) e))
run_ends cfg dirs es a p h =
    (omega (arith, steps_left-run cfg dirs es p h), progress cfg a (run cfg dirs es p))
