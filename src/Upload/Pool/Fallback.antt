-- ===== src/Upload/Pool/Fallback.antt =====
-- The fallbacks of the upload engine (internal/upload/upload.go) over all goroutines.
use mathlib.Core.Path.{subst}
use ivault.Common.{
  ℕ, zero, suc, ◌≡◌, refl, sym, Bool, some, List, [], ◌∷◌, inl, inr, Bool-cases, All, ltb,
}
use ivault.Common.Text.{Text}
use ivault.Common.Assoc.{Assoc}
use ivault.Db.{Db, File}
use ivault.Upload.{Destination, UploadConfig, slots}
use ivault.Upload.Pool.{
  Answer, Task, Event, Pool, Shared, launch, interrupt, proceed, advance, advance_at, active,
  launch_next, step, upload_all, start_pool,
}
use ivault.Upload.Pool.Steps.{upload_all_inv}
use ivault.Upload.Pool.Ordered.{
  IsInOrder, IsFallback, IsGrown, InOrder-more, Orderly-advance, Grown-advance,
}

-- Every goroutine and every delivery is in order.
abbrev pub AreInOrder : List Destination → List Task → Shared → Type 0
AreInOrder all ts s =
    All (λ (t : Task). IsInOrder all s.dead t.phase) ts × All (IsFallback all s.dead) s.deliveries

module _ (all : List Destination) where
  InOrder-others :
      (ts : List Task) (s r : Shared)
      → IsGrown s r
      → All (λ (t : Task). IsInOrder all s.dead t.phase) ts
      → All (λ (t : Task). IsInOrder all r.dead t.phase) ts
  InOrder-others [] s r g h = tt
  InOrder-others (t ∷ ts) s r (inl e) h =
      (subst (λ dead. IsInOrder all dead t.phase) (sym e) h.0, InOrder-others ts s r (inl e) h.1)
  InOrder-others (t ∷ ts) s r (inr (id, e)) h = (
    subst (λ dead. IsInOrder all dead t.phase) (sym e) (InOrder-more id s.dead all t.phase h.0),
    InOrder-others ts s r (inr (id, e)) h.1,
  )

module _ (cfg : UploadConfig) (dirs : List Text) (a : Answer) where
  Grown-advance_at :
      (i : ℕ) (ts : List Task) (s : Shared) → IsGrown s (advance_at cfg dirs a i ts s).1
  unfolding advance_at
  Grown-advance_at i [] s = inl refl
  Grown-advance_at zero (t ∷ ts) s = Grown-advance cfg dirs a t.row t.phase s
  Grown-advance_at (suc i) (t ∷ ts) s = Grown-advance_at i ts s

  InOrder-advance_at :
      (i : ℕ) (ts : List Task) (s : Shared)
      → AreInOrder cfg.destinations ts s
      → let r = advance_at cfg dirs a i ts s in AreInOrder cfg.destinations r.0 r.1
  unfolding advance_at
  InOrder-advance_at i [] s h = h
  InOrder-advance_at zero (t ∷ ts) s ((h, hs), k) =
      let r = Orderly-advance cfg dirs a t.row t.phase s (h, k) in
      (
        (
          r.0,
          InOrder-others cfg.destinations ts s (advance cfg dirs a t.row t.phase s).1
              (Grown-advance cfg dirs a t.row t.phase s) hs,
        ),
        r.1,
      )
  InOrder-advance_at (suc i) (t ∷ ts) s ((h, hs), k) =
      let r = InOrder-advance_at i ts s (hs, k) in
      (
        (
          (InOrder-others cfg.destinations (t ∷ []) s (advance_at cfg dirs a i ts s).1
              (Grown-advance_at i ts s) (h, tt)).0,
          r.0,
        ),
        r.1,
      )

module _ (cfg : UploadConfig) where
  InOrder-launch_next :
      (fs : List File) (p : Pool)
      → AreInOrder cfg.destinations p.tasks p.shared
      → AreInOrder cfg.destinations (launch_next fs p).tasks (launch_next fs p).shared
  unfolding launch_next
  InOrder-launch_next [] p h = h
  InOrder-launch_next (f ∷ fs) p (h, k) = ((tt, h), k)

  InOrder-step :
      (dirs : List Text) (e : Event) (p : Pool)
      → AreInOrder cfg.destinations p.tasks p.shared
      → AreInOrder cfg.destinations (step cfg dirs e p).tasks (step cfg dirs e p).shared
  unfolding step
  InOrder-step dirs launch p h = elim (Bool-cases (ltb (active p.tasks) (slots cfg.workers))) [
    | inl e ↦ rw e (InOrder-launch_next p.waiting p h)
    | inr e ↦ rw e h
  ]
  InOrder-step dirs interrupt p h = h
  InOrder-step dirs (proceed i a) p h = InOrder-advance_at cfg dirs a i p.tasks p.shared h

-- Copies go only to configured destinations, and to a fallback only after each destination before
-- it in the configuration has failed in the same run, however the goroutines take turns.
pub upload_all-Fallback :
    (cfg : UploadConfig) (listed : Bool) (es : List Event) (d : Db) (queue : Assoc Text) (q : Pool)
    → upload_all cfg listed es d queue ≡ some q
    → All (IsFallback cfg.destinations q.shared.dead) q.shared.deliveries
unfolding start_pool
upload_all-Fallback cfg listed es d queue q e =
    (upload_all_inv (λ p. AreInOrder cfg.destinations p.tasks p.shared) cfg (InOrder-step cfg)
      listed es d queue q (tt, tt) e).1
