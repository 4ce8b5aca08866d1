-- ===== src/Upload/Pool/Steps.antt =====
-- The upload engine (internal/upload/upload.go): what every event keeps, the engine keeps.
use mathlib.Core.Path.{subst}
use ivault.Common.{◌≡◌, true, false, Option, none, some, List, [], ◌∷◌, Bool, arith, refl, All}
use ivault.Common.Text.{Text}
use ivault.Common.Assoc.{Assoc}
use ivault.Db.{Db, File}
use ivault.Upload.{Destination, UploadConfig, unique_dirs}
use ivault.Upload.Pool.{
  Event, Pool, launch, launch_next, step, run, run_queued, upload_all, start_pool,
}

All-trivial : (es : List Event) → All (λ _. Unit {0}) es
All-trivial [] = tt
All-trivial (e ∷ es) = (tt, All-trivial es)

module _ {ℓ} (P : Pool → Type ℓ) where
  abbrev OnSome : Option Pool → Type ℓ
  OnSome none = Unit
  OnSome (some q) = P q

module _ {ℓ} (P : Pool → Type ℓ) (Q : Event → Type 0) (cfg : UploadConfig)
    (keep : (dirs : List Text) (e : Event) (p : Pool) → Q e → P p → P (step cfg dirs e p)) where
  run_inv : (dirs : List Text) (es : List Event) (p : Pool) → All Q es → P p → P (run cfg dirs es p)
  unfolding run
  run_inv dirs [] p q h = h
  run_inv dirs (e ∷ es) p q h = run_inv dirs es (step cfg dirs e p) q.1 (keep dirs e p q.0 h)

  with_destinations :
      (ds : List Destination) (es : List Event) (fs : List File) (p : Pool)
      → All Q es
      → P p
      → OnSome P (elim ds [ [] ↦ none | _ ∷ _ ↦ some (run cfg (unique_dirs cfg fs []) es p) ])
  with_destinations [] es fs p q h = tt
  with_destinations (t ∷ ts) es fs p q h = run_inv (unique_dirs cfg fs []) es p q h

  run_queued_inv :
      (es : List Event) (fs : List File) (p : Pool)
      → All Q es
      → P p
      → OnSome P (run_queued cfg es fs p)
  unfolding run_queued
  run_queued_inv es [] p q h = h
  run_queued_inv es (f ∷ fs) p q h = with_destinations cfg.destinations es (f ∷ fs) p q h

  upload_all_some :
      (listed : Bool) (es : List Event) (d : Db) (queue : Assoc Text)
      → All Q es
      → P (start_pool d queue)
      → OnSome P (upload_all cfg listed es d queue)
  unfolding upload_all
  upload_all_some false es d queue q h = tt
  upload_all_some true es d queue q h =
      run_queued_inv es (start_pool d queue).waiting (start_pool d queue) q h

  -- What the events that satisfy `Q` keep holds whenever the engine is looked at.
  pub upload_all_given :
      (listed : Bool) (es : List Event) (d : Db) (queue : Assoc Text) (r : Pool)
      → All Q es
      → P (start_pool d queue)
      → upload_all cfg listed es d queue ≡ some r
      → P r
  upload_all_given listed es d queue r q h e =
      subst (OnSome P) e (upload_all_some listed es d queue q h)

-- An invariant of the steps that holds at the start holds whenever the engine is looked at.
pub upload_all_inv {ℓ} :
    (P : Pool → Type ℓ) (cfg : UploadConfig)
    (keep : (dirs : List Text) (e : Event) (p : Pool) → P p → P (step cfg dirs e p)) (listed : Bool)
    (es : List Event) (d : Db) (queue : Assoc Text) (r : Pool)
    → P (start_pool d queue)
    → upload_all cfg listed es d queue ≡ some r
    → P r
upload_all_inv P cfg keep listed es d queue r h e =
    upload_all_given P (λ _. Unit {0}) cfg (λ dirs e p q. keep dirs e p) listed es d queue r
      (All-trivial es) h e

shared-launch_next : (fs : List File) (p : Pool) → (launch_next fs p).shared ≡ p.shared
unfolding launch_next
shared-launch_next [] p = refl
shared-launch_next (f ∷ fs) p = refl

-- A launch leaves the shared state as it is.
pub shared-launch :
    (cfg : UploadConfig) (dirs : List Text) (p : Pool) → (step cfg dirs launch p).shared ≡ p.shared
unfolding step
shared-launch cfg dirs p = ground (arith, shared-launch_next p.waiting p)
