-- ===== src/Upload/Pool/Ordered.antt =====
-- The order in which the upload engine (internal/upload/upload.go) takes the destinations.
use mathlib.Core.List.{append_assoc}
use ivault.Common.{
  ◌≡◌, refl, sym, ◌∙◌, true, Option, none, some, List, [], ◌∷◌, ◌++◌, ◌⊎◌, inl, inr, arith, any,
  Bool-cases, All, All-append,
}
use ivault.Common.Text.{Text, text_eq, text_eq_refl}
use ivault.Db.{File}
use ivault.Upload.{Destination, UploadConfig}
use ivault.Upload.Pool.{
  Answer, Phase, Shared, Delivery, starting, choosing, sending, done, stopped, begin, give_up,
  prep_dest, choose, record_upload, upload_failed, finish_upload, advance,
}
use ivault.Upload.Pool.Broken.{dead-prep_dest}

abbrev pub IsDead : List Text → Destination → Type 0
IsDead dead t = any (text_eq t.id) dead ≡ true

-- The destinations before `t` in the configuration are all dead.
abbrev pub IsTurn : List Destination → List Text → Destination → List Destination → Type 0
IsTurn all dead t ts =
    (before : List Destination) × (all ≡ before ++ t ∷ ts) × All (IsDead dead) before

abbrev pub IsInOrder : List Destination → List Text → Phase → Type 0
IsInOrder all dead (choosing ts e) =
    (before : List Destination) × (all ≡ before ++ ts) × All (IsDead dead) before
IsInOrder all dead (sending t ts e) = IsTurn all dead t ts
IsInOrder all dead _ = Unit

-- Only configured destinations have received copies, each after all before it had died.
abbrev pub IsFallback : List Destination → List Text → Delivery → Type 0
IsFallback all dead d = (ts : List Destination) × IsTurn all dead d.target ts

module _ (id : Text) (dead : List Text) where
  Dead-more : (ds : List Destination) → All (IsDead dead) ds → All (IsDead (id ∷ dead)) ds
  unfolding any
  Dead-more [] h = tt
  Dead-more (d ∷ ds) h = (ground (arith, h.0), Dead-more ds h.1)

  pub InOrder-more :
      (all : List Destination) (p : Phase) → IsInOrder all dead p → IsInOrder all (id ∷ dead) p
  InOrder-more all starting h = tt
  InOrder-more all (choosing ts e) (ds, e', h) = (ds, e', Dead-more ds h)
  InOrder-more all (sending t ts e) (ds, e', h) = (ds, e', Dead-more ds h)
  InOrder-more all done h = tt
  InOrder-more all stopped h = tt

  pub Fallback-more :
      (all : List Destination) (ds : List Delivery)
      → All (IsFallback all dead) ds
      → All (IsFallback all (id ∷ dead)) ds
  Fallback-more all [] h = tt
  Fallback-more all (d ∷ ds) ((ts, (before, e, b)), h) =
      ((ts, (before, e, Dead-more before b)), Fallback-more all ds h)

-- A task's next step, with the deliveries, is in order where they were.
abbrev pub IsOrderly : List Destination → Phase × Shared → Type 0
IsOrderly all r = IsInOrder all r.1.dead r.0 × All (IsFallback all r.1.dead) r.1.deliveries

-- The map deadDest only grows.
abbrev pub IsGrown : Shared → Shared → Type 0
IsGrown s r = (r.dead ≡ s.dead) ⊎ ((id : Text) × (r.dead ≡ id ∷ s.dead))

module _ (t : Destination) (dead : List Text) where
  Dead-self : IsDead (t.id ∷ dead) t
  unfolding any
  Dead-self = ground (arith, text_eq_refl t.id)

  -- A dead destination is passed over.
  InOrder-next :
      (all ds ts : List Destination)
      → all ≡ ds ++ t ∷ ts
      → All (IsDead dead) ds
      → IsDead dead t
      → (before : List Destination) × (all ≡ before ++ ts) × All (IsDead dead) before
  InOrder-next all ds ts p b h = (
    ds ++ t ∷ [],
    p ∙ sym (append_assoc ds (t ∷ []) ts),
    All-append (IsDead dead) ds (t ∷ []) b (h, tt),
  )

deliveries-prep_dest :
    (dirs : List Text) (t : Destination) (s : Shared)
    → (prep_dest dirs t s).deliveries ≡ s.deliveries
unfolding prep_dest
deliveries-prep_dest dirs t s = ground arith

module _ (cfg : UploadConfig) (dirs : List Text) (a : Answer) (f : File) where
  Orderly-choose :
      (ts : List Destination) (e : Option Text) (s : Shared)
      → IsOrderly cfg.destinations (choosing ts e, s)
      → IsOrderly cfg.destinations (choose dirs a f ts e s)
  unfolding choose give_up
  Orderly-choose [] e s (h, k) = (tt, k)
  Orderly-choose (t ∷ ts) e s ((ds, p, b), k) = elim (Bool-cases (any (text_eq t.id) s.dead)) [
    | inl dead ↦ rw dead (InOrder-next t s.dead cfg.destinations ds ts p b dead, k)
    | inr dead ↦
        rw dead (rw (dead-prep_dest dirs t s, deliveries-prep_dest dirs t s) ((ds, p, b), k))
  ]

  Orderly-finish :
      (t : Destination) (ts : List Destination) (err e : Option Text) (s : Shared)
      → IsOrderly cfg.destinations (sending t ts e, s)
      → IsOrderly cfg.destinations (finish_upload cfg a f t ts err s)
  unfolding finish_upload record_upload upload_failed
  Orderly-finish t ts none e s (h, k) = (tt, ((ts, h), k))
  Orderly-finish t ts (some err) e s ((ds, p, b), k) = elim (Bool-cases s.cancelled) [
    | inl c ↦ rw c (tt, k)
    | inr c ↦ rw c (
      InOrder-next t (t.id ∷ s.dead) cfg.destinations ds ts p (Dead-more t.id s.dead ds b)
          (Dead-self t s.dead),
      Fallback-more t.id s.dead cfg.destinations s.deliveries k,
    )
  ]

  pub Orderly-advance :
      (p : Phase) (s : Shared)
      → IsOrderly cfg.destinations (p, s)
      → IsOrderly cfg.destinations (advance cfg dirs a f p s)
  unfolding advance begin
  Orderly-advance starting s (h, k) = elim (Bool-cases a.present) [
    | inl c ↦ rw c (([], refl, tt), k)
    | inr c ↦ rw c (tt, k)
  ]
  Orderly-advance (choosing ts e) s h = Orderly-choose ts e s h
  Orderly-advance (sending t ts e) s h = Orderly-finish t ts a.error e s h
  Orderly-advance done s h = h
  Orderly-advance stopped s h = h

  Grown-choose :
      (ts : List Destination) (e : Option Text) (s : Shared) → IsGrown s (choose dirs a f ts e s).1
  unfolding choose give_up
  Grown-choose [] e s = inl refl
  Grown-choose (t ∷ ts) e s = inl (ground (arith, dead-prep_dest dirs t s))

  Grown-finish :
      (t : Destination) (ts : List Destination) (err : Option Text) (s : Shared)
      → IsGrown s (finish_upload cfg a f t ts err s).1
  unfolding finish_upload record_upload upload_failed
  Grown-finish t ts none s = inl refl
  Grown-finish t ts (some err) s = elim (Bool-cases s.cancelled) [
    | inl c ↦ inl (rw c refl)
    | inr c ↦ inr (t.id, rw c refl)
  ]

  pub Grown-advance : (p : Phase) (s : Shared) → IsGrown s (advance cfg dirs a f p s).1
  unfolding advance begin
  Grown-advance starting s = inl (ground arith)
  Grown-advance (choosing ts e) s = Grown-choose ts e s
  Grown-advance (sending t ts e) s = Grown-finish t ts a.error s
  Grown-advance done s = inl refl
  Grown-advance stopped s = inl refl
