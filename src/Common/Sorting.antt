-- ===== src/Common/Sorting.antt =====
-- A stable sort by a text key, as `ORDER BY` does, and how it meets filters.
use mathlib.Core.List.{Perm}
use mathlib.Core.List.Perm
use ivault.Common.{
  ◌≡◌, refl, ap, Bool, true, false, List, [], ◌∷◌, inl, inr, arith, All, select, Bool-cases,
  if◌then◌else◌,
}
use ivault.Common.Text.{Text, text_lt, text_lt_trans, text_lt_total, text_lt_irrefl}

module _ {ℓ} {A : Type ℓ} (key : A → Text) where
  unfoldable pub insert_by : A → List A → List A
  insert_by x [] = x ∷ []
  insert_by x (y ∷ ys) =
      let rest = y ∷ insert_by x ys in if text_lt (key y) (key x) then rest else x ∷ y ∷ ys

  unfoldable pub sort_by : List A → List A
  unfolding insert_by
  sort_by [] = []
  sort_by (x ∷ xs) = insert_by x (sort_by xs)

  -- No item comes before one with a smaller key.
  abbrev pub IsSorted : List A → Type 0
  IsSorted [] = Unit
  IsSorted (x ∷ xs) = All (λ y. text_lt (key y) (key x) ≡ false) xs × IsSorted xs

pub text_le_trans : (s t u : Text) → text_lt t s ≡ false → text_lt u t ≡ false → text_lt u s ≡ false
text_le_trans s t u h k = elim (Bool-cases (text_lt u s)) [
  | inr e ↦ e
  | inl e ↦ elim (text_lt_total s t) [
    | inl st ↦ cc (text_lt_trans u s t e st, k)
    | inr (inl st) ↦ cc (ap (λ v. text_lt u v) st)
    | inr (inr ts) ↦ cc
  ]
]

pub lt_of_le_of_lt : (w v t : Text) → text_lt v w ≡ false → text_lt v t ≡ true → text_lt w t ≡ true
lt_of_le_of_lt w v t h k = elim (text_lt_total w v) [
  | inl wv ↦ text_lt_trans w v t wv k
  | inr (inl e) ↦ rw e k
  | inr (inr vw) ↦ cc
]

module _ {ℓ κ} {A : Type ℓ} (key : A → Text) (P : A → Type κ) where
  pub All-insert_by : (x : A) (xs : List A) → P x → All P xs → All P (insert_by key x xs)
  unfolding insert_by
  All-insert_by x [] h hs = (h, tt)
  All-insert_by x (y ∷ ys) h hs = elim (Bool-cases (text_lt (key y) (key x))) [
    | inl e ↦ rw e (hs.0, All-insert_by x ys h hs.1)
    | inr e ↦ rw e (h, hs)
  ]

  pub All-sort_by : (xs : List A) → All P xs → All P (sort_by key xs)
  unfolding sort_by
  All-sort_by [] h = tt
  All-sort_by (x ∷ xs) h = All-insert_by x (sort_by key xs) h.0 (All-sort_by xs h.1)

pub text_lt_asymm : (s t : Text) → text_lt s t ≡ true → text_lt t s ≡ false
text_lt_asymm s t h = elim (Bool-cases (text_lt t s)) [
  | inl e ↦ cc (text_lt_trans s t s h e, text_lt_irrefl s)
  | inr e ↦ e
]

pub All-map {ℓ κ μ} :
    {A : Type ℓ} {P : A → Type κ} {Q : A → Type μ} (xs : List A)
    → ((x : A) → P x → Q x)
    → All P xs
    → All Q xs
All-map [] f h = tt
All-map (x ∷ xs) f h = (f x h.0, All-map xs f h.1)

pub All-select {ℓ κ} :
    {A : Type ℓ} (P : A → Type κ) (p : A → Bool) (xs : List A) → All P xs → All P (select p xs)
unfolding select
All-select P p [] h = tt
All-select P p (x ∷ xs) h = elim (Bool-cases (p x)) [
  | inl e ↦ rw e (h.0, All-select P p xs h.1)
  | inr e ↦ rw e (All-select P p xs h.1)
]

module _ {ℓ} {A : Type ℓ} (key : A → Text) where
  insert_by-IsSorted : (x : A) (xs : List A) → IsSorted key xs → IsSorted key (insert_by key x xs)
  unfolding insert_by
  insert_by-IsSorted x [] h = (tt, tt)
  insert_by-IsSorted x (y ∷ ys) h = elim (Bool-cases (text_lt (key y) (key x))) [
    | inl e ↦ rw e (
      All-insert_by key (λ z. text_lt (key z) (key y) ≡ false) x ys
          (text_lt_asymm (key y) (key x) e) h.0,
      insert_by-IsSorted x ys h.1,
    )
    | inr e ↦ rw e ((e, All-map ys (λ z hz. text_le_trans (key x) (key y) (key z) e hz) h.0), h)
  ]

  -- The result is in order of the keys.
  pub sort_by-IsSorted : (xs : List A) → IsSorted key (sort_by key xs)
  unfolding sort_by
  sort_by-IsSorted [] = tt
  sort_by-IsSorted (x ∷ xs) = insert_by-IsSorted x (sort_by key xs) (sort_by-IsSorted xs)

  insert_by-perm : (x : A) (xs : List A) → Perm (insert_by key x xs) (x ∷ xs)
  unfolding insert_by
  insert_by-perm x [] = Perm.refl (x ∷ [])
  insert_by-perm x (y ∷ ys) = elim (Bool-cases (text_lt (key y) (key x))) [
    | inl e ↦ rw e (Perm.trans (Perm.cons y (insert_by-perm x ys)) (Perm.swap x y ys))
    | inr e ↦ rw e (Perm.refl (x ∷ y ∷ ys))
  ]

  -- The result has the same items, as often.
  pub sort_by-perm : (xs : List A) → Perm (sort_by key xs) xs
  unfolding sort_by
  sort_by-perm [] = Perm.refl []
  sort_by-perm (x ∷ xs) =
      Perm.trans (insert_by-perm x (sort_by key xs)) (Perm.cons x (sort_by-perm xs))

  insert_by-first :
      (x : A) (xs : List A)
      → All (λ z. text_lt (key z) (key x) ≡ false) xs
      → insert_by key x xs ≡ x ∷ xs
  unfolding insert_by
  insert_by-first x [] h = refl
  insert_by-first x (y ∷ ys) h = rw h.0

  select-insert_by :
      (p : A → Bool) (x : A) (xs : List A)
      → IsSorted key xs
      → select p (insert_by key x xs) ≡ (if p x then insert_by key x (select p xs) else select p xs)
  unfolding insert_by select
  select-insert_by p x [] h = refl
  select-insert_by p x (y ∷ ys) h = elim (Bool-cases (text_lt (key y) (key x))) [
    | inl e ↦ ground (arith, select-insert_by p x ys h.1)
    | inr e ↦ ground (
      arith,
      insert_by-first x (select p ys) (
          All-select (λ z. text_lt (key z) (key x) ≡ false) p ys
            (All-map ys (λ z hz. text_le_trans (key x) (key y) (key z) e hz) h.0)),
    )
  ]

  -- Filtering after the sort is sorting after the filter.
  pub select-sort_by :
      (p : A → Bool) (xs : List A) → select p (sort_by key xs) ≡ sort_by key (select p xs)
  unfolding sort_by select
  select-sort_by p [] = refl
  select-sort_by p (x ∷ xs) =
      ground
        (arith, select-insert_by p x (sort_by key xs) (sort_by-IsSorted xs), select-sort_by p xs)
