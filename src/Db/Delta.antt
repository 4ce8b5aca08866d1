-- ===== src/Db/Delta.antt =====
-- The delta of internal/db/files.go that goes to the portal: what one batch leaves for the next.
use ivault.Common.{
  ◌≡◌, refl, ◌∙◌, ap, sym, Bool, true, false, Option, none, some, List, [], ◌∷◌, ◌++◌, arith, All,
  All-selected, select, Bool-cases, inl, inr,
}
use ivault.Common.Text.{Text, text_lt}
use ivault.Common.Sorting.{
  sort_by, IsSorted, sort_by-IsSorted, select-sort_by, All-sort_by, All-map, lt_of_le_of_lt,
}
use ivault.Db.{File}
use ivault.Db.Queries.{changed_rows, change_key, is_after, coalesce}

abbrev pub after : Text → File → Bool
after w f = is_after w f.updated_at

is_after-coalesce : (w : Text) (o : Option Text) → is_after w o ≡ text_lt w (coalesce o)
unfolding text_lt
is_after-coalesce [] none = refl
is_after-coalesce (c ∷ w) none = refl
is_after-coalesce w (some t) = refl

after-after : (w v : Text) (f : File) → text_lt v w ≡ false → after v f ≡ true → after w f ≡ true
after-after w v f h k =
    is_after-coalesce w f.updated_at
    ∙ lt_of_le_of_lt w v (coalesce f.updated_at) h (sym (is_after-coalesce v f.updated_at) ∙ k)

-- A newer watermark keeps fewer rows.
select-after :
    (w v : Text) (fs : List File)
    → text_lt v w ≡ false
    → select (after v) fs ≡ select (after v) (select (after w) fs)
unfolding select
select-after w v [] h = refl
select-after w v (f ∷ fs) h = elim (Bool-cases (after v f)) [
  | inl e ↦ rw (e, after-after w v f h e) (rw e (ap (λ r. f ∷ r) (select-after w v fs h)))
  | inr e ↦ ground (arith, select-after w v fs h)
]

pub select_none :
    (v : Text) (xs : List File)
    → All (λ f. text_lt v (change_key f) ≡ false) xs
    → select (after v) xs ≡ []
unfolding select
select_none v [] h = refl
select_none v (f ∷ fs) h = rw (is_after-coalesce v f.updated_at, h.0) (select_none v fs h.1)

select-All :
    (v : Text) (xs : List File)
    → All (λ f. text_lt v (change_key f) ≡ true) xs
    → select (after v) xs ≡ xs
unfolding select
select-All v [] h = refl
select-All v (f ∷ fs) h =
    rw (is_after-coalesce v f.updated_at, h.0) (ap (λ r. f ∷ r) (select-All v fs h.1))

pub select-append {ℓ} :
    {A : Type ℓ} (p : A → Bool) (xs ys : List A) → select p (xs ++ ys) ≡ select p xs ++ select p ys
unfolding select
select-append p [] ys = refl
select-append p (x ∷ xs) ys = ground (arith, select-append p xs ys)

pub changed_rows-later :
    (files : List File) (w v : Text)
    → text_lt v w ≡ false
    → changed_rows files v ≡ select (after v) (changed_rows files w)
unfolding changed_rows
changed_rows-later files w v h =
    ap (sort_by change_key) (select-after w v files h)
    ∙ sym (select-sort_by change_key (after v) (select (after w) files))

-- Where the rows after a watermark are a sent part, none of it newer than the new watermark, and
-- a rest that is newer, the rows after the new watermark are that rest, in the same order.
pub changed_rows-split :
    (files : List File) (w v : Text) (sent rest : List File)
    → changed_rows files w ≡ sent ++ rest
    → text_lt v w ≡ false
    → All (λ f. text_lt v (change_key f) ≡ false) sent
    → All (λ f. text_lt v (change_key f) ≡ true) rest
    → changed_rows files v ≡ rest
changed_rows-split files w v sent rest e h hs hr =
    changed_rows-later files w v h
    ∙ ap (select (after v)) e
    ∙ select-append (after v) sent rest
    ∙ rw (select_none v sent hs) (select-All v rest hr)

-- Every row after a watermark is newer than it, and the rows come oldest change first.
pub changed_rows-IsSorted :
    (files : List File) (w : Text) → IsSorted change_key (changed_rows files w)
unfolding changed_rows
changed_rows-IsSorted files w = sort_by-IsSorted change_key (select (after w) files)

pub changed_rows-newer :
    (files : List File) (w : Text)
    → All (λ f. text_lt w (change_key f) ≡ true) (changed_rows files w)
unfolding changed_rows
changed_rows-newer files w =
    All-sort_by change_key (λ f. text_lt w (change_key f) ≡ true) (select (after w) files)
      (All-map (select (after w) files) (λ f h. sym (is_after-coalesce w f.updated_at) ∙ h)
        (All-selected (after w) files))
