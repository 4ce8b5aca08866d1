-- ===== src/Common/Joins.antt =====
-- Joining texts by a separator and splitting them again.
use mathlib.Core.List.{append_assoc}
use ivault.Common.{ℕ, ◌≡◌, refl, ap, ◌∙◌, false, List, [], ◌∷◌, ◌++◌, All, arith, ◌==◌}
use ivault.Common.Text.{Text, split, push_piece, join}

-- The separator does not occur.
abbrev pub IsPlain : ℕ → Text → Type 0
IsPlain sep s = All (λ c. (c == sep) ≡ false) s

pub split_plain : (sep : ℕ) (s : Text) → IsPlain sep s → split s sep ≡ s ∷ []
unfolding split
split_plain sep [] h = refl
split_plain sep (c ∷ s) h = rw (h.0) (ap (push_piece c) (split_plain sep s h.1))

pub split-append :
    (sep : ℕ) (s t : Text) → IsPlain sep s → split (s ++ sep ∷ t) sep ≡ s ∷ split t sep
unfolding split
split-append sep [] t h = ground arith
split-append sep (c ∷ s) t h = rw (h.0) (ap (push_piece c) (split-append sep s t h.1))

-- Texts without the separator come back as they were joined; one text at least is needed, as the
-- join of none is the join of one empty text.
pub split-join :
    (sep : ℕ) (p : Text) (ps : List Text)
    → All (IsPlain sep) (p ∷ ps)
    → split (join (p ∷ ps) (sep ∷ [])) sep ≡ p ∷ ps
unfolding join
split-join sep p [] h = split_plain sep p h.0
split-join sep p (q ∷ ps) h =
    ap (λ t. split t sep) (append_assoc p (sep ∷ []) (join (q ∷ ps) (sep ∷ [])))
    ∙ split-append sep p (join (q ∷ ps) (sep ∷ [])) h.0
    ∙ ap (λ r. p ∷ r) (split-join sep q ps h.1)
