-- ===== src/Common/Paths.antt =====
-- What the source uses of the packages `path` and `path/filepath`, on slash-separated texts.
use ivault.Common.{Bool, List, [], ◌∷◌, ◌++◌, any, ◌==◌, if◌then◌else◌}
use ivault.Common.Text.{Text, codes, text_eq, has_prefix, split, join}
use mathlib.Core.List.{reverse}

-- One element after those kept so far, the last first: "." and "" go, ".." takes one back.
unfoldable pub clean_step : Bool → List Text → Text → List Text
unfolding text_eq
clean_step rooted kept part =
    if text_eq part []
    then kept
    else if text_eq part (codes ".")
    then kept
    else if text_eq part (codes "..")
    then elim kept [
      | [] ↦ if rooted then [] else part ∷ []
      | last ∷ before ↦ if text_eq last (codes "..") then part ∷ last ∷ before else before
    ]
    else part ∷ kept

unfoldable pub clean_parts : Bool → List Text → List Text → List Text
unfolding clean_step
clean_parts rooted kept [] = reverse kept
clean_parts rooted kept (p ∷ ps) = clean_parts rooted (clean_step rooted kept p) ps

-- path.Clean
unfoldable pub clean : Text → Text
unfolding has_prefix clean_parts split join text_eq
clean s =
    let rooted = has_prefix s (codes "/") in
    let body = join (clean_parts rooted [] (split s b'/')) (codes "/") in
    if rooted then b'/' ∷ body else if text_eq body [] then codes "." else body

-- path.Join of two elements; empty ones are left out.
unfoldable pub join_two : Text → Text → Text
unfolding clean
join_two [] [] = []
join_two [] (c ∷ t) = clean (c ∷ t)
join_two (b ∷ s) [] = clean (b ∷ s)
join_two (b ∷ s) (c ∷ t) = clean (b ∷ s ++ b'/' ∷ c ∷ t)

-- The text up to the last slash, with it; empty where there is none.
unfoldable pub up_to_slash : Text → Text
unfolding any
up_to_slash [] = []
up_to_slash (c ∷ s) = if any (λ d. d == b'/') (c ∷ s) then c ∷ up_to_slash s else []

-- filepath.Dir
unfoldable pub dir : Text → Text
unfolding clean up_to_slash
dir s = clean (up_to_slash s)
