-- ===== src/Common/Lines.antt =====
-- Words and lines of a text: strings.Fields, bufio.Scanner by lines, and runs of digits.
use ivault.Common.{
  zero, suc, ◌-◌, length, ℕ, Bool, false, not, Option, none, some, List, [], ◌∷◌, map, ◌==◌,
  if◌then◌else◌,
}
use ivault.Common.Text.{Text, is_space, has_prefix, push_piece, split}
use ivault.Common.Int.{is_digit}

abbrev pub starts_word : Text → Bool
unfolding is_space
starts_word [] = false
starts_word (c ∷ s) = not (is_space c)

-- strings.Fields
unfoldable pub fields : Text → List Text
unfolding is_space starts_word
fields [] = []
fields (c ∷ s) =
    let rest = fields s in
    if is_space c then rest else if starts_word s then push_piece c rest else (c ∷ []) ∷ rest

-- A carriage return at the end of a line.
unfoldable pub drop_cr : Text → Text
drop_cr [] = []
drop_cr (c ∷ []) = if c == b'\r' then [] else c ∷ []
drop_cr (c ∷ d ∷ s) = c ∷ drop_cr (d ∷ s)

-- The empty piece after the last line break is no line.
abbrev pub but_last_empty : List Text → List Text
but_last_empty [] = []
but_last_empty ([] ∷ []) = []
but_last_empty ((c ∷ s) ∷ []) = (c ∷ s) ∷ []
but_last_empty (l ∷ m ∷ ls) = l ∷ but_last_empty (m ∷ ls)

-- The tokens of a bufio.Scanner. The source's scanner also stops at a line of 64 KiB.
unfoldable pub scan_lines : Text → List Text
unfolding split drop_cr
scan_lines s = map drop_cr (but_last_empty (split s b'\n'))

-- What follows one digit or more, `none` without a digit.
unfoldable pub skip_digits : Text → Option Text
unfolding is_digit
skip_digits [] = none
skip_digits (c ∷ s) =
    let more = skip_digits s in
    if is_digit c then elim more [ none ↦ some s | some rest ↦ some rest ] else none

abbrev pub skip_char : ℕ → Text → Option Text
skip_char c [] = none
skip_char c (d ∷ s) = if d == c then some s else none

-- strings.Split by a text that is not empty; the number is what is left to skip of a separator.
unfoldable pub split_skipping : Text → ℕ → Text → List Text
unfolding has_prefix
split_skipping sep n [] = [] ∷ []
split_skipping sep zero (c ∷ s) =
    let found = [] ∷ split_skipping sep (length sep - 1) s in
    let rest = split_skipping sep zero s in
    if has_prefix (c ∷ s) sep then found else push_piece c rest
split_skipping sep (suc n) (c ∷ s) = split_skipping sep n s

unfoldable pub split_text : Text → Text → List Text
unfolding split_skipping
split_text s sep = split_skipping sep 0 s
