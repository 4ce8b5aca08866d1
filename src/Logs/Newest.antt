-- ===== src/Logs/Newest.antt =====
-- What the collector of internal/agent/logs.go still holds after many lines.
use mathlib.Core.List.{append-nil, append_assoc}
use ivault.Common.{
  ℕ, zero, suc, ◌-◌, ◌≤◌, ◌<◌, ◌≡◌, refl, ap, sym, ◌∙◌, Bool, true, false, List, [], ◌∷◌, ◌++◌,
  length, length-append, drop, ltb, inl, inr, arith, Bool-cases, if◌then◌else◌,
}
use ivault.Common.Text.{Text}
use ivault.Logs.{LogEntry, LogCollector, entry_of, level_rank, trim_buffer, write}

unfoldable pub writes : List (Text × Text) → LogCollector → LogCollector
unfolding write
writes [] c = c
writes (l ∷ ls) c = writes ls (write l.0 l.1 c)

-- The entries of the lines that reach the level, in order.
unfoldable pub entries : ℕ → List (Text × Text) → List LogEntry
unfolding entry_of level_rank
entries level [] = []
entries level (l ∷ ls) =
    let rest = entries level ls in
    if ltb (level_rank (entry_of l.0 l.1).level) level then rest else entry_of l.0 l.1 ∷ rest

drop-append : (j : ℕ) (xs ys : List LogEntry) → j ≤ length xs → drop j (xs ++ ys) ≡ drop j xs ++ ys
drop-append zero xs ys h = refl
drop-append (suc j) [] ys h = ground arith
drop-append (suc j) (x ∷ xs) ys h = drop-append j xs ys (omega arith)

drop_one : (j : ℕ) (xs : List LogEntry) → drop 1 (drop j xs) ≡ drop (suc j) xs
drop_one zero xs = refl
drop_one (suc j) [] = refl
drop_one (suc j) (x ∷ xs) = drop_one j xs

length-drop : (j : ℕ) (xs : List LogEntry) → length (drop j xs) ≡ length xs - j
length-drop zero xs = omega arith
length-drop (suc j) [] = omega arith
length-drop (suc j) (x ∷ xs) = omega (arith, length-drop j xs)

trim_long : (xs : List LogEntry) → 1000 < length xs → trim_buffer xs ≡ drop (length xs - 1000) xs
unfolding trim_buffer
trim_long xs h = ground arith

trim_short : (xs : List LogEntry) → length xs ≤ 1000 → trim_buffer xs ≡ xs
unfolding trim_buffer
trim_short xs h = ground arith

-- Trimming before the next entry is added makes no difference.
pub trim-append :
    (xs : List LogEntry) (e : LogEntry)
    → trim_buffer (trim_buffer xs ++ e ∷ []) ≡ trim_buffer (xs ++ e ∷ [])
trim-append xs e = elim (Bool-cases (ltb 1000 (length xs))) [
  | inr h ↦ ap (λ ys. trim_buffer (ys ++ e ∷ [])) (trim_short xs (ground arith))
  | inl h ↦
      let j = length xs - 1000 in
      let long : 1000 < length xs = ground arith in
      let joined = drop-append j xs (e ∷ []) (omega (arith, long)) in
      let n = length-append xs (e ∷ []) in
      let one : length (drop j (xs ++ e ∷ [])) - 1000 ≡ 1 =
        omega (arith, n, long, length-drop j (xs ++ e ∷ [])) in
      let next : suc j ≡ length (xs ++ e ∷ []) - 1000 = omega (arith, n, long) in
      ap (λ ys. trim_buffer (ys ++ e ∷ [])) (trim_long xs long)
      ∙ ap trim_buffer (sym joined)
      ∙ trim_long (drop j (xs ++ e ∷ [])) (omega (arith, n, long, length-drop j (xs ++ e ∷ [])))
      ∙ ap (λ k. drop k (drop j (xs ++ e ∷ []))) one
      ∙ drop_one j (xs ++ e ∷ [])
      ∙ ap (λ k. drop k (xs ++ e ∷ [])) next
      ∙ sym (trim_long (xs ++ e ∷ []) (omega (arith, n, long)))
]

unfoldable pub is_low : Text × Text → ℕ → Bool
is_low l level = ltb (level_rank (entry_of l.0 l.1).level) level

module _ (l : Text × Text) (ls : List (Text × Text)) (c : LogCollector) where
  pub write_skip : is_low l c.ship_level ≡ true → write l.0 l.1 c ≡ c
  unfolding write is_low
  write_skip h = ground arith

  pub write_keep :
      is_low l c.ship_level ≡ false
      → write l.0 l.1 c ≡ record c { buffer = trim_buffer (c.buffer ++ entry_of l.0 l.1 ∷ []) }
  unfolding write is_low
  write_keep h = ground arith

  entries_skip :
      is_low l c.ship_level ≡ true → entries c.ship_level (l ∷ ls) ≡ entries c.ship_level ls
  unfolding entries is_low
  entries_skip h = ground arith

  entries_keep :
      is_low l c.ship_level ≡ false
      → entries c.ship_level (l ∷ ls) ≡ entry_of l.0 l.1 ∷ entries c.ship_level ls
  unfolding entries is_low
  entries_keep h = ground arith

writes-after :
    (ls : List (Text × Text)) (xs : List LogEntry) (c : LogCollector)
    → c.buffer ≡ trim_buffer xs
    → (writes ls c).buffer ≡ trim_buffer (xs ++ entries c.ship_level ls)
unfolding writes
writes-after [] xs c h = unfold entries in (h ∙ ap trim_buffer (sym (append-nil xs)))
writes-after (l ∷ ls) xs c h = elim (Bool-cases (is_low l c.ship_level)) [
  | inl e ↦
      ap (λ (d : LogCollector). (writes ls d).buffer) (write_skip l ls c e)
      ∙ writes-after ls xs c h
      ∙ ap (λ es. trim_buffer (xs ++ es)) (sym (entries_skip l ls c e))
  | inr e ↦
      let new = entry_of l.0 l.1 in
      let d : LogCollector = record c { buffer = trim_buffer (c.buffer ++ new ∷ []) } in
      let held : d.buffer ≡ trim_buffer (xs ++ new ∷ []) =
        ap (λ es. trim_buffer (es ++ new ∷ [])) h ∙ trim-append xs new in
      ap (λ (b : LogCollector). (writes ls b).buffer) (write_keep l ls c e)
      ∙ writes-after ls (xs ++ new ∷ []) d held
      ∙ ap trim_buffer (append_assoc xs (new ∷ []) (entries c.ship_level ls))
      ∙ ap (λ es. trim_buffer (xs ++ es)) (sym (entries_keep l ls c e))
]

-- After any lines the collector holds the newest of the entries that reach its level, 1000 at most,
-- in their order.
pub writes-trim_buffer :
    (level : ℕ) (ls : List (Text × Text))
    → (writes ls (record { buffer = []; ship_level = level })).buffer
      ≡ trim_buffer (entries level ls)
unfolding trim_buffer
writes-trim_buffer level ls = writes-after ls [] (record { buffer = []; ship_level = level }) refl
