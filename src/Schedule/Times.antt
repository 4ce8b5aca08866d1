-- ===== src/Schedule/Times.antt =====
-- What internal/schedule/schedule.go reads from a time of day, `parseHHMM`.
use ivault.Common.{
  ℕ, zero, suc, ◌+◌, ◌/◌, ◌%◌, ◌<◌, ◌≡◌, refl, Bool, true, false, ◌&&◌, Option, none, some, [], ◌∷◌,
  ◌++◌, arith, ◌==◌, if◌then◌else◌,
}
use ivault.Common.Text.{Text, cut, trim_space}
use ivault.Common.Int.{ℤ, pos, negsuc, atoi}
use ivault.Schedule.{parse_hhmm, checked_time, time_of_parts}

-- A number below 100 as two digits, the form in which the portal writes a time.
unfoldable pub two_digits : ℕ → Text
two_digits n = (b'0' + n / 10) ∷ (b'0' + n % 10) ∷ []

unfoldable pub print_hhmm : ℕ → ℕ → Text
unfolding two_digits
print_hhmm h m = two_digits h ++ b':' ∷ two_digits m

checked_time_bounds : (h m : ℤ) → ((checked_time h m).0 < 24) × ((checked_time h m).1 < 60)
checked_time_bounds (pos h) (pos m) = ground arith
checked_time_bounds (pos h) (negsuc m) = omega arith
checked_time_bounds (negsuc h) m = omega arith

time_of_parts_bounds :
    (o : Option (Text × Text)) → ((time_of_parts o).0 < 24) × ((time_of_parts o).1 < 60)
time_of_parts_bounds none = omega arith
time_of_parts_bounds (some (h, m)) = checked_time_bounds (atoi h) (atoi m)

-- Whatever the text, the hour is below 24 and the minute below 60.
pub parse_hhmm_bounds : (v : Text) → ((parse_hhmm v).0 < 24) × ((parse_hhmm v).1 < 60)
unfolding parse_hhmm
parse_hhmm_bounds v = time_of_parts_bounds (cut (trim_space v) b':')

-- The test passes at the last number and at all before it.
passes_until : (ℕ → Bool) → ℕ → Bool
passes_until test zero = true
passes_until test (suc last) = if test last then passes_until test last else false

passes_until_at :
    (test : ℕ → Bool) (end k : ℕ) → passes_until test end ≡ true → k < end → test k ≡ true
unfolding passes_until
passes_until_at test zero k passed lt = absurd (omega arith)
passes_until_at test (suc last) k passed lt = ground (arith, passes_until_at test last k)

reads_back : ℕ → ℕ → Bool
reads_back h m = let r = parse_hhmm (print_hhmm h m) in r.0 == h && r.1 == m

day_reads_back : passes_until (λ h. passes_until (reads_back h) 60) 24 ≡ true
unfolding passes_until reads_back parse_hhmm print_hhmm
day_reads_back = refl

pair_eq : (r : ℕ × ℕ) (h m : ℕ) → (r.0 == h && r.1 == m) ≡ true → r ≡ (h, m)
pair_eq (a, b) h m e = ground arith

-- Every time of day, written with two digits each, is read back as it was written.
pub parse_hhmm-print_hhmm : (h m : ℕ) → h < 24 → m < 60 → parse_hhmm (print_hhmm h m) ≡ (h, m)
unfolding reads_back
parse_hhmm-print_hhmm h m hh hm =
    let hour = passes_until_at (λ k. passes_until (reads_back k) 60) 24 h day_reads_back hh in
    pair_eq (parse_hhmm (print_hhmm h m)) h m (passes_until_at (reads_back h) 60 m hour hm)
