-- ===== src/Common/Words.antt =====
-- Integers of 64 bits as native numbers: uint64 below 2 ^ 64, int64 by its bit pattern.
use ivault.Common.{ℕ, ◌+◌, ◌-◌, ◌%◌, ◌^◌, ◌<◌, ◌≤◌, ◌≡◌, arith, ltb, if◌then◌else◌}
use ivault.Common.Int.{ℤ, pos, negsuc}

unfoldable pub add64 : ℕ → ℕ → ℕ
add64 a b = (a + b) % 2 ^ 64

unfoldable pub sub64 : ℕ → ℕ → ℕ
sub64 a b = (a + 2 ^ 64 - b) % 2 ^ 64

abbrev pub bits64 : ℤ → ℕ
bits64 (pos n) = n % 2 ^ 64
bits64 (negsuc n) = 2 ^ 64 - 1 - n % 2 ^ 64

abbrev pub int64 : ℕ → ℤ
int64 w = if ltb w (2 ^ 63) then pos w else negsuc (2 ^ 64 - 1 - w)

pub sub64_exact : (a b : ℕ) → b ≤ a → a < 2 ^ 64 → sub64 a b ≡ a - b
unfolding sub64
sub64_exact a b le lt = omega arith

pub sub64_wraps : (a b : ℕ) → a < b → b < 2 ^ 64 → sub64 a b ≡ 2 ^ 64 - (b - a)
unfolding sub64
sub64_wraps a b lt bound = omega arith
