-- ===== src/Common/Decimal.antt =====
-- Decimal texts: strconv.FormatUint, and the plain decimals of strconv.ParseFloat, kept exact.
use ivault.Common.{
  ℕ, zero, suc, ◌+◌, ◌*◌, ◌/◌, ◌%◌, ◌^◌, Option, none, some, [], ◌∷◌, length, ◌==◌, if◌then◌else◌,
}
use ivault.Common.Text.{Text, cut}
use ivault.Common.Int.{digits_from, cut_sign}

-- The digits of a number before a text, by fuel: more fuel than the number is always enough.
unfoldable pub format_from : ℕ → ℕ → Text → Text
format_from zero n s = s
format_from (suc fuel) n s =
    let s' = (b'0' + n % 10) ∷ s in
    let rest = format_from fuel (n / 10) s' in if n / 10 == 0 then s' else rest

-- strconv.FormatUint(n, 10)
unfoldable pub format_uint : ℕ → Text
unfolding format_from
format_uint n = format_from (n + 1) n []

-- A non-negative decimal: its digits as a number, and how many of them are decimals.
abbrev fraction : Text → Text → Option (ℕ × ℕ)
fraction whole decimals = elim (digits_from 0 whole) [
  | none ↦ none
  | some n ↦ elim (digits_from n decimals) [ none ↦ none | some m ↦ some (m, length decimals) ]
]

-- At least one digit stands before or after the point.
unfoldable pub read_decimal : Text → Option (ℕ × ℕ)
unfolding cut digits_from
read_decimal s = elim (cut s b'.') [
  | none ↦ if length s == 0 then none else fraction s []
  | some (whole, decimals) ↦
      if length whole + length decimals == 0 then none else fraction whole decimals
]

-- The integer part of `factor` times a decimal text; 0 for a text that is negative or no decimal.
-- Exponents, infinities and hexadecimal forms, which the program does not write, are not read.
unfoldable pub scale_decimal : ℕ → Text → ℕ
unfolding read_decimal cut_sign
scale_decimal factor s =
    let (minus, t) = cut_sign s in
    elim (read_decimal t) [ none ↦ 0 | some (m, k) ↦ if minus then 0 else m * factor / 10 ^ k ]
