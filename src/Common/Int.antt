-- ===== src/Common/Int.antt =====
-- Go's `int` as a signed integer, and what the source uses of `strconv` to read one.
use ivault.Common.{
  ℕ, ◌+◌, ◌-◌, ◌*◌, ◌^◌, Bool, ◌&&◌, Option, none, some, [], ◌∷◌, ltb, leb, ◌==◌, if◌then◌else◌,
}
use ivault.Common.Text.{Text}

-- `negsuc n` is -(n + 1).
pub data ℤ : Type 0 where
  pos : ℕ → ℤ
  negsuc : ℕ → ℤ

abbrev pub negate : ℕ → ℤ
negate n = if n == 0 then pos 0 else negsuc (n - 1)

unfoldable pub is_digit : ℕ → Bool
is_digit c = leb b'0' c && leb c b'9'

-- The decimal digits of a text after the value read so far; `none` on any other character.
unfoldable pub digits_from : ℕ → Text → Option ℕ
unfolding is_digit
digits_from acc [] = some acc
digits_from acc (c ∷ s) =
    let rest = digits_from (acc * 10 + (c - b'0')) s in if is_digit c then rest else none

-- strconv.ParseUint(s, 10, 64): `none` stands for every error.
unfoldable pub parse_uint : Text → Option ℕ
unfolding digits_from
parse_uint [] = none
parse_uint (c ∷ s) = elim (digits_from 0 (c ∷ s)) [
  | none ↦ none
  | some n ↦ if ltb n (2 ^ 64) then some n else none
]

-- The sign and the digits of a signed literal: `true` for a minus.
unfoldable pub cut_sign : Text → Bool × Text
cut_sign [] = (Bool.false, [])
cut_sign (c ∷ s) =
    if c == b'-' then (Bool.true, s) else if c == b'+' then (Bool.false, s) else (Bool.false, c ∷ s)

-- A magnitude with its sign, clamped to the range of `int64` as a range error does.
unfoldable pub clamp_int64 : Bool → ℕ → ℤ
clamp_int64 Bool.true n = if ltb (2 ^ 63) n then negate (2 ^ 63) else negate n
clamp_int64 Bool.false n = if leb (2 ^ 63) n then pos (2 ^ 63 - 1) else pos n

abbrev pub value_of : Bool → Text → ℤ
value_of minus [] = pos 0
value_of minus (c ∷ s) = elim (digits_from 0 (c ∷ s)) [
  | none ↦ pos 0
  | some n ↦ clamp_int64 minus n
]

-- The first result of strconv.Atoi(s): 0 on a syntax error, the nearest value on a range error.
unfoldable pub atoi : Text → ℤ
unfolding digits_from cut_sign clamp_int64
atoi s = let (minus, ds) = cut_sign s in value_of minus ds

-- strconv.ParseInt(s, 10, 64): `none` stands for every error.
abbrev pub in_range : Bool → Option ℕ → Option ℤ
in_range minus none = none
in_range Bool.true (some n) = if ltb (2 ^ 63) n then none else some (negate n)
in_range Bool.false (some n) = if leb (2 ^ 63) n then none else some (pos n)

abbrev pub parse_digits : Bool × Text → Option ℤ
unfolding digits_from
parse_digits (minus, []) = none
parse_digits (minus, (c ∷ s)) = in_range minus (digits_from 0 (c ∷ s))

unfoldable pub parse_int : Text → Option ℤ
unfolding cut_sign parse_digits
parse_int s = parse_digits (cut_sign s)
