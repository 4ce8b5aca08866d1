-- ===== src/Common/Digits.antt =====
-- Numbers written in decimal and read back.
use native.Mathlib.Numerals.{add-one}
use ivault.Common.{
  ℕ, zero, suc, ◌+◌, ◌-◌, ◌*◌, ◌/◌, ◌%◌, ◌^◌, ◌<◌, ◌≡◌, refl, ap, sym, ◌∙◌, true, ◌&&◌, none, some,
  [], ◌∷◌, inl, inr, arith, Bool-cases, ltb, leb, ◌==◌, if◌then◌else◌,
}
use ivault.Common.Text.{Text}
use ivault.Common.Int.{is_digit, digits_from, parse_uint}
use ivault.Common.Decimal.{format_from, format_uint}

digits_from-digit :
    (a n : ℕ) (s : Text) → digits_from a ((b'0' + n % 10) ∷ s) ≡ digits_from (a * 10 + n % 10) s
unfolding digits_from is_digit
digits_from-digit a n s =
    let digit : (leb b'0' (b'0' + n % 10) && leb (b'0' + n % 10) b'9') ≡ true = ground arith in
    let value : a * 10 + (b'0' + n % 10 - b'0') ≡ a * 10 + n % 10 = omega arith in
    rw digit (ap (λ k. digits_from k s) value)

digits_from-format_from :
    (fuel n : ℕ) (s : Text) → n < fuel → digits_from 0 (format_from fuel n s) ≡ digits_from n s
unfolding format_from
digits_from-format_from zero n s h = absurd (omega arith)
digits_from-format_from (suc fuel) n s h = elim (Bool-cases ((n / 10) == 0)) [
  | inl e ↦ rw e (digits_from-digit 0 n s ∙ ap (λ k. digits_from k s) (ground (arith, e)))
  | inr e ↦ rw e (
      digits_from-format_from fuel (n / 10) ((b'0' + n % 10) ∷ s) (ground (arith, e, h))
      ∙ digits_from-digit (n / 10) n s
      ∙ ap (λ k. digits_from k s) (omega arith))
]

format_from-cons :
    (fuel n c : ℕ) (s : Text) → (d : ℕ) × (t : Text) × (format_from fuel n (c ∷ s) ≡ d ∷ t)
unfolding format_from
format_from-cons zero n c s = (c, s, refl)
format_from-cons (suc fuel) n c s = elim (Bool-cases ((n / 10) == 0)) [
  | inl e ↦ (b'0' + n % 10, c ∷ s, rw e refl)
  | inr e ↦
      let (d, t, same) = format_from-cons fuel (n / 10) (b'0' + n % 10) (c ∷ s) in (d, t, rw e same)
]

format_uint-cons : (n : ℕ) → (d : ℕ) × (t : Text) × (format_uint n ≡ d ∷ t)
unfolding format_uint format_from
format_uint-cons n = elim (Bool-cases ((n / 10) == 0)) [
  | inl e ↦ (b'0' + n % 10, [], rw add-one (rw e refl))
  | inr e ↦
      let (d, t, same) = format_from-cons n (n / 10) (b'0' + n % 10) [] in
      (d, t, rw add-one (rw e same))
]

parse_uint-cons :
    (d n : ℕ) (t : Text) → digits_from 0 (d ∷ t) ≡ some n → n < 2 ^ 64 → parse_uint (d ∷ t) ≡ some n
unfolding parse_uint
parse_uint-cons d n t h small =
    let within : ltb n (2 ^ 64) ≡ true = ground arith in
    ap (λ o. elim o [ none ↦ none | some m ↦ if ltb m (2 ^ 64) then some m else none ]) h
    ∙ rw within refl

-- A number of 64 bits is read back from its decimal text.
pub parse_uint-format_uint : (n : ℕ) → n < 2 ^ 64 → parse_uint (format_uint n) ≡ some n
parse_uint-format_uint n small =
    let (d, t, same) = format_uint-cons n in
    let digits : digits_from 0 (format_uint n) ≡ some n =
      unfold format_uint in
      (digits_from-format_from (n + 1) n [] (omega arith) ∙ (unfold digits_from in refl)) in
    ap parse_uint same ∙ parse_uint-cons d n t (ap (digits_from 0) (sym same) ∙ digits) small
