-- ===== src/Network/Masks.antt =====
-- The netmasks of internal/provision/network.go.
use ivault.Common.{
  ℕ, zero, suc, ◌+◌, ◌-◌, ◌/◌, ◌%◌, ◌^◌, ◌≤◌, ◌<◌, ◌≡◌, refl, ap, Bool, true, false, ◌&&◌, some, [],
  ◌∷◌, ◌++◌, arith, ◌==◌, if◌then◌else◌,
}
use ivault.Common.Text.{Text, codes, contains, join, has_prefix}
use ivault.Common.Decimal.{format_uint}
use ivault.Network.{ones, given, prefix_for, static_cidr}

-- The number whose 32 bits are `n` ones and then zeros.
abbrev pub mask_bits : ℕ → ℕ
mask_bits n = 2 ^ 32 - 2 ^ (32 - n)

-- Its four octets, the way a netmask is written.
unfoldable pub mask_text : ℕ → Text
unfolding join format_uint
mask_text n =
    let m = mask_bits n in
    join
      (format_uint (m / 2 ^ 24 % 256)
        ∷ format_uint (m / 2 ^ 16 % 256)
        ∷ format_uint (m / 2 ^ 8 % 256)
        ∷ format_uint (m % 256)
        ∷ [])
      (codes ".")

-- Every number up to the last passes.
passes_to : (ℕ → Bool) → ℕ → Bool
passes_to test zero = test zero
passes_to test (suc last) = if test (suc last) then passes_to test last else false

passes_to_at :
    (test : ℕ → Bool) (last k : ℕ) → passes_to test last ≡ true → k ≤ last → test k ≡ true
unfolding passes_to
passes_to_at test zero k passed le = ground arith
passes_to_at test (suc last) k passed le = ground (arith, passes_to_at test last k)

-- A subnet gives a prefix length.
abbrev gives : Text → ℕ → Bool
gives subnet n = prefix_for (given (some subnet)) == n

masks_give :
    passes_to
      (λ n. gives (mask_text n) n && gives (format_uint n) n && gives (b'/' ∷ format_uint n) n)
      32
    ≡ true
unfolding passes_to prefix_for given mask_text format_uint has_prefix
masks_give = refl

prefix_at :
    (n : ℕ)
    → n ≤ 32
    → (prefix_for (given (some (mask_text n))) ≡ n)
      × (prefix_for (given (some (format_uint n))) ≡ n)
      × (prefix_for (given (some (b'/' ∷ format_uint n))) ≡ n)
prefix_at n le =
    let all =
      passes_to_at
        (λ k. gives (mask_text k) k && gives (format_uint k) k && gives (b'/' ∷ format_uint k) k) 32
        n masks_give le in
    (ground (arith, all), ground (arith, all), ground (arith, all))

static_cidr-bare :
    (ip subnet : Text) (n : ℕ)
    → contains ip (codes "/") ≡ false
    → prefix_for (given (some subnet)) ≡ n
    → static_cidr ip (some subnet) ≡ ip ++ b'/' ∷ format_uint n
unfolding static_cidr
static_cidr-bare ip subnet n bare same = rw bare (ap (λ k. ip ++ b'/' ∷ format_uint k) same)

-- A number of `fuel` bits has no bits beyond them.
ones_enough : (fuel n : ℕ) → n < 2 ^ fuel → ones (suc fuel) n ≡ ones fuel n
unfolding ones
ones_enough zero n h = omega arith
ones_enough (suc fuel) n h = ap (λ k. n % 2 + k) (ones_enough fuel (n / 2) (omega arith))

-- An address with the netmask of `n` leading ones, for any `n` up to 32, becomes the address with
-- the prefix length `n`; so does the address with the plain length, with or without a slash.
pub static_cidr-mask_text :
    (ip : Text) (n : ℕ)
    → n ≤ 32
    → contains ip (codes "/") ≡ false
    → (static_cidr ip (some (mask_text n)) ≡ ip ++ b'/' ∷ format_uint n)
      × (static_cidr ip (some (format_uint n)) ≡ ip ++ b'/' ∷ format_uint n)
      × (static_cidr ip (some (b'/' ∷ format_uint n)) ≡ ip ++ b'/' ∷ format_uint n)
static_cidr-mask_text ip n le bare =
    let (mask, plain, slash) = prefix_at n le in
    (
      static_cidr-bare ip (mask_text n) n bare mask,
      static_cidr-bare ip (format_uint n) n bare plain,
      static_cidr-bare ip (b'/' ∷ format_uint n) n bare slash,
    )
