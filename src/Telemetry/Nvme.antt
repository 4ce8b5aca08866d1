-- ===== src/Telemetry/Nvme.antt =====
-- internal/agent/telemetry.go: the health of the NVMe drives. A decoded JSON object is a function
-- from its keys; a number of it is a fraction.
use ivault.Common.{
  ℕ, ◌+◌, ◌-◌, ◌*◌, ◌%◌, ◌^◌, Bool, true, false, not, ◌&&◌, Option, none, some, List, [], ◌∷◌, ◌++◌,
  length, take, drop, ltb, ◌==◌, if◌then◌else◌,
}
use ivault.Common.Text.{Text, codes, text_eq, has_prefix, trim_space}
use ivault.Common.Int.{ℤ, pos, negsuc, negate, parse_int}
use ivault.Telemetry.{Fraction, minus_nat}
use ivault.Common.Lines.{skip_digits, skip_char}
use ivault.Common.Words.{bits64, int64}

abbrev pub and_then : Option Text → (Text → Option Text) → Option Text
and_then none f = none
and_then (some s) f = f s

abbrev pub at_end : Text → Bool
at_end [] = true
at_end (c ∷ s) = false

-- A text of digits, one at least.
abbrev pub is_number : Text → Bool
unfolding skip_digits
is_number s = elim (skip_digits s) [ none ↦ false | some rest ↦ at_end rest ]

-- What follows the namespace device, /dev/nvme\d+n\d+, in a device's path.
unfoldable pub after_namespace : Text → Option Text
unfolding has_prefix skip_digits
after_namespace dev =
    if has_prefix dev (codes "/dev/nvme")
    then and_then (skip_digits (drop 9 dev)) (λ s. and_then (skip_char b'n' s) skip_digits)
    else none

abbrev pub is_partition : Text → Bool
unfolding is_number
is_partition [] = false
is_partition (c ∷ s) = c == b'p' && is_number s

abbrev pub base_of : Text → Option Text → Text
unfolding is_partition
base_of dev none = dev
base_of dev (some rest) = if is_partition rest then take (length dev - length rest) dev else dev

-- nvmeBaseDevice, by nvmePartRe.
unfoldable pub nvme_base_device : Text → Text
unfolding after_namespace base_of
nvme_base_device dev = base_of dev (after_namespace dev)

-- nvmeDeviceForPath, from the output of findmnt.
unfoldable pub nvme_device_for_path : Option Text → Text
unfolding trim_space has_prefix nvme_base_device
nvme_device_for_path none = []
nvme_device_for_path (some out) =
    let src = trim_space out in
    if has_prefix src (codes "/dev/nvme") then nvme_base_device src else []

unfoldable pub nvme_model : Option Text → Text
unfolding trim_space
nvme_model none = []
nvme_model (some bytes) = trim_space bytes

pub data Json : Type 0 where
  number : Fraction → Json
  other : Json

-- The first of the keys that has a number.
unfoldable pub num_at : (Text → Option Json) → List Text → Option Fraction
num_at m [] = none
num_at m (k ∷ ks) =
    let rest = num_at m ks in
    elim (m k) [ none ↦ rest | some v ↦ elim v [ number f ↦ some f | other ↦ rest ] ]

abbrev pub zero_fraction : Fraction
zero_fraction = record { num = pos 0; den = 1 }

abbrev pub or_zero : Option Fraction → Fraction
or_zero none = zero_fraction
or_zero (some f) = f

abbrev pub has_number : Option Fraction → Bool
has_number none = false
has_number (some f) = true

abbrev pub is_zero : Fraction → Bool
is_zero f = elim f.num [ pos n ↦ n == 0 | negsuc n ↦ false ]

-- More than 200 degrees is read as Kelvin.
abbrev pub celsius : Fraction → Fraction
celsius f = elim f.num [
  | negsuc n ↦ f
  | pos n ↦
      if ltb (200 * f.den) n
      then record { num = minus_nat (n * 100) (27315 * f.den); den = 100 * f.den }
      else f
]

abbrev pub scaled : ℕ → ℕ → Fraction → Fraction
scaled up down f = record {
  num = elim f.num [ pos n ↦ pos (n * up) | negsuc n ↦ negate ((n + 1) * up) ];
  den = f.den * down;
}

-- Degrees, percentage used, and terabytes written.
pub record Smart : Type 0 where
  pub temperature : Fraction
  pub wear : Fraction
  pub written : Fraction

abbrev pub smart_of : (Text → Option Json) → Option Smart
unfolding num_at
smart_of m =
    let temp = num_at m (codes "temperature" ∷ []) in
    let wear = or_zero (num_at m (codes "percent_used" ∷ codes "percentage_used" ∷ [])) in
    let units = or_zero (num_at m (codes "data_units_written" ∷ [])) in
    if not (has_number temp) && is_zero wear && is_zero units
    then none
    else some (record {
      temperature = celsius (or_zero temp);
      wear = wear;
      written = scaled 512000 (10 ^ 12) units;
    })

-- parseNvmeSmart; `none` is a text that is no JSON object.
unfoldable pub parse_nvme_smart : Option (Text → Option Json) → Option Smart
unfolding smart_of
parse_nvme_smart none = none
parse_nvme_smart (some m) = smart_of m

-- The life that is left, never below 0.
unfoldable pub life_left : Fraction → Fraction
life_left wear = elim wear.num [
  | negsuc n ↦ record { num = pos (100 * wear.den + (n + 1)); den = wear.den }
  | pos n ↦ record { num = pos (100 * wear.den - n); den = wear.den }
]

pub data Role : Type 0 where
  internal external unused : Role

unfoldable pub role_of : Text → Text → Text → Role
unfolding text_eq
role_of dev internal_dev external_dev =
    if text_eq dev internal_dev
    then internal
    else if text_eq dev external_dev
    then external
    else unused

pub record Health : Type 0 where
  pub temperature : Fraction
  pub life : Fraction
  pub written : Fraction

unfoldable pub health_of : Option Smart → Option Health
unfolding life_left
health_of none = none
health_of (some s) =
    some (record { temperature = s.temperature; life = life_left s.wear; written = s.written })

pub record NvmeDrive : Type 0 where
  pub device : Text
  pub role : Role
  pub model : Text
  pub capacity_bytes : ℤ
  pub health : Option Health

abbrev pub sectors_of : Option ℤ → ℤ
sectors_of none = pos 0
sectors_of (some n) = int64 (bits64 n * 512 % 2 ^ 64)

-- blockDeviceSizeBytes, from the text of the file `size`.
unfoldable pub block_device_size_bytes : Option Text → ℤ
unfolding trim_space parse_int
block_device_size_bytes none = pos 0
block_device_size_bytes (some bytes) = sectors_of (parse_int (trim_space bytes))

-- What there is to read of one drive below /sys/block.
pub record Block : Type 0 where
  pub name : Text
  pub model : Option Text
  pub size : Option Text
  pub smart : Option (Text → Option Json)

unfoldable pub drive_of : Text → Text → Block → NvmeDrive
unfolding nvme_model block_device_size_bytes role_of health_of parse_nvme_smart
drive_of internal_dev external_dev b =
    let dev = codes "/dev/" ++ b.name in
    record {
      device = dev;
      role = role_of dev internal_dev external_dev;
      model = nvme_model b.model;
      capacity_bytes = block_device_size_bytes b.size;
      health = health_of (parse_nvme_smart b.smart);
    }

abbrev pub external_of : Text → Text
unfolding has_prefix nvme_base_device
external_of image_path =
    if has_prefix image_path (codes "/dev/nvme") then nvme_base_device image_path else []

-- collectNvmeDrives, with the output of findmnt for the internal path.
unfoldable pub collect_nvme_drives : Option Text → Text → List Block → List NvmeDrive
unfolding nvme_device_for_path external_of drive_of
collect_nvme_drives found image_path [] = []
collect_nvme_drives found image_path (b ∷ bs) =
    drive_of (nvme_device_for_path found) (external_of image_path) b
    ∷ collect_nvme_drives found image_path bs
