-- ===== src/Telemetry/System.antt =====
-- internal/agent/telemetry.go: memory, temperature, disks, network interface, clock and versions.
use ivault.Common.{
  ℕ, ◌+◌, ◌*◌, ◌^◌, Bool, true, false, Option, none, some, List, [], ◌∷◌, ◌++◌, drop, ◌==◌,
  if◌then◌else◌,
}
use ivault.Common.Text.{
  Text, codes, text_eq, has_prefix, trim_prefix, trim_by, trim_left, trim_space, is_space, cut,
  split,
}
use ivault.Common.Int.{ℤ, pos, negate, cut_sign, digits_from}
use ivault.Common.Lines.{fields, scan_lines}
use ivault.Common.Words.{sub64, bits64, int64}
use ivault.Common.Decimal.{read_decimal}
use ivault.Network.{scan_int, leading_digits}
use ivault.Telemetry.{Fraction, minus_nat}
use ivault.Telemetry.Nvme.{block_device_size_bytes}

-- Kibibytes of /proc/meminfo.
pub record Memory : Type 0 where
  pub total : ℤ
  pub available : ℤ

abbrev pub or_kept : ℤ → Option ℤ → ℤ
or_kept old none = old
or_kept old (some n) = n

unfoldable pub read_memory : List Text → Memory → Memory
unfolding has_prefix scan_int
read_memory [] m = m
read_memory (l ∷ ls) m = read_memory ls (
    if has_prefix l (codes "MemTotal:")
    then record m { total = or_kept m.total (scan_int (drop 9 l)) }
    else if has_prefix l (codes "MemAvailable:")
    then record m { available = or_kept m.available (scan_int (drop 13 l)) }
    else m)

abbrev pub mem_gb : ℤ → Fraction
mem_gb kib = record { num = kib; den = 1024 * 1024 }

-- getMemUsage: what is used and the total.
unfoldable pub get_mem_usage : Option Text → Option (Fraction × Fraction)
unfolding read_memory scan_lines sub64
get_mem_usage none = none
get_mem_usage (some meminfo) =
    let m = read_memory (scan_lines meminfo) (record { total = pos 0; available = pos 0 }) in
    some (mem_gb (int64 (sub64 (bits64 m.total) (bits64 m.available))), mem_gb m.total)

-- A signed decimal of strconv.ParseFloat, divided by 1000.
abbrev pub thousandth : Bool → Option (ℕ × ℕ) → Option Fraction
thousandth minus none = none
thousandth minus (some (m, k)) =
    some (record { num = if minus then negate m else pos m; den = 10 ^ k * 1000 })

abbrev pub temp_of : Bool × Text → Option Fraction
unfolding read_decimal
temp_of (minus, s) = thousandth minus (read_decimal s)

-- getSoCTemp
unfoldable pub get_soc_temp : Option Text → Option Fraction
unfolding cut_sign temp_of trim_space
get_soc_temp none = none
get_soc_temp (some bytes) = temp_of (cut_sign (trim_space bytes))

abbrev pub in_gb : ℤ → Fraction
in_gb bytes = record { num = bytes; den = 1024 * 1024 * 1024 }

-- getDiskUsage on the block size, the blocks and the free blocks of statfs.
unfoldable pub get_disk_usage : Option (ℕ × ℕ × ℕ) → Option (Fraction × Fraction)
get_disk_usage none = none
get_disk_usage (some (bsize, blocks, bfree)) =
    some (in_gb (minus_nat (blocks * bsize) (bfree * bsize)), in_gb (pos (blocks * bsize)))

-- isMounted
abbrev pub second_is : Text → List Text → Bool
unfolding text_eq
second_is target (a ∷ b ∷ rest) = text_eq b target
second_is target _ = false

unfoldable pub any_mounted : Text → List Text → Bool
unfolding fields second_is
any_mounted target [] = false
any_mounted target (l ∷ ls) =
    let rest = any_mounted target ls in if second_is target (fields l) then true else rest

unfoldable pub is_mounted : Text → Option Text → Bool
unfolding any_mounted scan_lines
is_mounted target none = false
is_mounted target (some mounts) = any_mounted target (scan_lines mounts)

-- What os.Stat finds: an image with its size, or a device with the text of its `size`.
pub data Backing : Type 0 where
  absent : Backing
  image : ℕ → Backing
  device : Option Text → Backing

-- virtualDriveTotalBytes
unfoldable pub virtual_drive_total_bytes : Backing → ℤ
unfolding block_device_size_bytes
virtual_drive_total_bytes absent = pos 0
virtual_drive_total_bytes (image size) = pos size
virtual_drive_total_bytes (device size) = block_device_size_bytes size

-- getUptime cut to whole seconds; exponents, which the kernel does not write, are not read.
abbrev pub whole_seconds : Text → Option ℕ
unfolding digits_from
whole_seconds [] = none
whole_seconds (c ∷ s) = digits_from 0 (c ∷ s)

unfoldable pub get_uptime : Option Text → Option ℕ
unfolding whole_seconds leading_digits trim_left is_space
get_uptime none = none
get_uptime (some bytes) = whole_seconds (leading_digits (trim_left is_space bytes))

abbrev pub third : List Text → Text
third (a ∷ b ∷ c ∷ rest) = c
third _ = []

-- getKernelVersion; a file that cannot be read is the empty text.
unfoldable pub get_kernel_version : Text → Text
unfolding split
get_kernel_version version = third (split version b' ')

unfoldable pub version_in : List Text → Text
unfolding has_prefix trim_prefix trim_by
version_in [] = []
version_in (l ∷ ls) =
    let rest = version_in ls in
    if has_prefix l (codes "VERSION=")
    then trim_by (λ c. c == b'"') (trim_prefix l (codes "VERSION="))
    else rest

-- getArmbianVersion
unfoldable pub get_armbian_version : Text → Text
unfolding version_in scan_lines
get_armbian_version release = version_in (scan_lines release)

-- An interface with a default gateway.
abbrev pub gateway_of : List Text → Option Text
unfolding text_eq
gateway_of (iface ∷ destination ∷ gateway ∷ rest) =
    if text_eq gateway (codes "00000000") then some iface else none
gateway_of _ = none

unfoldable pub interface_in : List Text → Text
unfolding fields gateway_of
interface_in [] = codes "eth0"
interface_in (l ∷ ls) =
    let rest = interface_in ls in elim (gateway_of (fields l)) [ none ↦ rest | some iface ↦ iface ]

-- getPrimaryInterface
unfoldable pub get_primary_interface : Text → Text
unfolding interface_in scan_lines
get_primary_interface route = interface_in (scan_lines route)

abbrev pub first_of : List Text → Text
first_of [] = []
first_of (ip ∷ ips) = ip

-- getIPAddress, from the output of hostname.
unfoldable pub get_ip_address : Text → Text
unfolding fields
get_ip_address out = first_of (fields out)

abbrev pub with_unit : Text → Text
with_unit [] = []
with_unit (c ∷ s) = (c ∷ s) ++ codes " Mbps"

-- getLinkSpeed
unfoldable pub get_link_speed : Text → Text
unfolding trim_space
get_link_speed speed = with_unit (trim_space speed)

pub record Clock : Type 0 where
  pub ntp_active : Bool
  pub synchronized : Bool
  pub timezone : Text

abbrev pub set_clock : Option (Text × Text) → Clock → Clock
unfolding text_eq
set_clock none c = c
set_clock (some (k, v)) c =
    if text_eq k (codes "NTP")
    then record c { ntp_active = text_eq v (codes "yes") }
    else if text_eq k (codes "NTPSynchronized")
    then record c { synchronized = text_eq v (codes "yes") }
    else if text_eq k (codes "Timezone")
    then record c { timezone = v }
    else c

unfoldable pub read_clock : List Text → Clock → Clock
unfolding set_clock cut trim_space
read_clock [] c = c
read_clock (l ∷ ls) c = read_clock ls (set_clock (cut (trim_space l) b'=') c)

-- getClockStatus, from the output of timedatectl.
unfoldable pub get_clock_status : Option Text → Option Clock
unfolding read_clock split trim_space
get_clock_status none = none
get_clock_status (some out) = some (
    read_clock (split (trim_space out) b'\n')
      (record { ntp_active = false; synchronized = false; timezone = [] }))

-- One path of the walk over the upload queue: an error, a directory, or a file with its size.
pub data Queued : Type 0 where
  unreadable directory : Queued
  file : Option ℕ → Queued

-- The files and their bytes.
unfoldable pub count_queue : List Queued → ℕ × ℕ
count_queue [] = (0, 0)
count_queue (unreadable ∷ qs) = count_queue qs
count_queue (directory ∷ qs) = count_queue qs
count_queue (file none ∷ qs) = let (n, bytes) = count_queue qs in (n + 1, bytes)
count_queue (file (some size) ∷ qs) = let (n, bytes) = count_queue qs in (n + 1, bytes + size)
