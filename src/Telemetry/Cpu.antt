-- ===== src/Telemetry/Cpu.antt =====
-- internal/agent/telemetry.go: the use of the processor between two samples of /proc/stat.
use ivault.Common.{
  ℕ, suc, ◌-◌, ◌*◌, ◌^◌, ◌≤◌, ◌<◌, ◌≡◌, refl, Bool, false, not, ◌||◌, Option, none, some, List, [],
  ◌∷◌, arith, length, ltb, ◌==◌, if◌then◌else◌,
}
use ivault.Common.Text.{Text, codes, text_eq}
use ivault.Common.Lines.{fields, scan_lines}
use ivault.Common.Int.{parse_uint}
use ivault.Common.Words.{add64, sub64, sub64_exact, sub64_wraps}

-- Jiffies since the start: idle ones, those that wait for input among them, and all.
pub record Sample : Type 0 where
  pub idle : ℕ
  pub total : ℕ

abbrev pub is_idle : ℕ → Bool
is_idle i = i == 3 || i == 4

abbrev pub add_field : ℕ → Option ℕ → Sample → Sample
unfolding add64
add_field i none s = s
add_field i (some v) s = record {
  idle = if is_idle i then add64 s.idle v else s.idle;
  total = add64 s.total v;
}

-- The fields after the first, counted from 0; one that is no number is passed over.
unfoldable pub sum_fields : ℕ → List Text → Sample → Sample
unfolding add_field parse_uint
sum_fields i [] s = s
sum_fields i (f ∷ fs) s = sum_fields (suc i) fs (add_field i (parse_uint f) s)

abbrev pub sample_of : List Text → Option Sample
unfolding sum_fields text_eq
sample_of [] = none
sample_of (name ∷ values) =
    if ltb (length (name ∷ values)) 5 || not (text_eq name (codes "cpu"))
    then none
    else some (sum_fields 0 values (record { idle = 0; total = 0 }))

abbrev pub first_line : List Text → Option Sample
unfolding sample_of fields
first_line [] = none
first_line (l ∷ ls) = sample_of (fields l)

-- readCPUSample
unfoldable pub read_cpu_sample : Option Text → Option Sample
unfolding first_line scan_lines
read_cpu_sample none = none
read_cpu_sample (some stat) = first_line (scan_lines stat)

-- The percentage, as a numerator and a denominator, between 0 and 100.
unfoldable pub busy_percent : Sample → Sample → ℕ × ℕ
unfolding sub64
busy_percent a b =
    let d_total = sub64 b.total a.total in
    let d_idle = sub64 b.idle a.idle in
    if d_total == 0
    then (0, 1)
    else if ltb d_total d_idle
    then (0, 1)
    else ((d_total - d_idle) * 100, d_total)

-- getCPUUsage
unfoldable pub get_cpu_usage : Option Sample → Option Sample → Option (ℕ × ℕ)
unfolding busy_percent
get_cpu_usage none later = none
get_cpu_usage (some a) none = none
get_cpu_usage (some a) (some b) = some (busy_percent a b)

-- Counters that go up between two samples.
pub record IsLater (a b : Sample) : Type 0 where
  pub idle_rises : a.idle ≤ b.idle
  pub total_rises : a.total < b.total
  pub idle_within : b.idle - a.idle ≤ b.total - a.total
  pub bounded : b.total < 2 ^ 64
  pub idle_bounded : b.idle < 2 ^ 64

-- The percentage lies between 0 and 100 whatever the counters are, and has a denominator.
pub busy_percent_bounds : (a b : Sample) → let p = busy_percent a b in (p.0 ≤ 100 * p.1) × (0 < p.1)
unfolding busy_percent
busy_percent_bounds a b = ground arith

-- Where the counters go up the percentage is the exact share of the time that was not idle.
pub busy_percent_share :
    (a b : Sample)
    → IsLater a b
    → busy_percent a b ≡ (((b.total - a.total) - (b.idle - a.idle)) * 100, b.total - a.total)
unfolding busy_percent
busy_percent_share a b h =
    let total = sub64_exact b.total a.total (omega (arith, h.total_rises)) h.bounded in
    let idle = sub64_exact b.idle a.idle h.idle_rises h.idle_bounded in
    let rising : ((b.total - a.total) == 0) ≡ false = ground (arith, h.total_rises) in
    let within : ltb (b.total - a.total) (b.idle - a.idle) ≡ false =
      ground (arith, h.idle_within) in
    simp (total, idle, rising, within) refl

-- Where the idle counter steps back, as the kernel's count of waits for input may, the subtraction
-- wraps around and the processor is reported as idle, however busy it was.
pub busy_percent_steps_back :
    (a b : Sample)
    → b.idle < a.idle
    → a.idle < 2 ^ 62
    → a.total < b.total
    → b.total < 2 ^ 62
    → busy_percent a b ≡ (0, 1)
unfolding busy_percent
busy_percent_steps_back a b back small up bound =
    let total = sub64_exact b.total a.total (omega arith) (omega arith) in
    let idle = sub64_wraps b.idle a.idle back (omega arith) in ground (arith, total, idle)
