-- ===== src/Telemetry.antt =====
-- internal/agent/telemetry.go: what a heartbeat reports of the machine. The texts of /proc, /sys and
-- of the tools are the input, `none` where they cannot be read; a float64 is an exact fraction.
pub mod Cpu
pub mod Rates
pub mod Nvme
pub mod System
pub mod Collect
pub mod Measured
use ivault.Common.{
  ℕ, zero, suc, ◌+◌, ◌-◌, ◌*◌, ◌^◌, Bool, true, false, not, ◌&&◌, ◌||◌, Option, none, some, List,
  [], ◌∷◌, ◌++◌, length, ltb, leb, ◌==◌, if◌then◌else◌,
}
use ivault.Common.Int.{ℤ, pos, negsuc, negate}

-- `num / den`, with `den` above 0.
pub record Fraction : Type 0 where
  pub num : ℤ
  pub den : ℕ

-- A difference of two naturals, below zero as well.
abbrev pub minus_nat : ℕ → ℕ → ℤ
minus_nat a b = if leb b a then pos (a - b) else negate (b - a)
