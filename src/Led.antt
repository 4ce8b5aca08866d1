-- ===== src/Led.antt =====
-- internal/led/led.go: the status LED as the writes to its files, the name and the value.
use ivault.Common.{
  ℕ, ◌≡◌, refl, Bool, true, false, not, Option, none, some, List, [], ◌∷◌, ◌++◌, if◌then◌else◌,
}
use ivault.Common.Text.{Text, codes, trim_space}
use ivault.Common.Decimal.{format_uint}

pub record Indicator : Type 0 where
  pub dir : Text
  pub max_brightness : Text
  pub enabled : Bool

abbrev pub or_255 : Text → Text
or_255 [] = codes "255"
or_255 (c ∷ s) = c ∷ s

abbrev pub brightest : Option Text → Text
unfolding trim_space
brightest none = codes "255"
brightest (some bytes) = or_255 (trim_space bytes)

-- New, with whether the LED is there and the text of max_brightness where it can be read.
unfoldable pub new : Bool → Option Text → Text → Bool → Indicator
unfolding brightest
new there bytes name enabled =
    let dir = codes "/sys/class/leds/" ++ name in
    if not enabled
    then record { dir = dir; max_brightness = codes "255"; enabled = false }
    else if not there
    then record { dir = dir; max_brightness = codes "255"; enabled = false }
    else record { dir = dir; max_brightness = brightest bytes; enabled = true }

abbrev pub Writes : Type 0
Writes = List (Text × Text)

unfoldable pub write : Indicator → Text → Text → Writes
write i file val = if i.enabled then (i.dir ++ b'/' ∷ file, val) ∷ [] else []

unfoldable pub blink : Indicator → ℕ → ℕ → Writes
unfolding write format_uint
blink i on_ms off_ms =
    write i (codes "trigger") (codes "timer")
    ++ write i (codes "delay_on") (format_uint on_ms)
    ++ write i (codes "delay_off") (format_uint off_ms)

unfoldable pub solid : Indicator → Writes
unfolding write
solid i = write i (codes "trigger") (codes "none") ++ write i (codes "brightness") i.max_brightness

unfoldable pub off : Indicator → Writes
unfolding write
off i = write i (codes "trigger") (codes "none") ++ write i (codes "brightness") (codes "0")

unfoldable pub slow_pulse : Indicator → Writes
unfolding blink
slow_pulse i = blink i 200 2800

unfoldable pub rapid_pulse : Indicator → Writes
unfolding blink
rapid_pulse i = blink i 200 200

-- A disabled indicator writes nothing.
disabled_is_dark :
    (i : Indicator)
    → i.enabled ≡ false
    → (solid i ≡ []) × (off i ≡ []) × (slow_pulse i ≡ []) × (rapid_pulse i ≡ [])
unfolding solid off slow_pulse rapid_pulse blink write
disabled_is_dark i h = simp h (refl, refl, refl, refl)
