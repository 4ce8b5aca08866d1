-- ===== src/Telemetry/Rates.antt =====
-- internal/agent/telemetry.go: network throughput from the byte counters of an interface. A time is
-- a number of nanoseconds of the monotonic clock.
use mathlib.Core.Path.{subst}
use ivault.Common.{
  ℕ, ◌+◌, ◌-◌, ◌*◌, ◌^◌, ◌≤◌, ◌<◌, ◌≡◌, refl, ap, sym, ◌∙◌, true, false, not, Option, none, some,
  List, [], ◌∷◌, map, arith, leb, if◌then◌else◌,
}
use ivault.Common.Text.{Text, text_eq, text_eq_refl, trim_space}
use ivault.Common.Int.{parse_uint}

-- Received and sent bytes.
pub record Counters : Type 0 where
  pub rx : ℕ
  pub tx : ℕ

abbrev pub counters_of : Option ℕ → Option ℕ → Option Counters
counters_of none tx = none
counters_of (some rx) none = none
counters_of (some rx) (some tx) = some (record { rx = rx; tx = tx })

abbrev pub number_in : Option Text → Option ℕ
unfolding parse_uint trim_space
number_in none = none
number_in (some bytes) = parse_uint (trim_space bytes)

-- readNetBytes
unfoldable pub read_net_bytes : Option Text → Option Text → Option Counters
unfolding number_in
read_net_bytes rb tb = counters_of (number_in rb) (number_in tb)

-- netLastRx, netLastTx, netLastTime and netLastIface; no time is the zero time.
pub record Last : Type 0 where
  pub counters : Counters
  pub time : Option ℕ
  pub iface : Text

-- Megabits a second, as a numerator and a denominator.
abbrev pub Rate : Type 0
Rate = ℕ × ℕ

abbrev pub no_rate : Rate
no_rate = (0, 1)

-- rateMbps
unfoldable pub rate_mbps : ℕ → ℕ → Rate
rate_mbps delta_bytes elapsed =
    if leb elapsed 0 then no_rate else (delta_bytes * 8 * 10 ^ 9, elapsed * 10 ^ 6)

abbrev pub delta : ℕ → ℕ → ℕ
delta prev bytes = if leb prev bytes then bytes - prev else 0

abbrev pub since : Last → ℕ → ℕ → Counters → Last × (Rate × Rate)
unfolding rate_mbps
since last before now c =
    let next = record last { counters = c; time = some now } in
    if leb now before then (next, (no_rate, no_rate)) else (
      next,
      (
        rate_mbps (delta last.counters.rx c.rx) (now - before),
        rate_mbps (delta last.counters.tx c.tx) (now - before),
      ),
    )

abbrev pub baseline : Text → ℕ → Counters → Last × (Rate × Rate)
baseline iface now c = (record { counters = c; time = some now; iface = iface }, (no_rate, no_rate))

abbrev pub measure : Text → ℕ → Counters → Last → Option ℕ → Last × (Rate × Rate)
unfolding since text_eq
measure iface now c last none = baseline iface now c
measure iface now c last (some before) =
    if not (text_eq iface last.iface) then baseline iface now c else since last before now c

-- networkRateMbps
unfoldable pub network_rate_mbps : Text → Option Counters → ℕ → Last → Last × (Rate × Rate)
unfolding measure
network_rate_mbps iface none now last = (last, (no_rate, no_rate))
network_rate_mbps iface (some c) now last = measure iface now c last last.time

-- The calls of one interface, each at its time, with the counters read.
unfoldable pub rates : Text → List (ℕ × Counters) → Last → List (Rate × Rate)
unfolding network_rate_mbps
rates iface [] last = []
rates iface ((now, c) ∷ rs) last =
    let (last', r) = network_rate_mbps iface (some c) now last in r ∷ rates iface rs last'

abbrev pub volume : List Rate → ℕ
volume [] = 0
volume (r ∷ rs) = r.0 + volume rs

-- Times go up, and neither counter falls.
abbrev pub AreRising : ℕ → Counters → List (ℕ × Counters) → Type 0
AreRising time prev [] = Unit
AreRising time prev ((now, c) ∷ rs) =
    (time < now) × (prev.rx ≤ c.rx) × (prev.tx ≤ c.tx) × AreRising now c rs

abbrev pub last_counters : Counters → List (ℕ × Counters) → Counters
last_counters prev [] = prev
last_counters prev ((now, c) ∷ rs) = last_counters c rs

rises :
    (time : ℕ) (prev : Counters) (rs : List (ℕ × Counters))
    → AreRising time prev rs
    → (prev.rx ≤ (last_counters prev rs).rx) × (prev.tx ≤ (last_counters prev rs).tx)
rises time prev [] h = omega arith
rises time prev ((now, c) ∷ rs) (later, more, sent, h) = omega (arith, rises now c rs h)

rates-step :
    (iface : Text) (before now : ℕ) (c : Counters) (rs : List (ℕ × Counters)) (last : Last)
    → last.time ≡ some before
    → last.iface ≡ iface
    → before < now
    → last.counters.rx ≤ c.rx
    → last.counters.tx ≤ c.tx
    → rates iface ((now, c) ∷ rs) last
      ≡ (
        ((c.rx - last.counters.rx) * 8 * 10 ^ 9, (now - before) * 10 ^ 6),
        ((c.tx - last.counters.tx) * 8 * 10 ^ 9, (now - before) * 10 ^ 6),
      )
        ∷ rates iface rs (record last { counters = c; time = some now })
unfolding rates network_rate_mbps measure since rate_mbps
rates-step iface before now c rs last at of later more sent =
    let same : text_eq iface last.iface ≡ true = ap (text_eq iface) of ∙ text_eq_refl iface in
    let forward : leb now before ≡ false = ground arith in
    let positive : leb (now - before) 0 ≡ false = ground arith in
    let rising : leb last.counters.rx c.rx ≡ true = ground arith in
    let rising_tx : leb last.counters.tx c.tx ≡ true = ground arith in
    simp (at, same, forward, positive, rising, rising_tx) refl

-- The denominator of both rates is the time since the measurement before, by the scale of a megabit.
abbrev pub AreOver : ℕ → List (ℕ × Counters) → List (Rate × Rate) → Type 0
AreOver before [] [] = Unit
AreOver before [] (r ∷ more) = ⊥
AreOver before ((now, c) ∷ rs) [] = ⊥
AreOver before ((now, c) ∷ rs) (r ∷ more) =
    (r.0.1 ≡ (now - before) * 10 ^ 6) × (r.1.1 ≡ (now - before) * 10 ^ 6) × AreOver now rs more

-- On an interface with a baseline, while times rise, neither counter falls and every read succeeds, no
-- byte is lost or counted twice: each rate has the length of its interval for its denominator, and
-- the numerators, the rates times those lengths, add up to what the counter of received bytes rose,
-- and the counter of sent bytes, at 8 bits a byte.
pub volume-rates :
    (iface : Text) (rs : List (ℕ × Counters)) (before : ℕ) (last : Last)
    → last.time ≡ some before
    → last.iface ≡ iface
    → AreRising before last.counters rs
    → AreOver before rs (rates iface rs last)
      × (volume (map (λ r. r.0) (rates iface rs last))
          ≡ ((last_counters last.counters rs).rx - last.counters.rx) * 8 * 10 ^ 9)
      × (volume (map (λ r. r.1) (rates iface rs last))
          ≡ ((last_counters last.counters rs).tx - last.counters.tx) * 8 * 10 ^ 9)
volume-rates iface [] before last at of h = unfold rates in (tt, omega arith, omega arith)
volume-rates iface ((now, c) ∷ rs) before last at of (later, more, sent, h) =
    let next = record last { counters = c; time = some now } in
    let one = rates-step iface before now c rs last at of later more sent in
    let (over, received, out) = volume-rates iface rs now next refl of h in
    let (up, up_tx) = rises now c rs h in
    (
      subst (AreOver before ((now, c) ∷ rs)) (sym one) (refl, refl, over),
      omega (arith, ap (λ l. volume (map (λ (r : Rate × Rate). r.0) l)) one, received, up, more),
      omega (arith, ap (λ l. volume (map (λ (r : Rate × Rate). r.1) l)) one, out, up_tx, sent),
    )
