-- ===== src/Daemon/Loop/Minutes.antt =====
-- The scheduler of main.go: when its ticks run a maintenance.
use ivault.Common.{◌≡◌, refl, ◌⊎◌, true, false, List, [], ◌∷◌, inl, inr, arith, All, Bool-cases}
use ivault.Common.Text.{Text, text_eq, text_eq_iff, text_lt, text_lt_total}
use ivault.Common.Sorting.{text_le_trans, lt_of_le_of_lt}
use ivault.Schedule.{Zones, load, matches_time, in_blackout}
use ivault.Daemon.Loop.{Tick, tick, ticks}

module _ (z : Zones) where
  -- The clock does not run backwards: no tick has an earlier minute than one before it.
  abbrev pub IsForward : Text → List (Tick z) → Type 0
  IsForward last [] = Unit
  IsForward last (t ∷ ts) = (text_lt t.minute last ≡ false) × IsForward t.minute ts

  -- The minute of a run is later than all before it.
  abbrev pub IsOncePerMinute : Text → List (Tick z) → Type 0
  IsOncePerMinute last [] = Unit
  IsOncePerMinute last (t ∷ ts) = (text_lt last t.minute ≡ true) × IsOncePerMinute t.minute ts

  abbrev pub IsDue : Tick z → Type 0
  IsDue t =
      (matches_time z (load z t.get_config) t.now ≡ true)
      × (in_blackout z (load z t.get_config) t.now ≡ false)

  tick-IsDue : (t : Tick z) (last : Text) → (tick z t last).0 ≡ true → IsDue t
  unfolding tick
  tick-IsDue t last h = ground arith

  -- Either the last minute stays, and nothing runs, or it becomes the tick's, which is another one.
  tick_cases :
      (t : Tick z) (last : Text)
      → (tick z t last ≡ (false, last))
        ⊎ (((tick z t last).1 ≡ t.minute) × (text_eq t.minute last ≡ false))
  unfolding tick
  tick_cases t last = elim (Bool-cases (matches_time z (load z t.get_config) t.now)) [
    | inr m ↦ inl (rw m refl)
    | inl m ↦ elim (Bool-cases (text_eq t.minute last)) [
      | inl e ↦ inl (rw (m, e) refl)
      | inr e ↦ inr (rw (m, e) refl, e)
    ]
  ]

  ticks-All : (ts : List (Tick z)) (last : Text) → All IsDue (ticks z ts last)
  unfolding ticks
  ticks-All [] last = tt
  ticks-All (t ∷ ts) last = elim (Bool-cases (tick z t last).0) [
    | inl e ↦ rw e (tick-IsDue t last e, ticks-All ts (tick z t last).1)
    | inr e ↦ rw e (ticks-All ts (tick z t last).1)
  ]

  Forward-earlier :
      (ts : List (Tick z)) (m last : Text)
      → text_lt m last ≡ false
      → IsForward m ts
      → IsForward last ts
  Forward-earlier [] m last h k = tt
  Forward-earlier (t ∷ ts) m last h k = (text_le_trans last m t.minute h k.0, k.1)

  Once-earlier :
      (ts : List (Tick z)) (m last : Text)
      → text_lt m last ≡ false
      → IsOncePerMinute m ts
      → IsOncePerMinute last ts
  Once-earlier [] m last h k = tt
  Once-earlier (t ∷ ts) m last h k = (lt_of_le_of_lt last m t.minute h k.0, k.1)

  later_of : (s t : Text) → text_lt s t ≡ false → text_eq s t ≡ false → text_lt t s ≡ true
  later_of s t h k = ground (arith, text_lt_total s t, text_eq_iff s t)

  ticks-once :
      (ts : List (Tick z)) (last : Text)
      → IsForward last ts
      → IsOncePerMinute last (ticks z ts last)
  unfolding ticks
  ticks-once [] last h = tt
  ticks-once (t ∷ ts) last h = elim (tick_cases t last) [
    | inl e ↦ rw e (ticks-once ts last (Forward-earlier ts t.minute last h.0 h.1))
    | inr (e, differs) ↦
        let rest = ticks-once ts t.minute h.1 in
        elim (Bool-cases (tick z t last).0) [
          | inl f ↦ rw (e, f) (later_of t.minute last h.0 differs, rest)
          | inr f ↦ rw (e, f) (Once-earlier (ticks z ts t.minute) t.minute last h.0 rest)
        ]
  ]

-- While the clock does not run backwards, the scheduler runs a maintenance at most once in each
-- minute, the minutes of its runs rising; and each run is at a scheduled time, outside the blackout,
-- by the schedule that the config table holds at that tick.
pub ticks-OncePerMinute :
    (z : Zones) (ts : List (Tick z)) (last : Text)
    → IsForward z last ts
    → IsOncePerMinute z last (ticks z ts last) × All (IsDue z) (ticks z ts last)
ticks-OncePerMinute z ts last h = (ticks-once z ts last h, ticks-All z ts last)
