-- ===== src/Schedule/Blackout.antt =====
-- The blackout window of internal/schedule/schedule.go against an arc of the day, counted in
-- minutes from its start.
use ivault.Common.{ℕ, ◌+◌, ◌-◌, ◌*◌, ◌%◌, ◌<◌, ◌≡◌, ◌≢◌, ◌↔◌, true, not, arith}
use ivault.Schedule.{Zones, HasWallBounds, Schedule, in_blackout, zone}

-- Minutes from one time of day to the next occurrence of another.
abbrev pub minutes_until : ℕ → ℕ → ℕ
minutes_until from t = (t + 1440 - from) % 1440

module _ (z : Zones) where
  open z use {Zone, Instant, wall}

  abbrev pub minute_of_day : Schedule Zone → Instant → ℕ
  minute_of_day s now = (wall (zone z s) now).hour * 60 + (wall (zone z s) now).minute

  -- A blackout is on exactly when it is enabled, its ends differ, and the time lies on the arc of
  -- the day that runs from its start to its end, past midnight where the end comes first.
  pub in_blackout-iff_arc :
      (s : Schedule Zone) (now : Instant)
      → HasWallBounds z
      → s.blackout_from < 1440
      → s.blackout_to < 1440
      → (in_blackout z s now ≡ true)
        ↔ (s.blackout_enabled ≡ true)
          × (s.blackout_from ≢ s.blackout_to)
          × (minutes_until s.blackout_from (minute_of_day s now)
              < minutes_until s.blackout_from s.blackout_to)
  unfolding in_blackout
  in_blackout-iff_arc s now b f t = (
    λ h. (
      ground arith,
      ground arith,
      ground (arith, b.hour_bound (zone z s) now, b.minute_bound (zone z s) now),
    ),
    λ h. ground (arith, b.hour_bound (zone z s) now, b.minute_bound (zone z s) now),
  )

  -- The window with its ends exchanged is the rest of the day: at every time exactly one is on.
  pub in_blackout-swap :
      (s : Schedule Zone) (now : Instant)
      → s.blackout_enabled ≡ true
      → s.blackout_from ≢ s.blackout_to
      → in_blackout z s now
        ≡ not (
            in_blackout z
              (record s { blackout_from = s.blackout_to; blackout_to = s.blackout_from })
              now)
  unfolding in_blackout
  in_blackout-swap s now e d = ground arith
