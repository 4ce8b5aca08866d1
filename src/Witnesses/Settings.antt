-- ===== src/Witnesses/Settings.antt =====
-- Tests and instances for internal/schedule.
use ivault.Common.{ℕ, ◌<◌, ◌≡◌, refl, ◌≢◌, ◌↔◌, true, none, some, [], ◌∷◌, arith}
use ivault.Common.Text.{codes}
use ivault.Schedule.{Zones, HasWallBounds, Schedule, monday, matches_time, in_blackout, parse_hhmm}
use ivault.Schedule.Times.{parse_hhmm_bounds}
use ivault.Schedule.Blackout.{minute_of_day, minutes_until, in_blackout-iff_arc}

parses : parse_hhmm (codes " 22:05 ") ≡ (22, 5)
unfolding parse_hhmm
parses = refl

parses_bad : parse_hhmm (codes "24:00") ≡ (0, 0)
unfolding parse_hhmm
parses_bad = refl

-- A clock in one zone, on Mondays at 23:30.
abbrev late : Zones
late = record {
  Zone = Unit;
  Instant = Unit;
  utc = tt;
  load_location = λ name. none;
  wall = λ z t. record { weekday = monday; hour = 23; minute = 30 };
}

late-HasWallBounds : HasWallBounds late
late-HasWallBounds = record { hour_bound = λ l t. omega arith; minute_bound = λ l t. omega arith }

abbrev night : Schedule (Unit {0})
night = record {
  enabled = true;
  days = monday ∷ [];
  hour = 23;
  min = 30;
  blackout_enabled = true;
  blackout_from = 1320;
  blackout_to = 360;
  loc = some tt;
}

due : matches_time late night tt ≡ true
unfolding matches_time
due = refl

parse_hhmm_bounds_example :
    ((parse_hhmm (codes "9:75")).0 < 24) × ((parse_hhmm (codes "9:75")).1 < 60)
parse_hhmm_bounds_example = parse_hhmm_bounds (codes "9:75")

in_blackout-iff_arc_example :
    (in_blackout late night tt ≡ true)
    ↔ (true ≡ true)
      × (◌≢◌ {A = ℕ} 1320 360)
      × (minutes_until 1320 (minute_of_day late night tt) < minutes_until 1320 360)
in_blackout-iff_arc_example =
    in_blackout-iff_arc late night tt late-HasWallBounds (omega arith) (omega arith)
