-- ===== src/Schedule/Loading.antt =====
-- What internal/schedule/schedule.go loads from the config table.
use ivault.Common.{
  ◌<◌, ◌≡◌, refl, false, Option, none, some, List, [], ◌∷◌, arith, any, Bool-cases, inl, inr,
}
use ivault.Common.Text.{Text}
use ivault.Schedule.{
  Zones, Schedule, Weekday, weekday_eq, add_day, add_named, add_days, days_of, time_of, minutes_of,
  load, matches_time, in_blackout,
}
use ivault.Schedule.Times.{parse_hhmm_bounds}

time_of_bounds : (o : Option Text) → ((time_of o).0 < 24) × ((time_of o).1 < 60)
time_of_bounds none = omega arith
time_of_bounds (some v) = parse_hhmm_bounds v

minutes_of_bound : (o : Option Text) → minutes_of o < 1440
minutes_of_bound o = omega (arith, time_of_bounds o)

-- No weekday stands twice.
abbrev pub IsDaySet : List Weekday → Type 0
IsDaySet [] = Unit
IsDaySet (d ∷ ds) = (any (weekday_eq d) ds ≡ false) × IsDaySet ds

add_day-IsDaySet : (d : Weekday) (ds : List Weekday) → IsDaySet ds → IsDaySet (add_day d ds)
unfolding add_day
add_day-IsDaySet d ds h = elim (Bool-cases (any (weekday_eq d) ds)) [
  | inl old ↦ rw old h
  | inr new ↦ rw new (new, h)
]

add_named-IsDaySet :
    (o : Option Weekday) (ds : List Weekday) → IsDaySet ds → IsDaySet (add_named o ds)
add_named-IsDaySet none ds h = h
add_named-IsDaySet (some d) ds h = add_day-IsDaySet d ds h

add_days-IsDaySet : (ps : List Text) (ds : List Weekday) → IsDaySet ds → IsDaySet (add_days ps ds)
unfolding add_days
add_days-IsDaySet [] ds h = h
add_days-IsDaySet (p ∷ ps) ds h = add_days-IsDaySet ps _ (add_named-IsDaySet _ ds h)

days_of-IsDaySet : (o : Option Text) → IsDaySet (days_of o)
days_of-IsDaySet none = tt
days_of-IsDaySet (some []) = tt
days_of-IsDaySet (some (c ∷ v)) = add_days-IsDaySet _ [] tt

-- A loaded schedule is within the day: what the blackout test and the match rely on.
pub record IsWellFormed {Zone : Type 0} (s : Schedule Zone) : Type 0 where
  pub hour_bound : s.hour < 24
  pub min_bound : s.min < 60
  pub from_bound : s.blackout_from < 1440
  pub to_bound : s.blackout_to < 1440
  pub day_set : IsDaySet s.days

-- Whatever the config table holds, the loaded schedule has its times within the day and names no
-- weekday twice.
pub load-IsWellFormed :
    (z : Zones) (get_config : Text → Option Text) → IsWellFormed (load z get_config)
unfolding load
load-IsWellFormed z get_config = record {
  hour_bound = (time_of_bounds (get_config _)).0;
  min_bound = (time_of_bounds (get_config _)).1;
  from_bound = minutes_of_bound (get_config _);
  to_bound = minutes_of_bound (get_config _);
  day_set = days_of-IsDaySet (get_config _);
}

-- With no readable config entry no sync is ever due and no blackout is ever on.
pub load_unset :
    (z : Zones) (get_config : Text → Option Text) (now : z.Instant)
    → ((key : Text) → get_config key ≡ none)
    → (matches_time z (load z get_config) now ≡ false)
      × (in_blackout z (load z get_config) now ≡ false)
unfolding load matches_time in_blackout
load_unset z get_config now h = (simp h refl, simp h refl)
