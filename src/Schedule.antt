-- ===== src/Schedule.antt =====
-- internal/schedule/schedule.go: the maintenance schedule and the blackout window, read from the
-- config table. Time zones and their database (package time) are the parameter `Zones`.
pub mod Times
pub mod Blackout
pub mod Loading
use ivault.Common.{
  ℕ, ◌+◌, ◌*◌, ◌<◌, Bool, true, false, not, ◌&&◌, ◌||◌, Option, none, some, List, [], ◌∷◌, length,
  any, ltb, leb, ◌==◌, if◌then◌else◌,
}
use ivault.Common.Text.{Text, codes, text_eq, trim_space, to_lower, split, cut}
use ivault.Common.Int.{ℤ, pos, negsuc, atoi}

-- time.Weekday
pub data Weekday : Type 0 where
  sunday monday tuesday wednesday thursday friday saturday : Weekday

abbrev pub weekday_number : Weekday → ℕ
weekday_number sunday = 0
weekday_number monday = 1
weekday_number tuesday = 2
weekday_number wednesday = 3
weekday_number thursday = 4
weekday_number friday = 5
weekday_number saturday = 6

abbrev pub weekday_eq : Weekday → Weekday → Bool
weekday_eq a b = weekday_number a == weekday_number b

-- What the schedule reads of a time in a zone.
pub record WallTime : Type 0 where
  pub weekday : Weekday
  pub hour : ℕ
  pub minute : ℕ

-- The package time: instants, zones, and the zone database.
pub record Zones : Type 1 where
  pub Zone : Type 0
  pub Instant : Type 0
  pub utc : Zone
  pub load_location : Text → Option Zone
  pub wall : Zone → Instant → WallTime

-- What the package time promises: a time of day lies within the day.
pub record HasWallBounds (z : Zones) : Type 0 where
  pub hour_bound : (l : z.Zone) (t : z.Instant) → (z.wall l t).hour < 24
  pub minute_bound : (l : z.Zone) (t : z.Instant) → (z.wall l t).minute < 60

abbrev pub key_enabled : Text
key_enabled = codes "sched_enabled"

abbrev pub key_days : Text
key_days = codes "sched_days"

abbrev pub key_time : Text
key_time = codes "sched_time"

abbrev pub key_blackout_enabled : Text
key_blackout_enabled = codes "sched_blackout_enabled"

abbrev pub key_blackout_from : Text
key_blackout_from = codes "sched_blackout_from"

abbrev pub key_blackout_to : Text
key_blackout_to = codes "sched_blackout_to"

abbrev pub key_timezone : Text
key_timezone = codes "sched_timezone"

pub record Schedule (Zone : Type 0) : Type 0 where
  pub enabled : Bool
  pub days : List Weekday
  pub hour : ℕ
  pub min : ℕ
  pub blackout_enabled : Bool
  pub blackout_from : ℕ
  pub blackout_to : ℕ
  pub loc : Option Zone

-- weekdayAbbr
unfoldable pub weekday_abbr : Text → Option Weekday
weekday_abbr s =
    if text_eq s (codes "sun")
    then some sunday
    else if text_eq s (codes "mon")
    then some monday
    else if text_eq s (codes "tue")
    then some tuesday
    else if text_eq s (codes "wed")
    then some wednesday
    else if text_eq s (codes "thu")
    then some thursday
    else if text_eq s (codes "fri")
    then some friday
    else if text_eq s (codes "sat")
    then some saturday
    else none

-- The two numbers of a time of day, or midnight where one is out of range.
abbrev pub checked_time : ℤ → ℤ → ℕ × ℕ
checked_time (pos h) (pos m) = if ltb 23 h || ltb 59 m then (0, 0) else (h, m)
checked_time (pos h) (negsuc m) = (0, 0)
checked_time (negsuc h) m = (0, 0)

abbrev pub time_of_parts : Option (Text × Text) → ℕ × ℕ
time_of_parts none = (0, 0)
time_of_parts (some (h, m)) = checked_time (atoi h) (atoi m)

-- SplitN by ":" into at most two parts is a cut at the first colon.
unfoldable pub parse_hhmm : Text → ℕ × ℕ
unfolding trim_space cut atoi
parse_hhmm v = time_of_parts (cut (trim_space v) b':')

-- `s.Days[wd] = true`
unfoldable pub add_day : Weekday → List Weekday → List Weekday
unfolding any
add_day d days = if any (weekday_eq d) days then days else d ∷ days

abbrev pub add_named : Option Weekday → List Weekday → List Weekday
add_named none days = days
add_named (some d) days = add_day d days

unfoldable pub add_days : List Text → List Weekday → List Weekday
unfolding add_day weekday_abbr to_lower trim_space text_eq
add_days [] days = days
add_days (p ∷ ps) days = add_days ps (add_named (weekday_abbr (to_lower (trim_space p))) days)

-- A failed read is `none`, and leaves the field at its default.
abbrev pub flag_of : Option Text → Bool
flag_of none = false
flag_of (some v) = text_eq v (codes "true") || text_eq v (codes "1")

abbrev pub days_of : Option Text → List Weekday
days_of none = []
days_of (some []) = []
days_of (some (c ∷ v)) = add_days (split (c ∷ v) b',') []

abbrev pub time_of : Option Text → ℕ × ℕ
time_of none = (0, 0)
time_of (some v) = parse_hhmm v

abbrev pub minutes_of : Option Text → ℕ
minutes_of v = let (h, m) = time_of v in h * 60 + m

module _ (z : Zones) where
  open z use {Zone, Instant, utc, load_location, wall}

  abbrev pub known_zone : Option Zone → Zone
  known_zone none = utc
  known_zone (some l) = l

  abbrev pub zone_of : Option Text → Zone
  zone_of none = utc
  zone_of (some []) = utc
  zone_of (some (c ∷ v)) = known_zone (load_location (c ∷ v))

  -- `get_config` is the interface DB of the source.
  unfoldable pub load : (Text → Option Text) → Schedule Zone
  unfolding parse_hhmm add_days split text_eq
  load get_config = record {
    enabled = flag_of (get_config key_enabled);
    days = days_of (get_config key_days);
    hour = (time_of (get_config key_time)).0;
    min = (time_of (get_config key_time)).1;
    blackout_enabled = flag_of (get_config key_blackout_enabled);
    blackout_from = minutes_of (get_config key_blackout_from);
    blackout_to = minutes_of (get_config key_blackout_to);
    loc = some (zone_of (get_config key_timezone));
  }

  -- The method `loc`.
  abbrev pub zone : Schedule Zone → Zone
  zone s = known_zone s.loc

  unfoldable pub matches_time : Schedule Zone → Instant → Bool
  unfolding any
  matches_time s now =
      if not s.enabled || length s.days == 0
      then false
      else let t = wall (zone s) now in
        if not (any (weekday_eq t.weekday) s.days)
        then false
        else t.hour == s.hour && t.minute == s.min

  unfoldable pub in_blackout : Schedule Zone → Instant → Bool
  in_blackout s now =
      if not s.blackout_enabled || s.blackout_from == s.blackout_to
      then false
      else let w = wall (zone s) now in
        let t = w.hour * 60 + w.minute in
        if ltb s.blackout_from s.blackout_to
        then leb s.blackout_from t && ltb t s.blackout_to
        else leb s.blackout_from t || ltb t s.blackout_to
