-- ===== src/Witnesses/Daemons.antt =====
-- Tests and instances for main.go.
use ivault.Common.{
  ℕ, List, ◌∷◌, All, Option, if◌then◌else◌, ◌≡◌, refl, true, false, none, some, [], ◌++◌,
}
use ivault.State.{connected, archiving, error}
use ivault.Daemon.{Answers, Action, maintenance, run_maintenance, run_ingest}
use ivault.Daemon.Exclusive.{
  mounted_drive, effects, IsExclusive, maintenance-IsExclusive, maintenance_shared,
}
use ivault.Common.Text.{Text, text_lt, codes, text_eq, trim_space}
use ivault.Daemon.Background.{upload_device_folder, in_schedule_window}
use ivault.Gadget.{plugged}
use ivault.Daemon.Loop.{log, handle_event, Tick, ticks}
use ivault.Daemon.Loop.Plugs.{
  maintenance_ignores_plug, plug_effects, until_ingest, plug_meets_ingest,
}
use ivault.Daemon.Loop.Minutes.{IsDue, IsOncePerMinute, ticks-OncePerMinute}
use ivault.Schedule.{
  Zones, monday, load, matches_time, in_blackout, parse_hhmm, add_days, weekday_abbr,
}
use ivault.Daemon.Sessions.{count, closes_session, settles_upload, end_state, maintenance_concludes}

abbrev smooth : Answers
smooth = record {
  session = some 4;
  ejected = true;
  mounted = true;
  unmounted = true;
  provision_file = false;
  result = some (record { found = 3; kept = 1; bytes = 10 });
  ingest_error = false;
  provisioned = false;
  config_read = true;
  retention = true;
  deleted = some 2;
  loaded = true;
  queue_size = some 1;
}

test_busy : run_maintenance archiving true smooth ≡ none
unfolding run_maintenance
test_busy = refl

test_outcome : end_state (maintenance true smooth) connected ≡ archiving
unfolding maintenance end_state
test_outcome = refl

maintenance-IsExclusive_example :
    IsExclusive smooth (maintenance true smooth) (record { host = true; local = false })
maintenance-IsExclusive_example = maintenance-IsExclusive smooth true true refl refl

maintenance_shared_example :
    ¬ IsExclusive
      (record smooth { ejected = false })
      (maintenance true (record smooth { ejected = false }))
      (record { host = true; local = false })
maintenance_shared_example = maintenance_shared (record smooth { ejected = false }) true refl refl

maintenance_concludes_example :
    (count closes_session (maintenance true (record smooth { loaded = false })) ≡ 1)
    × (count settles_upload (maintenance true (record smooth { loaded = false })) ≡ 1)
    × (end_state (maintenance true (record smooth { loaded = false })) connected ≡ error)
maintenance_concludes_example =
    maintenance_concludes (record smooth { loaded = false }) true connected

test_folder :
    upload_device_folder (codes " Ann's PC/2 ") (codes "abcdef12") ≡ codes "Ann-s PC-2-abcdef"
unfolding upload_device_folder trim_space
test_folder = refl

test_unnamed : upload_device_folder (codes "//") [] ≡ codes "Relay"
unfolding upload_device_folder trim_space text_eq
test_unnamed = refl

test_window : in_schedule_window 23 22 5 ≡ true
unfolding in_schedule_window
test_window = refl

maintenance_ignores_plug_example :
    ((effects smooth (maintenance false smooth) (record { host = true; local = false })).host
      ≡ false)
    × (handle_event
          (record { attached = true; succeeded = true })
          plugged
          (end_state (maintenance false smooth) connected)
        ≡ log (codes "info") (codes "gadget") ∷ [])
maintenance_ignores_plug_example =
    maintenance_ignores_plug smooth (record { attached = true; succeeded = true }) connected true
      refl refl refl

plug_meets_ingest_example :
    let seen = end_state (until_ingest smooth) connected in
    let before = effects smooth (until_ingest smooth) (record { host = true; local = false }) in
    (rest : List Action) × (maintenance true smooth ≡ until_ingest smooth ++ run_ingest ∷ rest)
    × (before ≡ mounted_drive)
    × ¬ IsExclusive smooth (run_ingest ∷ rest) (
        plug_effects
          (record { attached = true; succeeded = true })
          false
          (handle_event (record { attached = true; succeeded = true }) plugged seen)
          before)
plug_meets_ingest_example =
    plug_meets_ingest smooth (record { attached = true; succeeded = true }) true false true
      connected refl refl refl

-- One zone, where an instant is the minute of a Monday.
abbrev mondays : Zones
mondays = record {
  Zone = Unit;
  Instant = ℕ;
  utc = tt;
  load_location = λ name. some tt;
  wall = λ l t. record { weekday = monday; hour = 0; minute = t };
}

-- Mondays at 00:05.
abbrev weekly : Text → Option Text
weekly key =
    if text_eq key (codes "sched_enabled")
    then some (codes "true")
    else if text_eq key (codes "sched_days")
    then some (codes "Mon")
    else if text_eq key (codes "sched_time")
    then some (codes "0:05")
    else none

abbrev at : ℕ → Text → Tick mondays
at now minute = record { get_config = weekly; now = now; minute = minute }

abbrev half_minutes : List (Tick mondays)
half_minutes =
    at 4 (codes "00:04") ∷ at 5 (codes "00:05") ∷ at 5 (codes "00:05") ∷ at 6 (codes "00:06") ∷ []

test_ticks : ticks mondays half_minutes [] ≡ at 5 (codes "00:05") ∷ []
unfolding ticks load matches_time in_blackout text_eq parse_hhmm add_days weekday_abbr
test_ticks = refl

ticks-OncePerMinute_example :
    IsOncePerMinute mondays [] (ticks mondays half_minutes [])
    × All (IsDue mondays) (ticks mondays half_minutes [])
unfolding text_lt
ticks-OncePerMinute_example =
    ticks-OncePerMinute mondays half_minutes [] (refl, (refl, (refl, (refl, tt))))
