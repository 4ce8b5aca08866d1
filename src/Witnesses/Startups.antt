-- ===== src/Witnesses/Startups.antt =====
-- Tests and instances for the start of main.go, for internal/db/db.go's Open, and for the heartbeat
-- loop of internal/agent/heartbeat.go.
use ivault.Common.{◌+◌, ◌≤◌, ◌⊎◌, ◌≡◌, refl, true, false, none, some, List, [], ◌∷◌, All}
use ivault.Common.Text.{codes, text_eq}
use ivault.Config.{Config, default_config}
use ivault.Db.{empty_db}
use ivault.Db.Opening.{FilesTable, Driver, schema_columns, has_column, open_database}
use ivault.State.{State, booting, connecting, connected}
use ivault.Heartbeat.Trigger.{
  Heart, Event, change, handler_runs, reads_state, answered, new_heart, step, run, running, sending,
  waiting,
}
use ivault.Heartbeat.Reported.{is_own, own_steps, run_reports}
use ivault.Daemon.Background.{upload_device_folder}
use ivault.Daemon.Startup.{
  Boot, start_daemons, is_relay, start_daemons_refuse, no_logs, run_relay, adopt_config,
  adopt_config_late,
}

abbrev willing : Driver
willing = record {
  opens = true;
  indexes = λ c. true;
  lists = λ c. true;
  alters = λ c. true;
  backfills = true;
}

abbrev good_boot : Boot
good_boot = record {
  config = some default_config;
  driver = willing;
  recovers = true;
  led_there = true;
  led_bytes = none;
  attaches = true;
}

-- The table of a version without the delta to the portal.
abbrev old_table : FilesTable
old_table = record {
  columns = codes "id" ∷ codes "state" ∷ codes "checksum_sha256" ∷ [];
  rows = [];
}

test_new_database :
    open_database willing none ≡ (some (record { columns = schema_columns; rows = [] }), true)
unfolding open_database
test_new_database = refl

start_daemons_refuse_example :
    ((start_daemons ((good_boot, empty_db) ∷ (good_boot, empty_db) ∷ []) (some old_table)).0
      ≡ some old_table)
    × All
        (λ o. is_relay o ≡ false)
        (start_daemons ((good_boot, empty_db) ∷ (good_boot, empty_db) ∷ []) (some old_table)).1
unfolding has_column
start_daemons_refuse_example =
    start_daemons_refuse ((good_boot, empty_db) ∷ (good_boot, empty_db) ∷ []) old_table refl

abbrev enrolled : Config
enrolled = record default_config {
  device_id = codes "d1";
  device_name = codes "Stage left";
  device_api_key = codes "k";
  cloud_endpoint = codes "https://portal";
}

test_late_folder :
    (adopt_config (some enrolled) (run_relay good_boot default_config)).device_folder
    ≡ codes "Relay"
unfolding adopt_config run_relay
test_late_folder = refl

adopt_config_late_example :
    let r = adopt_config (some enrolled) (run_relay good_boot default_config) in
    (r.agent ≡ running)
    × (no_logs r.collector ≡ true)
    × (r.device_folder ≡ upload_device_folder [] [])
    × (no_logs (run_relay good_boot enrolled).collector ≡ false)
    × ((run_relay good_boot enrolled).device_folder
        ≡ upload_device_folder (codes "Stage left") (codes "d1"))
unfolding text_eq
adopt_config_late_example =
    adopt_config_late good_boot default_config enrolled refl (refl, refl, refl)

-- The device connects while the first heartbeat waits for its answer.
abbrev plugged_in : List Event
plugged_in = reads_state ∷ change connecting ∷ change connected ∷ handler_runs ∷ []

abbrev halfway : Heart
halfway = record {
  current = connected;
  calls = 1;
  trigger = true;
  phase = sending;
  reported = booting ∷ [];
}

abbrev told : Heart
told = record halfway { phase = waiting; calls = 0; trigger = true }

run_reports_example :
    (2 + own_steps told ≤ own_steps halfway)
    × (((e : Event) × (next : Heart) × (is_own e ≡ true) × (step e told ≡ some next))
        ⊎ ((older : List State) × (told.reported ≡ connected ∷ older)))
unfolding run new_heart
run_reports_example =
    run_reports booting plugged_in (answered ∷ handler_runs ∷ []) halfway told refl refl
      (refl, (refl, tt)) refl
