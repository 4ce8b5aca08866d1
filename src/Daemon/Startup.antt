-- ===== src/Daemon/Startup.antt =====
-- main.go: the start of the daemon, up to the loop over timers and signals, and what a provision file
-- changes of it later.
use ivault.Common.{
  ◌≡◌, refl, ap, ◌∙◌, Bool, true, false, Option, none, some, List, [], ◌∷◌, ◌++◌, All, Option-cases,
  inl, inr,
}
use ivault.Common.Text.{Text, codes, text_eq}
use ivault.Config.{Config}
use ivault.Db.{Db}
use ivault.Db.Opening.{FilesTable, Driver, open_database, has_column}
use ivault.Db.Migrated.{open_database_refuses}
use ivault.Led.{Indicator, Writes, new, slow_pulse}
use ivault.Heartbeat.Trigger.{Started, unprovisioned, duplicate, running, start_guard}
use ivault.Logs.{LogCollector, init_logs}
use ivault.Daemon.Background.{startup_recovery, upload_device_folder}
use ivault.Daemon.Loop.{Call, initial_attach}

-- What the daemon meets at its start: the result of LoadOrDefault, `none` for an error; the database's
-- driver; its answer to startupRecovery; the LED's directory and its max_brightness; and Attach.
pub record Boot : Type 0 where
  pub config : Option Config
  pub driver : Driver
  pub recovers : Bool
  pub led_there : Bool
  pub led_bytes : Option Text
  pub attaches : Bool

-- The process once it runs: its configuration, the folder of its uploads, the LED with the writes to
-- it, the calls of the first attach, the log collector, and the flag and the answer of agent.Start.
pub record Relay : Type 0 where
  pub config : Config
  pub device_folder : Text
  pub led : Indicator
  pub led_writes : Writes
  pub calls : List Call
  pub collector : Option LogCollector
  pub agent_started : Bool
  pub agent : Started

-- The process ends by log.Fatalf, or runs.
pub data Outcome : Type 0 where
  config_failed database_failed : Outcome
  relay : Relay → Outcome

abbrev pub collect : Config → Option LogCollector
unfolding init_logs
collect cfg = init_logs cfg.device_id cfg.device_api_key cfg.cloud_endpoint

-- agent.Start shows that the device is not provisioned.
abbrev pub pulse_of : Started → Indicator → Writes
unfolding slow_pulse
pulse_of unprovisioned led = slow_pulse led
pulse_of duplicate led = []
pulse_of running led = []

-- From the LED on.
unfoldable pub run_relay : Boot → Config → Relay
unfolding new slow_pulse initial_attach start_guard upload_device_folder collect pulse_of
run_relay b cfg =
    let led = new b.led_there b.led_bytes cfg.led_name cfg.led_enabled in
    let (agent_started, agent) = start_guard cfg false in
    record {
      config = cfg;
      device_folder = upload_device_folder cfg.device_name cfg.device_id;
      led = led;
      led_writes = slow_pulse led ++ pulse_of agent led;
      calls = initial_attach b.attaches;
      collector = collect cfg;
      agent_started = agent_started;
      agent = agent;
    }

-- The files table with the rows that startupRecovery leaves.
abbrev pub recover : Bool → Db → FilesTable → FilesTable
unfolding startup_recovery
recover carried_out d t = record t {
  rows = (startup_recovery carried_out (record d { files = t.rows })).0.files;
}

abbrev pub recovered : Bool → Db → Option FilesTable → Option FilesTable
unfolding recover
recovered carried_out d none = none
recovered carried_out d (some t) = some (recover carried_out d t)

abbrev pub after_open : Boot → Db → Config → Option FilesTable × Bool → Option FilesTable × Outcome
unfolding run_relay recovered
after_open b d cfg (t, false) = (t, database_failed)
after_open b d cfg (t, true) = (recovered b.recovers d t, relay (run_relay b cfg))

-- main; the other tables are in `d`, and the files table is there or not yet.
unfoldable pub start_daemon : Boot → Db → Option FilesTable → Option FilesTable × Outcome
unfolding after_open
start_daemon b d before = elim b.config [
  | none ↦ (before, config_failed)
  | some cfg ↦ after_open b d cfg (open_database b.driver before)
]

-- One start after another, each with the other tables of its time.
unfoldable pub start_daemons :
    List (Boot × Db) → Option FilesTable → Option FilesTable × List Outcome
unfolding start_daemon
start_daemons [] t = (t, [])
start_daemons (b ∷ bs) t =
    let r = start_daemon b.0 b.1 t in let rest = start_daemons bs r.0 in (rest.0, r.1 ∷ rest.1)

-- After a maintenance cycle that provisioned the device, with the result of LoadOrDefault.
unfoldable pub adopt_config : Option Config → Relay → Relay
unfolding start_guard
adopt_config none r = r
adopt_config (some cfg) r =
    let (agent_started, agent) = start_guard cfg r.agent_started in
    record r { config = cfg; agent_started = agent_started; agent = agent }

abbrev pub is_relay : Outcome → Bool
is_relay config_failed = false
is_relay database_failed = false
is_relay (relay r) = true

-- A start over a files table without the column.
start_daemon_refuses :
    (b : Boot) (d : Db) (t : FilesTable)
    → has_column (codes "updated_at") t.columns ≡ false
    → let r = start_daemon b d (some t) in (r.0 ≡ some t) × (is_relay r.1 ≡ false)
unfolding start_daemon
start_daemon_refuses b d t h = elim (Option-cases b.config) [
  | inl e ↦ rw e (refl, refl)
  | inr (cfg, e) ↦ rw (e, open_database_refuses b.driver t h) (refl, refl)
]

-- The daemon never comes up over a files table without the column updated_at, which the migration is
-- there to add: the schema's index on the column fails first, so that every start ends the process,
-- whatever it meets, and the table stays as it is.
pub start_daemons_refuse :
    (bs : List (Boot × Db)) (t : FilesTable)
    → has_column (codes "updated_at") t.columns ≡ false
    → let r = start_daemons bs (some t) in (r.0 ≡ some t) × All (λ o. is_relay o ≡ false) r.1
unfolding start_daemons
start_daemons_refuse [] t h = (refl, tt)
start_daemons_refuse (b ∷ bs) t h =
    let (same, dead) = start_daemon_refuses b.0 b.1 t h in
    let (kept, rest) = start_daemons_refuse bs t h in rw same (kept, (dead, rest))

-- The three texts without which a device is not provisioned.
abbrev pub IsProvisioned : Config → Type 0
IsProvisioned cfg =
    (text_eq cfg.device_id [] ≡ false)
    × (text_eq cfg.device_api_key [] ≡ false)
    × (text_eq cfg.cloud_endpoint [] ≡ false)

abbrev pub no_logs : Option LogCollector → Bool
no_logs none = true
no_logs (some c) = false

start_guard_runs : (cfg : Config) → IsProvisioned cfg → start_guard cfg false ≡ (true, running)
unfolding start_guard
start_guard_runs cfg (id, key, url) = rw (id, key, url) refl

init_logs_collects : (cfg : Config) → IsProvisioned cfg → no_logs (collect cfg) ≡ false
unfolding init_logs
init_logs_collects cfg (id, key, url) = rw (id, key, url) refl

-- Without an id nothing starts.
start_guard_waits :
    (cfg : Config) → cfg.device_id ≡ [] → start_guard cfg false ≡ (false, unprovisioned)
unfolding start_guard
start_guard_waits cfg fresh = simp fresh refl

init_logs_waits : (cfg : Config) → cfg.device_id ≡ [] → collect cfg ≡ none
unfolding init_logs
init_logs_waits cfg fresh = simp fresh refl

-- A device that is provisioned by a file while the daemon runs gets its heartbeat, but no log
-- collector and not the folder of its own, both of which the same configuration gives it at a start.
pub adopt_config_late :
    (b : Boot) (before cfg : Config)
    → before.device_id ≡ []
    → IsProvisioned cfg
    → let r = adopt_config (some cfg) (run_relay b before) in
      (r.agent ≡ running)
      × (no_logs r.collector ≡ true)
      × (r.device_folder ≡ upload_device_folder before.device_name [])
      × (no_logs (run_relay b cfg).collector ≡ false)
      × ((run_relay b cfg).device_folder ≡ upload_device_folder cfg.device_name cfg.device_id)
unfolding adopt_config run_relay
adopt_config_late b before cfg fresh provisioned = (
  ap (λ f. (start_guard cfg f).1) (ap (λ r. r.0) (start_guard_waits before fresh))
      ∙ ap (λ r. r.1) (start_guard_runs cfg provisioned),
  rw (init_logs_waits before fresh) refl,
  rw fresh refl,
  init_logs_collects cfg provisioned,
  refl,
)
