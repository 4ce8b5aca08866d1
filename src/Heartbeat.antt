-- ===== src/Heartbeat.antt =====
-- internal/agent/heartbeat.go: what a heartbeat reads and what the portal's answer changes. HTTP and
-- JSON are third-party: an answer comes decoded, a destination is its compact JSON text `Raw` and `marshal`
-- writes a list of them (a nil list is the empty one). A number of the answer is its text by FormatFloat.
pub mod Trigger
pub mod Reported
pub mod Requests
pub mod Payload
pub mod Settings
pub mod Filters
pub mod Watermark
pub mod Destinations
use ivault.Common.{
  ℕ, Bool, true, false, not, ◌&&◌, ◌||◌, Option, none, some, List, [], ◌∷◌, ◌++◌, ◌==◌,
  if◌then◌else◌,
}
use ivault.Common.Text.{Text, codes, text_eq, text_lt, has_prefix, trim_prefix, join}
use ivault.Db.{Db, attempt, set_config, get_config}
use ivault.Db.Queries.{FileChange, get_files_changed_since}
use ivault.Tz.{config_or_empty, apply}
use ivault.Secret.{Aead, encrypt_blob, decrypt_blob}
use ivault.Logs.{LogCollector, set_log_ship_level}

pub record PortalSchedule : Type 0 where
  pub enabled : Bool
  pub days : List Text
  pub time : Text
  pub blackout_enabled : Bool
  pub blackout_from : Text
  pub blackout_to : Text
  pub timezone : Text

pub record StorageConfig : Type 0 where
  pub skip_system_files : Option Bool
  pub ignored_extensions : List Text
  pub extension_mode : Text
  pub skip_files_under_mb : Option Text
  pub skip_files_over_mb : Option Text

abbrev pub format_bool : Bool → Text
format_bool true = codes "true"
format_bool false = codes "false"

pub data Command : Type 0 where
  deep_scan trigger_sync restart_service reboot factory_reset unknown : Command
  test_destination discover_shares : Text → Command

-- The chain of tests on one command.
unfoldable pub command_of : Text → Command
unfolding text_eq has_prefix trim_prefix
command_of c =
    if text_eq c (codes "trigger_deep_scan")
    then deep_scan
    else if has_prefix c (codes "test_destination:")
    then test_destination (trim_prefix c (codes "test_destination:"))
    else if has_prefix c (codes "discover_shares:")
    then discover_shares (trim_prefix c (codes "discover_shares:"))
    else if text_eq c (codes "trigger_sync")
    then trigger_sync
    else if text_eq c (codes "restart_service")
    then restart_service
    else if text_eq c (codes "reboot")
    then reboot
    else if text_eq c (codes "factory_reset")
    then factory_reset
    else unknown

abbrev pub mode_of : Text → Text
mode_of mode = if text_eq mode (codes "include") then mode else codes "exclude"

-- `saved` tells for each key whether the driver carries the statement out.
module _ (saved : Text → Bool) where
  unfoldable pub put : Text → Text → Db → Db
  unfolding set_config
  put key value d = attempt (saved key) (set_config key value) d

  abbrev pub put_some : Text → Option Text → Db → Db
  put_some key none d = d
  put_some key (some value) d = put key value d

  abbrev pub put_flag : Text → Option Bool → Db → Db
  put_flag key none d = d
  put_flag key (some b) d = put key (format_bool b) d

  unfoldable pub sync_times : PortalSchedule → Db → Db
  unfolding put join
  sync_times sc d = put (codes "sched_blackout_to") sc.blackout_to (
      put (codes "sched_blackout_from") sc.blackout_from (
        put (codes "sched_blackout_enabled") (format_bool sc.blackout_enabled) (
          put (codes "sched_time") sc.time (
            put (codes "sched_days") (join sc.days (codes ","))
              (put (codes "sched_enabled") (format_bool sc.enabled) d)))))

  -- The second part is the zone that timedatectl is given.
  unfoldable pub sync_schedule : (Text → Bool) → Option PortalSchedule → Db → Db × Option Text
  unfolding sync_times apply text_eq
  sync_schedule is_zone none d = (d, none)
  sync_schedule is_zone (some sc) d =
      if text_eq sc.timezone []
      then (sync_times sc d, none)
      else apply is_zone (saved (codes "sched_timezone")) sc.timezone (sync_times sc d)

  -- `none` where the answer has no storage settings, or none that parse.
  unfoldable pub sync_filters : Option StorageConfig → Db → Db
  unfolding put join text_eq
  sync_filters none d = d
  sync_filters (some sc) d = put_some (codes "filter_skip_files_over_mb") sc.skip_files_over_mb (
      put_some (codes "filter_skip_files_under_mb") sc.skip_files_under_mb (
        put (codes "filter_extension_mode") (mode_of sc.extension_mode) (
          put (codes "filter_ignored_extensions") (join sc.ignored_extensions (codes ","))
            (put_flag (codes "filter_skip_system_files") sc.skip_system_files d))))

-- The largest change of the rows sent.
unfoldable pub new_watermark : Text → List FileChange → Text
unfolding text_lt
new_watermark w [] = w
new_watermark w (c ∷ cs) = new_watermark (if text_lt w c.updated_at then c.updated_at else w) cs

abbrev pub watermark_key : Text
watermark_key = codes "file_sync_watermark"

-- The file delta that a heartbeat carries; `listed` is false where the query fails.
unfoldable pub file_delta : Bool → Db → List FileChange
unfolding get_files_changed_since config_or_empty
file_delta listed d =
    if listed then get_files_changed_since d (config_or_empty d watermark_key) 200 else []

-- The portal has acknowledged the delta.
unfoldable pub acknowledge : (Text → Bool) → List FileChange → Db → Db
unfolding new_watermark put config_or_empty text_eq
acknowledge saved [] d = d
acknowledge saved (c ∷ cs) d =
    let w = config_or_empty d watermark_key in
    let w' = new_watermark w (c ∷ cs) in if text_eq w' w then d else put saved watermark_key w' d

pub record Response (Raw : Type 0) : Type 0 where
  pub commands : List Text
  pub storage_config : Option StorageConfig
  pub destinations : List Raw
  pub log_level : Text
  pub schedule : Option PortalSchedule

-- What comes back: no answer, or a status with the decoded body, `none` where it does not decode.
pub data Reply (Raw : Type 0) : Type 0 where
  no_reply : Reply Raw
  status : ℕ → Option (Response Raw) → Reply Raw

pub data Pattern : Type 0 where
  solid slow_pulse : Pattern

-- activeDestinations, lastDestJSON and the collector of log lines.
pub record Agent (Raw : Type 0) : Type 0 where
  pub active : List Raw
  pub last_dest_json : Text
  pub collector : Option LogCollector

-- UpdateActiveDestinations and GetActiveDestinations
abbrev pub update_active_destinations : {Raw : Type 0} → List Raw → Agent Raw → Agent Raw
update_active_destinations dests a = record a { active = dests }

abbrev pub get_active_destinations : {Raw : Type 0} → Agent Raw → List Raw
get_active_destinations a = a.active

abbrev pub set_level : Text → Option LogCollector → Option LogCollector
set_level level none = none
set_level level (some c) = some (set_log_ship_level level c)

pub record Beat (Raw : Type 0) : Type 0 where
  pub db : Db
  pub agent : Agent Raw
  pub led : Pattern
  pub commands : List Command
  pub zone : Option Text

unfoldable pub commands_of : List Text → List Command
unfolding command_of
commands_of [] = []
commands_of (c ∷ cs) = command_of c ∷ commands_of cs

module _ {Raw : Type 0} (marshal : List Raw → Text) (unmarshal : Text → Option (List Raw))
    (manager : Option Aead) (saved is_zone : Text → Bool) where
  -- The last part of the answer; `random` is what the random source gives to the encryption.
  unfoldable pub sync_destinations : Option Text → List Raw → Agent Raw → Db → Agent Raw × Db
  unfolding text_eq put encrypt_blob
  sync_destinations random dests a d =
      if text_eq (marshal dests) a.last_dest_json then (a, d) else (
        record (update_active_destinations dests a) { last_dest_json = marshal dests },
        put saved (codes "active_destinations") (encrypt_blob manager random (marshal dests)) d,
      )

  -- Start, before the loop: the destinations of the last run.
  unfoldable pub load_destinations : Agent Raw → Db → Agent Raw
  unfolding config_or_empty decrypt_blob text_eq
  load_destinations a d =
      let stored = config_or_empty d (codes "active_destinations") in
      if text_eq stored [] then a else elim (unmarshal (decrypt_blob manager stored)) [
        | none ↦ a
        | some dests ↦ update_active_destinations dests a
      ]

  unfoldable pub apply_response : Option Text → Response Raw → Agent Raw → Db → Beat Raw
  unfolding sync_schedule sync_filters sync_destinations commands_of set_log_ship_level
  apply_response random r a d =
      let (d1, zone) = sync_schedule saved is_zone r.schedule d in
      let levelled = record a { collector = set_level r.log_level a.collector } in
      let (a', d2) =
        sync_destinations random r.destinations levelled (sync_filters saved r.storage_config d1) in
      record { db = d2; agent = a'; led = solid; commands = commands_of r.commands; zone = zone }

  abbrev pub unchanged : Pattern → Agent Raw → Db → Beat Raw
  unchanged led a d = record { db = d; agent = a; led = led; commands = []; zone = none }

  abbrev pub decoded : Option Text → Option (Response Raw) → Agent Raw → Db → Beat Raw
  decoded random none a d = unchanged solid a d
  decoded random (some r) a d = apply_response random r a d

  -- sendHeartbeat from the request on.
  unfoldable pub send_heartbeat : Bool → Option Text → Reply Raw → Agent Raw → Db → Beat Raw
  unfolding apply_response acknowledge file_delta
  send_heartbeat listed random no_reply a d = unchanged slow_pulse a d
  send_heartbeat listed random (status code body) a d =
      if code == 200
      then decoded random body a (acknowledge saved (file_delta listed d) d)
      else unchanged slow_pulse a d
