-- ===== src/Heartbeat/Payload.antt =====
-- internal/agent/heartbeat.go: what sendHeartbeat collects before the request. `decode` is
-- encoding/json on the three fields of a destination.
use ivault.Common.{ℕ, Bool, Option, List, [], ◌∷◌, map}
use ivault.Common.Text.{Text, codes}
use ivault.Config.{Config}
use ivault.Db.{Db}
use ivault.Db.Queries.{FileChange}
use ivault.State.{State, state_string}
use ivault.Discovery.{Table, DiscoveredDevice, get_devices}
use ivault.Telemetry.Rates.{Last}
use ivault.Telemetry.System.{is_mounted}
use ivault.Telemetry.Collect.{Machine, Stats, collect_stats, backfill, Named, Summary, summaries}
use ivault.Heartbeat.{Agent, get_active_destinations, file_delta}

pub record Payload : Type 0 where
  pub stats : Stats
  pub status : Text
  pub discovered_devices : List DiscoveredDevice
  pub files : List FileChange
  pub active_destinations : List Summary

-- The upload queue's file system, or /nvme where it has no name.
abbrev pub internal_path : Text → Text
internal_path [] = codes "/nvme"
internal_path (c ∷ queue) = c ∷ queue

-- The payload with the table of devices and the network counters after it; `listed` is the driver's answer.
unfoldable pub compose_payload :
    (Text → Option Named)
    → Config
    → Machine
    → State
    → ℕ
    → Bool
    → Db
    → Agent Text
    → Table
    → Last
    → Payload × Table × Last
unfolding collect_stats backfill summaries get_devices file_delta is_mounted
compose_payload decode cfg m state now listed d agent devices last =
    let (last', stats) =
      collect_stats m (internal_path cfg.upload_queue) cfg.image_path cfg.mount_point last in
    let (devices', found) = get_devices now devices in
    (
      record {
        stats = backfill (is_mounted cfg.mount_point m.mounts) d stats;
        status = state_string state;
        discovered_devices = found;
        files = file_delta listed d;
        active_destinations = summaries d (map decode (get_active_destinations agent));
      },
      devices',
      last',
    )
