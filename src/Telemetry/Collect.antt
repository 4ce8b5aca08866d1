-- ===== src/Telemetry/Collect.antt =====
-- internal/agent/telemetry.go: the figures of one heartbeat together, and what
-- internal/agent/heartbeat.go fills in from the config table.
use ivault.Common.{ℕ, Bool, not, ◌&&◌, Option, none, some, List, [], ◌∷◌, ◌++◌, ltb, if◌then◌else◌}
use ivault.Common.Text.{Text, codes, text_eq, trim_space}
use ivault.Common.Int.{ℤ, pos, negsuc, parse_uint}
use ivault.Db.{Db, get_config}
use ivault.Telemetry.{Fraction}
use ivault.Telemetry.Cpu.{read_cpu_sample, get_cpu_usage}
use ivault.Telemetry.Rates.{Last, Rate, no_rate, read_net_bytes, network_rate_mbps}
use ivault.Telemetry.Nvme.{
  Json, NvmeDrive, Block, Health, health_of, parse_nvme_smart, nvme_model, nvme_device_for_path,
  collect_nvme_drives,
}
use ivault.Telemetry.System.{
  get_mem_usage, get_soc_temp, get_disk_usage, is_mounted, Backing, virtual_drive_total_bytes,
  get_uptime, get_kernel_version, get_armbian_version, get_primary_interface, get_ip_address,
  get_link_speed, Clock, get_clock_status, Queued, count_queue, in_gb,
}

-- The interface's files and the calls of statfs are functions of the name.
pub record Machine : Type 0 where
  pub stat_before : Option Text
  pub stat_after : Option Text
  pub meminfo : Option Text
  pub thermal : Option Text
  pub statfs : Text → Option (ℕ × ℕ × ℕ)
  pub found : Option Text
  pub model : Text → Option Text
  pub smart : Text → Option (Text → Option Json)
  pub blocks : List Block
  pub uptime : Option Text
  pub version : Text
  pub release : Text
  pub route : Text
  pub hostname : Text
  pub mac : Text → Text
  pub speed : Text → Text
  pub rx_bytes : Text → Option Text
  pub tx_bytes : Text → Option Text
  pub now : ℕ
  pub backing : Backing
  pub mounts : Option Text
  pub queue : List Queued
  pub clock : Option Text

pub record Network : Type 0 where
  pub interface : Text
  pub ip_address : Text
  pub mac_address : Text
  pub link_speed : Text
  pub rx : Rate
  pub tx : Rate

-- A figure that could not be read is `none`; the source leaves its field at 0.
pub record Stats : Type 0 where
  pub cpu_percent : Option (ℕ × ℕ)
  pub memory : Option (Fraction × Fraction)
  pub temp_celsius : Option Fraction
  pub nvme : Option (Fraction × Fraction)
  pub nvme_model : Text
  pub nvme_health : Option Health
  pub nvme_drives : List NvmeDrive
  pub uptime_seconds : Option ℕ
  pub kernel_version : Text
  pub armbian_version : Text
  pub network : Network
  pub virtual_drive_used : Fraction
  pub virtual_drive_total : Fraction
  pub virtual_drive_measured_at : Text
  pub virtual_drive_label : Text
  pub queue_file_count : ℕ
  pub queue_size : Fraction
  pub last_sync_at : Text
  pub last_sync_destination : Text
  pub clock : Option Clock

abbrev pub network_of : Machine → Last → Text → Last × Network
unfolding network_rate_mbps read_net_bytes get_ip_address get_link_speed trim_space
network_of m last [] = (
  last,
  record {
    interface = [];
    ip_address = [];
    mac_address = [];
    link_speed = [];
    rx = no_rate;
    tx = no_rate;
  },
)
network_of m last (c ∷ s) =
    let iface = c ∷ s in
    let (last', (rx, tx)) =
      network_rate_mbps iface (read_net_bytes (m.rx_bytes iface) (m.tx_bytes iface)) m.now last in
    (
      last',
      record {
        interface = iface;
        ip_address = get_ip_address m.hostname;
        mac_address = trim_space (m.mac iface);
        link_speed = get_link_speed (m.speed iface);
        rx = rx;
        tx = tx;
      },
    )

abbrev pub primary_health : Machine → Text → Text × Option Health
unfolding nvme_model health_of parse_nvme_smart
primary_health m [] = ([], none)
primary_health m (c ∷ s) =
    (nvme_model (m.model (c ∷ s)), health_of (parse_nvme_smart (m.smart (c ∷ s))))

-- The virtual drive's used and total bytes, in the order of the source.
abbrev pub capacity : ℤ → Fraction
capacity (negsuc n) = in_gb (pos 0)
capacity (pos n) = in_gb (pos n)

abbrev pub live_or : Fraction × Fraction → Option (Fraction × Fraction) → Fraction × Fraction
live_or old none = old
live_or old (some live) = live

unfoldable pub virtual_drive : Machine → Text → Fraction × Fraction
unfolding text_eq is_mounted get_disk_usage virtual_drive_total_bytes
virtual_drive m mount_point =
    let sizes : Fraction × Fraction =
      (in_gb (pos 0), capacity (virtual_drive_total_bytes m.backing)) in
    if not (text_eq mount_point []) && is_mounted mount_point m.mounts
    then live_or sizes (get_disk_usage (m.statfs mount_point))
    else sizes

-- CollectStats
unfoldable pub collect_stats : Machine → Text → Text → Text → Last → Last × Stats
unfolding network_of get_primary_interface primary_health nvme_device_for_path virtual_drive
    count_queue get_cpu_usage read_cpu_sample get_mem_usage get_soc_temp get_disk_usage
    collect_nvme_drives get_uptime get_kernel_version get_armbian_version get_clock_status
collect_stats m nvme_path image_path mount_point last =
    let (last', network) = network_of m last (get_primary_interface m.route) in
    let (model, health) = primary_health m (nvme_device_for_path m.found) in
    let (used, total) = virtual_drive m mount_point in
    let (files, bytes) = count_queue m.queue in
    (
      last',
      record {
        cpu_percent = get_cpu_usage (read_cpu_sample m.stat_before) (read_cpu_sample m.stat_after);
        memory = get_mem_usage m.meminfo;
        temp_celsius = get_soc_temp m.thermal;
        nvme = get_disk_usage (m.statfs nvme_path);
        nvme_model = model;
        nvme_health = health;
        nvme_drives = collect_nvme_drives m.found image_path m.blocks;
        uptime_seconds = get_uptime m.uptime;
        kernel_version = get_kernel_version m.version;
        armbian_version = get_armbian_version m.release;
        network = network;
        virtual_drive_used = used;
        virtual_drive_total = total;
        virtual_drive_measured_at = [];
        virtual_drive_label = [];
        queue_file_count = files;
        queue_size = in_gb (pos bytes);
        last_sync_at = [];
        last_sync_destination = [];
        clock = get_clock_status m.clock;
      },
    )

abbrev pub stored_bytes : Option Text → Option ℕ
unfolding parse_uint
stored_bytes none = none
stored_bytes (some v) = parse_uint v

abbrev pub used_or : Fraction → Option ℕ → Fraction
used_or old none = old
used_or old (some n) = in_gb (pos n)

abbrev pub total_or : Fraction → Option ℕ → Fraction
total_or old none = old
total_or old (some n) = if ltb 0 n then in_gb (pos n) else old

abbrev pub text_or : Text → Option Text → Text
text_or old none = old
text_or old (some []) = old
text_or old (some (c ∷ s)) = c ∷ s

-- The head of sendHeartbeat: what the config table knows of the drive and of the last sync.
unfoldable pub backfill : Bool → Db → Stats → Stats
unfolding get_config stored_bytes
backfill mounted d s = record s {
  virtual_drive_used =
      if mounted
      then s.virtual_drive_used
      else used_or s.virtual_drive_used
          (stored_bytes (get_config d (codes "ext_drive_used_bytes")));
  virtual_drive_total =
      if mounted
      then s.virtual_drive_total
      else total_or s.virtual_drive_total
          (stored_bytes (get_config d (codes "ext_drive_total_bytes")));
  virtual_drive_measured_at =
      text_or s.virtual_drive_measured_at (get_config d (codes "ext_drive_measured_at"));
  virtual_drive_label = text_or s.virtual_drive_label (get_config d (codes "ext_drive_label"));
  last_sync_at = text_or s.last_sync_at (get_config d (codes "last_sync_at"));
  last_sync_destination =
      text_or s.last_sync_destination (get_config d (codes "last_sync_destination"));
}

-- What the summary of a destination is made of, `none` where its JSON does not decode.
pub record Named : Type 0 where
  pub id : Text
  pub name : Text
  pub type : Text

pub record Summary : Type 0 where
  pub id : Text
  pub name : Text
  pub type : Text
  pub last_backup_at : Text

abbrev pub or_empty : Option Text → Text
or_empty none = []
or_empty (some v) = v

unfoldable pub summaries : Db → List (Option Named) → List Summary
unfolding get_config text_eq
summaries d [] = []
summaries d (none ∷ ds) = summaries d ds
summaries d (some n ∷ ds) =
    let rest = summaries d ds in
    if text_eq n.name [] && text_eq n.type []
    then rest
    else record {
      id = n.id;
      name = n.name;
      type = n.type;
      last_backup_at = or_empty (get_config d (codes "dest_backup_" ++ n.id));
    }
      ∷ rest
