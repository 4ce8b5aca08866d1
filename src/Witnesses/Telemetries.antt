-- ===== src/Witnesses/Telemetries.antt =====
-- Tests and instances for internal/agent/telemetry.go.
use ivault.Common.{ℕ, ◌*◌, ◌^◌, ◌≡◌, refl, arith, true, false, none, some, List, [], ◌∷◌, map}
use ivault.Common.Text.{codes}
use ivault.Common.Int.{pos}
use ivault.Db.{empty_db}
use ivault.Ingest.Drive.{Statfs, disk_usage_bytes, record_usage}
use ivault.Telemetry.Cpu.{read_cpu_sample, busy_percent}
use ivault.Telemetry.Rates.{
  Counters, Last, no_rate, rate_mbps, rates, volume, AreOver, volume-rates,
}
use ivault.Telemetry.Nvme.{nvme_base_device}
use ivault.Telemetry.System.{in_gb}
use ivault.Telemetry.Collect.{Stats, backfill}
use ivault.Telemetry.Measured.{backfill-record_usage}

test_cpu_sample :
    read_cpu_sample (some (codes "cpu  100 20 30 800 50 0 0 0 0 0\ncpu0 1 2 3 4\n"))
    ≡ some (record { idle = 850; total = 1000 })
unfolding read_cpu_sample
test_cpu_sample = refl

-- A megabyte in a second is 8 megabits a second.
test_rate : rate_mbps 1000000 (10 ^ 9) ≡ (8 * 10 ^ 15, 10 ^ 15)
unfolding rate_mbps
test_rate = refl

test_partition : nvme_base_device (codes "/dev/nvme0n1p2") ≡ codes "/dev/nvme0n1"
unfolding nvme_base_device
test_partition = refl

-- Idle time that steps back by one jiffy while 100 pass.
test_steps_back :
    busy_percent (record { idle = 500; total = 1000 }) (record { idle = 499; total = 1100 })
    ≡ (0, 1)
unfolding busy_percent
test_steps_back = refl

abbrev second : ℕ
second = 1000000000

abbrev beats : List (ℕ × Counters)
beats =
    (31 * second, record { rx = 3000; tx = 0 }) ∷ (61 * second, record { rx = 9000; tx = 500 }) ∷ []

abbrev baseline_at : Last
baseline_at = record {
  counters = record { rx = 1000; tx = 0 };
  time = some second;
  iface = codes "eth0";
}

volume-rates_example :
    AreOver second beats (rates (codes "eth0") beats baseline_at)
    × (volume (map (λ r. r.0) (rates (codes "eth0") beats baseline_at)) ≡ 8000 * 8 * 10 ^ 9)
    × (volume (map (λ r. r.1) (rates (codes "eth0") beats baseline_at)) ≡ 500 * 8 * 10 ^ 9)
volume-rates_example =
    volume-rates (codes "eth0") beats second baseline_at refl refl
      (omega arith, omega arith, omega arith, (omega arith, omega arith, omega arith, tt))

abbrev stick : Statfs
stick = record { bsize = 4096; blocks = 1000; bfree = 250 }

abbrev blank : Stats
blank = record {
  cpu_percent = none;
  memory = none;
  temp_celsius = none;
  nvme = none;
  nvme_model = [];
  nvme_health = none;
  nvme_drives = [];
  uptime_seconds = none;
  kernel_version = [];
  armbian_version = [];
  network = record {
    interface = [];
    ip_address = [];
    mac_address = [];
    link_speed = [];
    rx = no_rate;
    tx = no_rate;
  };
  virtual_drive_used = in_gb (pos 0);
  virtual_drive_total = in_gb (pos 0);
  virtual_drive_measured_at = [];
  virtual_drive_label = [];
  queue_file_count = 0;
  queue_size = in_gb (pos 0);
  last_sync_at = [];
  last_sync_destination = [];
  clock = none;
}

backfill-record_usage_example :
    let r =
      backfill false (record_usage (λ key. true) (codes "10:00") (some stick) empty_db) blank in
    (r.virtual_drive_used ≡ in_gb (pos 3072000))
    × (r.virtual_drive_total ≡ in_gb (pos 4096000))
    × (r.virtual_drive_measured_at ≡ codes "10:00")
unfolding disk_usage_bytes
backfill-record_usage_example =
    backfill-record_usage (λ key. true) (codes "10:00") stick empty_db blank (λ key. refl)
      (omega arith) (λ bad. cc bad)
