-- ===== src/Config.antt =====
-- internal/config/config.go: the configuration file. encoding/json is a parameter: `encode` writes a
-- configuration, and `decode` reads a text over the values that are there already.
pub mod Updates
use ivault.Common.{ℕ, Bool, true, false, Option, none, some, List, [], ◌∷◌, ◌++◌, if◌then◌else◌}
use ivault.Common.Text.{Text, codes}
use ivault.Common.Int.{ℤ, pos}
use ivault.Common.Assoc.{Assoc, lookup, insert, erase}

pub record Config : Type 0 where
  pub user_id : Text
  pub device_id : Text
  pub device_name : Text
  pub device_api_key : Text
  pub cloud_endpoint : Text
  pub db_path : Text
  pub image_path : Text
  pub mount_point : Text
  pub upload_queue : Text
  pub udc_name : Text
  pub rclone_remote : Text
  pub rclone_path : Text
  pub upload_workers : ℤ
  pub schedule_mode : Text
  pub schedule_interval_minutes : ℤ
  pub schedule_window_start_hour : ℤ
  pub schedule_window_end_hour : ℤ
  pub retention_enabled : Bool
  pub retention_threshold_percent : ℤ
  pub led_enabled : Bool
  pub led_name : Text

-- Default
abbrev pub default_config : Config
default_config = record {
  user_id = [];
  device_id = [];
  device_name = [];
  device_api_key = [];
  cloud_endpoint = [];
  db_path = codes "/var/lib/ivault/ivault.db";
  image_path = codes "/nvme/usb_disk.img";
  mount_point = codes "/nvme/ingest";
  upload_queue = codes "/nvme/upload_queue";
  udc_name = codes "fc000000.usb";
  rclone_remote = codes "gdrive";
  rclone_path = codes "Relay";
  upload_workers = pos 2;
  schedule_mode = codes "daily";
  schedule_interval_minutes = pos 60;
  schedule_window_start_hour = pos 2;
  schedule_window_end_hour = pos 5;
  retention_enabled = false;
  retention_threshold_percent = pos 80;
  led_enabled = true;
  led_name = codes "user-led";
}

-- The text of an update, or the old one where the update has none.
abbrev pub kept_unless : Text → Text → Text
kept_unless [] old = old
kept_unless (c ∷ s) old = c ∷ s

-- The tests of UpdateConfig.
unfoldable pub merge : Config → Config → Config
merge updates cfg = record cfg {
  user_id = kept_unless updates.user_id cfg.user_id;
  device_id = kept_unless updates.device_id cfg.device_id;
  device_name = kept_unless updates.device_name cfg.device_name;
  device_api_key = kept_unless updates.device_api_key cfg.device_api_key;
  cloud_endpoint = kept_unless updates.cloud_endpoint cfg.cloud_endpoint;
}

-- What the file system does to an update: whether the file can be read, whether the temporary file
-- is written as a whole, what is there of it otherwise (`none` where it cannot be opened), and
-- whether it can be renamed.
pub record Disk : Type 0 where
  pub readable : Bool
  pub complete : Bool
  pub written : Text → Option Text
  pub renamed : Bool

abbrev pub put_part : Text → Option Text → Assoc Text → Assoc Text
unfolding insert
put_part path none files = files
put_part path (some part) files = insert path part files

abbrev pub tmp_of : Text → Text
tmp_of path = path ++ codes ".tmp"

module _ (encode : Config → Text) (decode : Text → Config → Option Config) where
  -- LoadOrDefault; `none` is an error other than a missing file.
  unfoldable pub load_or_default : Bool → Option Text → Option Config
  load_or_default readable none = some default_config
  load_or_default readable (some bytes) = if readable then decode bytes default_config else none

  -- The files after the call, and whether it returned nil.
  unfoldable pub write_config : Disk → Text → Config → Assoc Text → Assoc Text × Bool
  unfolding insert erase put_part
  write_config disk path cfg files =
      let bytes = encode cfg in
      if disk.complete
      then if disk.renamed
        then (insert path bytes (erase (tmp_of path) files), true)
        else (insert (tmp_of path) bytes files, false)
      else (put_part (tmp_of path) (disk.written bytes) files, false)

  abbrev pub update_read : Disk → Text → Config → Assoc Text → Option Config → Assoc Text × Bool
  update_read disk path updates files none = (files, false)
  update_read disk path updates files (some cfg) = write_config disk path (merge updates cfg) files

  -- UpdateConfig
  unfoldable pub update_config : Disk → Text → Config → Assoc Text → Assoc Text × Bool
  unfolding write_config merge load_or_default lookup
  update_config disk path updates files =
      update_read disk path updates files (load_or_default disk.readable (lookup path files))
