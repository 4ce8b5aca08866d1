-- ===== src/Provision.antt =====
-- internal/provision/provision.go: the provision file on the drive and what it starts. A text is a
-- list of bytes here. The wait for the network only delays, so it has no part in the model.
pub mod Outcomes
pub mod Waiting
use ivault.Common.{
  ℕ, Bool, true, false, not, ◌&&◌, ◌||◌, Option, none, some, List, [], ◌∷◌, ◌++◌, ◌==◌,
  if◌then◌else◌,
}
use ivault.Common.Text.{Text, codes, text_eq, contains}
use ivault.Common.Decimal.{format_uint}
use ivault.Common.Int.{pos}
use ivault.Common.Assoc.{Assoc}
use ivault.Db.{Db}
use ivault.Tz.{apply}
use ivault.Config.{Config, Disk, default_config, update_config}
use ivault.Network.{NetworkConfig}
use ivault.Network.Steps.{Step, System, configure_network}

pub record ProvisionFile : Type 0 where
  pub version : ℕ
  pub user_id : Text
  pub device_id : Text
  pub device_name : Text
  pub token : Text
  pub token_expires : Text
  pub cloud_endpoint : Text
  pub timezone : Text
  pub network : NetworkConfig

-- The body of an answer: the text of the decoder's error, or the key that is read from it.
pub data Body : Type 0 where
  undecoded : Text → Body
  with_key : Text → Body

-- What the portal answers to the bootstrap: an error's text, or a status with the body, as a text
-- and decoded.
pub data Reply : Type 0 where
  no_reply : Text → Reply
  status : ℕ → Text → Body → Reply

pub data Outcome : Type 0 where
  key : Text → Outcome
  problem : Text → Outcome

abbrev pub key_of : Body → Outcome
key_of (undecoded e) = problem e
key_of (with_key []) = problem (codes "received empty api key")
key_of (with_key (c ∷ k)) = key (c ∷ k)

-- bootstrapDevice
unfoldable pub bootstrap_device : Reply → Outcome
unfolding format_uint
bootstrap_device (no_reply e) = problem e
bootstrap_device (status code body k) =
    if code == 200
    then key_of k
    else problem (codes "server returned status " ++ format_uint code ++ codes ": " ++ body)

-- What the system answers. The file can be looked at, read and removed or not; `parse` is
-- encoding/json; `disk` is what happens to the configuration file, and `saved` to the time zone.
pub record World : Type 0 where
  pub visible : Bool
  pub readable : Bool
  pub removable : Bool
  pub parse : Text → Option ProvisionFile
  pub system : System
  pub reply : Reply
  pub encode : Config → Text
  pub decode : Text → Config → Option Config
  pub disk : Disk
  pub is_zone : Text → Bool
  pub saved : Bool

-- The provision file's bytes, the files beside the configuration, and the database.
pub record Site : Type 0 where
  pub provision : Option Text
  pub configs : Assoc Text
  pub db : Db

-- (false, nil), (true, nil) and (false, error).
pub data Result : Type 0 where
  absent done failed : Result

-- The network steps taken, and the zone that timedatectl is given.
pub record Run : Type 0 where
  pub site : Site
  pub result : Result
  pub steps : List Step
  pub zone : Option Text

abbrev pub updates_of : ProvisionFile → Text → Config
updates_of pf api_key = record {
  user_id = pf.user_id;
  device_id = pf.device_id;
  device_name = pf.device_name;
  device_api_key = api_key;
  cloud_endpoint = pf.cloud_endpoint;
  db_path = [];
  image_path = [];
  mount_point = [];
  upload_queue = [];
  udc_name = [];
  rclone_remote = [];
  rclone_path = [];
  upload_workers = pos 0;
  schedule_mode = [];
  schedule_interval_minutes = pos 0;
  schedule_window_start_hour = pos 0;
  schedule_window_end_hour = pos 0;
  retention_enabled = false;
  retention_threshold_percent = pos 0;
  led_enabled = false;
  led_name = [];
}

module _ (w : World) (path : Text) where
  abbrev pub ended : Result → List Step → Site → Run
  ended result steps site = record { site = site; result = result; steps = steps; zone = none }

  -- The last part: the time zone.
  unfoldable pub seed_zone : ProvisionFile → List Step → Site → Run
  unfolding apply text_eq
  seed_zone pf steps s =
      if text_eq pf.timezone []
      then ended done steps s
      else let (db, zone) = apply w.is_zone w.saved pf.timezone s.db in
        record { site = record s { db = db }; result = done; steps = steps; zone = zone }

  abbrev pub after_save : ProvisionFile → List Step → Site → Assoc Text × Bool → Run
  unfolding seed_zone
  after_save pf steps s (configs, true) = seed_zone pf steps (record s { configs = configs })
  after_save pf steps s (configs, false) = ended failed steps (record s { configs = configs })

  unfoldable pub enroll : ProvisionFile → List Step → Site → Outcome → Run
  unfolding contains update_config after_save
  enroll pf steps s (problem e) =
      if contains e (codes "already provisioned") then ended done steps s else ended failed steps s
  enroll pf steps s (key k) =
      after_save pf steps s
        (update_config w.encode w.decode w.disk path (updates_of pf k) s.configs)

  abbrev pub consume : Site → Site
  consume s = if w.removable then record s { provision = none } else s

  -- The file goes at the end, whatever comes before; nothing reads it in between.
  unfoldable pub process_parsed : Site → Option ProvisionFile → Run
  unfolding configure_network bootstrap_device enroll
  process_parsed s none = ended failed [] s
  process_parsed s (some pf) =
      enroll pf (configure_network w.system pf.network).0 (consume s) (bootstrap_device w.reply)

  -- Process
  unfoldable pub process_found : Site → Option Text → Run
  unfolding process_parsed
  process_found s none = ended absent [] s
  process_found s (some bytes) =
      if not w.visible
      then ended absent [] s
      else if not w.readable
      then ended failed [] s
      else process_parsed s (w.parse bytes)

  unfoldable pub process : Site → Run
  unfolding process_found
  process s = process_found s s.provision
