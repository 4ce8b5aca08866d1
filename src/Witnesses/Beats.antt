-- ===== src/Witnesses/Beats.antt =====
-- Tests and instances for internal/agent/heartbeat.go, internal/secret and internal/config.
use ivault.Common.{ℕ, ◌≡◌, refl, Bool, true, false, Option, none, some, List, [], ◌∷◌}
use ivault.Common.Text.{Text, codes, text_eq, has_prefix, trim_space}
use ivault.Db.{empty_db, get_config}
use ivault.Secret.{Aead, IsAead, encrypt_blob}
use ivault.Schedule.{Zones, monday, load, add_days, parse_hhmm, minutes_of, zone_of}
use ivault.Ingest.{load_filters}
use ivault.Heartbeat.{
  Agent, PortalSchedule, StorageConfig, command_of, test_destination, sync_schedule, sync_filters,
  sync_destinations, load_destinations,
}
use ivault.Heartbeat.Settings.{load-sync_schedule}
use ivault.Heartbeat.Filters.{IsApplied, load_filters-sync_filters}
use ivault.Heartbeat.Destinations.{IsCodec, load_destinations-sync_destinations}

-- A stand-in for a cipher: the nonce is one byte, sealing appends a mark.
abbrev pub seal_mark : Aead
seal_mark = record {
  nonce_size = 1;
  seal = λ nonce s. b'#' ∷ s;
  open_sealed = λ nonce s. elim s [ [] ↦ none | c ∷ t ↦ some t ];
  encode = λ s. s;
  decode = λ s. some s;
}

pub seal_mark-IsAead : IsAead seal_mark
seal_mark-IsAead = record { open-seal = λ nonce s. refl; decode-encode = λ s. refl }

test_blob : encrypt_blob (some seal_mark) (some (codes "n")) (codes "[]") ≡ codes "v1:n#[]"
unfolding encrypt_blob
test_blob = refl

test_command : command_of (codes "test_destination:7") ≡ test_destination (codes "7")
unfolding command_of
test_command = refl

abbrev all_saved : Text → Bool
all_saved key = true

abbrev no_zone : Text → Bool
no_zone name = false

abbrev utc_clock : Zones
utc_clock = record {
  Zone = Text;
  Instant = Unit;
  utc = codes "UTC";
  load_location = λ name. some name;
  wall = λ z t. record { weekday = monday; hour = 23; minute = 30 };
}

abbrev nightly : PortalSchedule
nightly = record {
  enabled = true;
  days = codes "mon" ∷ codes "fri" ∷ [];
  time = codes "02:30";
  blackout_enabled = false;
  blackout_from = codes "08:00";
  blackout_to = codes "18:00";
  timezone = codes " Europe/Paris";
}

abbrev paris_only : Text → Bool
paris_only = text_eq (codes "Europe/Paris")

load-sync_schedule_example :
    let s =
      load utc_clock (get_config (sync_schedule all_saved paris_only (some nightly) empty_db).0) in
    (s.enabled ≡ true)
    × (s.days ≡ add_days (codes "mon" ∷ codes "fri" ∷ []) [])
    × ((s.hour, s.min) ≡ parse_hhmm (codes "02:30"))
    × (s.blackout_enabled ≡ false)
    × (s.blackout_from ≡ minutes_of (some (codes "08:00")))
    × (s.blackout_to ≡ minutes_of (some (codes "18:00")))
    × (s.loc ≡ some (zone_of utc_clock (some (codes "Europe/Paris"))))
unfolding text_eq trim_space
load-sync_schedule_example =
    load-sync_schedule utc_clock all_saved paris_only nightly empty_db (λ key. refl)
      ((refl, (refl, (refl, tt))), ((refl, (refl, (refl, tt))), tt))

abbrev only_movies : StorageConfig
only_movies = record {
  skip_system_files = none;
  ignored_extensions = codes ".MOV" ∷ codes "mp4" ∷ [];
  extension_mode = codes "include";
  skip_files_under_mb = some (codes "1");
  skip_files_over_mb = none;
}

load_filters-sync_filters_example :
    IsApplied only_movies
      (load_filters (get_config empty_db))
      (load_filters (get_config (sync_filters all_saved (some only_movies) empty_db)))
load_filters-sync_filters_example =
    load_filters-sync_filters all_saved only_movies empty_db (λ key. refl)
      ((refl, (refl, (refl, (refl, tt)))), ((refl, (refl, (refl, tt))), tt))

abbrev brackets : List ℕ → Text
brackets ds = b'[' ∷ ds

abbrev unbracket : Text → Option (List ℕ)
unbracket [] = none
unbracket (c ∷ s) = some s

brackets-IsCodec : IsCodec brackets unbracket
unfolding text_eq has_prefix
brackets-IsCodec = record {
  unmarshal-marshal = λ ds. refl;
  not_empty = λ ds. refl;
  not_magic = λ ds. refl;
}

abbrev newborn : Agent ℕ
newborn = record { active = []; last_dest_json = []; collector = none }

load_destinations-sync_destinations_example :
    let r =
      sync_destinations brackets unbracket
        (some seal_mark)
        all_saved
        no_zone
        (some (codes "n"))
        (4 ∷ 9 ∷ [])
        newborn
        empty_db in
    (r.0.active ≡ 4 ∷ 9 ∷ [])
    × ((load_destinations brackets unbracket (some seal_mark) all_saved no_zone newborn r.1).active
        ≡ 4 ∷ 9 ∷ [])
unfolding text_eq
load_destinations-sync_destinations_example =
    load_destinations-sync_destinations brackets unbracket (some seal_mark) all_saved no_zone
      (some (codes "n")) (4 ∷ 9 ∷ []) newborn newborn empty_db brackets-IsCodec seal_mark-IsAead
      refl refl refl
