-- ===== src/Witnesses/Deltas.antt =====
-- Tests and instances for the portal's state in internal/agent/heartbeat.go and internal/config.
use ivault.Common.{
  ℕ, suc, zero, ◌+◌, ◌≡◌, ◌≢◌, ◌⊎◌, refl, Bool, true, false, Option, some, List, [], ◌∷◌, map, take,
  drop, select, All,
}
use ivault.Common.Text.{Text, codes, text_lt}
use ivault.Common.Assoc.{lookup}
use ivault.Common.Sorting.{sort_by}
use ivault.Db.{Db, File, Now, empty_db, new_file, queued, get_config}
use ivault.Db.Queries.{FileChange, to_change, changed_rows, change_key}
use ivault.Db.Delta.{after}
use ivault.Tz.{config_or_empty}
use ivault.Config.{Config, default_config, Disk, merge, load_or_default, update_config}
use ivault.Config.Updates.{update_config-cases}
use ivault.Heartbeat.{new_watermark, watermark_key, file_delta, acknowledge}
use ivault.Heartbeat.Watermark.{Round, deltas, file_delta-acknowledge, acknowledge_loses_tie}

abbrev all_saved : Text → Bool
all_saved key = true

abbrev no_zone : Text → Bool
no_zone name = false

abbrev noon : Now
noon = record { stamp = codes "5"; millis = codes "5" }

-- The row with an id, which is also its name and its checksum here.
abbrev numbered : ℕ → File
unfolding new_file
numbered id = new_file noon id 1 (id ∷ []) 10 (id ∷ []) queued

abbrev numbered_from : ℕ → ℕ → List File
numbered_from id zero = []
numbered_from id (suc n) = numbered id ∷ numbered_from (id + 1) n

-- A scan that finds more files in one millisecond than a delta carries.
abbrev crowded : Db
crowded = record empty_db { files = numbered_from 1 201 }

-- Two heartbeats follow: one is acknowledged, the other not.
abbrev following : List Round
following =
    record { change = λ d. d; acknowledged = true }
    ∷ record { change = λ d. d; acknowledged = false }
    ∷ []

file_delta-acknowledge_example :
    (file_delta true crowded
      ≡ map to_change
          (take 200 (changed_rows crowded.files (config_or_empty crowded watermark_key))))
    × (file_delta true (acknowledge all_saved (file_delta true crowded) crowded)
        ≡ map to_change (
            take 200 (
              select
                (after
                  (new_watermark (config_or_empty crowded watermark_key) (file_delta true crowded)))
                (drop 200 (changed_rows crowded.files (config_or_empty crowded watermark_key))))))
file_delta-acknowledge_example = file_delta-acknowledge all_saved crowded refl

acknowledge_loses_tie_example :
    All
      (All (λ (c : FileChange). c.updated_at ≢ change_key (numbered 201)))
      (deltas all_saved following (acknowledge all_saved (file_delta true crowded) crowded))
unfolding changed_rows sort_by select text_lt config_or_empty get_config new_file new_watermark
    file_delta to_change
acknowledge_loses_tie_example =
    acknowledge_loses_tie all_saved crowded (numbered 201) [] following refl refl refl
      ((λ d. refl), ((λ d. refl), tt))

abbrev owner_only : Config → Text
owner_only cfg = cfg.user_id

abbrev read_owner : Text → Config → Option Config
read_owner s base = some (record base { user_id = s })

-- A disk that writes two characters of the temporary file and then fails.
abbrev full_disk : Disk
full_disk = record {
  readable = true;
  complete = false;
  written = λ bytes. some (take 2 bytes);
  renamed = true;
}

abbrev claimed : Config
claimed = record default_config { user_id = codes "u7" }

update_config-cases_example :
    let r = update_config owner_only read_owner full_disk (codes "c.json") claimed [] in
    ((r.1 ≡ true)
      × (load_or_default owner_only read_owner true (lookup (codes "c.json") r.0)
          ≡ some (merge claimed default_config)))
    ⊎ ((r.1 ≡ false) × (lookup (codes "c.json") r.0 ≡ lookup (codes "c.json") []))
unfolding load_or_default lookup merge
update_config-cases_example =
    update_config-cases owner_only read_owner full_disk (codes "c.json") [] claimed default_config
      refl refl
