-- ===== src/Telemetry/Measured.antt =====
-- The use of the virtual drive, from the ingest that measures it (internal/ingest/ingest.go) through
-- the config table to the heartbeat (internal/agent/heartbeat.go).
use ivault.Common.{
  ◌^◌, ◌<◌, ◌≡◌, ◌≢◌, refl, ap, ◌∙◌, Bool, true, false, some, [], ◌∷◌, arith, ltb, if◌then◌else◌,
}
use ivault.Common.Text.{Text, codes, text_eq}
use ivault.Common.Int.{pos}
use ivault.Common.Decimal.{format_uint}
use ivault.Common.Digits.{parse_uint-format_uint}
use ivault.Db.{Db, get_config}
use ivault.Db.Config.{get_config-set_config}
use ivault.Ingest.Drive.{Statfs, disk_usage_bytes, put, record_usage}
use ivault.Telemetry.System.{in_gb}
use ivault.Telemetry.Collect.{Stats, stored_bytes, backfill, used_or, total_or, text_or}

text_or-full : (old new : Text) → new ≢ [] → text_or old (some new) ≡ new
text_or-full old [] full = absurd (full refl)
text_or-full old (c ∷ t) full = refl

module _ (saved : Text → Bool) (all_saved : (key : Text) → saved key ≡ true) (now : Text) where
  get_config-put :
      (d : Db) (k j v : Text)
      → get_config (put saved now k v d) j ≡ (if text_eq k j then some v else get_config d j)
  unfolding put
  get_config-put d k j v = rw (all_saved k) (get_config-set_config d k j v)

  -- What the measurement leaves in the config table.
  record_usage-key :
      (st : Statfs) (d : Db)
      → ltb 0 (disk_usage_bytes st).1 ≡ true
      → let c = get_config (record_usage saved now (some st) d) in
        (c (codes "ext_drive_used_bytes") ≡ some (format_uint (disk_usage_bytes st).0))
        × (c (codes "ext_drive_total_bytes") ≡ some (format_uint (disk_usage_bytes st).1))
        × (c (codes "ext_drive_measured_at") ≡ some now)
  unfolding record_usage text_eq
  record_usage-key st d full = (
    simp (full, get_config-put) refl,
    simp (full, get_config-put) refl,
    simp (full, get_config-put) refl,
  )

usage_bounds :
    (st : Statfs) → ((disk_usage_bytes st).0 < 2 ^ 64) × ((disk_usage_bytes st).1 < 2 ^ 64)
unfolding disk_usage_bytes
usage_bounds st = ground arith

-- The use of the drive that an ingest measures is what a heartbeat reports from the config table that
-- the measurement left, while the drive is not mounted, where the driver carries the statements out:
-- the same bytes used, the same capacity, and the time of the measurement.
pub backfill-record_usage :
    (saved : Text → Bool) (now : Text) (st : Statfs) (d : Db) (s : Stats)
    → ((key : Text) → saved key ≡ true)
    → 0 < (disk_usage_bytes st).1
    → now ≢ []
    → let r = backfill false (record_usage saved now (some st) d) s in
      (r.virtual_drive_used ≡ in_gb (pos (disk_usage_bytes st).0))
      × (r.virtual_drive_total ≡ in_gb (pos (disk_usage_bytes st).1))
      × (r.virtual_drive_measured_at ≡ now)
unfolding backfill
backfill-record_usage saved now st d s all_saved full at =
    let positive : ltb 0 (disk_usage_bytes st).1 ≡ true = ground arith in
    let (used, total, time) = record_usage-key saved all_saved now st d positive in
    let (small_used, small_total) = usage_bounds st in
    (
      ap (λ o. used_or s.virtual_drive_used (stored_bytes o)) used
          ∙ ap (used_or s.virtual_drive_used)
              (parse_uint-format_uint (disk_usage_bytes st).0 small_used),
      ap (λ o. total_or s.virtual_drive_total (stored_bytes o)) total
          ∙ ap (total_or s.virtual_drive_total)
              (parse_uint-format_uint (disk_usage_bytes st).1 small_total)
          ∙ rw positive refl,
      ap (text_or s.virtual_drive_measured_at) time
          ∙ text_or-full s.virtual_drive_measured_at now at,
    )
