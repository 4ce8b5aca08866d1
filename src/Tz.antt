-- ===== src/Tz.antt =====
-- internal/tz/tz.go: the account's time zone. The zone database of package time is `is_zone`; the
-- text returned is the argument of timedatectl, where the system's zone is set.
use ivault.Common.{Bool, Option, none, some, [], if◌then◌else◌}
use ivault.Common.Text.{Text, codes, text_eq, trim_space}
use ivault.Db.{Db, attempt, set_config, get_config}

-- A read that fails gives the empty text.
unfoldable pub config_or_empty : Db → Text → Text
unfolding get_config
config_or_empty d key = elim (get_config d key) [ none ↦ [] | some v ↦ v ]

module _ (is_zone : Text → Bool) (saved : Bool) where
  abbrev pub apply_known : Text → Db → Db × Option Text
  apply_known name d =
      if text_eq (config_or_empty d (codes "sched_timezone")) name
      then (d, none)
      else (attempt saved (set_config (codes "sched_timezone") name) d, some name)

  -- Apply
  unfoldable pub apply : Text → Db → Db × Option Text
  unfolding trim_space text_eq config_or_empty set_config
  apply tz_name d =
      let name = trim_space tz_name in
      if text_eq name [] then (d, none) else if is_zone name then apply_known name d else (d, none)
