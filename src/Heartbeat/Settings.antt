-- ===== src/Heartbeat/Settings.antt =====
-- The portal's settings, from the heartbeat (internal/agent/heartbeat.go) through the config table
-- to the scheduler (internal/schedule) and to the ignore rules (internal/ingest).
use ivault.Common.{
  ◌≡◌, refl, ap, sym, ◌∙◌, Bool, true, false, Option, none, some, List, [], ◌∷◌, arith, All, inl,
  inr, Bool-cases, if◌then◌else◌,
}
use ivault.Common.Text.{Text, codes, text_eq, text_eq_iff, text_eq_refl, join, split, trim_space}
use ivault.Common.Joins.{IsPlain, split-join}
use ivault.Db.{Db, get_config}
use ivault.Db.Config.{get_config-set_config}
use ivault.Tz.{apply, apply_known, config_or_empty}
use ivault.Schedule.{
  Zones, load, add_days, parse_hhmm, minutes_of, days_of, time_of, flag_of, weekday_abbr, zone_of,
  key_timezone, key_enabled, key_days, key_time, key_blackout_enabled, key_blackout_from,
  key_blackout_to,
}
use ivault.Heartbeat.{PortalSchedule, put, format_bool, sync_times, sync_schedule}

module _ (saved : Text → Bool) (all_saved : (key : Text) → saved key ≡ true) where
  pub get_config-put :
      (d : Db) (k j v : Text)
      → get_config (put saved k v d) j ≡ (if text_eq k j then some v else get_config d j)
  unfolding put
  get_config-put d k j v = rw (all_saved k) (get_config-set_config d k j v)

  sync_times-key :
      (sc : PortalSchedule) (d : Db)
      → let c = get_config (sync_times saved sc d) in
        (c key_enabled ≡ some (format_bool sc.enabled))
        × (c key_days ≡ some (join sc.days (codes ",")))
        × (c key_time ≡ some sc.time)
        × (c key_blackout_enabled ≡ some (format_bool sc.blackout_enabled))
        × (c key_blackout_from ≡ some sc.blackout_from)
        × (c key_blackout_to ≡ some sc.blackout_to)
  unfolding sync_times text_eq
  sync_times-key sc d = (
    simp get_config-put refl,
    simp get_config-put refl,
    simp get_config-put refl,
    simp get_config-put refl,
    simp get_config-put refl,
    simp get_config-put refl,
  )

  get_config-apply :
      (is_zone : Text → Bool) (name key : Text) (d : Db)
      → text_eq (codes "sched_timezone") key ≡ false
      → get_config (apply is_zone (saved (codes "sched_timezone")) name d).0 key ≡ get_config d key
  unfolding apply
  get_config-apply is_zone name key d h = ground (
    arith,
    all_saved (codes "sched_timezone"),
    get_config-set_config d (codes "sched_timezone") key (trim_space name),
  )

  sync_schedule-key :
      (is_zone : Text → Bool) (sc : PortalSchedule) (d : Db) (key : Text)
      → text_eq (codes "sched_timezone") key ≡ false
      → get_config (sync_schedule saved is_zone (some sc) d).0 key
        ≡ get_config (sync_times saved sc d) key
  unfolding sync_schedule
  sync_schedule-key is_zone sc d key h =
      ground (arith, get_config-apply is_zone sc.timezone key (sync_times saved sc d) h)

-- The zone's name in the config table after an answer: the one of the answer, if it names a zone, or
-- the one before.
abbrev pub zone_text : (Text → Bool) → Text → Option Text → Option Text
zone_text is_zone name before =
    if text_eq name [] then before else if is_zone name then some name else before

module _ (saved : Text → Bool) (all_saved : (key : Text) → saved key ≡ true)
    (is_zone : Text → Bool) where
  timezone-known :
      (name : Text) (d : Db)
      → text_eq name [] ≡ false
      → get_config (apply_known is_zone (saved key_timezone) name d).0 key_timezone ≡ some name
  unfolding config_or_empty text_eq
  timezone-known name d some_name =
      elim (Bool-cases (text_eq (config_or_empty d key_timezone) name)) [
        | inl same ↦ rw same (named (get_config d key_timezone) same)
        | inr other ↦
            rw (other, all_saved key_timezone)
              (get_config-set_config d key_timezone key_timezone name)
      ]
    where
      named :
          (o : Option Text)
          → text_eq (elim o [ none ↦ [] | some v ↦ v ]) name ≡ true
          → o ≡ some name
      named none h = cc ((text_eq_iff [] name).0 h, some_name, text_eq_refl name)
      named (some v) h = ap some ((text_eq_iff v name).0 h)

  timezone-apply :
      (name : Text) (d : Db)
      → get_config (apply is_zone (saved key_timezone) name d).0 key_timezone
        ≡ zone_text is_zone (trim_space name) (get_config d key_timezone)
  unfolding apply
  timezone-apply name d = ground (arith, timezone-known (trim_space name) d)

  timezone-sync_times :
      (sc : PortalSchedule) (d : Db)
      → get_config (sync_times saved sc d) key_timezone ≡ get_config d key_timezone
  unfolding sync_times text_eq
  timezone-sync_times sc d = simp (get_config-put saved all_saved) refl

  timezone-sync_schedule :
      (sc : PortalSchedule) (d : Db)
      → get_config (sync_schedule saved is_zone (some sc) d).0 key_timezone
        ≡ zone_text is_zone (trim_space sc.timezone) (get_config d key_timezone)
  unfolding sync_schedule
  timezone-sync_schedule sc d = elim (Bool-cases (text_eq sc.timezone [])) [
    | inl e ↦ rw e (
        timezone-sync_times sc d
        ∙ ap (λ t. zone_text is_zone (trim_space t) (get_config d key_timezone))
            (sym ((text_eq_iff sc.timezone []).0 e)))
    | inr e ↦ rw e (
        timezone-apply sc.timezone (sync_times saved sc d)
        ∙ ap (zone_text is_zone (trim_space sc.timezone)) (timezone-sync_times sc d))
  ]

flag_of-format_bool : (b : Bool) → flag_of (some (format_bool b)) ≡ b
unfolding text_eq
flag_of-format_bool true = refl
flag_of-format_bool false = refl

days_of-split : (t : Text) → days_of (some t) ≡ add_days (split t b',') []
unfolding split add_days weekday_abbr trim_space text_eq
days_of-split [] = refl
days_of-split (c ∷ t) = refl

days_of-join :
    (days : List Text)
    → All (IsPlain b',') days
    → days_of (some (join days (codes ","))) ≡ add_days days []
unfolding join add_days
days_of-join [] h = refl
days_of-join (p ∷ ps) h =
    days_of-split (join (p ∷ ps) (codes ",")) ∙ ap (λ ts. add_days ts []) (split-join b',' p ps h)

-- The schedule of a heartbeat's answer is the schedule that the scheduler then loads, where the
-- driver carries the statements out and no weekday's name contains a comma: also its time zone, or the
-- zone of before where the answer names none.
pub load-sync_schedule :
    (z : Zones) (saved is_zone : Text → Bool) (sc : PortalSchedule) (d : Db)
    → ((key : Text) → saved key ≡ true)
    → All (IsPlain b',') sc.days
    → let s = load z (get_config (sync_schedule saved is_zone (some sc) d).0) in
      (s.enabled ≡ sc.enabled)
      × (s.days ≡ add_days sc.days [])
      × ((s.hour, s.min) ≡ parse_hhmm sc.time)
      × (s.blackout_enabled ≡ sc.blackout_enabled)
      × (s.blackout_from ≡ minutes_of (some sc.blackout_from))
      × (s.blackout_to ≡ minutes_of (some sc.blackout_to))
      × (s.loc
          ≡ some
              (zone_of z (zone_text is_zone (trim_space sc.timezone) (get_config d key_timezone))))
unfolding load text_eq
load-sync_schedule z saved is_zone sc d all_saved plain =
    let (e, ds, t, b, f, u) = sync_times-key saved all_saved sc d in
    let other = sync_schedule-key saved all_saved is_zone sc d in
    (
      ap flag_of (other key_enabled refl ∙ e) ∙ flag_of-format_bool sc.enabled,
      ap days_of (other key_days refl ∙ ds) ∙ days_of-join sc.days plain,
      ap time_of (other key_time refl ∙ t),
      ap flag_of (other key_blackout_enabled refl ∙ b) ∙ flag_of-format_bool sc.blackout_enabled,
      ap minutes_of (other key_blackout_from refl ∙ f),
      ap minutes_of (other key_blackout_to refl ∙ u),
      ap (λ t. some (zone_of z t)) (timezone-sync_schedule saved all_saved is_zone sc d),
    )
