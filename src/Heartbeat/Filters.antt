-- ===== src/Heartbeat/Filters.antt =====
-- The portal's ignore rules, from the heartbeat (internal/agent/heartbeat.go) through the config
-- table to the ingest (internal/ingest/ingest.go).
use ivault.Common.{
  ◌*◌, ◌≡◌, refl, ap, ◌∙◌, Bool, true, false, Option, none, some, List, [], ◌∷◌, inl, inr, arith,
  All, Bool-cases, if◌then◌else◌,
}
use ivault.Common.Text.{
  Text, codes, text_eq, join, split, trim_space, to_lower, trim_prefix, has_prefix,
}
use ivault.Common.Joins.{IsPlain, split-join}
use ivault.Common.Decimal.{scale_decimal}
use ivault.Db.{Db, get_config}
use ivault.Ingest.{Filters, load_filters, add_exts, exts_of, skip_of, size_of, include_of}
use ivault.Heartbeat.{StorageConfig, put_some, put_flag, format_bool, mode_of, sync_filters}
use ivault.Heartbeat.Settings.{get_config-put}

exts_of-split : (t : Text) → exts_of (some t) ≡ add_exts (split t b',')
unfolding split add_exts to_lower trim_prefix has_prefix trim_space text_eq
exts_of-split [] = refl
exts_of-split (c ∷ t) = refl

exts_of-join :
    (exts : List Text)
    → All (IsPlain b',') exts
    → exts_of (some (join exts (codes ","))) ≡ add_exts exts
unfolding join add_exts
exts_of-join [] h = refl
exts_of-join (p ∷ ps) h =
    exts_of-split (join (p ∷ ps) (codes ",")) ∙ ap add_exts (split-join b',' p ps h)

include_of-mode : (mode : Text) → include_of (some (mode_of mode)) ≡ text_eq mode (codes "include")
unfolding text_eq
include_of-mode mode = elim (Bool-cases (text_eq mode (codes "include"))) [
  | inl e ↦ simp e refl
  | inr e ↦ simp e refl
]

skip_of-format_bool : (b : Bool) → skip_of (some (format_bool b)) ≡ b
unfolding text_eq
skip_of-format_bool true = refl
skip_of-format_bool false = refl

abbrev kept_or {ℓ κ} : {A : Type ℓ} {B : Type κ} → Option A → B → (A → B) → B
kept_or none old f = old
kept_or (some a) old f = f a

-- What the rules are after the answer: those it names, and the old ones it leaves out.
pub record IsApplied (sc : StorageConfig) (old new : Filters) : Type 0 where
  pub system : new.skip_system_files ≡ kept_or sc.skip_system_files old.skip_system_files (λ b. b)
  pub extensions : new.exts ≡ add_exts sc.ignored_extensions
  pub mode : new.ext_include ≡ text_eq sc.extension_mode (codes "include")
  pub smallest :
      new.min_size_bytes
      ≡ kept_or sc.skip_files_under_mb old.min_size_bytes (scale_decimal (1024 * 1024))
  pub largest :
      new.max_size_bytes
      ≡ kept_or sc.skip_files_over_mb old.max_size_bytes (scale_decimal (1024 * 1024))

module _ (saved : Text → Bool) (all_saved : (key : Text) → saved key ≡ true) where
  get_config-put_some :
      (o : Option Text) (d : Db) (k j : Text)
      → get_config (put_some saved k o d) j
        ≡ (if text_eq k j then kept_or o (get_config d j) some else get_config d j)
  get_config-put_some none d k j = ground arith
  get_config-put_some (some v) d k j = get_config-put saved all_saved d k j v

  get_config-put_flag :
      (o : Option Bool) (d : Db) (k j : Text)
      → get_config (put_flag saved k o d) j ≡ (
          if text_eq k j
          then kept_or o (get_config d j) (λ b. some (format_bool b))
          else get_config d j)
  get_config-put_flag none d k j = ground arith
  get_config-put_flag (some v) d k j = get_config-put saved all_saved d k j (format_bool v)

  sync_filters-key :
      (sc : StorageConfig) (d : Db)
      → let c = get_config (sync_filters saved (some sc) d) in
        (c (codes "filter_skip_system_files")
          ≡ kept_or sc.skip_system_files
              (get_config d (codes "filter_skip_system_files"))
              (λ b. some (format_bool b)))
        × (c (codes "filter_ignored_extensions") ≡ some (join sc.ignored_extensions (codes ",")))
        × (c (codes "filter_extension_mode") ≡ some (mode_of sc.extension_mode))
        × (c (codes "filter_skip_files_under_mb")
            ≡ kept_or sc.skip_files_under_mb
                (get_config d (codes "filter_skip_files_under_mb"))
                some)
        × (c (codes "filter_skip_files_over_mb")
            ≡ kept_or sc.skip_files_over_mb (get_config d (codes "filter_skip_files_over_mb")) some)
  unfolding sync_filters text_eq
  sync_filters-key sc d =
      let p = get_config-put saved all_saved in
      (
        simp (p, get_config-put_some, get_config-put_flag) refl,
        simp (p, get_config-put_some) refl,
        simp (p, get_config-put_some) refl,
        simp (p, get_config-put_some, get_config-put_flag) refl,
        simp (p, get_config-put_some, get_config-put_flag) refl,
      )

kept_flag :
    (o : Option Bool) (old : Option Text)
    → skip_of (kept_or o old (λ b. some (format_bool b))) ≡ kept_or o (skip_of old) (λ b. b)
kept_flag none old = refl
kept_flag (some b) old = skip_of-format_bool b

kept_size :
    (o old : Option Text)
    → size_of (kept_or o old some) ≡ kept_or o (size_of old) (scale_decimal (1024 * 1024))
kept_size none old = refl
kept_size (some v) old = refl

-- The ignore rules of a heartbeat's answer are the rules of the next ingest, where the driver
-- carries the statements out and no extension contains a comma; a switch or a bound that the
-- answer leaves out stays as it was.
pub load_filters-sync_filters :
    (saved : Text → Bool) (sc : StorageConfig) (d : Db)
    → ((key : Text) → saved key ≡ true)
    → All (IsPlain b',') sc.ignored_extensions
    → IsApplied sc
        (load_filters (get_config d))
        (load_filters (get_config (sync_filters saved (some sc) d)))
unfolding load_filters
load_filters-sync_filters saved sc d all_saved plain =
    let (f, x, m, u, o) = sync_filters-key saved all_saved sc d in
    record {
      system = ap skip_of f ∙ kept_flag sc.skip_system_files _;
      extensions = ap exts_of x ∙ exts_of-join sc.ignored_extensions plain;
      mode = ap include_of m ∙ include_of-mode sc.extension_mode;
      smallest = ap size_of u ∙ kept_size sc.skip_files_under_mb _;
      largest = ap size_of o ∙ kept_size sc.skip_files_over_mb _;
    }
