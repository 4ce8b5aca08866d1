-- ===== src/Ingest.antt =====
-- internal/ingest: what one maintenance cycle takes from the mounted drive. The files here hold
-- the ignore rules; the children hold the copy, the walk and the retention, and their proofs.
pub mod Copy
pub mod Drive
pub mod Walk
pub mod Retention
pub mod Run
use ivault.Common.{
  ℕ, ◌+◌, ◌*◌, ◌<◌, ◌^◌, Bool, true, false, not, ◌&&◌, ◌||◌, Option, none, some, List, [], ◌∷◌,
  ◌++◌, any, length, ltb, ◌==◌, if◌then◌else◌,
}
use ivault.Common.Text.{Text, codes, text_eq, has_prefix, trim_prefix, trim_space, to_lower, split}
use ivault.Common.Decimal.{scale_decimal}

-- ingestFilters
pub record Filters : Type 0 where
  pub skip_system_files : Bool
  pub exts : List Text
  pub ext_include : Bool
  pub min_size_bytes : ℕ
  pub max_size_bytes : ℕ

abbrev pub skip_of : Option Text → Bool
skip_of none = true
skip_of (some []) = true
skip_of (some (c ∷ v)) = not (text_eq (c ∷ v) (codes "false")) && not (text_eq (c ∷ v) (codes "0"))

abbrev pub size_of : Option Text → ℕ
size_of none = 0
size_of (some v) = scale_decimal (1024 * 1024) v

abbrev pub include_of : Option Text → Bool
include_of none = false
include_of (some v) = text_eq v (codes "include")

-- The extensions of a comma-separated list, lower case and without the leading dot.
unfoldable pub add_exts : List Text → List Text
unfolding to_lower trim_prefix has_prefix trim_space text_eq
add_exts [] = []
add_exts (p ∷ ps) =
    let e = to_lower (trim_prefix (trim_space p) (codes ".")) in
    let rest = add_exts ps in if text_eq e [] then rest else e ∷ rest

abbrev pub exts_of : Option Text → List Text
exts_of none = []
exts_of (some []) = []
exts_of (some (c ∷ v)) = add_exts (split (c ∷ v) b',')

unfoldable pub load_filters : (Text → Option Text) → Filters
unfolding add_exts split text_eq scale_decimal
load_filters get_config = record {
  skip_system_files = skip_of (get_config (codes "filter_skip_system_files"));
  exts = exts_of (get_config (codes "filter_ignored_extensions"));
  ext_include = include_of (get_config (codes "filter_extension_mode"));
  min_size_bytes = size_of (get_config (codes "filter_skip_files_under_mb"));
  max_size_bytes = size_of (get_config (codes "filter_skip_files_over_mb"));
}

unfoldable pub is_system_file_or_in_hidden_folder : Text → Bool
unfolding any split has_prefix
is_system_file_or_in_hidden_folder rel_path =
    any (λ part. has_prefix part (codes ".") || has_prefix part (codes "._")) (split rel_path b'/')

unfoldable pub is_provision_file : Text → Bool
unfolding any split text_eq
is_provision_file rel_path =
    any
      (λ part.
        text_eq part (codes "ivault.provision") || text_eq part (codes "ivault-provision.json"))
      (split rel_path b'/')

-- filepath.Ext: from the last dot of the last path element.
unfoldable pub ext : Text → Text
unfolding any
ext [] = []
ext (c ∷ s) = if c == b'.' && not (any (λ d. d == b'.' || d == b'/') s) then c ∷ s else ext s

-- What the rules say of a file before it is read.
pub data Verdict : Type 0 where
  provision_file system_file no_info too_small too_large wrong_extension : Verdict
  wanted : ℕ → Verdict

unfoldable pub extension_skipped : Filters → Text → Bool
unfolding any ext to_lower trim_prefix has_prefix text_eq
extension_skipped f rel_path =
    if length f.exts == 0
    then false
    else let listed = any (text_eq (to_lower (trim_prefix (ext rel_path) (codes ".")))) f.exts in
      (f.ext_include && not listed) || (not f.ext_include && listed)

abbrev pub sized_verdict : Filters → Text → ℕ → Verdict
sized_verdict f rel_path size =
    if ltb 0 f.min_size_bytes && ltb size f.min_size_bytes
    then too_small
    else if ltb 0 f.max_size_bytes && ltb f.max_size_bytes size
    then too_large
    else if extension_skipped f rel_path
    then wrong_extension
    else wanted size

-- The tests of the walk's callback in their order; `info` is `none` where d.Info() fails.
unfoldable pub verdict : Filters → Text → Option ℕ → Verdict
unfolding is_provision_file is_system_file_or_in_hidden_folder extension_skipped
verdict f rel_path info =
    if is_provision_file rel_path
    then provision_file
    else if f.skip_system_files && is_system_file_or_in_hidden_folder rel_path
    then system_file
    else elim info [ none ↦ no_info | some size ↦ sized_verdict f rel_path size ]
