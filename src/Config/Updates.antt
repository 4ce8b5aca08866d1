-- ===== src/Config/Updates.antt =====
-- Updates of the configuration file (internal/config/config.go).
use ivault.Common.{
  ◌≡◌, refl, ap, ◌∙◌, ◌⊎◌, true, false, Option, none, some, ◌++◌, inl, inr, arith, Bool-cases,
  length, length-append,
}
use ivault.Common.Text.{Text, codes, text_eq, text_eq_iff, text_eq_refl}
use ivault.Common.Assoc.{Assoc, lookup, erase, lookup-insert}
use ivault.Config.{
  Config, default_config, merge, Disk, load_or_default, tmp_of, put_part, write_config, update_read,
  update_config,
}

-- The temporary file is another one.
tmp_differs : (path : Text) → text_eq (path ++ codes ".tmp") path ≡ false
tmp_differs path = elim (Bool-cases (text_eq (path ++ codes ".tmp") path)) [
  | inr e ↦ e
  | inl e ↦
      let same = ap length ((text_eq_iff (path ++ codes ".tmp") path).0 e) in
      absurd (omega (arith, same, length-append path (codes ".tmp")))
]

lookup-put_part :
    (path : Text) (part : Option Text) (files : Assoc Text)
    → lookup path (put_part (tmp_of path) part files) ≡ lookup path files
unfolding put_part
lookup-put_part path none files = refl
lookup-put_part path (some part) files =
    ground (arith, lookup-insert (tmp_of path) path part files, tmp_differs path)

module _ (encode : Config → Text) (decode : Text → Config → Option Config) (disk : Disk)
    (path : Text) (files : Assoc Text) where
  -- The file is as it was, or holds the whole new configuration.
  write_config_cases :
      (cfg : Config)
      → let r = write_config encode decode disk path cfg files in
        ((r.1 ≡ true) × (lookup path r.0 ≡ some (encode cfg)))
        ⊎ ((r.1 ≡ false) × (lookup path r.0 ≡ lookup path files))
  unfolding write_config
  write_config_cases cfg = elim (Bool-cases disk.complete) [
    | inl c ↦ elim (Bool-cases disk.renamed) [
      | inl r ↦ inl (
          simp (c, r)
            (
              refl,
              ground (
                arith,
                lookup-insert path path (encode cfg) (erase (tmp_of path) files),
                text_eq_refl path,
              ),
            ))
      | inr r ↦ inr (
          simp (c, r)
            (
              refl,
              ground (arith, lookup-insert (tmp_of path) path (encode cfg) files, tmp_differs path),
            ))
    ]
    | inr c ↦ inr (simp c (refl, lookup-put_part path (disk.written (encode cfg)) files))
  ]

-- An update of a configuration that can be read either succeeds, and then the file reads as the old
-- configuration with the texts of the update put in, or returns an error and leaves the file as it
-- was: no write that stops half way shows at the file's path. The new configuration is one that
-- encoding/json reads back as it was written.
pub update_config-cases :
    (encode : Config → Text) (decode : Text → Config → Option Config) (disk : Disk) (path : Text)
    (files : Assoc Text) (updates cfg : Config)
    → decode (encode (merge updates cfg)) default_config ≡ some (merge updates cfg)
    → load_or_default encode decode disk.readable (lookup path files) ≡ some cfg
    → let r = update_config encode decode disk path updates files in
      ((r.1 ≡ true)
        × (load_or_default encode decode true (lookup path r.0) ≡ some (merge updates cfg)))
      ⊎ ((r.1 ≡ false) × (lookup path r.0 ≡ lookup path files))
unfolding update_config load_or_default
update_config-cases encode decode disk path files updates cfg codec old =
    let merged = merge updates cfg in
    let same : update_config encode decode disk path updates files
        ≡ write_config encode decode disk path merged files =
      ap (update_read encode decode disk path updates files) old in
    elim (write_config_cases encode decode disk path files merged) [
      | inl (ok, now) ↦ inl (rw same (ok, ap (load_or_default encode decode true) now ∙ codec))
      | inr h ↦ inr (rw same h)
    ]
