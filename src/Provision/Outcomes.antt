-- ===== src/Provision/Outcomes.antt =====
-- What Process of internal/provision/provision.go comes to.
use ivault.Common.{
  ◌≡◌, refl, ap, ◌∙◌, ◌⊎◌, Bool, true, false, none, some, List, [], inl, inr, Bool-cases,
}
use ivault.Common.Text.{Text, codes, text_eq, contains}
use ivault.Common.Assoc.{Assoc, lookup}
use ivault.Config.{Config, default_config, merge, load_or_default, update_config}
use ivault.Config.Updates.{update_config-cases}
use ivault.Network.Steps.{Step, configure_network}
use ivault.Provision.{
  ProvisionFile, World, Site, Run, Outcome, key, problem, done, failed, updates_of,
  bootstrap_device, seed_zone, after_save, enroll, process_parsed, process_found, process,
}

module _ (w : World) (path : Text) where
  seed_zone_keeps :
      (pf : ProvisionFile) (steps : List Step) (s : Site)
      → let r = seed_zone w path pf steps s in
        (r.result ≡ done) × (r.site.provision ≡ s.provision) × (r.site.configs ≡ s.configs)
  unfolding seed_zone
  seed_zone_keeps pf steps s = elim (Bool-cases (text_eq pf.timezone [])) [
    | inl e ↦ rw e (refl, refl, refl)
    | inr e ↦ rw e (refl, refl, refl)
  ]

  -- Why Process fails: the portal's error says something else than that the device is provisioned
  -- already, or there is a key and the configuration with it cannot be saved.
  abbrev pub IsRefused : ProvisionFile → Outcome → Site → Type 0
  IsRefused pf answer s =
      ((e : Text) × (answer ≡ problem e) × (contains e (codes "already provisioned") ≡ false))
      ⊎ ((k : Text) × (answer ≡ key k)
          × ((update_config w.encode w.decode w.disk path (updates_of pf k) s.configs).1 ≡ false))

  -- The configuration file holds the file's identity and the key, or it is as it was.
  abbrev pub IsConcluded : ProvisionFile → Config → Outcome → Site → Run → Type 0
  IsConcluded pf cfg answer s r =
      ((r.result ≡ done)
        × (k : Text) × (answer ≡ key k)
        × (load_or_default w.encode w.decode true (lookup path r.site.configs)
            ≡ some (merge (updates_of pf k) cfg)))
      ⊎ (((r.result ≡ done)
            × (e : Text) × (answer ≡ problem e)
            × (contains e (codes "already provisioned") ≡ true)
            × (r.site.configs ≡ s.configs))
          ⊎ ((r.result ≡ failed)
              × (lookup path r.site.configs ≡ lookup path s.configs)
              × IsRefused pf answer s))

  after_save_cases :
      (pf : ProvisionFile) (steps : List Step) (s : Site) (u : Assoc Text × Bool)
      → let r = after_save w path pf steps s u in
        (r.site.provision ≡ s.provision)
        × (r.site.configs ≡ u.0)
        × (((u.1 ≡ true) × (r.result ≡ done)) ⊎ ((u.1 ≡ false) × (r.result ≡ failed)))
  unfolding after_save
  after_save_cases pf steps s (configs, true) =
      let (ended_well, same, kept) = seed_zone_keeps pf steps (record s { configs = configs }) in
      (same, kept, inl (refl, ended_well))
  after_save_cases pf steps s (configs, false) = (refl, refl, inr (refl, refl))

  module _ (pf : ProvisionFile) (cfg : Config) (steps : List Step) (s : Site)
      (read : load_or_default w.encode w.decode w.disk.readable (lookup path s.configs) ≡ some cfg)
      (codec : (k : Text)
        → w.decode (w.encode (merge (updates_of pf k) cfg)) default_config
          ≡ some (merge (updates_of pf k) cfg)) where
    Concluded-enroll :
        (answer : Outcome)
        → ((enroll w path pf steps s answer).site.provision ≡ s.provision)
          × IsConcluded pf cfg answer s (enroll w path pf steps s answer)
    unfolding enroll
    Concluded-enroll (problem e) = elim (Bool-cases (contains e (codes "already provisioned"))) [
      | inl h ↦ rw h (refl, inr (inl (refl, e, refl, h, refl)))
      | inr h ↦ rw h (refl, inr (inr (refl, refl, inl (e, refl, h))))
    ]
    Concluded-enroll (key k) =
        let u = update_config w.encode w.decode w.disk path (updates_of pf k) s.configs in
        let (same, kept, cases) = after_save_cases pf steps s u in
        let stored =
          update_config-cases w.encode w.decode w.disk path s.configs (updates_of pf k) cfg
            (codec k) read in
        (
          same,
          elim cases [
            | inl (saved, ended_well) ↦ elim stored [
              | inl (ok, now) ↦ inl (
                ended_well,
                k,
                refl,
                ap (λ c. load_or_default w.encode w.decode true (lookup path c)) kept ∙ now,
              )
              | inr (bad, now) ↦ absurd cc
            ]
            | inr (lost, ended_badly) ↦ elim stored [
              | inl (ok, now) ↦ absurd cc
              | inr (bad, now) ↦
                  inr (inr (ended_badly, ap (lookup path) kept ∙ now, inr (k, refl, lost)))
            ]
          ],
        )

-- A provision file that can be read, parsed and removed, beside a configuration that can be read and
-- that encoding/json reads back as it was written, is gone from the drive after Process, whatever the
-- network and the portal do, so that no later cycle tries it again. Process returns true where the
-- portal gave a key, and then the configuration file reads as the old configuration with the file's
-- identity and the key, or where the portal's error says that the device is provisioned already,
-- and then no file is changed. It returns an error only where the portal's error says something else
-- or the configuration cannot be saved with the key, and then the configuration file is as it was.
pub process-IsConcluded :
    (w : World) (path bytes : Text) (s : Site) (pf : ProvisionFile) (cfg : Config)
    → s.provision ≡ some bytes
    → w.visible ≡ true
    → w.readable ≡ true
    → w.removable ≡ true
    → w.parse bytes ≡ some pf
    → load_or_default w.encode w.decode w.disk.readable (lookup path s.configs) ≡ some cfg
    → ((k : Text)
        → w.decode (w.encode (merge (updates_of pf k) cfg)) default_config
          ≡ some (merge (updates_of pf k) cfg))
    → let r = process w path s in
      (r.site.provision ≡ none) × IsConcluded w path pf cfg (bootstrap_device w.reply) s r
unfolding process process_found process_parsed
process-IsConcluded w path bytes s pf cfg there visible readable removable parsed read codec =
    let steps = (configure_network w.system pf.network).0 in
    let site = record s { provision = none } in
    let same : process w path s ≡ enroll w path pf steps site (bootstrap_device w.reply) =
      simp (there, visible, readable, removable, parsed) refl in
    rw same (Concluded-enroll w path pf cfg steps site read codec (bootstrap_device w.reply))

pub process_unparsed :
    (w : World) (path bytes : Text) (s : Site)
    → s.provision ≡ some bytes
    → w.visible ≡ true
    → w.parse bytes ≡ none
    → process w path s ≡ record { site = s; result = failed; steps = []; zone = none }
unfolding process process_found process_parsed
process_unparsed w path bytes s there visible unparsed = elim (Bool-cases w.readable) [
  | inl e ↦ simp (there, visible, e, unparsed) refl
  | inr e ↦ simp (there, visible, e) refl
]
