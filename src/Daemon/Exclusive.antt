-- ===== src/Daemon/Exclusive.antt =====
-- The drive in a maintenance cycle (main.go): seen by the host or mounted by the daemon.
use mathlib.Core.Path.{subst}
use ivault.Common.{
  ◌≡◌, refl, sym, Bool, true, false, not, ◌&&◌, Option, none, some, List, [], ◌∷◌, ◌++◌, inl, inr,
  Bool-cases, arith, if◌then◌else◌,
}
use ivault.Daemon.{
  Answers, Action, eject, mount, unmount, load, maintenance, mount_failed, take_files,
  after_provisioning, free_room, give_back, pass_on, run_ingest, apply_retention, detect_provision,
}

-- Whether the host sees the medium, and whether the daemon has it mounted.
pub record Drive : Type 0 where
  pub host : Bool
  pub local : Bool

-- gadget.Eject clears the backing file of the LUN and gadget.Load sets it; `none` is a call that
-- touches neither the medium nor the mount.
unfoldable pub change : Answers → Action → Option (Drive → Drive)
change a eject = some (λ d. if a.ejected then record d { host = false } else d)
change a mount = some (λ d. if a.mounted then record d { local = true } else d)
change a unmount = some (λ d. if a.unmounted then record d { local = false } else d)
change a load = some (λ d. if a.loaded then record d { host = true } else d)
change a _ = none

abbrev pub made : Option (Drive → Drive) → Drive → Drive
made none d = d
made (some f) d = f d

unfoldable pub effect : Answers → Action → Drive → Drive
unfolding change
effect a x d = made (change a x) d

unfoldable pub effects : Answers → List Action → Drive → Drive
unfolding effect
effects a [] d = d
effects a (x ∷ xs) d = effects a xs (effect a x d)

-- The calls that read or delete files of the mounted drive.
unfoldable pub needs_mount : Action → Bool
needs_mount run_ingest = true
needs_mount apply_retention = true
needs_mount detect_provision = true
needs_mount _ = false

-- At every moment of the trace not both have the drive, and the calls on the mounted drive find it
-- mounted.
abbrev pub IsExclusive : Answers → List Action → Drive → Type 0
IsExclusive a [] d = d.host && d.local ≡ false
IsExclusive a (x ∷ xs) d =
    (d.host && d.local ≡ false)
    × ((if needs_mount x then d.local else true) ≡ true)
    × IsExclusive a xs (effect a x d)

abbrev pub mounted_drive : Drive
mounted_drive = record { host = false; local = true }

abbrev pub free_drive : Drive
free_drive = record { host = false; local = false }

Exclusive-append :
    (a : Answers) (xs ys : List Action) (d : Drive)
    → IsExclusive a xs d
    → IsExclusive a ys (effects a xs d)
    → IsExclusive a (xs ++ ys) d
unfolding effects
Exclusive-append a [] ys d h k = k
Exclusive-append a (x ∷ xs) ys d (p, q, h) k = (p, q, Exclusive-append a xs ys (effect a x d) h k)

abbrev pub is_none : Option (Drive → Drive) → Bool
is_none none = true
is_none (some f) = false

unfoldable pub all_quiet : Answers → List Action → Bool
unfolding change
all_quiet a [] = true
all_quiet a (x ∷ xs) = is_none (change a x) && all_quiet a xs

unfoldable pub all_idle : List Action → Bool
unfolding needs_mount
all_idle [] = true
all_idle (x ∷ xs) = not (needs_mount x) && all_idle xs

module _ (a : Answers) where
  pub all_quiet-take_files : all_quiet a (take_files a) ≡ true
  unfolding take_files after_provisioning free_room all_quiet change
  all_quiet-take_files = ground arith

  made_none : (f : Option (Drive → Drive)) (d : Drive) → is_none f ≡ true → made f d ≡ d
  made_none none d h = refl
  made_none (some f) d h = ground (arith, h)

  pub effects_quiet : (xs : List Action) (d : Drive) → all_quiet a xs ≡ true → effects a xs d ≡ d
  unfolding effects effect all_quiet
  effects_quiet [] d h = refl
  effects_quiet (x ∷ xs) d h = ground (arith, made_none (change a x) d, effects_quiet xs d)

  Exclusive-quiet : (xs : List Action) → all_quiet a xs ≡ true → IsExclusive a xs mounted_drive
  unfolding all_quiet effect
  Exclusive-quiet [] h = refl
  Exclusive-quiet (x ∷ xs) h =
      let same = made_none (change a x) mounted_drive (ground (arith, h)) in
      (
        refl,
        ground arith,
        subst (IsExclusive a xs) (sym same) (Exclusive-quiet xs (ground (arith, h))),
      )

  -- Calls that neither touch nor need the mount, while the daemon has not mounted the drive.
  Exclusive-idle :
      (xs : List Action) (host : Bool)
      → all_quiet a xs ≡ true
      → all_idle xs ≡ true
      → IsExclusive a xs (record { host = host; local = false })
  unfolding all_quiet all_idle effect
  Exclusive-idle [] host h k = ground arith
  Exclusive-idle (x ∷ xs) host h k =
      let d : Drive = record { host = host; local = false } in
      let same = made_none (change a x) d (ground (arith, h)) in
      (
        ground arith,
        ground (arith, k),
        subst (IsExclusive a xs) (sym same)
            (Exclusive-idle xs host (ground (arith, h)) (ground (arith, k))),
      )

  quiet-pass_on : (r : Bool) → (all_quiet a (pass_on r a) ≡ true) × (all_idle (pass_on r a) ≡ true)
  unfolding pass_on all_quiet all_idle change needs_mount
  quiet-pass_on r = (ground arith, ground arith)

  Exclusive-pass_on :
      (r host : Bool) → IsExclusive a (pass_on r a) (record { host = host; local = false })
  Exclusive-pass_on r host =
      Exclusive-idle (pass_on r a) host (quiet-pass_on r).0 (quiet-pass_on r).1

  Exclusive-give_back : (r : Bool) → IsExclusive a (give_back r a) free_drive
  unfolding give_back effect change needs_mount
  Exclusive-give_back false = (refl, refl, Exclusive-pass_on false false)
  Exclusive-give_back true = elim (Bool-cases a.loaded) [
    | inl e ↦ (refl, refl, (refl, refl, rw e (Exclusive-pass_on true true)))
    | inr e ↦ (refl, refl, (refl, refl, rw e (refl, refl, (refl, refl, (refl, refl, refl)))))
  ]

  Exclusive-mount_failed : (r : Bool) → IsExclusive a (mount_failed r a) free_drive
  unfolding mount_failed effect change needs_mount
  Exclusive-mount_failed false = (refl, refl, (refl, refl, (refl, refl, (refl, refl, refl))))
  Exclusive-mount_failed true = elim (Bool-cases a.loaded) [
    | inl e ↦ (refl, refl, (refl, refl, rw e (refl, refl, (refl, refl, (refl, refl, refl)))))
    | inr e ↦ (refl, refl, (refl, refl, rw e (refl, refl, (refl, refl, (refl, refl, refl)))))
  ]

  Exclusive-mounted :
      (r : Bool)
      → a.unmounted ≡ true
      → IsExclusive a (take_files a ++ unmount ∷ give_back r a) mounted_drive
  unfolding effect change needs_mount
  Exclusive-mounted r gone =
      Exclusive-append a (take_files a) (unmount ∷ give_back r a) mounted_drive
        (Exclusive-quiet (take_files a) all_quiet-take_files)
        (subst (IsExclusive a (unmount ∷ give_back r a))
          (sym (effects_quiet (take_files a) mounted_drive all_quiet-take_files))
          (refl, refl, simp gone (Exclusive-give_back r)))

both_false : (b : Bool) → b && false ≡ false
both_false b = ground arith

-- Where the eject and the unmount work and no plug event is handled during it, the calls of a
-- maintenance cycle never give the drive to the host and the daemon at the same time, whatever the
-- other calls answer; files are read, and removed by retention, only while the drive is mounted.
pub maintenance-IsExclusive :
    (a : Answers) (reattach host : Bool)
    → a.ejected ≡ true
    → a.unmounted ≡ true
    → IsExclusive a (maintenance reattach a) (record { host = host; local = false })
unfolding maintenance effect change needs_mount
maintenance-IsExclusive a reattach host e gone =
    let f = both_false host in
    elim (Bool-cases a.mounted) [
      | inl m ↦
          simp (e, m)
            (
              f,
              refl,
              (
                f,
                refl,
                (
                  f,
                  refl,
                  (refl, refl, (refl, refl, (refl, refl, Exclusive-mounted a reattach gone))),
                ),
              ),
            )
      | inr m ↦
          simp (e, m)
            (
              f,
              refl,
              (
                f,
                refl,
                (
                  f,
                  refl,
                  (refl, refl, (refl, refl, (refl, refl, Exclusive-mount_failed a reattach))),
                ),
              ),
            )
    ]

-- An error of the eject does not stop the cycle: where the host has the drive and the mount
-- succeeds, both have it.
pub maintenance_shared :
    (a : Answers) (reattach : Bool)
    → a.ejected ≡ false
    → a.mounted ≡ true
    → ¬ IsExclusive a (maintenance reattach a) (record { host = true; local = false })
unfolding maintenance take_files effect change needs_mount
maintenance_shared a reattach e m h = let k = simp (e, m) at h in cc (k.2.2.2.2.2.2.0)
