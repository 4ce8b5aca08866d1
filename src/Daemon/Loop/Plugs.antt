-- ===== src/Daemon/Loop/Plugs.antt =====
-- Plug events of main.go and the maintenance cycles that they meet.
use ivault.Common.{
  ◌≡◌, refl, ap, ◌∙◌, Bool, true, false, List, [], ◌∷◌, ◌++◌, inl, inr, Bool-cases, arith,
  if◌then◌else◌,
}
use ivault.Common.Text.{codes}
use ivault.State.{State, archiving, snapshotting, disconnecting}
use ivault.Gadget.{plugged}
use ivault.Daemon.{
  Answers, Action, maintenance, take_files, give_back, mount_failed, pass_on, unmount, optional,
  start_session, eject, settle, transition, mount, detect_provision, rapid_pulse, run_ingest,
  after_provisioning, free_room,
}
use ivault.Daemon.Exclusive.{
  Drive, IsExclusive, needs_mount, free_drive, effect, effects, change, mounted_drive,
  effects_quiet, all_quiet-take_files,
}
use ivault.Daemon.Sessions.{end_state, outcome, maintenance_concludes}
use ivault.Daemon.Loop
use ivault.Daemon.Loop.{
  PlugAnswers, Call, log, handle_event, handle_plugged, present, attach, load_image,
}

effects-append :
    (a : Answers) (xs ys : List Action) (d : Drive)
    → effects a (xs ++ ys) d ≡ effects a ys (effects a xs d)
unfolding effects
effects-append a [] ys d = refl
effects-append a (x ∷ xs) ys d = effects-append a xs ys (effect a x d)

module _ (a : Answers) where
  effects-give_back : effects a (give_back false a) free_drive ≡ free_drive
  unfolding give_back pass_on effects effect change
  effects-give_back = ground arith

  effects-mount_failed : effects a (mount_failed false a) free_drive ≡ free_drive
  unfolding mount_failed effects effect change
  effects-mount_failed = refl

  effects-mounted :
      a.unmounted ≡ true
      → effects a (take_files a ++ unmount ∷ give_back false a) mounted_drive ≡ free_drive
  unfolding effects effect change
  effects-mounted gone =
      effects-append a (take_files a) (unmount ∷ give_back false a) mounted_drive
      ∙ ap (effects a (unmount ∷ give_back false a))
          (effects_quiet a (take_files a) mounted_drive (all_quiet-take_files a))
      ∙ ap (λ b. effects a (give_back false a) (if b then free_drive else mounted_drive)) gone
      ∙ effects-give_back

  -- After a cycle of an unplugged device nobody has the drive.
  effects-maintenance :
      (host : Bool)
      → a.ejected ≡ true
      → a.unmounted ≡ true
      → effects a (maintenance false a) (record { host = host; local = false }) ≡ free_drive
  unfolding maintenance effects effect change
  effects-maintenance host e gone = elim (Bool-cases a.mounted) [
    | inl m ↦ ground (arith, m, effects-mounted gone)
    | inr m ↦ ground (arith, m, effects-mount_failed)
  ]

-- Where the eject and the unmount work, a cycle of an unplugged device that goes on to upload leaves
-- the medium ejected, and a plug event during that upload is only logged: its handler does not present
-- the medium to the host that has come back.
pub maintenance_ignores_plug :
    (a : Answers) (p : PlugAnswers) (s : State) (host : Bool)
    → a.ejected ≡ true
    → a.unmounted ≡ true
    → outcome false a ≡ archiving
    → ((effects a (maintenance false a) (record { host = host; local = false })).host ≡ false)
      × (handle_event p plugged (end_state (maintenance false a) s)
          ≡ log (codes "info") (codes "gadget") ∷ [])
unfolding handle_event handle_plugged
maintenance_ignores_plug a p s host e gone o = (
  ap (λ (d : Drive). d.host) (effects-maintenance a host e gone),
  ap (λ (t : State). handle_event p plugged t) ((maintenance_concludes a false s).2 ∙ o),
)

-- What a call of the handler does to the drive; `unmounts` is whether umount works.
unfoldable pub plug_effect : PlugAnswers → Bool → Call → Drive → Drive
plug_effect p unmounts Loop.unmount d = if unmounts then record d { local = false } else d
plug_effect p unmounts attach d = if p.succeeded then record d { host = true } else d
plug_effect p unmounts load_image d = if p.succeeded then record d { host = true } else d
plug_effect p unmounts _ d = d

unfoldable pub plug_effects : PlugAnswers → Bool → List Call → Drive → Drive
unfolding plug_effect
plug_effects p unmounts [] d = d
plug_effects p unmounts (c ∷ cs) d = plug_effects p unmounts cs (plug_effect p unmounts c d)

-- A cycle up to the call of ingest.Run, where the mount succeeds.
abbrev pub until_ingest : Answers → List Action
until_ingest a =
    start_session
    ∷ transition disconnecting
    ∷ eject
    ∷ settle
    ∷ transition snapshotting
    ∷ mount
    ∷ detect_provision
    ∷ optional a.provision_file (rapid_pulse ∷ [])

-- In a cycle whose eject and mount work, a plug event that is handled just before the call of
-- ingest.Run, and whose Attach or Load succeeds, does not stop the ingest: the cycle goes on with
-- ingest.Run, and from there on the drive is either not mounted where its files are read, or with the
-- host and the daemon at once, whether umount works or not.
pub plug_meets_ingest :
    (a : Answers) (p : PlugAnswers) (reattach unmounts host : Bool) (s : State)
    → a.ejected ≡ true
    → a.mounted ≡ true
    → p.succeeded ≡ true
    → let seen = end_state (until_ingest a) s in
      let before = effects a (until_ingest a) (record { host = host; local = false }) in
      (rest : List Action) × (maintenance reattach a ≡ until_ingest a ++ run_ingest ∷ rest)
      × (before ≡ mounted_drive)
      × ¬ IsExclusive a
          (run_ingest ∷ rest)
          (plug_effects p unmounts (handle_event p plugged seen) before)
unfolding maintenance take_files end_state effects effect change needs_mount plug_effects
    handle_event handle_plugged present
plug_meets_ingest a p reattach unmounts host s e m shown = (
  (optional a.ingest_error (Action.log (codes "warn") (codes "ingest") ∷ [])
        ++ after_provisioning a
        ++ Action.log (codes "info") (codes "ingest") ∷ free_room a)
      ++ unmount ∷ give_back reattach a,
  ground arith,
  ground arith,
  λ bad. ground arith,
)
