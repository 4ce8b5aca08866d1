-- ===== src/Daemon/Sessions.antt =====
-- How a maintenance cycle (main.go) ends: its session, its state and its upload context.
use ivault.Common.{
  ℕ, ◌+◌, ◌≡◌, Bool, true, false, not, ◌&&◌, ◌||◌, List, [], ◌∷◌, ◌++◌, inl, inr, Bool-cases, ltb,
  arith, if◌then◌else◌,
}
use ivault.State.{State, archiving, error, snapshotting}
use ivault.Daemon.{
  Answers, Action, maintenance, mount_failed, take_files, after_provisioning, free_room, give_back,
  pass_on, transition, end_session, upload_in_background, cancel_upload, rest_state, result_of,
  files_of, unmount,
}

-- The state machine after the calls.
unfoldable pub end_state : List Action → State → State
end_state [] s = s
end_state (transition t ∷ xs) s = end_state xs t
end_state (_ ∷ xs) s = end_state xs s

unfoldable pub closes_session : Action → ℕ
closes_session (end_session _ _ _) = 1
closes_session _ = 0

-- The upload context is cancelled, or handed to the upload.
unfoldable pub settles_upload : Action → ℕ
settles_upload upload_in_background = 1
settles_upload cancel_upload = 1
settles_upload _ = 0

unfoldable pub count : (Action → ℕ) → List Action → ℕ
count p [] = 0
count p (x ∷ xs) = p x + count p xs

-- What the cycle comes to: back to rest without a mount, an error where the medium cannot be
-- presented again, an upload where there is something to upload, and rest.
abbrev pub outcome : Bool → Answers → State
outcome reattach a =
    if not a.mounted
    then rest_state reattach
    else if reattach && not a.loaded
    then error
    else if ltb 0 (result_of a.result).kept || ltb 0 (files_of a.queue_size)
    then archiving
    else rest_state reattach

count-append : (p : Action → ℕ) (xs ys : List Action) → count p (xs ++ ys) ≡ count p xs + count p ys
unfolding count
count-append p [] ys = omega arith
count-append p (x ∷ xs) ys = omega (arith, count-append p xs ys)

module _ (a : Answers) where
  closes-take_files : count closes_session (take_files a) ≡ 0
  unfolding take_files after_provisioning free_room count closes_session
  closes-take_files = ground arith

  settles-take_files : count settles_upload (take_files a) ≡ 0
  unfolding take_files after_provisioning free_room count settles_upload
  settles-take_files = ground arith

  closes-give_back : (r : Bool) → count closes_session (give_back r a) ≡ 1
  unfolding give_back pass_on count closes_session
  closes-give_back false = ground arith
  closes-give_back true = ground arith

  settles-give_back : (r : Bool) → count settles_upload (give_back r a) ≡ 1
  unfolding give_back pass_on count settles_upload
  settles-give_back false = ground arith
  settles-give_back true = ground arith

  closes-mount_failed : (r : Bool) → count closes_session (mount_failed r a) ≡ 1
  unfolding mount_failed count closes_session
  closes-mount_failed false = ground arith
  closes-mount_failed true = ground arith

  settles-mount_failed : (r : Bool) → count settles_upload (mount_failed r a) ≡ 1
  unfolding mount_failed count settles_upload
  settles-mount_failed false = ground arith
  settles-mount_failed true = ground arith

  end_state-take_files :
      (ys : List Action) (s : State) → end_state (take_files a ++ ys) s ≡ end_state ys s
  unfolding take_files after_provisioning free_room end_state
  end_state-take_files ys s = ground arith

  end_state-give_back :
      (r : Bool) (s : State) → a.mounted ≡ true → end_state (give_back r a) s ≡ outcome r a
  unfolding give_back pass_on end_state
  end_state-give_back false s m = ground arith
  end_state-give_back true s m = ground arith

  end_state-mount_failed :
      (r : Bool) (s : State) → a.mounted ≡ false → end_state (mount_failed r a) s ≡ outcome r a
  unfolding mount_failed end_state
  end_state-mount_failed false s m = ground arith
  end_state-mount_failed true s m = ground arith

-- Whatever the calls answer, a maintenance cycle ends its session once, cancels the upload context
-- or hands it to the upload, not both, and leaves the state machine in `outcome`.
pub maintenance_concludes :
    (a : Answers) (reattach : Bool) (s : State)
    → (count closes_session (maintenance reattach a) ≡ 1)
      × (count settles_upload (maintenance reattach a) ≡ 1)
      × (end_state (maintenance reattach a) s ≡ outcome reattach a)
unfolding maintenance count closes_session settles_upload end_state
maintenance_concludes a reattach s = elim (Bool-cases a.mounted) [
  | inl m ↦ (
    ground (
      arith,
      count-append closes_session (take_files a) (unmount ∷ give_back reattach a),
      closes-take_files a,
      closes-give_back a reattach,
    ),
    ground (
      arith,
      count-append settles_upload (take_files a) (unmount ∷ give_back reattach a),
      settles-take_files a,
      settles-give_back a reattach,
    ),
    ground (
      arith,
      end_state-take_files a (unmount ∷ give_back reattach a) snapshotting,
      end_state-give_back a reattach snapshotting m,
    ),
  )
  | inr m ↦ (
    ground (arith, closes-mount_failed a reattach),
    ground (arith, settles-mount_failed a reattach),
    ground (arith, end_state-mount_failed a reattach snapshotting m),
  )
]
