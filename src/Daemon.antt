-- ===== src/Daemon.antt =====
-- main.go: the maintenance cycle as the calls that it makes, in their order. What the calls answer
-- is in `Answers`. The children have the proofs.
pub mod Exclusive
pub mod Sessions
pub mod Background
pub mod Loop
pub mod Folders
pub mod Startup
use ivault.Common.{
  ℕ, ◌+◌, Bool, true, false, not, ◌&&◌, ◌||◌, Option, none, some, List, [], ◌∷◌, ◌++◌, ltb,
  if◌then◌else◌,
}
use ivault.Common.Text.{Text, codes}
use ivault.State.{
  State, state_eq, disconnected, connecting, connected, disconnecting, syncing, error, snapshotting,
  archiving,
}

-- The counts of an ingest that the cycle uses.
pub record Counts : Type 0 where
  pub found : ℕ
  pub kept : ℕ
  pub bytes : ℕ

-- What the calls of one cycle answer. `session` is `none` where StartSession failed, `result` where
-- ingest.Run returned no result, `unmounted` whether umount worked, which ingest.Unmount does not say, `deleted` where ApplyRetention failed, `queue_size` where the
-- upload queue cannot be listed; `retention` is the setting after a reload of the configuration.
pub record Answers : Type 0 where
  pub session : Option ℕ
  pub ejected : Bool
  pub mounted : Bool
  pub unmounted : Bool
  pub provision_file : Bool
  pub result : Option Counts
  pub ingest_error : Bool
  pub provisioned : Bool
  pub config_read : Bool
  pub retention : Bool
  pub deleted : Option ℕ
  pub loaded : Bool
  pub queue_size : Option ℕ

pub data Action : Type 0 where
  start_session eject settle mount unmount load : Action
  detect_provision rapid_pulse slow_pulse run_ingest reload_config start_agent : Action
  apply_retention list_queue upload_in_background cancel_upload : Action
  transition : State → Action
  log : Text → Text → Action
  end_session : Option ℕ → Counts → Text → Action

-- A cycle is refused while another is under way.
unfoldable pub is_busy : State → Bool
is_busy s =
    state_eq s syncing
    || state_eq s snapshotting
    || state_eq s archiving
    || state_eq s disconnecting
    || state_eq s connecting

abbrev pub no_counts : Counts
no_counts = record { found = 0; kept = 0; bytes = 0 }

-- The state that the cycle returns to.
abbrev pub rest_state : Bool → State
rest_state true = connected
rest_state false = disconnected

abbrev pub result_of : Option Counts → Counts
result_of none = no_counts
result_of (some c) = c

abbrev pub optional : Bool → List Action → List Action
optional true xs = xs
optional false xs = []

-- The branch of the mount error.
unfoldable pub mount_failed : Bool → Answers → List Action
mount_failed reattach a =
    log (codes "error") (codes "ingest") ∷ optional reattach (load ∷ [])
    ++ end_session a.session no_counts (codes "error")
      ∷ transition (rest_state reattach)
      ∷ cancel_upload
      ∷ []

-- After ingest.Run: the configuration of a device that was just provisioned, or the slow pulse.
unfoldable pub after_provisioning : Answers → List Action
after_provisioning a =
    if a.provisioned
    then reload_config ∷ optional a.config_read (start_agent ∷ [])
    else optional a.provision_file (slow_pulse ∷ [])

unfoldable pub free_room : Answers → List Action
free_room a =
    if a.retention
    then apply_retention ∷ elim a.deleted [
      | none ↦ []
      | some n ↦ optional (ltb 0 n) (log (codes "info") (codes "retention") ∷ [])
    ]
    else []

-- What is done while the drive is mounted.
unfoldable pub take_files : Answers → List Action
unfolding after_provisioning free_room
take_files a =
    detect_provision ∷ optional a.provision_file (rapid_pulse ∷ [])
    ++ run_ingest ∷ optional a.ingest_error (log (codes "warn") (codes "ingest") ∷ [])
    ++ after_provisioning a
    ++ log (codes "info") (codes "ingest") ∷ free_room a

abbrev pub files_of : Option ℕ → ℕ
files_of none = 0
files_of (some n) = n

-- The last part: the upload in the background, or nothing to upload.
unfoldable pub pass_on : Bool → Answers → List Action
pass_on reattach a =
    end_session a.session (result_of a.result) (codes "complete")
    ∷ list_queue
    ∷ (if ltb 0 (result_of a.result).kept || ltb 0 (files_of a.queue_size)
        then transition archiving ∷ upload_in_background ∷ []
        else transition (rest_state reattach) ∷ cancel_upload ∷ [])

unfoldable pub give_back : Bool → Answers → List Action
unfolding pass_on
give_back false a = transition disconnected ∷ pass_on false a
give_back true a =
    transition connecting
    ∷ load
    ∷ (if a.loaded
        then pass_on true a
        else end_session a.session (result_of a.result) (codes "error")
          ∷ transition error
          ∷ cancel_upload
          ∷ [])

-- The goroutine of runMaintenance.
unfoldable pub maintenance : Bool → Answers → List Action
unfolding mount_failed take_files give_back
maintenance reattach a =
    start_session
    ∷ transition disconnecting
    ∷ eject
    ∷ settle
    ∷ transition snapshotting
    ∷ mount
    ∷ (if a.mounted
        then take_files a ++ unmount ∷ give_back reattach a
        else mount_failed reattach a)

-- runMaintenance: `none` where a cycle is under way.
unfoldable pub run_maintenance : State → Bool → Answers → Option (List Action)
unfolding is_busy maintenance
run_maintenance s reattach a = if is_busy s then none else some (maintenance reattach a)
