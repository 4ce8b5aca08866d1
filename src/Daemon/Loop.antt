-- ===== src/Daemon/Loop.antt =====
-- main.go: the handler of plug events, the scheduler's tick and the signals of the main loop, each
-- as the calls it makes. The clock's minute, `now.Format("2006-01-02 15:04")`, is an argument.
pub mod Minutes
pub mod Plugs
use ivault.Common.{
  ℕ, Bool, true, false, not, ◌&&◌, ◌||◌, Option, none, some, List, [], ◌∷◌, ◌++◌, if◌then◌else◌,
}
use ivault.Common.Text.{Text, codes, text_eq}
use ivault.State.{
  State, state_eq, disconnected, connecting, connected, syncing, error, snapshotting,
}
use ivault.Schedule.{Zones, Schedule, load, matches_time, in_blackout}
use ivault.Gadget.{UdcEvent, plugged, unplugged}

-- `run_maintenance` carries reattachAfter; `set_holder` keeps its cancel function where it has one,
-- and `call_holder` calls the one kept.
pub data Call : Type 0 where
  log : Text → Text → Call
  transition : State → Call
  run_maintenance : Bool → Call
  call_holder unmount attach load_image detach : Call

-- What the calls answer: whether the gadget is attached, and whether Attach or Load succeeds.
pub record PlugAnswers : Type 0 where
  pub attached : Bool
  pub succeeded : Bool

unfoldable pub present : PlugAnswers → List Call
present a =
    transition connecting
    ∷ (if a.attached then load_image else attach)
    ∷ transition (if a.succeeded then connected else error)
    ∷ []

unfoldable pub handle_plugged : PlugAnswers → State → List Call
unfolding present
handle_plugged a s =
    if state_eq s disconnected || state_eq s error
    then log (codes "info") (codes "gadget") ∷ present a
    else if state_eq s syncing || state_eq s snapshotting
    then log (codes "warn") (codes "gadget") ∷ call_holder ∷ unmount ∷ present a
    else []

unfoldable pub handle_unplugged : State → List Call
handle_unplugged s =
    if state_eq s connected
    then run_maintenance false ∷ []
    else if state_eq s connecting
    then transition disconnected ∷ []
    else []

-- One event of the monitor.
unfoldable pub handle_event : PlugAnswers → UdcEvent → State → List Call
unfolding handle_plugged handle_unplugged
handle_event a plugged s = log (codes "info") (codes "gadget") ∷ handle_plugged a s
handle_event a unplugged s = log (codes "info") (codes "gadget") ∷ handle_unplugged s

-- The first attach, before the loop.
unfoldable pub initial_attach : Bool → List Call
initial_attach succeeded =
    transition connecting
    ∷ attach
    ∷ transition (if succeeded then connected else disconnected)
    ∷ log (codes "info") (codes "main")
    ∷ []

-- SIGTERM and SIGINT.
unfoldable pub shut_down : List Call
shut_down =
    log (codes "info") (codes "main")
    ∷ call_holder
    ∷ unmount
    ∷ detach
    ∷ log (codes "info") (codes "main")
    ∷ []

module _ (z : Zones) where
  -- SIGUSR1.
  unfoldable pub manual_sync : (Text → Option Text) → z.Instant → List Call
  unfolding load in_blackout
  manual_sync get_config now =
      if in_blackout z (load z get_config) now
      then log (codes "warn") (codes "scheduler") ∷ []
      else run_maintenance true ∷ []

  pub record Tick : Type 0 where
    pub get_config : Text → Option Text
    pub now : z.Instant
    pub minute : Text

  -- Whether the tick runs a maintenance, and the last minute that fired or was skipped.
  unfoldable pub tick : Tick → Text → Bool × Text
  unfolding load matches_time in_blackout text_eq
  tick t last =
      if not (matches_time z (load z t.get_config) t.now)
      then (false, last)
      else if text_eq t.minute last
      then (false, last)
      else (not (in_blackout z (load z t.get_config) t.now), t.minute)

  -- The ticks that run a maintenance.
  unfoldable pub ticks : List Tick → Text → List Tick
  unfolding tick
  ticks [] last = []
  ticks (t ∷ ts) last =
      let rest = ticks ts (tick t last).1 in if (tick t last).0 then t ∷ rest else rest
