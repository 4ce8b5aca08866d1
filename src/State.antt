-- ===== src/State.antt =====
-- internal/state/state.go: the device state and the machine that announces its changes. The
-- mutex makes each method one step; the handlers run after it in registration order.
pub mod Notices
use ivault.Common.{ℕ, Bool, true, false, List, [], ◌∷◌, ◌++◌, map, ◌==◌, if◌then◌else◌}
use ivault.Common.Text.{Text, codes}

pub data State : Type 0 where
  booting disconnected connecting connected disconnecting : State
  syncing error snapshotting archiving : State

-- The value of the constant, by `iota`.
abbrev pub state_number : State → ℕ
state_number booting = 0
state_number disconnected = 1
state_number connecting = 2
state_number connected = 3
state_number disconnecting = 4
state_number syncing = 5
state_number error = 6
state_number snapshotting = 7
state_number archiving = 8

abbrev pub state_eq : State → State → Bool
state_eq a b = state_number a == state_number b

unfoldable pub state_string : State → Text
state_string booting = codes "booting"
state_string disconnected = codes "disconnected"
state_string connecting = codes "connecting"
state_string connected = codes "connected"
state_string disconnecting = codes "disconnecting"
state_string syncing = codes "syncing"
state_string error = codes "error"
state_string snapshotting = codes "snapshotting"
state_string archiving = codes "archiving"

-- One call of a handler, with the old and the new state.
pub record Notice (H : Type 0) : Type 0 where
  pub handler : H
  pub old : State
  pub new : State

-- `H` names the handlers.
pub record Machine (H : Type 0) : Type 0 where
  pub current : State
  pub on_change : List H

module _ {H : Type 0} where
  unfoldable pub new_machine : Machine H
  new_machine = record { current = booting; on_change = [] }

  -- The method OnChange.
  unfoldable pub add_handler : Machine H → H → Machine H
  add_handler m fn = record m { on_change = m.on_change ++ fn ∷ [] }

  -- The new machine, and the calls of handlers in their order.
  unfoldable pub transition : Machine H → State → Machine H × List (Notice H)
  transition m next = if state_eq m.current next then (m, []) else (
    record m { current = next },
    map (λ fn. record { handler = fn; old = m.current; new = next }) m.on_change,
  )

  -- Transitions one after another.
  unfoldable pub transitions : Machine H → List State → Machine H × List (Notice H)
  transitions m [] = (m, [])
  transitions m (s ∷ ss) =
      let (m', now) = transition m s in let (m'', later) = transitions m' ss in (m'', now ++ later)
