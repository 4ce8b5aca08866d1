-- ===== src/Heartbeat/Trigger.antt =====
-- internal/agent/heartbeat.go: Start and the heartbeat loop, with the goroutines that change the state
-- of the device at any point between its steps. The channel `trigger` holds one value at most.
use ivault.Common.{
  ℕ, zero, suc, ◌+◌, ◌≡◌, Bool, true, false, ◌||◌, ◌==◌, Option, none, some, List, [], ◌∷◌,
  if◌then◌else◌,
}
use ivault.Common.Text.{text_eq}
use ivault.Config.{Config}
use ivault.State.{State, state_eq}

-- What Start does: not provisioned, running already, or the loop begins.
pub data Started : Type 0 where
  unprovisioned duplicate running : Started

-- The guards of Start, with the flag agentStarted before and after.
unfoldable pub start_guard : Config → Bool → Bool × Started
unfolding text_eq
start_guard cfg agent_started =
    if text_eq cfg.device_id [] || text_eq cfg.device_api_key [] || text_eq cfg.cloud_endpoint []
    then (agent_started, unprovisioned)
    else if agent_started
    then (true, duplicate)
    else (true, running)

-- Where the loop is: at the select, in sendHeartbeat before and after it reads the state, or over.
pub data Phase : Type 0 where
  waiting preparing sending stopped : Phase

-- The state of the device, the calls of the handler that a transition has still to make, whether the
-- channel holds a value, and the states of the heartbeats, the newest first.
pub record Heart : Type 0 where
  pub current : State
  pub calls : ℕ
  pub trigger : Bool
  pub phase : Phase
  pub reported : List State

pub data Event : Type 0 where
  change : State → Event
  handler_runs ticked triggered reads_state answered cancelled : Event

-- The goroutine begins with a heartbeat; the handler is registered before.
unfoldable pub new_heart : State → Heart
new_heart s = record { current = s; calls = 0; trigger = false; phase = preparing; reported = [] }

-- A Transition up to its unlock.
unfoldable pub set_state : State → Heart → Heart
set_state next h =
    if state_eq h.current next then h else record h { current = next; calls = h.calls + 1 }

-- A handler's send to the channel, which drops the value if one waits.
abbrev pub after_call : ℕ → Heart → Option Heart
after_call zero h = none
after_call (suc n) h = some (record h { calls = n; trigger = true })

-- The arms of the select, which run at the select only.
abbrev pub at_select : Phase → Heart → Option Heart
at_select waiting h = some h
at_select preparing h = none
at_select sending h = none
at_select stopped h = none

abbrev pub read_state : Phase → Heart → Option Heart
read_state preparing h = some (record h { phase = sending; reported = h.current ∷ h.reported })
read_state waiting h = none
read_state sending h = none
read_state stopped h = none

-- The end of sendHeartbeat, whatever the portal answers.
abbrev pub back : Phase → Heart → Option Heart
back sending h = some (record h { phase = waiting })
back waiting h = none
back preparing h = none
back stopped h = none

-- One step of some goroutine, `none` where it cannot be taken.
unfoldable pub step : Event → Heart → Option Heart
unfolding set_state
step (change next) h = some (set_state next h)
step handler_runs h = after_call h.calls h
step ticked h = at_select h.phase (record h { phase = preparing })
step triggered h =
    if h.trigger then at_select h.phase (record h { phase = preparing; trigger = false }) else none
step reads_state h = read_state h.phase h
step answered h = back h.phase h
step cancelled h = at_select h.phase (record h { phase = stopped })

unfoldable pub run : List Event → Heart → Option Heart
unfolding step
run [] h = some h
run (e ∷ es) h = elim (step e h) [ none ↦ none | some h' ↦ run es h' ]

-- The newest heartbeat carries the state of the device.
abbrev pub IsReported : Heart → Type 0
IsReported h = (older : List State) × (h.reported ≡ h.current ∷ older)

-- The loop waits for the select or for the portal.
abbrev pub is_at_rest : Phase → Bool
is_at_rest waiting = true
is_at_rest sending = true
is_at_rest preparing = false
is_at_rest stopped = false

abbrev pub is_stopped : Phase → Bool
is_stopped stopped = true
is_stopped _ = false

-- Nothing is under way that ends in a heartbeat.
abbrev pub is_quiet : Heart → Bool
is_quiet h = if h.calls == 0 then if h.trigger then false else is_at_rest h.phase else false
