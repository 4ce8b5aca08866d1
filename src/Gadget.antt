-- ===== src/Gadget.antt =====
-- internal/gadget/monitor.go: the poller that turns the state of the USB device controller into
-- plug events, with its debounce. A poll is the text that gadget.State reads.
pub mod Attaching
pub mod Configfs
pub mod Debounce
pub mod Medium
pub mod Steady
use ivault.Common.{
  ℕ, suc, Bool, true, false, not, ◌&&◌, ◌||◌, Option, none, some, List, [], ◌∷◌, ◌++◌, ltb,
  if◌then◌else◌,
}
use ivault.Common.Text.{Text, codes, text_eq, trim_space}

pub data UdcEvent : Type 0 where
  plugged unplugged : UdcEvent

unfoldable pub event_string : UdcEvent → Text
event_string plugged = codes "plugged"
event_string unplugged = codes "unplugged"

abbrev pub debounce_samples : ℕ
debounce_samples = 3

-- `last` is the field; `candidate` and `stable` are the variables of the goroutine.
pub record Monitor : Type 0 where
  pub last : Text
  pub candidate : Text
  pub stable : ℕ

unfoldable pub start : Text → Monitor
start state = record { last = state; candidate = state; stable = 0 }

unfoldable pub is_not_attached : Text → Bool
unfolding trim_space text_eq
is_not_attached state =
    text_eq (trim_space state) (codes "not attached")
    || text_eq (trim_space state) (codes "unknown")

abbrev pub is_plugged : Text → Text → Bool
is_plugged prev current = is_not_attached prev && not (is_not_attached current)

abbrev pub is_unplugged : Text → Text → Bool
is_unplugged prev current = not (is_not_attached prev) && is_not_attached current

-- The event of a committed change.
unfoldable pub event_of : Text → Text → Option UdcEvent
unfolding is_not_attached
event_of prev current =
    if is_plugged prev current
    then some plugged
    else if is_unplugged prev current
    then some unplugged
    else none

-- The change is committed once it has held for enough polls.
unfoldable pub settle : Monitor → Text → ℕ → Monitor × Option UdcEvent
unfolding event_of
settle m current stable =
    if ltb stable debounce_samples
    then (record m { candidate = current; stable = stable }, none)
    else (record { last = current; candidate = current; stable = 0 }, event_of m.last current)

-- One poll: the monitor after it, and the event it emits.
unfoldable pub poll : Monitor → Text → Monitor × Option UdcEvent
unfolding text_eq settle
poll m current =
    if text_eq current m.last
    then (record m { candidate = current; stable = 0 }, none)
    else if text_eq current m.candidate
    then settle m current (suc m.stable)
    else settle m current 1

abbrev pub emit : Option UdcEvent → List UdcEvent → List UdcEvent
emit none es = es
emit (some e) es = e ∷ es

-- The polls one after another, with the events in their order. The channel holds four events; the
-- reader is taken to keep up, as a full channel drops the event.
unfoldable pub polls : Monitor → List Text → Monitor × List UdcEvent
unfolding poll
polls m [] = (m, [])
polls m (s ∷ ss) = let (m', e) = poll m s in let (m'', es) = polls m' ss in (m'', emit e es)
