-- ===== src/Logs.antt =====
-- internal/agent/logs.go: the collector of log lines for the portal. Its mutex makes each call one
-- step. The time of a line is an argument; a line is what `Write` is given.
pub mod Newest
pub mod Shipped
use ivault.Common.{
  ℕ, ◌-◌, Bool, true, false, ◌||◌, Option, none, some, List, [], ◌∷◌, ◌++◌, any, length, drop, ltb,
  if◌then◌else◌,
}
use ivault.Common.Text.{Text, codes, text_eq, contains, to_lower, trim_space}

pub record LogEntry : Type 0 where
  pub timestamp : Text
  pub level : Text
  pub component : Text
  pub message : Text

abbrev pub level_debug : ℕ
level_debug = 0

abbrev pub level_info : ℕ
level_info = 1

abbrev pub level_warn : ℕ
level_warn = 2

abbrev pub level_error : ℕ
level_error = 3

-- The switch compares upper-case names; in lower case, for ASCII letters, it is the same test.
unfoldable pub level_rank : Text → ℕ
unfolding to_lower text_eq any
level_rank level =
    if text_eq (to_lower level) (codes "debug")
    then level_debug
    else if any (text_eq (to_lower level)) (codes "warn" ∷ codes "warning" ∷ [])
    then level_warn
    else if any (text_eq (to_lower level)) (codes "error" ∷ codes "fatal" ∷ codes "panic" ∷ [])
    then level_error
    else level_info

unfoldable pub classify_level : Text → Text
unfolding to_lower contains any
classify_level msg =
    if any (contains (to_lower msg)) (
      codes "error"
      ∷ codes "failed"
      ∷ codes "fatal"
      ∷ codes "panic"
      ∷ codes "could not"
      ∷ codes "unable to"
      ∷ [])
    then codes "ERROR"
    else if any (contains (to_lower msg)) (codes "warn" ∷ codes "retry" ∷ codes "retrying" ∷ [])
    then codes "WARN"
    else codes "INFO"

abbrev pub buffer_limit : ℕ
buffer_limit = 1000

pub record LogCollector : Type 0 where
  pub buffer : List LogEntry
  pub ship_level : ℕ

-- InitLogs, where the device is provisioned.
unfoldable pub init_logs : Text → Text → Text → Option LogCollector
unfolding text_eq
init_logs device_id api_key endpoint =
    if text_eq device_id [] || text_eq api_key [] || text_eq endpoint []
    then none
    else some (record { buffer = []; ship_level = level_info })

unfoldable pub set_log_ship_level : Text → LogCollector → LogCollector
unfolding level_rank
set_log_ship_level [] c = c
set_log_ship_level (b ∷ level) c = record c { ship_level = level_rank (b ∷ level) }

unfoldable pub entry_of : Text → Text → LogEntry
unfolding classify_level trim_space
entry_of now line = record {
  timestamp = now;
  level = classify_level (trim_space line);
  component = codes "appliance";
  message = trim_space line;
}

-- The last entries, as many as the limit.
unfoldable pub trim_buffer : List LogEntry → List LogEntry
trim_buffer es = if ltb buffer_limit (length es) then drop (length es - buffer_limit) es else es

unfoldable pub write : Text → Text → LogCollector → LogCollector
unfolding entry_of trim_buffer level_rank
write now line c =
    if ltb (level_rank (entry_of now line).level) c.ship_level
    then c
    else record c { buffer = trim_buffer (c.buffer ++ entry_of now line ∷ []) }

-- What `push` takes along, and the collector after it, whatever becomes of the request.
unfoldable pub push : LogCollector → List LogEntry × LogCollector
push c = (c.buffer, record c { buffer = [] })
