-- ===== src/Lib.antt =====
-- The Relay appliance daemon (Go module ivault): a USB storage appliance that ingests what a
-- recorder wrote, keeps a table of the files, uploads them, and follows a portal's schedule.
--
-- Which file models what:
-- Common: numbers, lists, sorting, finite maps, and what the source uses of the Go packages
--   strings, strconv and sort. A text is the list of its code points.
-- State: internal/state/state.go, the device state and the machine that announces its changes.
-- Schedule: internal/schedule/schedule.go. The package time is the parameter `Zones`.
-- Db: internal/db. A table is the list of its rows by increasing id, one function stands for each
--   statement, and `attempt` is a statement with the driver's answer. Db/Queries has the queries,
--   Db/Opening the schema's columns and the migration of `Open`.
-- Ingest: internal/ingest. `verdict` is the ignore rules, Ingest/Copy the copy with its checksum,
--   Ingest/Walk the callback of the walk and the walk, Ingest/Retention the space-based retention,
--   and Ingest/Run is `Run`, which starts with provision's `Process`.
-- Upload: internal/upload/upload.go, `UploadAll`. Upload/Pool is the engine: a goroutine is a `Task`,
--   `advance` its next step, `Event` the turn that is taken, and `run` any interleaving of them.
--   Upload/Pool/Ends bounds the steps of a run. Upload/Rclone is the environment of rclone
--   (`setupRCloneEnv`), Upload/Reach its calls and the test of a destination.
-- Daemon: main.go, the maintenance cycle as the list of its calls (`Action`) by what they answer, and
--   in Daemon/Background what follows it. Daemon/Exclusive interprets the calls on the drive, and
--   Daemon/Loop/Plugs those of the handler of plug events between two calls of a cycle.
--   Daemon/Startup is the start of `main`, Daemon/Loop the handler of plug events, the scheduler's tick
--   and the signals of `main`.
-- Gadget: internal/gadget/monitor.go, the debounce of the USB controller's state. Gadget/Configfs is
--   internal/gadget/gadget.go: a `History` of calls with the answers of a `Kernel`.
-- Logs: internal/agent/logs.go, the collector of log lines with its level and its bounded buffer.
-- Heartbeat: internal/agent/heartbeat.go, the file delta and what the portal's answer changes.
--   Heartbeat/Trigger is Start with its loop, where `Event` is a step of some goroutine,
--   Heartbeat/Payload what is sent, Heartbeat/Requests what the portal's commands run.
-- Telemetry: internal/agent/telemetry.go, from the texts of /proc, /sys and the tools to the `Stats`;
--   Telemetry/Collect puts them together and fills in what ingest has stored.
-- Secret: internal/secret. The cipher, base64 and the random source are the parameter `Aead`.
-- Config: internal/config. encoding/json is a parameter. Tz: internal/tz.
-- Discovery: internal/agent/discovery.go, the table of devices on the network. Led: internal/led.
-- Network: internal/provision/network.go and crypto.go; Network/Steps is what is run and written, with
--   the system's answers in `System`. Provision: internal/provision/provision.go; `World` answers.
-- Witnesses: tests, and each theorem at an input that meets its hypotheses.
--
-- How code becomes definitions: a method that changes state returns the new state; what the file
-- system, the driver and the clock answer is part of the input (`FileEntry`, `CopyEnv`, `Drive`,
-- `Updates`, `Answer`, `Answers`, `Now`); SHA-256 is the parameter `sha256`. Sizes and counts are
-- natural numbers without the bound of 64 bits, but for the counters and sizes of statfs, /proc/stat and
-- /proc/meminfo, which wrap around as in the source. Percentages and megabytes are exact fractions, where the source
-- computes in float64. Loops run over lists; fuel is needed for printing a number, where one more
-- than the number is always enough digits, and for the wait for the network, where one attempt for each
-- two seconds and one more is enough. Letters outside ASCII keep their case.
--
-- In Upload a goroutine takes one step for each section under a mutex or call; the order of the steps
-- is a list of events, over which the theorems quantify. Where rclone returns nil, a `Delivery`
-- stands for what it promises: the staged bytes are at the path it was given.
--
-- A heartbeat reads its delta and acknowledges it in one database state: rows that the other threads
-- change while the request is under way keep their newer change time, but are not in the model.
--
-- The answers of the system are those the source looks at and those it ignores: whether umount and
-- losetup -d work is part of the input, though Unmount returns nil either way. What wpa_supplicant
-- reads of a value in quotes is a parameter with what its documentation says of it.
--
-- Not modelled: shell scripts, HTTP transport, log lines on stderr, the SQL engine itself, the timers of
-- the mDNS scan, and the log lines that a destination writes about itself.
pub mod Common
pub mod Config
pub mod Daemon
pub mod Db
pub mod Discovery
pub mod Gadget
pub mod Heartbeat
pub mod Ingest
pub mod Led
pub mod Logs
pub mod Network
pub mod Provision
pub mod Schedule
pub mod Secret
pub mod State
pub mod Telemetry
pub mod Tz
pub mod Upload
pub mod Witnesses
