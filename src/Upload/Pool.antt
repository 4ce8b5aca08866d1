-- ===== src/Upload/Pool.antt =====
-- internal/upload/upload.go, `UploadAll`: the upload engine. Its goroutines (Upload/Pool/Goroutine)
-- take their steps in the order of a list of events.
mod Goroutine
unfoldable pub use Goroutine.*
pub mod Steps
pub mod Slots
pub mod Broken
pub mod Kept
pub mod Ordered
pub mod Fallback
pub mod Rows
pub mod Others
pub mod Fates
pub mod Outcome
pub mod Ends
use ivault.Common.{
  ℕ, zero, suc, ◌+◌, Bool, true, false, not, Option, none, some, List, [], ◌∷◌, ◌++◌, map, any, ltb,
  leb, if◌then◌else◌,
}
use ivault.Common.Text.{Text, codes, text_eq}
use ivault.Common.Assoc.{Assoc, lookup, erase}
use ivault.Db.{
  Db, File, Now, attempt, update_file_state, update_file_error, update_file_uploaded,
  set_file_upload_ms, abandoned, uploading, queued, failed,
}
use ivault.Db.Queries.{get_queued_files}
use ivault.Upload.{
  max_upload_attempts, Destination, UploadConfig, remote_rel, remote_dst, unique_dirs, slots,
  display_name,
}

unfoldable pub advance_at :
    UploadConfig → List Text → Answer → ℕ → List Task → Shared → List Task × Shared
unfolding advance
advance_at cfg dirs a i [] s = ([], s)
advance_at cfg dirs a zero (t ∷ ts) s =
    let r = advance cfg dirs a t.row t.phase s in (record t { phase = r.0 } ∷ ts, r.1)
advance_at cfg dirs a (suc i) (t ∷ ts) s = let r = advance_at cfg dirs a i ts s in (t ∷ r.0, r.1)

-- The loop over the files waits for a free slot and starts a goroutine; `interrupt` is the
-- caller's context being cancelled.
pub data Event : Type 0 where
  launch interrupt : Event
  proceed : ℕ → Answer → Event

pub record Pool : Type 0 where
  pub waiting : List File
  pub tasks : List Task
  pub shared : Shared

-- A goroutine holds its slot until it returns.
unfoldable pub holds_slot : Phase → ℕ
holds_slot done = 0
holds_slot stopped = 0
holds_slot _ = 1

unfoldable pub active : List Task → ℕ
unfolding holds_slot
active [] = 0
active (t ∷ ts) = holds_slot t.phase + active ts

unfoldable pub launch_next : List File → Pool → Pool
launch_next [] p = p
launch_next (f ∷ fs) p = record p {
  waiting = fs;
  tasks = record { row = f; phase = starting } ∷ p.tasks;
}

unfoldable pub step : UploadConfig → List Text → Event → Pool → Pool
unfolding launch_next active advance_at
step cfg dirs launch p =
    if ltb (active p.tasks) (slots cfg.workers) then launch_next p.waiting p else p
step cfg dirs interrupt p = record p { shared = record p.shared { cancelled = true } }
step cfg dirs (proceed i a) p =
    let r = advance_at cfg dirs a i p.tasks p.shared in record p { tasks = r.0; shared = r.1 }

unfoldable pub run : UploadConfig → List Text → List Event → Pool → Pool
unfolding step
run cfg dirs [] p = p
run cfg dirs (e ∷ es) p = run cfg dirs es (step cfg dirs e p)

abbrev pub start_shared : Db → Assoc Text → Shared
start_shared d queue = record {
  db = d;
  queue = queue;
  dead = [];
  prepped = [];
  made = [];
  uploaded = [];
  used = [];
  failures = [];
  deliveries = [];
  cancelled = false;
}

-- The queued files of the table wait in their order.
unfoldable pub start_pool : Db → Assoc Text → Pool
unfolding get_queued_files
start_pool d queue = record {
  waiting = get_queued_files d;
  tasks = [];
  shared = start_shared d queue;
}

unfoldable pub run_queued : UploadConfig → List Event → List File → Pool → Option Pool
unfolding run unique_dirs
run_queued cfg es [] p = some p
run_queued cfg es (f ∷ fs) p = elim cfg.destinations [
  | [] ↦ none
  | _ ∷ _ ↦ some (run cfg (unique_dirs cfg (f ∷ fs) []) es p)
]

-- The engine after the events; `none` is the error that the queue cannot be read or that there are
-- files and no destinations.
unfoldable pub upload_all : UploadConfig → Bool → List Event → Db → Assoc Text → Option Pool
unfolding start_pool run_queued
upload_all cfg listed es d queue =
    if listed then run_queued cfg es (start_pool d queue).waiting (start_pool d queue) else none
