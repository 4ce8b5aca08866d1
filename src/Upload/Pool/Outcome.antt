-- ===== src/Upload/Pool/Outcome.antt =====
-- What a run of the upload engine (internal/upload/upload.go) leaves in the files table.
use ivault.Common.{Bool, false, not}
use ivault.Common.Text.{Text}
use ivault.Common.Assoc.{Assoc}
use ivault.Db.{Db}
use ivault.Upload.Pool.{Event, Pool, proceed}
use ivault.Upload.Pool.Rows.{IsCarriedOut}

-- The driver carries out every statement on the files table; `Lost` is what a staged file that is
-- not there shows.
abbrev pub IsReported : Type 0 → Event → Type 0
IsReported Lost (proceed i a) = IsCarriedOut Lost a
IsReported Lost _ = Unit

-- A goroutine finds its staged file missing.
abbrev pub misses : Event → Bool
misses (proceed i a) = not a.present
misses _ = false
