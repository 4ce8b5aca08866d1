-- ===== src/Ingest/Copy.antt =====
-- internal/ingest/ingest.go, `copyAndVerify`, and `checksumFile` of checksum.go: one pass that
-- writes a file of the upload queue and hashes what it wrote. SHA-256 is the parameter `sha256`.
use ivault.Common.{◌≡◌, Bool, true, false, not, Option, none, some, arith, if◌then◌else◌}
use ivault.Common.Text.{Text, text_eq, text_eq_iff, text_eq_refl}
use ivault.Common.Assoc.{Assoc, lookup, insert, erase, lookup-insert, lookup-erase}

-- What the file system answers to one copy: whether source and destination open, the bytes that
-- reach the destination, whether all were copied and synced, whether a removal succeeds.
pub record CopyEnv : Type 0 where
  pub opened : Bool
  pub created : Bool
  pub bytes : Text
  pub complete : Bool
  pub synced : Bool
  pub removable : Bool

-- os.Remove(dst) after the file was written.
abbrev pub discard : CopyEnv → Text → Assoc Text → Assoc Text
discard env dst queue = if env.removable then erase dst queue else insert dst env.bytes queue

module _ (sha256 : Text → Text) where
  -- `none` is an error of opening or reading.
  unfoldable pub checksum_file : Option Text → Option Text
  checksum_file none = none
  checksum_file (some bytes) = some (sha256 bytes)

  -- The upload queue after the call, and whether it returned nil.
  unfoldable pub copy_and_verify : CopyEnv → Text → Text → Assoc Text → Assoc Text × Bool
  copy_and_verify env dst expected queue =
      if not env.opened
      then (queue, false)
      else if not env.created
      then (queue, false)
      else if not env.complete
      then (discard env dst queue, false)
      else if not env.synced
      then (discard env dst queue, false)
      else if not (text_eq (sha256 env.bytes) expected)
      then (discard env dst queue, false)
      else (insert dst env.bytes queue, true)

  -- A copy that returns nil has put bytes with the expected checksum at the destination.
  pub copy_and_verify_verified :
      (env : CopyEnv) (dst expected : Text) (queue : Assoc Text)
      → (copy_and_verify env dst expected queue).1 ≡ true
      → (lookup dst (copy_and_verify env dst expected queue).0 ≡ some env.bytes)
        × (sha256 env.bytes ≡ expected)
  unfolding copy_and_verify
  copy_and_verify_verified env dst expected queue h = ground (
    arith,
    text_eq_iff (sha256 env.bytes) expected,
    lookup-insert dst dst env.bytes queue,
    text_eq_refl dst,
  )

  -- A copy that fails leaves no file of that name that it wrote, where removals succeed: the
  -- destination is missing, or nothing was written and the queue is as it was.
  pub copy_and_verify_failed :
      (env : CopyEnv) (dst expected : Text) (queue : Assoc Text)
      → env.removable ≡ true
      → (copy_and_verify env dst expected queue).1 ≡ false
      → (if env.opened then env.created else false) ≡ true
      → lookup dst (copy_and_verify env dst expected queue).0 ≡ none
  unfolding copy_and_verify
  copy_and_verify_failed env dst expected queue r h w =
      ground (arith, lookup-erase dst dst queue, text_eq_refl dst)

  -- Other names of the queue are never touched.
  pub copy_and_verify_others :
      (env : CopyEnv) (dst other expected : Text) (queue : Assoc Text)
      → text_eq dst other ≡ false
      → lookup other (copy_and_verify env dst expected queue).0 ≡ lookup other queue
  unfolding copy_and_verify
  copy_and_verify_others env dst other expected queue h =
      ground (arith, lookup-erase dst other queue, lookup-insert dst other env.bytes queue)
