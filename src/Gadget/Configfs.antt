-- ===== src/Gadget/Configfs.antt =====
-- internal/gadget/gadget.go: the USB mass storage gadget in configfs. What has been asked of the
-- kernel is the history, the latest first, each call with its answer; waits leave no trace.
use ivault.Common.{
  ℕ, zero, suc, Bool, true, false, not, ◌&&◌, Option, none, some, List, [], ◌∷◌, ◌++◌, length, take,
  leb, if◌then◌else◌,
}
use ivault.Common.Text.{Text, codes, text_eq, trim_space}

-- os.WriteFile, os.MkdirAll, os.Symlink, os.Remove, rmdir and sync. Paths below the gadget's
-- directory are written without it.
pub data Call : Type 0 where
  write : Text → Text → Call
  make_dir link unlink remove_dir : Text → Call
  sync : Call

abbrev pub History : Type 0
History = List (Call × Bool)

abbrev pub udc_file : Text
udc_file = codes "UDC"

abbrev pub lun : Text → Text
lun name = codes "functions/mass_storage.0/lun.0/" ++ name

abbrev pub lun_file : Text
lun_file = lun (codes "file")

abbrev pub symlink : Text
symlink = codes "configs/c.1/mass_storage.0"

abbrev pub function_dir : Text
function_dir = codes "functions/mass_storage.0"

-- What Lstat finds at a path.
pub data Node : Type 0 where
  missing a_link a_directory : Node

-- The kernel: its answer to a call, what a path is (os.Stat and os.Lstat), whether the error of a
-- refused write is "device or resource busy", and what a file reads as.
pub record Kernel : Type 0 where
  pub answer : History → Call → Bool
  pub node : History → Text → Node
  pub busy : History → Bool
  pub content : History → Text → Text

abbrev pub is_there : Node → Bool
is_there missing = false
is_there _ = true

-- The writes of Attach before the link. The order in which a map is walked is left open:
-- `ids` and `names` are the writes of the two maps in some order.
unfoldable pub set_up : Text → List Call → List Call → List Call
set_up image ids names =
    (make_dir [] ∷ ids)
    ++ (make_dir (codes "strings/0x409") ∷ names)
    ++ (make_dir (codes "configs/c.1/strings/0x409")
        ∷ write (codes "configs/c.1/strings/0x409/configuration") (codes "Mass Storage")
        ∷ write (codes "configs/c.1/MaxPower") (codes "250")
        ∷ make_dir function_dir
        ∷ write (codes "functions/mass_storage.0/stall") (codes "0")
        ∷ write (lun (codes "removable")) (codes "1")
        ∷ write (lun (codes "ro")) (codes "0")
        ∷ write (lun (codes "cdrom")) (codes "0")
        ∷ write lun_file image
        ∷ [])

abbrev pub or_newline : Text → Text
or_newline [] = codes "\n"
or_newline (c ∷ s) = c ∷ s

module _ (k : Kernel) where
  abbrev pub ask : Call → History → History
  ask c h = (c, k.answer h c) ∷ h

  -- A loop that asks until the kernel agrees; the number is what is left of its attempts.
  unfoldable pub retry : ℕ → Call → History → History × Bool
  retry zero c h = (h, false)
  retry (suc n) c h =
      let more = retry n c (ask c h) in if k.answer h c then (ask c h, true) else more

  -- Calls of which the first that fails ends the function.
  unfoldable pub all_of : List Call → History → History × Bool
  all_of [] h = (h, true)
  all_of (c ∷ cs) h =
      let more = all_of cs (ask c h) in if k.answer h c then more else (ask c h, false)

  abbrev pub tear_node : Node → Text → History → History
  unfolding retry
  tear_node missing path h = h
  tear_node a_link path h = ask (unlink path) h
  tear_node a_directory path h = (retry 5 (remove_dir path) h).0

  unfoldable pub tear_down : List Text → History → History
  unfolding tear_node
  tear_down [] h = h
  tear_down (p ∷ ps) h = tear_down ps (tear_node (k.node h p) p h)

  -- Detach; it always returns nil. The last path is the gadget's own directory.
  unfoldable pub detach : History → History
  unfolding retry tear_down
  detach h =
      if is_there (k.node h [])
      then tear_down
          (symlink
            ∷ codes "configs/c.1/strings/0x409"
            ∷ codes "configs/c.1"
            ∷ function_dir
            ∷ codes "strings/0x409"
            ∷ []
            ∷ [])
          (retry 5 (write udc_file []) h).0
      else h

  abbrev pub link_unless_there : History → History × Bool
  link_unless_there h =
      if is_there (k.node h symlink)
      then (h, true)
      else (ask (link symlink) h, k.answer h (link symlink))

  unfoldable pub bind : Text → History × Bool → History × Bool
  unfolding retry
  bind udc (h, false) = (h, false)
  bind udc (h, true) = retry 10 (write udc_file udc) h

  unfoldable pub link_and_bind : Text → History × Bool → History × Bool
  unfolding bind
  link_and_bind udc (h, false) = (h, false)
  link_and_bind udc (h, true) = bind udc (link_unless_there h)

  -- Attach
  unfoldable pub attach : Text → Text → List Call → List Call → History → History × Bool
  unfolding detach all_of set_up link_and_bind
  attach image udc ids names h = link_and_bind udc (all_of (set_up image ids names) (detach h))

  -- Eject
  unfoldable pub eject : History → History × Bool
  unfolding retry
  eject h =
      let synced = ask sync h in
      let forced = write (lun (codes "forced_eject")) (codes "1\n") in
      let plain = retry 5 (write lun_file (codes "\n")) synced in
      let after = retry 5 (write lun_file (codes "\n")) (ask forced synced) in
      if not (is_there (k.node h lun_file))
      then (h, true)
      else if is_there (k.node synced (lun (codes "forced_eject")))
      then if k.answer synced forced then (ask forced synced, true) else after
      else plain

  -- The loop of Load: a refused write is enough where the file names the image already.
  unfoldable pub load_loop : ℕ → Text → History → History × Bool
  unfolding trim_space text_eq
  load_loop zero image h = (h, false)
  load_loop (suc n) image h =
      let c = write lun_file (image ++ codes "\n") in
      let more = load_loop n image (ask c h) in
      if k.answer h c
      then (ask c h, true)
      else if k.busy (ask c h)
          && text_eq (trim_space (k.content (ask c h) lun_file)) (trim_space image)
      then (ask c h, true)
      else more

  -- Load
  unfoldable pub load : Text → History → History × Bool
  unfolding load_loop
  load image h = if is_there (k.node h lun_file) then load_loop 5 image h else (h, false)

  -- SetUDC
  unfoldable pub set_udc : Text → History → History × Bool
  unfolding retry
  set_udc udc h =
      if is_there (k.node h udc_file)
      then retry 5 (write udc_file (or_newline udc)) h
      else (h, false)

  -- IsAttached
  unfoldable pub is_attached : History → Bool
  is_attached h = is_there (k.node h [])

abbrev pub serial_of : Text → Text
serial_of id =
    if leb 12 (length id) then codes "relay-" ++ take 12 id else codes "relay-000000000000"

-- deviceSerial, from the text of /etc/machine-id where it can be read.
unfoldable pub device_serial : Option Text → Text
unfolding trim_space
device_serial none = codes "relay-000000000000"
device_serial (some bytes) = serial_of (trim_space bytes)

-- State, of the controller, from its state file.
unfoldable pub state : Option Text → Text
unfolding trim_space
state none = codes "unknown"
state (some bytes) = trim_space bytes
