-- ===== src/Ingest/Drive.antt =====
-- internal/ingest/ingest.go: mounting the drive, and what Run measures of it first.
use ivault.Common.{
  ℕ, zero, suc, ◌+◌, ◌-◌, ◌*◌, ◌%◌, ◌^◌, ◌≤◌, Bool, true, false, Option, none, some, List, [], ◌∷◌,
  ◌++◌, arith, ltb, if◌then◌else◌,
}
use ivault.Common.Text.{Text, codes, text_eq, has_prefix, trim_space}
use ivault.Common.Decimal.{format_uint}
use ivault.Db.{Db, attempt, set_config}

-- The loop devices that back the image, and what is mounted at the mount point.
pub record Devices : Type 0 where
  pub loops : List Text
  pub mounted : Option Text

-- What the tools answer: whether a device node is there, at which of the waits; the output of
-- losetup, `none` for an error; whether mount succeeds; the loops that losetup lists later; and
-- whether umount and a later `losetup -d` work.
pub record Tools : Type 0 where
  pub node : ℕ → Text → Bool
  pub losetup : Option Text
  pub mounts : Text → Bool
  pub listed : Option (List Text)
  pub umounts : Bool
  pub detaches : Text → Bool

unfoldable pub without : Text → List Text → List Text
unfolding text_eq
without l [] = []
without l (k ∷ ks) = let rest = without l ks in if text_eq k l then rest else k ∷ rest

-- `losetup -d`, whose error is ignored.
abbrev pub detach : Tools → Text → List Text → List Text
unfolding without
detach t l loops = if t.detaches l then without l loops else loops

unfoldable pub detach_all : Tools → List Text → List Text → List Text
unfolding detach
detach_all t [] loops = loops
detach_all t (l ∷ ls) loops = detach_all t ls (detach t l loops)

abbrev pub partition_of : Tools → Text → Text
partition_of t device =
    if t.node 0 (device ++ codes "p1")
    then device ++ codes "p1"
    else if t.node 0 (device ++ codes "1")
    then device ++ codes "1"
    else device

-- The waits for the first partition of a loop device; the first number is what is left of them.
unfoldable pub target_of : Tools → ℕ → ℕ → Text → Text
target_of t zero i loop = loop
target_of t (suc n) i loop =
    let later = target_of t n (i + 1) loop in
    if t.node i (loop ++ codes "p1") then loop ++ codes "p1" else later

abbrev pub mount_loop : Tools → Devices → Option Text → Devices × Bool
unfolding detach target_of trim_space
mount_loop t d none = (d, false)
mount_loop t d (some out) =
    let loop = trim_space out in
    let target = target_of t 20 0 loop in
    if t.mounts target
    then (record { loops = loop ∷ d.loops; mounted = some target }, true)
    else (record d { loops = detach t loop (loop ∷ d.loops) }, false)

-- Mount
unfoldable pub mount : Tools → Text → Devices → Devices × Bool
unfolding has_prefix mount_loop
mount t image d =
    let partition = partition_of t image in
    if has_prefix image (codes "/dev/")
    then if t.mounts partition then (record d { mounted = some partition }, true) else (d, false)
    else mount_loop t d t.losetup

abbrev pub listed_loops : Tools → Text → List Text
unfolding has_prefix
listed_loops t image =
    if has_prefix image (codes "/dev/") then [] else elim t.listed [ none ↦ [] | some ls ↦ ls ]

-- Unmount; it always returns nil, also where umount fails and the drive stays mounted.
unfoldable pub unmount : Tools → Text → Devices → Devices
unfolding detach_all listed_loops
unmount t image d = record {
  loops = detach_all t (listed_loops t image) d.loops;
  mounted = if t.umounts then none else d.mounted;
}

-- diskUsageBytes on what statfs answers: block size, blocks and free blocks.
pub record Statfs : Type 0 where
  pub bsize : ℕ
  pub blocks : ℕ
  pub bfree : ℕ

unfoldable pub disk_usage_bytes : Statfs → ℕ × ℕ
disk_usage_bytes st =
    let total = st.blocks * st.bsize % 2 ^ 64 in
    let free = st.bfree * st.bsize % 2 ^ 64 in
    let left = if ltb total free then total else free in (total - left, total)

abbrev pub line_of : Option Text → Text
unfolding trim_space
line_of none = []
line_of (some out) = trim_space out

-- readVolumeLabel, with the outputs of findmnt and, for a source, of blkid.
unfoldable pub read_volume_label : Option Text → (Text → Option Text) → Text
unfolding text_eq line_of
read_volume_label found blkid =
    let source = line_of found in if text_eq source [] then [] else line_of (blkid source)

-- What Run stores before it loads the filters; `saved` is the driver's answer for a key.
module _ (saved : Text → Bool) (now : Text) where
  unfoldable pub put : Text → Text → Db → Db
  unfolding set_config
  put key value d = attempt (saved key) (set_config key value) d

  unfoldable pub record_usage : Option Statfs → Db → Db
  unfolding disk_usage_bytes put format_uint
  record_usage none d = d
  record_usage (some st) d =
      let (used, total) = disk_usage_bytes st in
      if ltb 0 total
      then put (codes "ext_drive_measured_at") now (
          put (codes "ext_drive_total_bytes") (format_uint total)
            (put (codes "ext_drive_used_bytes") (format_uint used) d))
      else d

  unfoldable pub record_label : Text → Db → Db
  unfolding put
  record_label [] d = d
  record_label (c ∷ label) d = put (codes "ext_drive_label") (c ∷ label) d

-- Used bytes never exceed the total, whatever statfs answers.
used_le_total : (st : Statfs) → (disk_usage_bytes st).0 ≤ (disk_usage_bytes st).1
unfolding disk_usage_bytes
used_le_total st = ground arith
