-- ===== src/Upload.antt =====
-- internal/upload/upload.go: destinations, the paths at a destination, and the settings of the
-- upload engine. Upload/Pool has the engine, its children the proofs.
pub mod Pool
pub mod Masking
pub mod Rclone
pub mod Reach
use ivault.Common.{
  ℕ, ◌+◌, Bool, true, false, not, ◌&&◌, List, [], ◌∷◌, ◌++◌, any, leb, if◌then◌else◌,
}
use ivault.Common.Text.{Text, codes, text_eq, byte_length}
use ivault.Common.Int.{ℤ, pos, negsuc}
use ivault.Common.Decimal.{format_uint}
use ivault.Common.Paths.{join_two, dir}
use ivault.Db.{File}

abbrev pub max_upload_attempts : ℕ
max_upload_attempts = 3

pub record Destination : Type 0 where
  pub id : Text
  pub name : Text
  pub type : Text
  pub host : Text
  pub share : Text
  pub subfolder : Text
  pub username : Text
  pub password : Text
  pub domain : Text
  pub path : Text
  pub client_id : Text
  pub client_secret : Text

pub record UploadConfig : Type 0 where
  pub upload_queue : Text
  pub destinations : List Destination
  pub workers : ℤ
  pub device_folder : Text

-- MaskSecret
unfoldable pub mask_secret : Text → Text
unfolding byte_length format_uint
mask_secret [] = codes "<empty>"
mask_secret (c ∷ s) = codes "<present, len=" ++ format_uint (byte_length (c ∷ s)) ++ codes ">"

-- The closures remoteRel and remoteDst of UploadAll; the remote is named REMOTE.
unfoldable pub remote_rel : UploadConfig → Text → Text
unfolding text_eq
remote_rel cfg name =
    if text_eq cfg.device_folder [] then name else cfg.device_folder ++ b'/' ∷ name

unfoldable pub remote_dst : Destination → Text → Text
unfolding text_eq join_two
remote_dst target rel =
    if text_eq target.type (codes "google_drive")
    then codes "REMOTE:" ++ rel
    else if text_eq target.type (codes "smb")
    then codes "REMOTE:" ++ target.share ++ b'/' ∷ join_two target.subfolder rel
    else codes "REMOTE:" ++ target.subfolder ++ b'/' ∷ rel

-- The parent directories of the queued files, each once, in the order of their first file.
abbrev pub keep_dir : Text → List Text → List Text
keep_dir d seen =
    if text_eq d (codes ".")
    then seen
    else if text_eq d (codes "/")
    then seen
    else if text_eq d []
    then seen
    else if any (text_eq d) seen
    then seen
    else seen ++ d ∷ []

unfoldable pub unique_dirs : UploadConfig → List File → List Text → List Text
unfolding remote_rel dir text_eq any
unique_dirs cfg [] seen = seen
unique_dirs cfg (f ∷ fs) seen = unique_dirs cfg fs (keep_dir (dir (remote_rel cfg f.filename)) seen)

-- The number of slots: `workers`, or 2 where it is not positive.
abbrev pub slots : ℤ → ℕ
slots (negsuc n) = 2
slots (pos n) = if leb n 0 then 2 else n

-- The name that the portal shows for a destination.
unfoldable pub display_name : Destination → Text
unfolding text_eq
display_name d = if text_eq d.name [] then d.type else d.name
