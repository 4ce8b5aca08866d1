-- ===== src/Secret.antt =====
-- internal/secret/secret.go: secrets at rest, and how internal/agent/heartbeat.go stores a text with
-- them. AES-256-GCM, base64 and the random source are the parameter `Aead`; texts are bytes here.
pub mod Blobs
use ivault.Common.{
  ℕ, ◌≡◌, ◌≤◌, Bool, true, false, not, Option, none, some, List, [], ◌∷◌, ◌++◌, length, take, drop,
  ltb, leb, ◌==◌, if◌then◌else◌,
}
use ivault.Common.Text.{Text, codes, has_prefix}

-- crypto/cipher.AEAD with its key, and encoding/base64.
pub record Aead : Type 0 where
  pub nonce_size : ℕ
  pub seal : Text → Text → Text
  pub open_sealed : Text → Text → Option Text
  pub encode : Text → Text
  pub decode : Text → Option Text

-- What the packages promise: opening with the same nonce and key gives back what was sealed, and
-- decoding what was encoded.
pub record IsAead (m : Aead) : Type 0 where
  pub open-seal : (nonce plain : Text) → m.open_sealed nonce (m.seal nonce plain) ≡ some plain
  pub decode-encode : (s : Text) → m.decode (m.encode s) ≡ some s

abbrev pub magic : Text
magic = codes "v1:"

pub data Failure : Type 0 where
  not_encrypted bad_base64 too_short refused no_random : Failure

pub data Result : Type 0 where
  plain : Text → Result
  failed : Failure → Result

module _ (m : Aead) where
  -- Seal appends to its first argument, the nonce. `none` is an error of the random source.
  unfoldable pub encrypt : Option Text → Text → Result
  encrypt none s = failed no_random
  encrypt (some nonce) s = plain (magic ++ m.encode (nonce ++ m.seal nonce s))

  abbrev pub opened : Option Text → Result
  opened none = failed refused
  opened (some s) = plain s

  abbrev pub open_data : Option Text → Result
  open_data none = failed bad_base64
  open_data (some bytes) =
      if ltb (length bytes) m.nonce_size
      then failed too_short
      else opened (m.open_sealed (take m.nonce_size bytes) (drop m.nonce_size bytes))

  unfoldable pub decrypt : Text → Result
  unfolding has_prefix
  decrypt s =
      if not (has_prefix s magic) then failed not_encrypted else open_data (m.decode (drop 3 s))

-- The result, or the text as it is.
abbrev pub or_text : Result → Text → Text
or_text (plain t) s = t
or_text (failed e) s = s

-- encryptBlob and decryptBlob; `none` is a nil manager.
unfoldable pub encrypt_blob : Option Aead → Option Text → Text → Text
unfolding encrypt
encrypt_blob none random s = s
encrypt_blob (some m) random s = or_text (encrypt m random s) s

unfoldable pub decrypt_blob : Option Aead → Text → Text
unfolding decrypt
decrypt_blob none s = s
decrypt_blob (some m) s = or_text (decrypt m s) s

-- loadOrCreateKey: the file, the random key, and whether directory and file can be written. The
-- second part is the key file afterwards, `none` where there is no whole one.
unfoldable pub load_or_create_key :
    Option Text → Option Text → Bool → Bool → Option Text × Option Text
load_or_create_key (some b) fresh made written = (if length b == 32 then some b else none, some b)
load_or_create_key none none made written = (none, none)
load_or_create_key none (some key) false written = (none, none)
load_or_create_key none (some key) true false = (none, none)
load_or_create_key none (some key) true true = (some key, some key)
