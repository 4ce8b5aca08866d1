-- ===== src/Network/Key.antt =====
-- internal/provision/crypto.go: the key of a provision file and the password sealed with it. A text
-- is a list of bytes here, as in ivault.Secret.
use ivault.Common.{Option, none, some, [], ◌∷◌, length, ◌==◌, if◌then◌else◌}
use ivault.Common.Text.{Text, codes}
use ivault.Secret.{Aead, Result, open_data}

abbrev pub built_in_key : Text
built_in_key = codes "iVault-Appliance-Secret-Key-2026"

abbrev pub of_32_bytes : Option Text → Option Text
of_32_bytes none = none
of_32_bytes (some b) = if length b == 32 then some b else none

abbrev pub or_decoded : Option Text → Option Text → Option Text
or_decoded (some k) other = some k
or_decoded none other = other

-- encoding/base64 and encoding/hex are the first two arguments.
unfoldable pub parse_key : (Text → Option Text) → (Text → Option Text) → Text → Option Text
parse_key base64 hex v =
    if length v == 32 then some v else or_decoded (of_32_bytes (base64 v)) (of_32_bytes (hex v))

abbrev pub key_or_built_in : Option Text → Text
key_or_built_in (some k) = k
key_or_built_in none = built_in_key

-- `variable` is IVAULT_PROVISION_KEY, empty where it is not set.
unfoldable pub provisioning_key : (Text → Option Text) → (Text → Option Text) → Text → Text
unfolding parse_key
provisioning_key base64 hex [] = built_in_key
provisioning_key base64 hex (c ∷ v) = key_or_built_in (parse_key base64 hex (c ∷ v))

-- `gcm` is AES-256-GCM with a key.
unfoldable pub decrypt_wifi_password : (Text → Aead) → Text → Text → Result
decrypt_wifi_password gcm key s = open_data (gcm key) ((gcm key).decode s)
