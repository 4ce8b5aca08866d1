-- ===== src/Heartbeat/Destinations.antt =====
-- The destinations of the portal (internal/agent/heartbeat.go): kept in memory, in the config table
-- through internal/secret, and loaded at the next start.
use ivault.Common.{
  ◌≡◌, refl, ap, sym, ◌∙◌, Bool, true, false, Option, none, some, List, [], inl, inr, Bool-cases,
}
use ivault.Common.Text.{Text, codes, text_eq, text_eq_iff, text_eq_refl, has_prefix}
use ivault.Db.{Db}
use ivault.Secret.{Aead, magic, encrypt_blob, decrypt_blob}
use ivault.Secret.Blobs.{IsSound, IsNonceFor, decrypt_blob-encrypt_blob}
use ivault.Heartbeat.{Agent, sync_destinations, load_destinations}
use ivault.Heartbeat.Watermark.{config_or_empty-put}

-- What encoding/json promises of a list of messages; its text is never empty and no ciphertext.
pub record IsCodec {Raw : Type 0} (marshal : List Raw → Text) (unmarshal : Text → Option (List Raw))
    : Type 0 where
  pub unmarshal-marshal : (ds : List Raw) → unmarshal (marshal ds) ≡ some ds
  pub not_empty : (ds : List Raw) → text_eq (marshal ds) [] ≡ false
  pub not_magic : (ds : List Raw) → has_prefix (marshal ds) magic ≡ false

decrypt_blob_empty : (m : Option Aead) → decrypt_blob m [] ≡ []
unfolding decrypt_blob has_prefix
decrypt_blob_empty none = refl
decrypt_blob_empty (some m) = refl

module _ {Raw : Type 0} (marshal : List Raw → Text) (unmarshal : Text → Option (List Raw))
    (manager : Option Aead) (saved : Text → Bool) (codec : IsCodec marshal unmarshal) where
  stored_not_empty :
      (random : Option Text) (ds : List Raw)
      → IsSound manager
      → IsNonceFor manager random
      → text_eq (encrypt_blob manager random (marshal ds)) [] ≡ false
  stored_not_empty random ds sound size =
      let stored = encrypt_blob manager random (marshal ds) in
      elim (Bool-cases (text_eq stored [])) [
        | inr e ↦ e
        | inl e ↦
            let back =
              decrypt_blob-encrypt_blob manager random (marshal ds) sound size
                (codec.not_magic ds) in
            let none_left : marshal ds ≡ [] =
              sym back.0
              ∙ ap (decrypt_blob manager) ((text_eq_iff stored []).0 e)
              ∙ decrypt_blob_empty manager in
            cc (ap (λ t. text_eq t []) none_left, codec.not_empty ds, text_eq_refl [])
      ]

-- The destinations of a heartbeat's answer are in use at once, and a daemon that starts later and
-- finds the table so loads the same destinations, whether they could be encrypted or not.
pub load_destinations-sync_destinations :
    {Raw : Type 0} (marshal : List Raw → Text) (unmarshal : Text → Option (List Raw))
    (manager : Option Aead) (saved is_zone : Text → Bool) (random : Option Text) (ds : List Raw)
    (a fresh : Agent Raw) (d : Db)
    → IsCodec marshal unmarshal
    → IsSound manager
    → IsNonceFor manager random
    → saved (codes "active_destinations") ≡ true
    → text_eq (marshal ds) a.last_dest_json ≡ false
    → let r = sync_destinations marshal unmarshal manager saved is_zone random ds a d in
      (r.0.active ≡ ds)
      × ((load_destinations marshal unmarshal manager saved is_zone fresh r.1).active ≡ ds)
unfolding sync_destinations load_destinations
load_destinations-sync_destinations marshal unmarshal manager saved is_zone random ds a fresh d
      codec sound size kept changed =
    let stored = encrypt_blob manager random (marshal ds) in
    let back =
      decrypt_blob-encrypt_blob manager random (marshal ds) sound size (codec.not_magic ds) in
    simp changed (
      refl,
      simp
          (
            config_or_empty-put saved (codes "active_destinations") stored d kept,
            stored_not_empty marshal unmarshal manager saved codec random ds sound size,
            back.0,
            codec.unmarshal-marshal ds,
          )
          refl,
    )
