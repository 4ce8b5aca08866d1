-- ===== src/Secret/Blobs.antt =====
-- The round trips of internal/secret/secret.go.
use ivault.Common.{
  ℕ, zero, suc, ◌≡◌, refl, ap, ◌∙◌, false, Option, none, some, [], ◌∷◌, ◌++◌, length, length-append,
  take, drop, ltb, arith,
}
use ivault.Common.Text.{Text, has_prefix}
use ivault.Secret.{
  Aead, IsAead, magic, plain, encrypt, open_data, decrypt, or_text, encrypt_blob, decrypt_blob,
}

take_front : (xs ys : Text) (n : ℕ) → length xs ≡ n → take n (xs ++ ys) ≡ xs
take_front [] ys zero h = refl
take_front [] ys (suc n) h = absurd (omega arith)
take_front (x ∷ xs) ys zero h = absurd (omega arith)
take_front (x ∷ xs) ys (suc n) h = ap (λ r. x ∷ r) (take_front xs ys n (omega arith))

drop_front : (xs ys : Text) (n : ℕ) → length xs ≡ n → drop n (xs ++ ys) ≡ ys
drop_front [] ys zero h = refl
drop_front [] ys (suc n) h = absurd (omega arith)
drop_front (x ∷ xs) ys zero h = absurd (omega arith)
drop_front (x ∷ xs) ys (suc n) h = drop_front xs ys n (omega arith)

module _ (m : Aead) (law : IsAead m) (nonce s : Text) (size : length nonce ≡ m.nonce_size) where
  pub open_data-seal : open_data m (some (nonce ++ m.seal nonce s)) ≡ plain s
  open_data-seal =
      let long : ltb (length (nonce ++ m.seal nonce s)) m.nonce_size ≡ false =
        ground (arith, length-append nonce (m.seal nonce s)) in
      rw
        (
          long,
          take_front nonce (m.seal nonce s) m.nonce_size size,
          drop_front nonce (m.seal nonce s) m.nonce_size size,
          law.open-seal nonce s,
        )
        refl

  decrypt-encrypt : decrypt m (magic ++ m.encode (nonce ++ m.seal nonce s)) ≡ plain s
  unfolding decrypt has_prefix
  decrypt-encrypt = ap (open_data m) (law.decode-encode (nonce ++ m.seal nonce s)) ∙ open_data-seal

decrypt_old : (m : Aead) (s : Text) → has_prefix s magic ≡ false → or_text (decrypt m s) s ≡ s
unfolding decrypt
decrypt_old m s h = rw h refl

-- A random source that answers gives as many bytes as the nonce has.
abbrev pub IsNonceFor : Option Aead → Option Text → Type 0
IsNonceFor (some m) (some nonce) = length nonce ≡ m.nonce_size
IsNonceFor _ _ = Unit

abbrev pub IsSound : Option Aead → Type 0
IsSound none = Unit
IsSound (some m) = IsAead m

-- What is stored is read back, with or without a manager and where the random source fails: a text
-- that does not look encrypted survives encryptBlob and decryptBlob, and so does the same text
-- stored before there was a key.
pub decrypt_blob-encrypt_blob :
    (m : Option Aead) (random : Option Text) (s : Text)
    → IsSound m
    → IsNonceFor m random
    → has_prefix s magic ≡ false
    → (decrypt_blob m (encrypt_blob m random s) ≡ s) × (decrypt_blob m s ≡ s)
unfolding decrypt_blob encrypt_blob encrypt
decrypt_blob-encrypt_blob none random s law size h = (refl, refl)
decrypt_blob-encrypt_blob (some m) none s law size h = (decrypt_old m s h, decrypt_old m s h)
decrypt_blob-encrypt_blob (some m) (some nonce) s law size h = (
  ap (λ r. or_text r (magic ++ m.encode (nonce ++ m.seal nonce s)))
      (decrypt-encrypt m law nonce s size),
  decrypt_old m s h,
)
