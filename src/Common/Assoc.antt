-- ===== src/Common/Assoc.antt =====
-- Finite maps with text keys: the config table, the upload queue, the files of a drive.
use ivault.Common.{◌≡◌, refl, Option, none, some, List, [], ◌∷◌, arith, if◌then◌else◌}
use ivault.Common.Text.{Text, text_eq, text_eq_iff}

abbrev pub Assoc {ℓ} : Type ℓ → Type ℓ
Assoc V = List (Text × V)

module _ {ℓ} {V : Type ℓ} where
  unfoldable pub lookup : Text → Assoc V → Option V
  lookup key [] = none
  lookup key ((k, v) ∷ rest) = if text_eq k key then some v else lookup key rest

  unfoldable pub insert : Text → V → Assoc V → Assoc V
  insert key value [] = (key, value) ∷ []
  insert key value ((k, v) ∷ rest) =
      if text_eq k key then (key, value) ∷ rest else (k, v) ∷ insert key value rest

  unfoldable pub erase : Text → Assoc V → Assoc V
  erase key [] = []
  erase key ((k, v) ∷ m) = let rest = erase key m in if text_eq k key then rest else (k, v) ∷ rest

  pub lookup-insert :
      (k j : Text) (v : V) (m : Assoc V)
      → lookup j (insert k v m) ≡ (if text_eq k j then some v else lookup j m)
  unfolding lookup insert
  lookup-insert k j v [] = refl
  lookup-insert k j v ((i, w) ∷ m) =
      ground (arith, text_eq_iff k j, text_eq_iff i k, text_eq_iff i j, lookup-insert k j v m)

  pub lookup-erase :
      (k j : Text) (m : Assoc V) → lookup j (erase k m) ≡ (if text_eq k j then none else lookup j m)
  unfolding lookup erase
  lookup-erase k j [] = ground arith
  lookup-erase k j ((i, w) ∷ m) =
      ground (arith, text_eq_iff k j, text_eq_iff i k, text_eq_iff i j, lookup-erase k j m)
