-- ===== src/Daemon/Folders.antt =====
-- The device's folder at the destinations (main.go, `uploadDeviceFolder`).
use mathlib.Core.List.{reverse, reverse_aux}
use ivault.Common.{
  ℕ, ◌≡◌, refl, Bool, true, false, [], ◌∷◌, inl, inr, All, All-append, Bool-cases, ◌==◌, take, zero,
  suc, if◌then◌else◌,
}
use ivault.Common.Text.{Text, codes, text_eq, trim_left, trim_by, trim_space, is_space}
use ivault.Daemon.Background.{is_kept, replace_others, sanitize_folder_name, upload_device_folder}

-- Letters, digits, space, dot, dash and underscore only: no separator of folders.
abbrev pub IsClean : Text → Type 0
IsClean s = All (λ c. is_kept c ≡ true) s

Clean-reverse_aux : (s t : Text) → IsClean s → IsClean t → IsClean (reverse_aux s t)
Clean-reverse_aux [] t h k = k
Clean-reverse_aux (c ∷ s) t h k = Clean-reverse_aux s (c ∷ t) h.1 (h.0, k)

Clean-trim_left : (p : ℕ → Bool) (s : Text) → IsClean s → IsClean (trim_left p s)
unfolding trim_left
Clean-trim_left p [] h = tt
Clean-trim_left p (c ∷ s) h = elim (Bool-cases (p c)) [
  | inl e ↦ rw e (Clean-trim_left p s h.1)
  | inr e ↦ rw e h
]

Clean-trim_by : (p : ℕ → Bool) (s : Text) → IsClean s → IsClean (trim_by p s)
unfolding trim_by
Clean-trim_by p s h =
    Clean-reverse_aux (trim_left p (reverse (trim_left p s))) []
      (Clean-trim_left p (reverse (trim_left p s))
        (Clean-reverse_aux (trim_left p s) [] (Clean-trim_left p s h) tt))
      tt

Clean-replace_others : (b : Bool) (s : Text) → IsClean (replace_others b s)
unfolding replace_others
Clean-replace_others b [] = tt
Clean-replace_others b (c ∷ s) = elim (Bool-cases (is_kept c)) [
  | inl e ↦ rw e (e, Clean-replace_others false s)
  | inr e ↦ elim (Bool-cases b) [
    | inl f ↦ rw (e, f) (Clean-replace_others true s)
    | inr f ↦ rw (e, f) (refl, Clean-replace_others true s)
  ]
]

Clean-sanitize_folder_name : (s : Text) → IsClean (sanitize_folder_name s)
unfolding sanitize_folder_name trim_space
Clean-sanitize_folder_name s =
    let replaced = replace_others false (trim_space s) in
    Clean-trim_by (λ c. c == b'-') (trim_by is_space replaced)
      (Clean-trim_by is_space replaced (Clean-replace_others false (trim_space s)))

Clean-take : (n : ℕ) (s : Text) → IsClean s → IsClean (take n s)
Clean-take zero s h = tt
Clean-take (suc n) [] h = tt
Clean-take (suc n) (c ∷ s) h = (h.0, Clean-take n s h.1)

Clean-named : (b : Bool) (s : Text) → IsClean s → IsClean (if b then codes "Relay" else s)
unfolding is_kept
Clean-named true s h = (refl, (refl, (refl, (refl, (refl, tt)))))
Clean-named false s h = h

-- Whatever the device is called, its folder is one folder name of letters, digits, space, dot, dash
-- and underscore, where the id of the device is made of these.
pub upload_device_folder-IsClean :
    (name id : Text) → IsClean id → IsClean (upload_device_folder name id)
unfolding upload_device_folder
upload_device_folder-IsClean name id h =
    let clean =
      Clean-named (text_eq (sanitize_folder_name name) []) (sanitize_folder_name name)
        (Clean-sanitize_folder_name name) in
    elim (Bool-cases (text_eq (trim_space id) [])) [
      | inl e ↦ rw e clean
      | inr e ↦ rw e (
          All-append (λ c. is_kept c ≡ true)
            (if text_eq (sanitize_folder_name name) []
              then codes "Relay"
              else sanitize_folder_name name)
            (b'-' ∷ take 6 (trim_space id)) clean
            (refl, Clean-take 6 (trim_space id) (unfold trim_space in Clean-trim_by is_space id h)))
    ]
