-- ===== src/Gadget/Attaching.antt =====
-- The order of the writes of Attach (internal/gadget/gadget.go).
use mathlib.Core.List.{append_assoc}
use ivault.Common.{
  ◌≡◌, refl, ap, sym, ◌∙◌, Bool, true, false, ◌&&◌, ◌||◌, none, some, List, [], ◌∷◌, ◌++◌, inl, inr,
  arith, All, All-append, Bool-cases,
}
use ivault.Common.Text.{Text, codes, text_eq}
use ivault.Gadget.Configfs.{
  Call, write, make_dir, link, unlink, remove_dir, sync, History, udc_file, lun, lun_file, symlink,
  function_dir, Kernel, is_there, ask, retry, all_of, detach, set_up, link_unless_there, bind,
  link_and_bind, attach,
}
use ivault.Gadget.Medium.{medium, named, without_newline, if_true, if_false, medium_refused}

-- What the source says of the kernel: once the drive has a medium, it refuses to change what kind of
-- drive it is.
abbrev pub fixes_kind : Text → Bool
unfolding text_eq
fixes_kind p =
    text_eq p (lun (codes "removable"))
    || text_eq p (lun (codes "ro"))
    || text_eq p (lun (codes "cdrom"))

unfoldable pub is_blocked : History → Call → Bool
unfolding fixes_kind medium
is_blocked h (write p v) = fixes_kind p && elim (medium h) [ none ↦ false | some m ↦ true ]
is_blocked h _ = false

-- The calls that leave an empty drive empty.
abbrev pub IsAside : Call → Type 0
unfolding text_eq
IsAside (write p v) = text_eq p lun_file ≡ false
IsAside _ = Unit

free_if_empty : (c : Call) (h : History) → medium h ≡ none → is_blocked h c ≡ false
unfolding is_blocked
free_if_empty (write p v) h empty = elim (Bool-cases (fixes_kind p)) [
  | inl e ↦ simp (e, empty) refl
  | inr e ↦ simp e refl
]
free_if_empty (make_dir p) h empty = refl
free_if_empty (link p) h empty = refl
free_if_empty (unlink p) h empty = refl
free_if_empty (remove_dir p) h empty = refl
free_if_empty sync h empty = refl

-- Every write of Attach before the one that loads the drive.
abbrev last_writes : List Call
last_writes =
    make_dir (codes "configs/c.1/strings/0x409")
    ∷ write (codes "configs/c.1/strings/0x409/configuration") (codes "Mass Storage")
    ∷ write (codes "configs/c.1/MaxPower") (codes "250")
    ∷ make_dir function_dir
    ∷ write (codes "functions/mass_storage.0/stall") (codes "0")
    ∷ write (lun (codes "removable")) (codes "1")
    ∷ write (lun (codes "ro")) (codes "0")
    ∷ write (lun (codes "cdrom")) (codes "0")
    ∷ []

abbrev first_writes : List Call → List Call → List Call
first_writes ids names = (make_dir [] ∷ ids) ++ (make_dir (codes "strings/0x409") ∷ names)

abbrev aside_calls : List Call → List Call → List Call
aside_calls ids names = first_writes ids names ++ last_writes

set_up_split :
    (image : Text) (ids names : List Call)
    → set_up image ids names ≡ aside_calls ids names ++ write lun_file image ∷ []
unfolding set_up
set_up_split image ids names =
    sym (append_assoc (first_writes ids names) last_writes (write lun_file image ∷ []))

aside_calls-Aside :
    (ids names : List Call)
    → All IsAside ids
    → All IsAside names
    → All IsAside (aside_calls ids names)
unfolding text_eq
aside_calls-Aside ids names hi hn =
    All-append IsAside (first_writes ids names) last_writes
      (All-append IsAside (make_dir [] ∷ ids) (make_dir (codes "strings/0x409") ∷ names) (tt, hi)
        (tt, hn))
      (tt, (refl, (refl, (tt, (refl, (refl, (refl, (refl, tt))))))))

module _ (k : Kernel)
    (willing : (h : History) (c : Call) → is_blocked h c ≡ false → k.answer h c ≡ true) where
  accepted : (c : Call) (h : History) → medium h ≡ none → k.answer h c ≡ true
  unfolding is_blocked
  accepted c h empty = willing h c (free_if_empty c h empty)

  medium-aside :
      (c : Call) (h : History) (b : Bool) → IsAside c → medium h ≡ none → medium ((c, b) ∷ h) ≡ none
  unfolding medium
  medium-aside c h false aside empty = medium_refused c h ∙ empty
  medium-aside (write p v) h true aside empty = ground (arith, aside, empty)
  medium-aside (make_dir p) h true aside empty = empty
  medium-aside (link p) h true aside empty = empty
  medium-aside (unlink p) h true aside empty = empty
  medium-aside (remove_dir p) h true aside empty = ground (arith, empty)
  medium-aside sync h true aside empty = empty

  -- Calls that leave the drive empty, and then the one that loads it.
  all_of-load :
      (image : Text) (cs : List Call) (h : History)
      → All IsAside cs
      → medium h ≡ none
      → (before : History) × (all_of k (cs ++ write lun_file image ∷ []) h
          ≡ ((write lun_file image, true) ∷ before, true))
  unfolding all_of
  all_of-load image [] h aside empty =
      let agreed = accepted (write lun_file image) h empty in
      (
        h,
        if_true _ (ask k (write lun_file image) h, true) (ask k (write lun_file image) h, false)
              agreed
            ∙ ap (λ b. ((write lun_file image, b) ∷ h, true)) agreed,
      )
  all_of-load image (c ∷ cs) h aside empty =
      let (before, same) =
        all_of-load image cs (ask k c h) aside.1 (medium-aside c h (k.answer h c) aside.0 empty) in
      (
        before,
        if_true _ (all_of k (cs ++ write lun_file image ∷ []) (ask k c h)) (ask k c h, false)
              (accepted c h empty)
            ∙ same,
      )

  retry-bind :
      (udc : Text) (h : History)
      → retry k 10 (write udc_file udc) h ≡ ((write udc_file udc, true) ∷ h, true)
  unfolding retry is_blocked fixes_kind text_eq
  retry-bind udc h =
      let c = write udc_file udc in
      let agreed = willing h c refl in
      if_true _ (ask k c h, true) (retry k 9 c (ask k c h)) agreed
      ∙ ap (λ b. ((c, b) ∷ h, true)) agreed

  -- The link, whether it is there or not, and the controller at the first attempt.
  bind_linked :
      (udc : Text) (h : History)
      → (before : History) × (bind k udc (link_unless_there k h)
          ≡ ((write udc_file udc, true) ∷ before, true))
        × (medium before ≡ medium h)
  unfolding bind is_blocked medium
  bind_linked udc h =
      let agreed = willing h (link symlink) refl in
      let made : History × Bool = (ask k (link symlink) h, k.answer h (link symlink)) in
      elim (Bool-cases (is_there (k.node h symlink))) [
        | inl there ↦ (h, ap (bind k udc) (if_true _ (h, true) made there) ∙ retry-bind udc h, refl)
        | inr gone ↦ (
          (link symlink, true) ∷ h,
          ap (bind k udc)
                (if_false _ (h, true) made gone ∙ ap (λ b. ((link symlink, b) ∷ h, b)) agreed)
              ∙ retry-bind udc ((link symlink, true) ∷ h),
          refl,
        )
      ]

-- A kernel that refuses a write only where the drive has a medium already and the write would change
-- what kind of drive it is lets Attach through, in whatever order Attach walks its maps: once Detach
-- has left the drive empty, Attach returns nil, its last call binds the controller, and the medium by
-- then is the image. So the write of the image comes after those that fix the kind of drive.
pub attach_succeeds :
    (k : Kernel) (image udc : Text) (ids names : List Call) (h : History)
    → ((h : History) (c : Call) → is_blocked h c ≡ false → k.answer h c ≡ true)
    → All IsAside ids
    → All IsAside names
    → medium (detach k h) ≡ none
    → (before : History) × (attach k image udc ids names h
        ≡ ((write udc_file udc, true) ∷ before, true))
      × (medium before ≡ named (without_newline image))
unfolding attach link_and_bind medium text_eq
attach_succeeds k image udc ids names h willing hi hn empty =
    let (start, loaded) =
      all_of-load k willing image (aside_calls ids names) (detach k h)
        (aside_calls-Aside ids names hi hn) empty in
    let (before, bound, same) = bind_linked k willing udc ((write lun_file image, true) ∷ start) in
    (
      before,
      ap (λ cs. link_and_bind k udc (all_of k cs (detach k h))) (set_up_split image ids names)
          ∙ ap (link_and_bind k udc) loaded
          ∙ bound,
      same,
    )
