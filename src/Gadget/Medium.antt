-- ===== src/Gadget/Medium.antt =====
-- The medium of the USB gadget (internal/gadget/gadget.go): what Attach, Load and Eject leave in it.
use ivault.Common.{
  ℕ, zero, suc, ◌≡◌, ◌≢◌, refl, ap, sym, ◌∙◌, Bool, true, false, not, ◌&&◌, Option, none, some, [],
  ◌∷◌, ◌++◌, inl, inr, arith, Bool-cases, ◌==◌, if◌then◌else◌,
}
use ivault.Common.Text.{Text, codes, text_eq, text_eq_iff, trim_space}
use ivault.Gadget.Configfs.{
  Call, write, make_dir, link, unlink, remove_dir, sync, History, lun, lun_file, function_dir,
  Kernel, is_there, ask, retry, eject, load_loop, load,
}

-- The kernel drops one newline at the end of a written path; the empty path is no medium.
unfoldable pub without_newline : Text → Text
without_newline [] = []
without_newline (c ∷ []) = if c == b'\n' then [] else c ∷ []
without_newline (c ∷ d ∷ s) = c ∷ without_newline (d ∷ s)

abbrev pub named : Text → Option Text
named [] = none
named (c ∷ s) = some (c ∷ s)

-- The medium after the calls, from their answers.
unfoldable pub medium : History → Option Text
unfolding without_newline text_eq
medium [] = none
medium ((write p v, true) ∷ h) =
    if text_eq p lun_file
    then named (without_newline v)
    else if text_eq p (lun (codes "forced_eject"))
    then none
    else medium h
medium ((remove_dir p, true) ∷ h) = if text_eq p function_dir then none else medium h
medium (_ ∷ h) = medium h

without_newline-append : (s : Text) → without_newline (s ++ b'\n' ∷ []) ≡ s
unfolding without_newline
without_newline-append [] = refl
without_newline-append (c ∷ []) = refl
without_newline-append (c ∷ d ∷ s) = ap (λ r. c ∷ r) (without_newline-append (d ∷ s))

pub medium_refused : (c : Call) (h : History) → medium ((c, false) ∷ h) ≡ medium h
unfolding medium
medium_refused (write p v) h = refl
medium_refused (make_dir p) h = refl
medium_refused (link p) h = refl
medium_refused (unlink p) h = refl
medium_refused (remove_dir p) h = refl
medium_refused sync h = refl

pub if_true {ℓ} : {A : Type ℓ} (b : Bool) (x y : A) → b ≡ true → (if b then x else y) ≡ x
if_true b x y h = rw h refl

pub if_false {ℓ} : {A : Type ℓ} (b : Bool) (x y : A) → b ≡ false → (if b then x else y) ≡ y
if_false b x y h = rw h refl

-- A loop that succeeds ends with the call that the kernel agreed to.
retry_last :
    (k : Kernel) (n : ℕ) (c : Call) (h : History)
    → (retry k n c h).1 ≡ true
    → (before : History) × ((retry k n c h).0 ≡ (c, true) ∷ before)
unfolding retry
retry_last k zero c h done = absurd cc
retry_last k (suc n) c h done = elim (Bool-cases (k.answer h c)) [
  | inl e ↦ (
    h,
    ap (λ r. r.0) (if_true (k.answer h c) (ask k c h, true) (retry k n c (ask k c h)) e)
        ∙ ap (λ b. (c, b) ∷ h) e,
  )
  | inr e ↦
      let same = if_false (k.answer h c) (ask k c h, true) (retry k n c (ask k c h)) e in
      let (before, last) = retry_last k n c (ask k c h) (sym (ap (λ r. r.1) same) ∙ done) in
      (before, ap (λ r. r.0) same ∙ last)
]

-- What the kernel's files promise: the medium's path reads back, and where the gadget has no such
-- file it has no medium.
pub record IsTrueTo (k : Kernel) : Type 0 where
  pub no_file : (h : History) → is_there (k.node h lun_file) ≡ false → medium h ≡ none
  pub reads :
      (h : History) (image : Text)
      → trim_space (k.content h lun_file) ≡ trim_space image
      → trim_space image ≢ []
      → (m : Text) × (medium h ≡ some m) × (trim_space m ≡ trim_space image)

-- The medium is the image, up to white space around its path.
abbrev pub IsPresented : Text → History → Type 0
IsPresented image h = (m : Text) × (medium h ≡ some m) × (trim_space m ≡ trim_space image)

medium_ejected : (h : History) → medium ((write lun_file (codes "\n"), true) ∷ h) ≡ none
unfolding medium text_eq
medium_ejected h = refl

medium_forced :
    (h : History) → medium ((write (lun (codes "forced_eject")) (codes "1\n"), true) ∷ h) ≡ none
unfolding medium text_eq
medium_forced h = refl

medium_loaded :
    (image : Text) (h : History)
    → image ≢ []
    → medium ((write lun_file (image ++ codes "\n"), true) ∷ h) ≡ some image
unfolding medium text_eq
medium_loaded [] h full = absurd (full refl)
medium_loaded (c ∷ s) h full = ap named (without_newline-append (c ∷ s))

retry-ejected :
    (k : Kernel) (n : ℕ) (h : History)
    → (retry k n (write lun_file (codes "\n")) h).1 ≡ true
    → medium (retry k n (write lun_file (codes "\n")) h).0 ≡ none
retry-ejected k n h done =
    let (before, same) = retry_last k n (write lun_file (codes "\n")) h done in
    ap medium same ∙ medium_ejected before

module _ (k : Kernel) (law : IsTrueTo k) where
  -- A function that comes to a loop of newlines, as Eject does.
  frees_by_loop :
      (r : History × Bool) (n : ℕ) (h : History)
      → r ≡ retry k n (write lun_file (codes "\n")) h
      → r.1 ≡ true
      → medium r.0 ≡ none
  frees_by_loop r n h same done =
      ap (λ r. medium r.0) same ∙ retry-ejected k n h (sym (ap (λ r. r.1) same) ∙ done)

  eject_frees : (h : History) → (eject k h).1 ≡ true → medium (eject k h).0 ≡ none
  unfolding eject
  eject_frees h done =
      let forced = write (lun (codes "forced_eject")) (codes "1\n") in
      let synced = ask k sync h in
      let plain = retry k 5 (write lun_file (codes "\n")) synced in
      let after = retry k 5 (write lun_file (codes "\n")) (ask k forced synced) in
      let tried = if k.answer synced forced then (ask k forced synced, true) else after in
      let body = if is_there (k.node synced (lun (codes "forced_eject"))) then tried else plain in
      elim (Bool-cases (is_there (k.node h lun_file))) [
        | inr gone ↦
            ap (λ r. medium r.0) (if_true _ (h, true) body (ap not gone)) ∙ law.no_file h gone
        | inl there ↦
            let at_body = if_false _ (h, true) body (ap not there) in
            elim (Bool-cases (is_there (k.node synced (lun (codes "forced_eject"))))) [
              | inr old ↦ frees_by_loop _ 5 synced (at_body ∙ if_false _ tried plain old) done
              | inl newer ↦
                  let at_tried = at_body ∙ if_true _ tried plain newer in
                  elim (Bool-cases (k.answer synced forced)) [
                    | inr refused ↦
                        frees_by_loop _ 5 (ask k forced synced)
                          (at_tried ∙ if_false _ (ask k forced synced, true) after refused) done
                    | inl agreed ↦
                        ap (λ r. medium r.0)
                          (at_tried ∙ if_true _ (ask k forced synced, true) after agreed)
                        ∙ ap (λ b. medium ((forced, b) ∷ synced)) agreed
                        ∙ medium_forced synced
                  ]
            ]
      ]

  load_presents :
      (n : ℕ) (image : Text) (h : History)
      → trim_space image ≢ []
      → (load_loop k n image h).1 ≡ true
      → IsPresented image (load_loop k n image h).0
  unfolding load_loop
  load_presents zero image h full done = absurd cc
  load_presents (suc n) image h full done =
      let c = write lun_file (image ++ codes "\n") in
      let more = load_loop k n image (ask k c h) in
      let same_path = text_eq (trim_space (k.content (ask k c h) lun_file)) (trim_space image) in
      let tried = if k.busy (ask k c h) && same_path then (ask k c h, true) else more in
      elim (Bool-cases (k.answer h c)) [
        | inl agreed ↦ (
          image,
          ap (λ r. medium r.0) (if_true _ (ask k c h, true) tried agreed)
              ∙ ap (λ b. medium ((c, b) ∷ h)) agreed
              ∙ medium_loaded image h (λ e. full (ap trim_space e)),
          refl,
        )
        | inr refused ↦
            let at_tried = if_false _ (ask k c h, true) tried refused in
            elim (Bool-cases (k.busy (ask k c h) && same_path)) [
              | inl there ↦
                  let (m, held, same) =
                    law.reads (ask k c h) image ((text_eq_iff _ _).0 (ground arith)) full in
                  (
                    m,
                    ap (λ r. medium r.0) (at_tried ∙ if_true _ (ask k c h, true) more there) ∙ held,
                    same,
                  )
              | inr other ↦
                  let at_more = at_tried ∙ if_false _ (ask k c h, true) more other in
                  let (m, held, same) =
                    load_presents n image (ask k c h) full (sym (ap (λ r. r.1) at_more) ∙ done) in
                  (m, ap (λ r. medium r.0) at_more ∙ held, same)
            ]
      ]

-- The medium follows the answers of the gadget's functions, whatever the kernel refuses on the way:
-- where Eject returns nil the drive is empty, and where Load returns nil the drive holds the image,
-- also where Load takes a busy drive for one that is loaded already.
pub medium_follows :
    (k : Kernel) (image : Text) (h : History)
    → IsTrueTo k
    → trim_space image ≢ []
    → ((eject k h).1 ≡ true → medium (eject k h).0 ≡ none)
      × ((load k image h).1 ≡ true → IsPresented image (load k image h).0)
unfolding load
medium_follows k image h law full = (
  eject_frees k law h,
  λ done. elim (Bool-cases (is_there (k.node h lun_file))) [
    | inl there ↦
        let same = if_true _ (load_loop k 5 image h) (h, false) there in
        let (m, held, path) =
          load_presents k law 5 image h full (sym (ap (λ r. r.1) same) ∙ done) in
        (m, ap (λ r. medium r.0) same ∙ held, path)
    | inr gone ↦
        let never =
          sym (ap (λ r. r.1) (if_false _ (load_loop k 5 image h) (h, false) gone)) ∙ done in
        absurd cc
  ],
)
