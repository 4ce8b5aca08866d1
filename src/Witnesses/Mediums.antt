-- ===== src/Witnesses/Mediums.antt =====
-- Tests and instances for internal/gadget/gadget.go.
use ivault.Common.{
  ◌≡◌, ◌≢◌, refl, ap, sym, true, false, not, ◌||◌, Option, none, some, List, [], ◌∷◌, if◌then◌else◌,
}
use ivault.Common.Text.{Text, codes, text_eq, trim_space}
use ivault.Gadget.Configfs.{
  Call, write, History, Kernel, missing, a_directory, function_dir, udc_file, lun_file, detach,
  attach, eject, load, device_serial,
}
use ivault.Gadget.Medium.{medium, named, without_newline, IsTrueTo, IsPresented, medium_follows}
use ivault.Gadget.Attaching.{is_blocked, attach_succeeds}

abbrev text_of : Option Text → Text
text_of none = []
text_of (some t) = t

abbrev image : Text
image = codes "/nvme/disk.img"

-- A kernel with an old gadget, which it takes apart.
abbrev docile : Kernel
docile = record {
  answer = λ h c. not (is_blocked h c);
  node = λ h p. if text_eq p [] || text_eq p function_dir then a_directory else missing;
  busy = λ h. false;
  content = λ h p. [];
}

docile_willing : (h : History) (c : Call) → is_blocked h c ≡ false → docile.answer h c ≡ true
docile_willing h c free = ap not free

abbrev ids : List Call
ids = write (codes "bcdUSB") (codes "0x0200") ∷ write (codes "idVendor") (codes "0x1d6b") ∷ []

attach_succeeds_example :
    (before : History) × (attach docile image (codes "fc.usb") ids [] []
      ≡ ((write udc_file (codes "fc.usb"), true) ∷ before, true))
    × (medium before ≡ named (without_newline image))
unfolding detach medium is_blocked text_eq
attach_succeeds_example =
    attach_succeeds docile image (codes "fc.usb") ids [] [] docile_willing (refl, (refl, tt)) tt
      refl

-- A kernel that refuses to change a medium that is there, as busy.
abbrev held : Kernel
held = record {
  answer = λ h c. elim (medium h) [ none ↦ true | some m ↦ false ];
  node = λ h p. a_directory;
  busy = λ h. true;
  content = λ h p. text_of (medium h);
}

held_reads :
    (o : Option Text) (path : Text)
    → trim_space (text_of o) ≡ trim_space path
    → trim_space path ≢ []
    → (m : Text) × (o ≡ some m) × (trim_space m ≡ trim_space path)
unfolding trim_space
held_reads none path same full = absurd (full (sym same))
held_reads (some m) path same full = (m, refl, same)

held-IsTrueTo : IsTrueTo held
held-IsTrueTo = record {
  no_file = λ h e. absurd cc;
  reads = λ h path same full. held_reads (medium h) path same full;
}

image_full : trim_space image ≢ []
unfolding trim_space
image_full e = absurd cc

abbrev loaded : History
loaded = (write lun_file image, true) ∷ []

medium_follows_example :
    ((eject held loaded).1 ≡ true → medium (eject held loaded).0 ≡ none)
    × ((load held image loaded).1 ≡ true → IsPresented image (load held image loaded).0)
medium_follows_example = medium_follows held image loaded held-IsTrueTo image_full

-- A busy drive that names the image counts as loaded.
test_busy : (load held image loaded).1 ≡ true
unfolding load medium text_eq trim_space
test_busy = refl

test_serial : device_serial (some (codes "0123456789abcdef\n")) ≡ codes "relay-0123456789ab"
unfolding device_serial
test_serial = refl
