-- ===== src/Network/Quoting.antt =====
-- The lines and the quoting of the file that internal/provision/network.go writes for wpa_supplicant.
use mathlib.Core.List.{append_assoc}
use ivault.Common.{
  ℕ, ◌≡◌, refl, ap, ◌∙◌, true, false, ◌||◌, Option, some, List, [], ◌∷◌, ◌++◌, arith, All,
  All-append, Bool-cases, drop, length, inl, inr, sym, ◌≤◌, ◌↔◌, ◌==◌, if◌then◌else◌,
}
use ivault.Common.Text.{Text, codes, split}
use ivault.Common.Joins.{IsPlain, split-append}
use ivault.Network.{line, replace_all, wpa_quote, key_line, build_wpa_supplicant_conf}

-- A text between two quotes, as it stands.
abbrev pub quoted : Text → Text
quoted s = b'"' ∷ s ++ b'"' ∷ []

-- The lines of a file with one network.
abbrev pub conf_lines : Text → Text → List Text
conf_lines name key =
    codes "ctrl_interface=/run/wpa_supplicant"
    ∷ codes "update_config=1"
    ∷ []
    ∷ codes "network={"
    ∷ name
    ∷ key
    ∷ codes "}"
    ∷ []
    ∷ []

last_lines : split (line (codes "}")) b'\n' ≡ codes "}" ∷ [] ∷ []
unfolding split
last_lines = refl

abbrev pub escaped : Text → Text
unfolding replace_all
escaped s = replace_all b'"' (b'\\' ∷ b'"' ∷ []) (replace_all b'\\' (b'\\' ∷ b'\\' ∷ []) s)

-- Quoting keeps every character but for a backslash before a quote or a backslash.
escaped_cons :
    (c : ℕ) (s : Text)
    → escaped (c ∷ s) ≡ (if c == b'\\' || c == b'"' then b'\\' ∷ c ∷ escaped s else c ∷ escaped s)
unfolding replace_all
escaped_cons c s = ground arith

-- No line break comes in by quoting.
escaped-Plain : (s : Text) → IsPlain b'\n' s → IsPlain b'\n' (escaped s)
escaped-Plain [] h = unfold replace_all in tt
escaped-Plain (c ∷ s) h = ground (arith, escaped_cons c s, escaped-Plain s h.1)

wpa_quote-Plain : (s : Text) → IsPlain b'\n' s → IsPlain b'\n' (wpa_quote s)
unfolding wpa_quote
wpa_quote-Plain s h = (refl, All-append _ (escaped s) (b'"' ∷ []) (escaped-Plain s h) (refl, tt))

split-line : (p t : Text) → IsPlain b'\n' p → split (line p ++ t) b'\n' ≡ p ∷ split t b'\n'
split-line p t h =
    ap (λ s. split s b'\n') (append_assoc p (b'\n' ∷ []) t) ∙ split-append b'\n' p t h

split-head :
    (t name : Text) (rest : List Text)
    → split t b'\n' ≡ name ∷ rest
    → split
        (line (codes "ctrl_interface=/run/wpa_supplicant")
          ++ line (line (codes "update_config=1"))
          ++ line (codes "network={")
          ++ t)
        b'\n'
      ≡ codes "ctrl_interface=/run/wpa_supplicant"
        ∷ codes "update_config=1"
        ∷ []
        ∷ codes "network={"
        ∷ name
        ∷ rest
unfolding split
split-head t name rest h = rw h refl

key_line-Plain : (pwd : Text) → IsPlain b'\n' pwd → IsPlain b'\n' (key_line pwd)
unfolding key_line
key_line-Plain [] h = (
  refl,
  (
    refl,
    (
      refl,
      (refl, (refl, (refl, (refl, (refl, (refl, (refl, (refl, (refl, (refl, (refl, tt))))))))))),
    ),
  ),
)
key_line-Plain (c ∷ pwd) h = (refl, (refl, (refl, (refl, (refl, wpa_quote-Plain (c ∷ pwd) h)))))

-- The file for wpa_supplicant is these lines, where neither text contains a line break.
pub split-build_wpa_supplicant_conf :
    (ssid pwd : Text)
    → IsPlain b'\n' ssid
    → IsPlain b'\n' pwd
    → split (build_wpa_supplicant_conf ssid pwd) b'\n'
      ≡ conf_lines (b'\t' ∷ codes "ssid=" ++ wpa_quote ssid) (key_line pwd)
unfolding build_wpa_supplicant_conf
split-build_wpa_supplicant_conf ssid pwd hs hp =
    let name = b'\t' ∷ codes "ssid=" ++ wpa_quote ssid in
    let name_plain : IsPlain b'\n' name =
      (refl, (refl, (refl, (refl, (refl, (refl, wpa_quote-Plain ssid hs)))))) in
    let body =
      ap (λ s. split s b'\n') (append_assoc (line name) (line (key_line pwd)) (line (codes "}")))
      ∙ split-line name (line (key_line pwd) ++ line (codes "}")) name_plain
      ∙ ap (λ r. name ∷ r) (split-line (key_line pwd) (line (codes "}")) (key_line-Plain pwd hp))
      ∙ ap (λ r. name ∷ key_line pwd ∷ r) last_lines in
    split-head (line name ++ line (key_line pwd) ++ line (codes "}")) name _ body

-- What wpa_supplicant's documentation says of a value in double quotes: it is the text between them,
-- as it stands. `value_of` reads the value of a line.
abbrev pub ReadsQuoted : (Text → Option Text) → Type 0
ReadsQuoted value_of = (t : Text) → IsPlain b'\n' t → value_of (quoted t) ≡ some t

-- Neither a quote nor a backslash.
abbrev pub IsLiteral : Text → Type 0
IsLiteral s = All (λ c. (c == b'\\' || c == b'"') ≡ false) s

escaped_special :
    (c : ℕ) (s : Text) → (c == b'\\' || c == b'"') ≡ true → escaped (c ∷ s) ≡ b'\\' ∷ c ∷ escaped s
escaped_special c s e = ground (arith, escaped_cons c s)

escaped_other :
    (c : ℕ) (s : Text) → (c == b'\\' || c == b'"') ≡ false → escaped (c ∷ s) ≡ c ∷ escaped s
escaped_other c s e = ground (arith, escaped_cons c s)

escaped-length : (s : Text) → length s ≤ length (escaped s)
escaped-length [] = unfold replace_all in omega arith
escaped-length (c ∷ s) = elim (Bool-cases (c == b'\\' || c == b'"')) [
  | inl e ↦ omega (arith, escaped-length s, ap length (escaped_special c s e))
  | inr e ↦ omega (arith, escaped-length s, ap length (escaped_other c s e))
]

escaped-Literal : (s : Text) → IsLiteral s → escaped s ≡ s
escaped-Literal [] h = unfold replace_all in refl
escaped-Literal (c ∷ s) h = escaped_other c s h.0 ∙ ap (λ t. c ∷ t) (escaped-Literal s h.1)

Literal-escaped : (s : Text) → escaped s ≡ s → IsLiteral s
Literal-escaped [] h = tt
Literal-escaped (c ∷ s) h = elim (Bool-cases (c == b'\\' || c == b'"')) [
  | inl e ↦ absurd (omega (arith, escaped-length s, ap length (sym h ∙ escaped_special c s e)))
  | inr e ↦
      let same : c ∷ escaped s ≡ c ∷ s = sym (escaped_other c s e) ∙ h in
      (e, Literal-escaped s (ap (drop 1) same))
]

pub wpa_quote-Literal : (s : Text) → IsLiteral s → wpa_quote s ≡ quoted s
unfolding wpa_quote
wpa_quote-Literal s h = ap quoted (escaped-Literal s h)

module _ (value_of : Text → Option Text) (reads : ReadsQuoted value_of) (s : Text)
    (plain : IsPlain b'\n' s) where
  value-wpa_quote : (value_of (wpa_quote s) ≡ some s) ↔ IsLiteral s
  unfolding wpa_quote
  value-wpa_quote =
      let read = reads (escaped s) (escaped-Plain s plain) in
      (
        λ (h : value_of (wpa_quote s) ≡ some s). Literal-escaped s (cc (read, h)),
        λ (h : IsLiteral s). read ∙ ap some (escaped-Literal s h),
      )

-- The file for wpa_supplicant has the network name on its fifth line and the password, or the mark of
-- an open network, on its sixth, where neither contains a line break; and where wpa_supplicant takes
-- a value in quotes as it stands, what it reads from the quoting of such a text is that text exactly
-- when it contains neither a quote nor a backslash: the escapes become a part of the others.
pub build_wpa_supplicant_conf-reads :
    (value_of : Text → Option Text) (ssid pwd : Text)
    → ReadsQuoted value_of
    → IsPlain b'\n' ssid
    → IsPlain b'\n' pwd
    → (split (build_wpa_supplicant_conf ssid pwd) b'\n'
        ≡ conf_lines (b'\t' ∷ codes "ssid=" ++ wpa_quote ssid) (key_line pwd))
      × ((value_of (wpa_quote ssid) ≡ some ssid) ↔ IsLiteral ssid)
      × ((value_of (wpa_quote pwd) ≡ some pwd) ↔ IsLiteral pwd)
build_wpa_supplicant_conf-reads value_of ssid pwd reads hs hp = (
  split-build_wpa_supplicant_conf ssid pwd hs hp,
  value-wpa_quote value_of reads ssid hs,
  value-wpa_quote value_of reads pwd hp,
)
