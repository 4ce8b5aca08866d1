-- ===== src/Network/Wifi.antt =====
-- Wi-Fi from the portal's settings to the file of wpa_supplicant (internal/provision).
use ivault.Common.{
  ◌≡◌, refl, ap, sym, ◌∙◌, Bool, true, false, Option, none, some, List, [], ◌∷◌, ◌++◌, inl, inr,
  arith, length, Bool-cases,
}
use ivault.Common.Text.{Text, codes, split}
use ivault.Common.Joins.{IsPlain}
use ivault.Secret.Blobs.{open_data-seal}
use ivault.Secret.{IsAead, plain, open_data}
use ivault.Network.{NetworkConfig, given, key_line, build_wpa_supplicant_conf}
use ivault.Network.Key.{provisioning_key, decrypt_wifi_password}
use ivault.Network.Steps.{
  Step, Plan, System, must, make_dir, write_file, perform, is_wireless, first_wireless,
  found_wireless, resolve_wireless_interface, network_manager_available, wifi_via_networkd,
  wpa_path, password_of, wifi_with, wifi_on, configure_network, configure_given, configure_wifi,
}
use ivault.Network.Quoting.{
  quoted, conf_lines, IsLiteral, wpa_quote-Literal, split-build_wpa_supplicant_conf,
}

first_wireless-Wireless :
    (sys : System) (es : List Text) (iface : Text)
    → first_wireless sys es ≡ some iface
    → is_wireless sys iface ≡ true
unfolding first_wireless
first_wireless-Wireless sys [] iface h = cc
first_wireless-Wireless sys (e ∷ es) iface h =
    ground (arith, first_wireless-Wireless sys es iface, h)

found-Wireless :
    (sys : System) (o : Option (List Text)) (iface : Text)
    → found_wireless sys o ≡ some iface
    → is_wireless sys iface ≡ true
unfolding found_wireless
found-Wireless sys none iface h = absurd cc
found-Wireless sys (some es) iface h = first_wireless-Wireless sys es iface h

resolved-Wireless :
    (sys : System) (preferred iface : Text)
    → resolve_wireless_interface sys preferred ≡ some iface
    → is_wireless sys iface ≡ true
unfolding resolve_wireless_interface
resolved-Wireless sys preferred iface h = ground (arith, found-Wireless sys sys.interfaces iface, h)

-- A plan that is carried out has its first step carried out, and what is left of it.
perform_must :
    (ok : Step → Bool) (s : Step) (ps : List Plan) (steps : List Step)
    → perform ok (must s ∷ ps) ≡ (steps, true)
    → (steps ≡ s ∷ (perform ok ps).0) × (perform ok ps ≡ ((perform ok ps).0, true))
unfolding perform
perform_must ok s ps steps h = elim (Bool-cases (ok s)) [
  | inl e ↦
      let k = rw e at h in
      (sym (ap (λ r. r.0) k), ap (λ (r : List Step × Bool). ((perform ok ps).0, r.1)) k)
  | inr e ↦ let k = rw e at h in absurd cc
]

-- The password's line, or the mark of an open network.
abbrev pub literal_key : Text → Text
literal_key [] = b'\t' ∷ codes "key_mgmt=NONE"
literal_key (c ∷ pwd) = b'\t' ∷ codes "psk=" ++ quoted (c ∷ pwd)

-- The file for wpa_supplicant as a step among the steps: its lines have the two texts as they stand.
abbrev pub IsJoined : System → Text → Text → List Step → Type 0
IsJoined sys ssid pwd steps =
    (iface : Text) × (conf : Text) × (rest : List Step) × (is_wireless sys iface ≡ true)
    × (steps ≡ make_dir (codes "/etc/wpa_supplicant") ∷ write_file (wpa_path iface) 384 conf ∷ rest)
    × (split conf b'\n' ≡ conf_lines (b'\t' ∷ codes "ssid=" ++ quoted ssid) (literal_key pwd))

key_line-Literal : (pwd : Text) → IsLiteral pwd → key_line pwd ≡ literal_key pwd
unfolding key_line
key_line-Literal [] h = refl
key_line-Literal (c ∷ pwd) h = ap (λ q. b'\t' ∷ codes "psk=" ++ q) (wpa_quote-Literal (c ∷ pwd) h)

module _ (sys : System) (ssid pwd : Text) (cfg : NetworkConfig) (steps : List Step)
    (networkd : network_manager_available sys ≡ false) (hs : IsPlain b'\n' ssid)
    (hp : IsPlain b'\n' pwd) (ls : IsLiteral ssid) (lp : IsLiteral pwd) where
  split-literal :
      split (build_wpa_supplicant_conf ssid pwd) b'\n'
      ≡ conf_lines (b'\t' ∷ codes "ssid=" ++ quoted ssid) (literal_key pwd)
  split-literal =
      split-build_wpa_supplicant_conf ssid pwd hs hp
      ∙ ap (λ q. conf_lines (b'\t' ∷ codes "ssid=" ++ q) (key_line pwd)) (wpa_quote-Literal ssid ls)
      ∙ ap (conf_lines (b'\t' ∷ codes "ssid=" ++ quoted ssid)) (key_line-Literal pwd lp)

  Joined-networkd :
      (iface : Text)
      → is_wireless sys iface ≡ true
      → perform sys.succeeds (wifi_via_networkd iface ssid pwd cfg) ≡ (steps, true)
      → IsJoined sys ssid pwd steps
  unfolding wifi_via_networkd
  Joined-networkd iface wireless h =
      let (first, more) = perform_must sys.succeeds _ _ steps h in
      let (second, rest) = perform_must sys.succeeds _ _ _ more in
      (
        iface,
        build_wpa_supplicant_conf ssid pwd,
        _,
        wireless,
        first ∙ ap (λ r. make_dir (codes "/etc/wpa_supplicant") ∷ r) second,
        split-literal,
      )

  Joined-wifi_on :
      (found : Option Text)
      → ((iface : Text) → found ≡ some iface → is_wireless sys iface ≡ true)
      → wifi_on sys ssid pwd cfg found ≡ (steps, true)
      → IsJoined sys ssid pwd steps
  unfolding wifi_on
  Joined-wifi_on none wireless h = absurd cc
  Joined-wifi_on (some iface) wireless h = elim (Bool-cases sys.has_wpa_supplicant) [
    | inl e ↦ Joined-networkd iface (wireless iface refl) (rw (networkd, e) at h)
    | inr e ↦ let k = rw (networkd, e) at h in absurd cc
  ]

-- Where the system has no NetworkManager and ConfigureNetwork returns nil for a network with a
-- password that the portal sealed with the key, wpa_supplicant's file of a wireless interface was
-- written with mode 0600, and its lines have the network's name and the password in clear between
-- quotes, where neither contains a line break, a quote or a backslash.
pub configure_network-IsJoined :
    (sys : System) (cfg : NetworkConfig) (ssid pwd nonce : Text) (steps : List Step)
    → let m = sys.gcm (provisioning_key sys.base64 sys.hex sys.key_variable) in
      IsAead m
      → length nonce ≡ m.nonce_size
      → network_manager_available sys ≡ false
      → IsPlain b'\n' ssid
      → IsPlain b'\n' pwd
      → IsLiteral ssid
      → IsLiteral pwd
      → given cfg.wifi_ssid ≡ some ssid
      → given cfg.wifi_password ≡ some (m.encode (nonce ++ m.seal nonce pwd))
      → configure_network sys cfg ≡ (steps, true)
      → IsJoined sys ssid pwd steps
unfolding configure_network configure_wifi decrypt_wifi_password
configure_network-IsJoined sys cfg ssid pwd nonce steps law size networkd hs hp ls lp named sealed
      done =
    let m = sys.gcm (provisioning_key sys.base64 sys.hex sys.key_variable) in
    let clear : password_of sys (given cfg.wifi_password) ≡ plain pwd =
      ap (password_of sys) sealed
      ∙ ap (open_data m) (law.decode-encode (nonce ++ m.seal nonce pwd))
      ∙ open_data-seal m law nonce pwd size in
    let same = ap (configure_given sys cfg) named ∙ ap (wifi_with sys ssid cfg) clear in
    Joined-wifi_on sys ssid pwd cfg steps networkd hs hp ls lp
      (resolve_wireless_interface sys cfg.interface) (resolved-Wireless sys cfg.interface)
      (sym same ∙ done)
