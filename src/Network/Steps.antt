-- ===== src/Network/Steps.antt =====
-- internal/provision/network.go: how network settings are applied, as the commands that are run and
-- the files that are written.
use ivault.Common.{
  ℕ, Bool, true, false, ◌&&◌, Option, none, some, List, [], ◌∷◌, ◌++◌, if◌then◌else◌,
}
use ivault.Common.Text.{Text, codes, text_eq, trim_space}
use ivault.Secret.{Aead, Result, plain, failed}
use ivault.Network.{
  NetworkConfig, given, static_cidr, build_wpa_supplicant_conf, build_networkd_conf,
}
use ivault.Network.Key.{provisioning_key, decrypt_wifi_password}

-- A file has the mode it is written with.
pub data Step : Type 0 where
  make_dir : Text → Step
  write_file : Text → ℕ → Text → Step
  command : List Text → Step

-- A step, and whether the function returns where it fails.
pub data Plan : Type 0 where
  must may : Step → Plan

-- What the system answers. A tool is found in the path or not; `nm_state` is what systemctl prints of
-- NetworkManager, and `connection` what nmcli prints, `none` for an error.
pub record System : Type 0 where
  pub interfaces : Option (List Text)
  pub is_wireless_node : Text → Bool
  pub has_nmcli : Bool
  pub nm_state : Text
  pub connection : Text → Option Text
  pub has_wpa_supplicant : Bool
  pub succeeds : Step → Bool
  pub gcm : Text → Aead
  pub base64 : Text → Option Text
  pub hex : Text → Option Text
  pub key_variable : Text

-- The steps that are taken, and whether nil is returned.
unfoldable pub perform : (Step → Bool) → List Plan → List Step × Bool
perform succeeds [] = ([], true)
perform succeeds (may s ∷ ps) = let r = perform succeeds ps in (s ∷ r.0, r.1)
perform succeeds (must s ∷ ps) =
    let r = perform succeeds ps in if succeeds s then (s ∷ r.0, r.1) else (s ∷ [], false)

unfoldable pub is_wireless : System → Text → Bool
is_wireless sys [] = false
is_wireless sys (c ∷ s) = sys.is_wireless_node (c ∷ s)

unfoldable pub first_wireless : System → List Text → Option Text
unfolding is_wireless
first_wireless sys [] = none
first_wireless sys (e ∷ es) =
    let rest = first_wireless sys es in if is_wireless sys e then some e else rest

unfoldable pub found_wireless : System → Option (List Text) → Option Text
unfolding first_wireless
found_wireless sys none = none
found_wireless sys (some es) = first_wireless sys es

-- resolveWirelessInterface
unfoldable pub resolve_wireless_interface : System → Text → Option Text
unfolding first_wireless found_wireless is_wireless
resolve_wireless_interface sys preferred =
    if is_wireless sys preferred then some preferred else found_wireless sys sys.interfaces

unfoldable pub network_manager_available : System → Bool
unfolding trim_space text_eq
network_manager_available sys = sys.has_nmcli && text_eq (trim_space sys.nm_state) (codes "active")

abbrev pub option : Text → Option Text → List Text
option name none = []
option name (some v) = name ∷ v ∷ []

abbrev pub or_empty : Option Text → Text
or_empty none = []
or_empty (some s) = s

abbrev pub address_of : NetworkConfig → Option Text → Text
unfolding static_cidr
address_of cfg none = []
address_of cfg (some ip) = static_cidr ip cfg.subnet

-- nmApplyStatic after its test of the connection's name.
unfoldable pub nm_apply_static : Text → NetworkConfig → List Plan
unfolding given static_cidr
nm_apply_static conn cfg =
    must (
      command (
        (codes "nmcli"
          ∷ codes "con"
          ∷ codes "mod"
          ∷ conn
          ∷ codes "ipv4.method"
          ∷ codes "manual"
          ∷ codes "ipv4.addresses"
          ∷ address_of cfg cfg.ip
          ∷ [])
        ++ option (codes "ipv4.gateway") (given cfg.gateway)
        ++ option (codes "ipv4.dns") (given cfg.dns)))
    ∷ must (command (codes "nmcli" ∷ codes "con" ∷ codes "up" ∷ conn ∷ []))
    ∷ []

abbrev pub password_args : Text → List Text
password_args [] = []
password_args (c ∷ s) = codes "password" ∷ (c ∷ s) ∷ []

unfoldable pub wifi_via_network_manager : Text → Text → Text → NetworkConfig → List Plan
unfolding text_eq nm_apply_static
wifi_via_network_manager iface ssid pwd cfg =
    may (command (codes "nmcli" ∷ codes "radio" ∷ codes "wifi" ∷ codes "on" ∷ []))
    ∷ must (
        command (
          (codes "nmcli"
            ∷ codes "dev"
            ∷ codes "wifi"
            ∷ codes "connect"
            ∷ ssid
            ∷ codes "ifname"
            ∷ iface
            ∷ [])
          ++ password_args pwd))
    ∷ (if text_eq cfg.mode (codes "static") then nm_apply_static ssid cfg else [])

abbrev pub systemctl : List Text → Step
systemctl args = command (codes "systemctl" ∷ args)

abbrev pub wpa_path : Text → Text
wpa_path iface = codes "/etc/wpa_supplicant/wpa_supplicant-" ++ iface ++ codes ".conf"

abbrev pub net_path : Text → Text
net_path iface = codes "/etc/systemd/network/25-ivault-" ++ iface ++ codes ".network"

-- wifiViaNetworkd, where wpa_supplicant is installed. Modes are octal in the source.
unfoldable pub wifi_via_networkd : Text → Text → Text → NetworkConfig → List Plan
unfolding build_wpa_supplicant_conf build_networkd_conf
wifi_via_networkd iface ssid pwd cfg =
    must (make_dir (codes "/etc/wpa_supplicant"))
    ∷ must (write_file (wpa_path iface) 384 (build_wpa_supplicant_conf ssid pwd))
    ∷ must (make_dir (codes "/etc/systemd/network"))
    ∷ must (write_file (net_path iface) 420 (build_networkd_conf iface cfg))
    ∷ may (command (codes "ip" ∷ codes "link" ∷ codes "set" ∷ iface ∷ codes "up" ∷ []))
    ∷ must (
        systemctl (
          codes "enable"
          ∷ codes "--now"
          ∷ (codes "wpa_supplicant@" ++ iface ++ codes ".service")
          ∷ []))
    ∷ must (systemctl (codes "enable" ∷ codes "--now" ∷ codes "systemd-networkd" ∷ []))
    ∷ may (systemctl (codes "restart" ∷ codes "systemd-networkd" ∷ []))
    ∷ []

-- An error before the first step.
abbrev pub no_steps : List Step × Bool
no_steps = ([], false)

abbrev pub apply_static : System → Text → NetworkConfig → List Step × Bool
unfolding nm_apply_static perform
apply_static sys [] cfg = no_steps
apply_static sys (c ∷ conn) cfg = perform sys.succeeds (nm_apply_static (c ∷ conn) cfg)

abbrev pub connection_of : Option Text → Text
unfolding trim_space
connection_of none = []
connection_of (some out) = trim_space out

unfoldable pub configure_static_wired : System → Text → NetworkConfig → List Step × Bool
unfolding network_manager_available nm_apply_static perform build_networkd_conf trim_space
configure_static_wired sys iface cfg =
    if network_manager_available sys
    then apply_static sys (connection_of (sys.connection iface)) cfg
    else perform sys.succeeds (
        must (make_dir (codes "/etc/systemd/network"))
        ∷ must (write_file (net_path iface) 420 (build_networkd_conf iface cfg))
        ∷ must (systemctl (codes "restart" ∷ codes "systemd-networkd" ∷ []))
        ∷ [])

unfoldable pub wifi_on : System → Text → Text → NetworkConfig → Option Text → List Step × Bool
unfolding network_manager_available wifi_via_network_manager wifi_via_networkd perform
wifi_on sys ssid pwd cfg none = no_steps
wifi_on sys ssid pwd cfg (some iface) =
    if network_manager_available sys
    then perform sys.succeeds (wifi_via_network_manager iface ssid pwd cfg)
    else if sys.has_wpa_supplicant
    then perform sys.succeeds (wifi_via_networkd iface ssid pwd cfg)
    else no_steps

-- The password, empty where there is none.
abbrev pub password_of : System → Option Text → Result
unfolding decrypt_wifi_password provisioning_key
password_of sys none = plain []
password_of sys (some sealed) =
    decrypt_wifi_password sys.gcm (provisioning_key sys.base64 sys.hex sys.key_variable) sealed

abbrev pub wifi_with : System → Text → NetworkConfig → Result → List Step × Bool
unfolding resolve_wireless_interface wifi_on
wifi_with sys ssid cfg (failed e) = no_steps
wifi_with sys ssid cfg (plain pwd) =
    wifi_on sys ssid pwd cfg (resolve_wireless_interface sys cfg.interface)

unfoldable pub configure_wifi : System → Text → NetworkConfig → List Step × Bool
unfolding given wifi_with password_of
configure_wifi sys ssid cfg = wifi_with sys ssid cfg (password_of sys (given cfg.wifi_password))

abbrev pub interface_or_eth0 : Text → Text
interface_or_eth0 [] = codes "eth0"
interface_or_eth0 (c ∷ s) = c ∷ s

abbrev pub configure_wired : System → NetworkConfig → List Step × Bool
unfolding configure_static_wired text_eq
configure_wired sys cfg =
    if text_eq cfg.mode (codes "static")
    then configure_static_wired sys (interface_or_eth0 cfg.interface) cfg
    else ([], true)

abbrev pub configure_given : System → NetworkConfig → Option Text → List Step × Bool
unfolding configure_wifi configure_static_wired text_eq
configure_given sys cfg none = configure_wired sys cfg
configure_given sys cfg (some ssid) = configure_wifi sys ssid cfg

-- ConfigureNetwork
unfoldable pub configure_network : System → NetworkConfig → List Step × Bool
unfolding given configure_wifi configure_static_wired text_eq
configure_network sys cfg = configure_given sys cfg (given cfg.wifi_ssid)
