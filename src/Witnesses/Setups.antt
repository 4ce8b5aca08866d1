-- ===== src/Witnesses/Setups.antt =====
-- Tests and instances for internal/provision.
use ivault.Common.{
  ◌⊎◌, ◌↔◌, ◌++◌, ap, ℕ, arith, ◌==◌, ◌≡◌, refl, true, false, Option, none, some, [], ◌∷◌, All,
  if◌then◌else◌,
}
use ivault.Common.Text.{Text, codes, text_eq, split}
use ivault.Common.Assoc.{lookup}
use ivault.Db.{empty_db}
use ivault.Config.{Config, default_config, merge, load_or_default}
use ivault.Network.{
  NetworkConfig, static_cidr, wpa_quote, key_line, build_networkd_conf, build_wpa_supplicant_conf,
}
use ivault.Network.Masks.{mask_text}
use ivault.Network.Quoting.{conf_lines, IsLiteral, build_wpa_supplicant_conf-reads}
use ivault.Network.Steps.{System, configure_network, network_manager_available}
use ivault.Network.Wifi.{IsJoined, configure_network-IsJoined}
use ivault.Provision.{
  ProvisionFile, World, Site, bootstrap_device, status, with_key, process, updates_of,
}
use ivault.Provision.Outcomes.{IsConcluded, process-IsConcluded}
use ivault.Provision.Waiting.{
  Try, Url, Waited, up_at, endpoint_host_port, wait_for_network, no_host, IsPolled,
  wait_for_network_ends,
}
use ivault.Ingest.Walk.{directory, walk_error}
use ivault.Ingest.Run.{Mounted, Stock, not_provisioned, ingests, ingests_stuck}
use ivault.Witnesses.Beats.{seal_mark, seal_mark-IsAead}

abbrev cafe : NetworkConfig
cafe = record {
  mode = codes "dhcp";
  interface = [];
  wifi_ssid = some (codes "Cafe");
  wifi_password = some (codes "n#a b");
  ip = none;
  subnet = none;
  gateway = none;
  dns = none;
}

test_quote : wpa_quote (codes "a\"b\\c") ≡ codes "\"a\\\"b\\\\c\""
unfolding wpa_quote
test_quote = refl

test_networkd :
    build_networkd_conf (codes "eth0") (record cafe {
      mode = codes "static";
      ip = some (codes "10.0.0.5");
      subnet = some (codes "255.255.0.0");
      dns = some (codes "1.1.1.1, 8.8.8.8");
    })
    ≡ codes "[Match]\nName=eth0\n\n[Network]\nAddress=10.0.0.5/16\nDNS=1.1.1.1\nDNS=8.8.8.8\n"
unfolding build_networkd_conf
test_networkd = refl

test_cidr : static_cidr (codes "10.0.0.5") (some (mask_text 20)) ≡ codes "10.0.0.5/20"
unfolding static_cidr mask_text
test_cidr = refl

-- A system with one wireless interface and no NetworkManager, on which every step succeeds.
abbrev minimal : System
minimal = record {
  interfaces = some (codes "eth0" ∷ codes "wlan7" ∷ []);
  is_wireless_node = text_eq (codes "wlan7");
  has_nmcli = false;
  nm_state = [];
  connection = λ iface. none;
  has_wpa_supplicant = true;
  succeeds = λ step. true;
  gcm = λ key. seal_mark;
  base64 = λ s. none;
  hex = λ s. none;
  key_variable = [];
}

configure_network-IsJoined_example :
    IsJoined minimal (codes "Cafe") (codes "a b") (configure_network minimal cafe).0
unfolding configure_network network_manager_available
configure_network-IsJoined_example =
    configure_network-IsJoined minimal cafe (codes "Cafe") (codes "a b") (codes "n")
      (configure_network minimal cafe).0 seal_mark-IsAead refl refl
      (refl, (refl, (refl, (refl, tt)))) (refl, (refl, (refl, tt)))
      (refl, (refl, (refl, (refl, tt)))) (refl, (refl, (refl, tt))) refl refl refl

abbrev all_but_last : Text → Text
all_but_last [] = []
all_but_last (c ∷ []) = []
all_but_last (c ∷ d ∷ s) = c ∷ all_but_last (d ∷ s)

-- A reader of a value in quotes.
abbrev between_quotes : Text → Option Text
between_quotes [] = none
between_quotes (c ∷ s) = some (all_but_last s)

all_but_last-append : (t : Text) (c : ℕ) → all_but_last (t ++ c ∷ []) ≡ t
all_but_last-append [] c = refl
all_but_last-append (d ∷ []) c = refl
all_but_last-append (d ∷ e ∷ t) c = ap (λ s. d ∷ s) (all_but_last-append (e ∷ t) c)

build_wpa_supplicant_conf-reads_example :
    (split (build_wpa_supplicant_conf (codes "Cafe") (codes "p\"")) b'\n'
      ≡ conf_lines (codes "\tssid=\"Cafe\"") (codes "\tpsk=\"p\\\"\""))
    × ((between_quotes (wpa_quote (codes "Cafe")) ≡ some (codes "Cafe")) ↔ IsLiteral (codes "Cafe"))
    × ((between_quotes (wpa_quote (codes "p\"")) ≡ some (codes "p\"")) ↔ IsLiteral (codes "p\""))
unfolding wpa_quote key_line
build_wpa_supplicant_conf-reads_example =
    build_wpa_supplicant_conf-reads between_quotes (codes "Cafe") (codes "p\"")
      (λ t plain. ap some (all_but_last-append t b'"')) (refl, (refl, (refl, (refl, tt))))
      (refl, (refl, tt))

abbrev invitation : ProvisionFile
invitation = record {
  version = 1;
  user_id = codes "u1";
  device_id = codes "d1";
  device_name = codes "Stage left";
  token = codes "t";
  token_expires = [];
  cloud_endpoint = codes "https://portal";
  timezone = [];
  network = cafe;
}

abbrev key_only : Config → Text
key_only cfg = cfg.device_api_key

-- A codec of a configuration that differs from the defaults in what the invitation sets.
abbrev invited : Text → Config → Option Config
unfolding merge
invited s base = some (merge (updates_of invitation s) default_config)

abbrev online : World
online = record {
  visible = true;
  readable = true;
  removable = true;
  parse = λ bytes. if text_eq bytes (codes "{") then none else some invitation;
  system = minimal;
  reply = status 200 [] (with_key (codes "k9"));
  encode = key_only;
  decode = invited;
  disk = record { readable = true; complete = true; written = λ bytes. none; renamed = true };
  is_zone = λ name. false;
  saved = true;
}

abbrev delivered : Site
delivered = record { provision = some (codes "{}"); configs = []; db = empty_db }

invited_back :
    (k : Text)
    → invited (key_only (merge (updates_of invitation k) default_config)) default_config
      ≡ some (merge (updates_of invitation k) default_config)
unfolding merge
invited_back [] = refl
invited_back (c ∷ k) = refl

process-IsConcluded_example :
    ((process online (codes "c") delivered).site.provision ≡ none)
    × IsConcluded online
        (codes "c")
        invitation
        default_config
        (bootstrap_device online.reply)
        delivered
        (process online (codes "c") delivered)
unfolding text_eq load_or_default lookup merge
process-IsConcluded_example =
    process-IsConcluded online (codes "c") (codes "{}") delivered invitation default_config refl
      refl refl refl refl refl invited_back

-- Stands for a hash.
abbrev seal_bytes : Text → Text
seal_bytes bytes = bytes

-- A cycle with a provision file that does not parse.
abbrev jammed : Mounted
jammed = record {
  world = online;
  statfs = none;
  source = none;
  blkid = λ source. none;
  saved = λ key. true;
  now = codes "10:00";
  session = 1;
  entries = directory ∷ walk_error ∷ [];
}

abbrev half_written : Stock
half_written = record { site = record delivered { provision = some (codes "{") }; queue = [] }

ingests_stuck_example :
    All
      (λ e. e ≡ not_provisioned)
      (ingests seal_bytes (codes "c") (jammed ∷ jammed ∷ []) half_written).0
    × ((ingests seal_bytes (codes "c") (jammed ∷ jammed ∷ []) half_written).1 ≡ half_written)
unfolding text_eq
ingests_stuck_example =
    ingests_stuck seal_bytes (codes "c") (codes "{") (jammed ∷ jammed ∷ []) half_written refl
      ((refl, refl), ((refl, refl), tt))

-- One lookup fails, one dial fails, then the portal answers.
abbrev slow_network : ℕ → Try
slow_network n =
    let found : Try = record {
      lookup_ms = 10;
      lookup_error = none;
      dial_ms = 10;
      dial_error = none;
    } in
    if n == 1
    then record found { lookup_error = some [] }
    else if n == 2
    then record found { dial_error = some [] }
    else found

abbrev portal : Url
portal = record { scheme = codes "https"; hostname = codes "portal.example"; port = [] }

test_wait : wait_for_network slow_network 90000 46 (some portal) ≡ some (up_at 3)
unfolding wait_for_network
test_wait = refl

test_port : endpoint_host_port (some portal) ≡ (codes "portal.example", codes "443")
unfolding endpoint_host_port
test_port = refl

wait_for_network_ends_example :
    (w : Waited) × (wait_for_network slow_network 90000 46 (some portal) ≡ some w)
    × (((text_eq (endpoint_host_port (some portal)).0 [] ≡ true) × (w ≡ no_host))
        ⊎ ((text_eq (endpoint_host_port (some portal)).0 [] ≡ false)
            × IsPolled slow_network 90000 1 0 w))
wait_for_network_ends_example =
    wait_for_network_ends slow_network 90000 45 (some portal) (omega arith)
