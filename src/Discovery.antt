-- ===== src/Discovery.antt =====
-- internal/agent/discovery.go: the table of devices found on the network, by their addresses. mDNS,
-- the network's interfaces and the connections are the input; a time is a number of seconds.
pub mod Proper
pub mod Scan
use ivault.Common.{
  ℕ, zero, suc, ◌+◌, ◌*◌, Bool, true, false, not, ◌&&◌, ◌||◌, Option, none, some, List, [], ◌∷◌,
  ◌++◌, map, select, ltb, if◌then◌else◌,
}
use ivault.Common.Text.{Text, codes, text_eq}
use ivault.Common.Assoc.{Assoc, lookup, insert}

pub data Source : Type 0 where
  mdns scan : Source

pub record DiscoveredDevice : Type 0 where
  pub name : Text
  pub ip : Text
  pub services : List Text
  pub discovery : Source
  pub last_seen : ℕ

abbrev pub Table : Type 0
Table = Assoc DiscoveredDevice

unfoldable pub is_among : Text → List Text → Bool
unfolding text_eq
is_among s [] = false
is_among s (t ∷ ts) = let rest = is_among s ts in if text_eq t s then true else rest

-- The package net: `normal` is the text of an address as net.IP prints it, `none` where net.ParseIP
-- refuses it.
pub record Host : Type 0 where
  pub normal : Text → Option Text
  pub is_loopback : Text → Bool

-- localSelfAddrs, on the texts of the interfaces' addresses: `none` is an error of InterfaceAddrs.
abbrev pub local_self_addrs : Option (List Text) → List Text
local_self_addrs none = []
local_self_addrs (some addrs) = addrs

-- isSelfAddr, with the snapshot of this host's addresses that the scan took.
unfoldable pub is_self_addr : Host → List Text → Text → Bool
unfolding is_among
is_self_addr host self ip = elim (host.normal ip) [
  | none ↦ false
  | some a ↦ host.is_loopback a || is_among a self
]

pub record ServiceEntry : Type 0 where
  pub instance_name : Text
  pub addr_ipv4 : List Text
  pub addr_ipv6 : List Text

abbrev pub first_address : List Text → List Text → Text
first_address (a ∷ rest) others = a
first_address [] (a ∷ rest) = a
first_address [] [] = []

unfoldable pub address : ServiceEntry → Text
address e = first_address e.addr_ipv4 e.addr_ipv6

-- The service that is listed, if any.
unfoldable pub service_name : Text → Text
unfolding text_eq
service_name svc =
    if text_eq svc (codes "_smb._tcp")
    then codes "smb"
    else if text_eq svc (codes "_nfs._tcp")
    then codes "nfs"
    else []

unfoldable pub add_service : Text → List Text → List Text
unfolding is_among
add_service [] services = services
add_service (c ∷ s) services =
    if is_among (c ∷ s) services then services else services ++ (c ∷ s) ∷ []

abbrev pub device_or : DiscoveredDevice → Option DiscoveredDevice → DiscoveredDevice
device_or new none = new
device_or new (some dev) = dev

-- Both ways to hear of a device: it is made where the table has none, and then touched.
unfoldable pub touch : ℕ → Text → DiscoveredDevice → Table → Table
unfolding add_service lookup insert
touch now service new t =
    let dev = device_or new (lookup new.ip t) in
    insert new.ip (record dev { last_seen = now; services = add_service service dev.services }) t

-- processEntry
unfoldable pub process_entry : Host → List Text → ℕ → Text → ServiceEntry → Table → Table
unfolding address is_self_addr service_name touch text_eq
process_entry host self now svc e t =
    let ip = address e in
    if text_eq ip []
    then t
    else if is_self_addr host self ip
    then t
    else touch now (service_name svc)
        (record {
          name = e.instance_name;
          ip = ip;
          services = [];
          discovery = mdns;
          last_seen = now;
        })
        t

-- One address of scanSubnet, which answers on port 445 or not.
unfoldable pub scan_address : Host → List Text → ℕ → Bool → Text → Table → Table
unfolding is_self_addr touch
scan_address host self now reached ip t =
    if is_self_addr host self ip
    then t
    else if reached
    then touch now (codes "smb")
        (record {
          name = codes "Device at " ++ ip;
          ip = ip;
          services = codes "smb" ∷ [];
          discovery = scan;
          last_seen = now;
        })
        t
    else t

abbrev pub day : ℕ
day = 86400

abbrev pub is_recent : ℕ → Text × DiscoveredDevice → Bool
is_recent now (ip, dev) = not (ltb (dev.last_seen + day) now)

-- GetDevices: the table without the devices not seen for a day, and the list of those left.
unfoldable pub get_devices : ℕ → Table → Table × List DiscoveredDevice
get_devices now t = let kept = select (is_recent now) t in (kept, map (λ e. e.1) kept)

-- What happens to the table, each under the mutex. An entry or an address comes with what the scan
-- that it belongs to was told of the interfaces' addresses when it began.
pub data Event : Type 0 where
  found : Option (List Text) → Text → ServiceEntry → Event
  scanned : Option (List Text) → Bool → Text → Event
  listed : Event

unfoldable pub step : Host → ℕ × Event → Table → Table
unfolding process_entry scan_address get_devices
step host (now, found addrs svc e) t = process_entry host (local_self_addrs addrs) now svc e t
step host (now, scanned addrs reached ip) t =
    scan_address host (local_self_addrs addrs) now reached ip t
step host (now, listed) t = (get_devices now t).0

unfoldable pub run : Host → List (ℕ × Event) → Table → Table
unfolding step
run host [] t = t
run host (e ∷ es) t = run host es (step host e t)
