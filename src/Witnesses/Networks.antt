-- ===== src/Witnesses/Networks.antt =====
-- Tests and instances for internal/agent/discovery.go, internal/led and the mounts of internal/ingest.
use ivault.Common.{
  ℕ, ◌≡◌, refl, true, false, some, List, [], ◌∷◌, All, select, Option, none, ◌==◌, ◌&&◌,
}
use ivault.Common.Text.{Text, codes, text_eq}
use ivault.Discovery.{
  Host, Event, ServiceEntry, is_among, found, scanned, listed, get_devices, run, mdns,
}
use ivault.Discovery.Proper.{IsReported, get_devices-Reported}
use ivault.Ingest.Drive.{Tools, mount, unmount}
use ivault.Led.{new, solid}

abbrev appliance : Host
appliance = record { normal = λ ip. some ip; is_loopback = text_eq (codes "127.0.0.1") }

abbrev nas : ServiceEntry
nas = record { instance_name = codes "NAS"; addr_ipv4 = codes "10.0.0.7" ∷ []; addr_ipv6 = [] }

abbrev own : ServiceEntry
own = record { instance_name = codes "Relay"; addr_ipv4 = codes "10.0.0.2" ∷ []; addr_ipv6 = [] }

abbrev relay_addrs : Option (List Text)
relay_addrs = some (codes "127.0.0.1" ∷ codes "10.0.0.2" ∷ [])

-- The host's own address is in the snapshot.
abbrev ShowsRelay : List Text → Type 0
ShowsRelay self = is_among (codes "10.0.0.2") self ≡ true

abbrev morning : List (ℕ × Event)
morning =
    (5, found relay_addrs (codes "_nfs._tcp") nas)
    ∷ (6, found relay_addrs (codes "_smb._tcp") own)
    ∷ (9, scanned (some (codes "10.0.0.2" ∷ [])) true (codes "10.0.0.7"))
    ∷ (9, scanned relay_addrs false (codes "10.0.0.8"))
    ∷ (20, listed)
    ∷ []

test_morning :
    (get_devices 30 (run appliance morning [])).1
    ≡ record {
      name = codes "NAS";
      ip = codes "10.0.0.7";
      services = codes "nfs" ∷ codes "smb" ∷ [];
      discovery = mdns;
      last_seen = 9;
    }
      ∷ []
unfolding get_devices run select
test_morning = refl

get_devices-Reported_example :
    All (IsReported appliance ShowsRelay 30) (get_devices 30 (run appliance morning [])).1
unfolding is_among
get_devices-Reported_example =
    get_devices-Reported appliance ShowsRelay morning 30 (refl, (refl, (refl, (refl, (tt, tt)))))

test_solid :
    solid (new true (some (codes "127\n")) (codes "user-led") true)
    ≡ (codes "/sys/class/leds/user-led/trigger", codes "none")
      ∷ (codes "/sys/class/leds/user-led/brightness", codes "127")
      ∷ []
unfolding solid new
test_solid = refl

abbrev partitioned : Tools
partitioned = record {
  node = λ i path. i == 2 && text_eq path (codes "/dev/loop3p1");
  losetup = some (codes "/dev/loop3\n");
  mounts = λ target. true;
  listed = some (codes "/dev/loop3" ∷ []);
  umounts = true;
  detaches = λ loop. true;
}

test_mount :
    mount partitioned (codes "/nvme/disk.img") (record { loops = []; mounted = none })
    ≡ (record { loops = codes "/dev/loop3" ∷ []; mounted = some (codes "/dev/loop3p1") }, true)
unfolding mount
test_mount = refl

test_unmount :
    (unmount partitioned
      (codes "/nvme/disk.img")
      (record { loops = codes "/dev/loop3" ∷ []; mounted = some (codes "/dev/loop3p1") })).loops
    ≡ []
unfolding unmount
test_unmount = refl
