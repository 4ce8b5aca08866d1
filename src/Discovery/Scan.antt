-- ===== src/Discovery/Scan.antt =====
-- internal/agent/discovery.go: the addresses that a deep scan tries on port 445.
use ivault.Common.{
  ℕ, zero, suc, ◌+◌, Bool, Option, none, some, List, [], ◌∷◌, ◌++◌, map, ltb, if◌then◌else◌,
}
use ivault.Common.Text.{Text, codes}
use ivault.Common.Decimal.{format_uint}
use ivault.Discovery.{Host, Table, scan_address}

-- An address of an interface: not an IP network, or its bytes where it has a four-byte form, the
-- ones of its mask, and whether it is a loopback.
pub data InterfaceAddr : Type 0 where
  no_ip_net ipv6_net : InterfaceAddr
  ipv4_net : (loopback : Bool) (a b c d ones : ℕ) → InterfaceAddr

-- `n` numbers from `i` on.
unfoldable pub count_from : ℕ → ℕ → List ℕ
count_from i zero = []
count_from i (suc n) = i ∷ count_from (i + 1) n

abbrev pub dotted : ℕ → ℕ → ℕ → ℕ → Text
unfolding format_uint
dotted a b c d =
    format_uint a
    ++ codes "."
    ++ format_uint b
    ++ codes "."
    ++ format_uint c
    ++ codes "."
    ++ format_uint d

-- The targets of scanSubnet: the last byte is replaced, whatever the mask keeps of it.
unfoldable pub subnet_targets : ℕ → ℕ → ℕ → ℕ → List Text
unfolding count_from format_uint
subnet_targets a b c ones = if ltb ones 24 then [] else map (λ i. dotted a b c i) (count_from 1 254)

-- TriggerDeepScan; `none` is an error of InterfaceAddrs.
abbrev pub targets_of : InterfaceAddr → List Text
unfolding subnet_targets
targets_of no_ip_net = []
targets_of ipv6_net = []
targets_of (ipv4_net loopback a b c d ones) = if loopback then [] else subnet_targets a b c ones

unfoldable pub all_targets : List InterfaceAddr → List Text
unfolding targets_of
all_targets [] = []
all_targets (x ∷ xs) = targets_of x ++ all_targets xs

unfoldable pub deep_scan_targets : Option (List InterfaceAddr) → List Text
unfolding all_targets
deep_scan_targets none = []
deep_scan_targets (some addrs) = all_targets addrs

-- The scans in the order in which their goroutines come to the mutex, each with its time; `reached`
-- says which addresses answer.
unfoldable pub scan_targets : Host → List Text → (Text → Bool) → List (ℕ × Text) → Table → Table
unfolding scan_address
scan_targets host self reached [] t = t
scan_targets host self reached ((now, ip) ∷ ips) t =
    scan_targets host self reached ips (scan_address host self now (reached ip) ip t)
