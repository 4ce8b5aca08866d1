-- ===== src/Network.antt =====
-- internal/provision/network.go: the texts of its configuration files and the arithmetic of netmasks.
pub mod Key
pub mod Steps
pub mod Quoting
pub mod Masks
pub mod Wifi
use ivault.Common.{
  ℕ, zero, suc, ◌+◌, ◌*◌, ◌/◌, ◌%◌, Bool, true, false, not, ◌&&◌, ◌||◌, Option, none, some, List,
  [], ◌∷◌, ◌++◌, length, ltb, leb, ◌==◌, if◌then◌else◌,
}
use ivault.Common.Text.{Text, codes, text_eq, contains, split, trim_prefix, trim_left, is_space}
use ivault.Common.Int.{ℤ, pos, negsuc, negate, cut_sign, is_digit, digits_from}
use ivault.Common.Decimal.{format_uint}

-- An absent field is `none`.
pub record NetworkConfig : Type 0 where
  pub mode : Text
  pub interface : Text
  pub wifi_ssid : Option Text
  pub wifi_password : Option Text
  pub ip : Option Text
  pub subnet : Option Text
  pub gateway : Option Text
  pub dns : Option Text

abbrev pub line : Text → Text
line s = s ++ b'\n' ∷ []

-- The text of a field that is there and not empty.
unfoldable pub given : Option Text → Option Text
given none = none
given (some []) = none
given (some (c ∷ s)) = some (c ∷ s)

-- strings.ReplaceAll of one code point.
unfoldable pub replace_all : ℕ → Text → Text → Text
replace_all c new [] = []
replace_all c new (a ∷ s) =
    let rest = replace_all c new s in if a == c then new ++ rest else a ∷ rest

unfoldable pub wpa_quote : Text → Text
unfolding replace_all
wpa_quote s =
    b'"' ∷ replace_all b'"' (b'\\' ∷ b'"' ∷ []) (replace_all b'\\' (b'\\' ∷ b'\\' ∷ []) s)
    ++ b'"' ∷ []

unfoldable pub key_line : Text → Text
unfolding wpa_quote
key_line [] = b'\t' ∷ codes "key_mgmt=NONE"
key_line (c ∷ pwd) = b'\t' ∷ codes "psk=" ++ wpa_quote (c ∷ pwd)

unfoldable pub build_wpa_supplicant_conf : Text → Text → Text
unfolding key_line wpa_quote
build_wpa_supplicant_conf ssid pwd =
    line (codes "ctrl_interface=/run/wpa_supplicant")
    ++ line (line (codes "update_config=1"))
    ++ line (codes "network={")
    ++ line (b'\t' ∷ codes "ssid=" ++ wpa_quote ssid)
    ++ line (key_line pwd)
    ++ line (codes "}")

-- The digits that a text starts with.
unfoldable pub leading_digits : Text → Text
unfolding is_digit
leading_digits [] = []
leading_digits (c ∷ s) = let rest = leading_digits s in if is_digit c then c ∷ rest else []

abbrev pub signed : Bool → Option ℕ → Option ℤ
signed minus none = none
signed minus (some n) = some (if minus then negate n else pos n)

abbrev pub scanned : Bool × Text → Option ℤ
scanned (minus, []) = none
scanned (minus, (c ∷ s)) = signed minus (digits_from 0 (c ∷ s))

-- fmt.Sscanf(s, "%d", ...): what follows the digits is left; `none` is an error. A number beyond 64
-- bits is no error here, but both callers refuse a number of that size as well.
unfoldable pub scan_int : Text → Option ℤ
unfolding trim_left is_space cut_sign leading_digits digits_from
scan_int s =
    let (minus, rest) = cut_sign (trim_left (λ c. is_space c && not (c == b'\n')) s) in
    scanned (minus, leading_digits rest)

-- The loop on the bits of an octet, by fuel: an octet has at most eight.
unfoldable pub ones : ℕ → ℕ → ℕ
ones zero octet = 0
ones (suc fuel) octet = octet % 2 + ones fuel (octet / 2)

abbrev pub octet_of : Option ℤ → Option ℕ
octet_of none = none
octet_of (some (negsuc n)) = none
octet_of (some (pos n)) = if ltb 255 n then none else some n

abbrev pub plus : Option ℕ → Option ℕ → Option ℕ
unfolding ones
plus none rest = none
plus (some octet) none = none
plus (some octet) (some rest) = some (ones 8 octet + rest)

unfoldable pub sum_octets : List Text → Option ℕ
unfolding scan_int ones
sum_octets [] = some 0
sum_octets (p ∷ ps) = plus (octet_of (scan_int p)) (sum_octets ps)

-- `none` stands for the false of "no dotted-quad mask".
unfoldable pub mask_to_prefix : Text → Option ℕ
unfolding split sum_octets
mask_to_prefix mask =
    let parts = split mask b'.' in if length parts == 4 then sum_octets parts else none

abbrev pub prefix_of : Option ℤ → Option ℕ
prefix_of none = none
prefix_of (some (negsuc n)) = none
prefix_of (some (pos n)) = if ltb 32 n then none else some n

unfoldable pub parse_plain_prefix : Text → Option ℕ
unfolding trim_prefix scan_int
parse_plain_prefix s = prefix_of (scan_int (trim_prefix s (codes "/")))

abbrev pub first_of : Option ℕ → Option ℕ → ℕ
first_of (some p) other = p
first_of none (some p) = p
first_of none none = 24

abbrev pub prefix_for : Option Text → ℕ
unfolding mask_to_prefix parse_plain_prefix
prefix_for none = 24
prefix_for (some subnet) = first_of (mask_to_prefix subnet) (parse_plain_prefix subnet)

unfoldable pub static_cidr : Text → Option Text → Text
unfolding contains given format_uint mask_to_prefix parse_plain_prefix
static_cidr ip subnet =
    if contains ip (codes "/") then ip else ip ++ b'/' ∷ format_uint (prefix_for (given subnet))

-- strings.FieldsFunc with commas and spaces, and the test for an empty piece that follows it.
unfoldable pub dns_lines : List Text → Text
unfolding text_eq
dns_lines [] = []
dns_lines (d ∷ ds) =
    let rest = dns_lines ds in if text_eq d [] then rest else line (codes "DNS=" ++ d) ++ rest

unfoldable pub fields_of : Text → List Text
unfolding split replace_all
fields_of s = split (replace_all b' ' (b',' ∷ []) s) b','

abbrev pub gateway_line : Option Text → Text
gateway_line none = []
gateway_line (some g) = line (codes "Gateway=" ++ g)

abbrev pub dns_of : Option Text → Text
unfolding dns_lines fields_of
dns_of none = []
dns_of (some dns) = dns_lines (fields_of dns)

abbrev pub address_lines : NetworkConfig → Option Text → Text
unfolding given static_cidr dns_lines fields_of
address_lines cfg none = line (codes "DHCP=yes")
address_lines cfg (some ip) =
    line (codes "Address=" ++ static_cidr ip cfg.subnet)
    ++ gateway_line (given cfg.gateway)
    ++ dns_of (given cfg.dns)

unfoldable pub build_networkd_conf : Text → NetworkConfig → Text
unfolding text_eq given static_cidr dns_lines fields_of
build_networkd_conf iface cfg =
    line (codes "[Match]")
    ++ line (line (codes "Name=" ++ iface))
    ++ line (codes "[Network]")
    ++ address_lines cfg (if text_eq cfg.mode (codes "static") then given cfg.ip else none)
