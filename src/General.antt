-- ===== src/General.antt =====
-- What src/general.rs computes without the kernel: the primary addresses, the router of a
-- configuration, and the names and MAC addresses of the mac-vlan interfaces.
pub mod Names
pub mod Routers
pub mod Configured
pub mod MacVlan
pub mod Addresses
pub mod Kernel
use failover.Base.{
  ℕ, ◌+◌, ◌*◌, ◌/◌, ◌%◌, ◌^◌, ◌==◌, bit_xor, Bool, true, false, not, List, [], ◌∷◌, ◌++◌, Option,
  none, some, Str, ltb, if◌then◌else◌, length, take, low_bits,
}
use failover.Error.{Result, ok, err, NetworkError, no_ipv4_address}
use failover.Net.{IpAddr, IpNet, IpNet4, IpNet6, NetworkInterface, is_loopback6}
use failover.Crates.Ipnet.{Ipnet}
use failover.Packet.{max_ip_count}
use failover.Router.{VirtualRouter, new}
use failover.Config.{Config}

find_ipv4 : List IpAddr → Option ℕ
find_ipv4 [] = none
find_ipv4 (IpAddr.v4 addr ∷ ips) = some addr
find_ipv4 (IpAddr.v6 addr ∷ ips) = find_ipv4 ips

abbrev ok_or : Option ℕ → NetworkError → Result NetworkError ℕ
ok_or none e = err e
ok_or (some addr) e = ok addr

unfoldable pub primary_ipv4 : NetworkInterface → Result NetworkError ℕ
unfolding find_ipv4
primary_ipv4 interface = ok_or (find_ipv4 interface.ips) (no_ipv4_address interface.name)

find_ipv6 : List IpAddr → Option ℕ
find_ipv6 [] = none
find_ipv6 (IpAddr.v4 addr ∷ ips) = find_ipv6 ips
find_ipv6 (IpAddr.v6 addr ∷ ips) = if not (is_loopback6 addr) then some addr else find_ipv6 ips

unfoldable pub primary_ipv6 : NetworkInterface → Option ℕ
unfolding find_ipv6
primary_ipv6 interface = find_ipv6 interface.ips

-- The loop of `config_to_vr` over the addresses: those that do not parse are only logged.
abbrev push : Option IpNet → List IpNet4 × List IpNet6 → List IpNet4 × List IpNet6
push (some (IpNet.v4 net)) nets = (net ∷ nets.0, nets.1)
push (some (IpNet.v6 net)) nets = (nets.0, net ∷ nets.1)
push none nets = nets

parse_addresses : Ipnet → List Str → List IpNet4 × List IpNet6
parse_addresses n [] = ([], [])
parse_addresses n (addr ∷ addrs) = push (n.from_str addr) (parse_addresses n addrs)

-- The slice `raw_addresses[0..max_ip_count]`, where the list is longer.
abbrev kept : List Str → List Str
kept raw = if not (ltb max_ip_count (length raw)) then raw else take max_ip_count raw

unfoldable pub config_to_vr : Ipnet → Config → VirtualRouter
unfolding parse_addresses new
config_to_vr n conf =
    let nets = parse_addresses n (kept conf.ip_addresses) in
    new (record {
      name = conf.name;
      vrid = conf.vrid;
      version = conf.version;
      ipv4_addresses = nets.0;
      ipv6_addresses = nets.1;
      priority = conf.priority;
      advert_interval = conf.advert_interval;
      preempt_mode = conf.preempt_mode;
      network_interface = conf.interface_name;
    })

fnv1a_from : ℕ → Str → ℕ
fnv1a_from hash [] = hash
fnv1a_from hash (byte ∷ input) = fnv1a_from (bit_xor hash byte * 0x01000193 % 2 ^ 32) input

unfoldable pub fnv1a_hash : Str → ℕ
unfolding fnv1a_from
fnv1a_hash input = fnv1a_from 0x811c9dc5 input

pub data AddressFamily : Type 0 where
  v4 v6 : AddressFamily

-- "fover4" and "fover6"
abbrev pub name_prefix : AddressFamily → Str
name_prefix v4 = 102 ∷ 111 ∷ 118 ∷ 101 ∷ 114 ∷ 52 ∷ []
name_prefix v6 = 102 ∷ 111 ∷ 118 ∷ 101 ∷ 114 ∷ 54 ∷ []

abbrev pub virtual_mac : AddressFamily → ℕ → List ℕ
virtual_mac v4 vrid = 0x00 ∷ 0x00 ∷ 0x5e ∷ 0x00 ∷ 0x01 ∷ vrid ∷ []
virtual_mac v6 vrid = 0x00 ∷ 0x00 ∷ 0x5e ∷ 0x00 ∷ 0x02 ∷ vrid ∷ []

-- `{vrid}` of a u8.
abbrev pub decimal : ℕ → Str
decimal n =
    if ltb n 10
    then (48 + n) ∷ []
    else if ltb n 100
    then (48 + n / 10) ∷ (48 + n % 10) ∷ []
    else (48 + n / 100) ∷ (48 + n / 10 % 10) ∷ (48 + n % 10) ∷ []

abbrev hex_digit : ℕ → ℕ
hex_digit d = if ltb d 10 then 48 + d else 87 + d

-- `{hash:04x}` of a number of 16 bits.
abbrev pub hex4 : ℕ → Str
hex4 h =
    hex_digit (h / 4096)
    ∷ hex_digit (h / 256 % 16)
    ∷ hex_digit (h / 16 % 16)
    ∷ hex_digit (h % 16)
    ∷ []

-- `{prefix}-{vrid}-{hash:04x}`
unfoldable pub mac_vlan_name : Str → ℕ → AddressFamily → Str
mac_vlan_name parent_ifname vrid family =
    let hash = low_bits (fnv1a_hash parent_ifname) 16 in
    name_prefix family ++ 45 ∷ (decimal vrid ++ 45 ∷ hex4 hash)
