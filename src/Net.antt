-- ===== src/Net.antt =====
-- Addresses (std::net), and what the source reads of the structures that pnet and ipnet hand it.
use failover.Base.{ℕ, ◌/◌, ◌^◌, Bool, List, ◌==◌, Option, Str, be_bytes}

-- An IPv4 address is a number below 2 ^ 32, an IPv6 address one below 2 ^ 128 (`to_bits`).
pub data IpAddr : Type 0 where
  v4 : ℕ → IpAddr
  v6 : ℕ → IpAddr

-- `octets`
abbrev pub octets4 : ℕ → List ℕ
octets4 = be_bytes 4

abbrev pub octets6 : ℕ → List ℕ
octets6 = be_bytes 16

abbrev pub unspecified : ℕ
unspecified = 0

-- ::1
abbrev pub is_loopback6 : ℕ → Bool
is_loopback6 addr = addr == 1

-- fe80::/10
abbrev pub is_unicast_link_local : ℕ → Bool
is_unicast_link_local addr = addr / 2 ^ 118 == 0x3fa

-- What the source reads of an `Ipv4Net` or `Ipv6Net`: the address and the prefix length.
pub record IpNet4 : Type 0 where
  pub addr : ℕ
  pub prefix_len : ℕ

pub record IpNet6 : Type 0 where
  pub addr : ℕ
  pub prefix_len : ℕ

pub data IpNet : Type 0 where
  v4 : IpNet4 → IpNet
  v6 : IpNet6 → IpNet

-- What the source reads of pnet's `NetworkInterface`. A MAC address is six bytes.
pub record NetworkInterface : Type 0 where
  pub name : Str
  pub mac : Option (List ℕ)
  pub ips : List IpAddr

-- What the source reads of pnet's views of a frame and of a packet.
pub record EthernetPacket : Type 0 where
  pub source : List ℕ
  pub payload : List ℕ

pub record Ipv4Packet : Type 0 where
  pub source : ℕ
  pub destination : ℕ
  pub ttl : ℕ
  pub payload : List ℕ
