-- ===== src/Crates/Ipnet.antt =====
-- The crate `ipnet`: `IpNet::from_str` and the `Display` of its two families of networks.
use failover.Base.{◌≤◌, ◌<◌, ◌^◌, ◌≡◌, Option, some, Str}
use failover.Net.{IpNet, IpNet4, IpNet6}

pub record Ipnet : Type 0 where
  pub from_str : Str → Option IpNet
  pub to_string4 : IpNet4 → Str
  pub to_string6 : IpNet6 → Str

-- What is printed reads back.
pub record IsIpnet (n : Ipnet) : Type 0 where
  pub from_str-to_string4 :
      (net : IpNet4)
      → net.addr < 2 ^ 32
      → net.prefix_len ≤ 32
      → n.from_str (n.to_string4 net) ≡ some (IpNet.v4 net)
  pub from_str-to_string6 :
      (net : IpNet6)
      → net.addr < 2 ^ 128
      → net.prefix_len ≤ 128
      → n.from_str (n.to_string6 net) ≡ some (IpNet.v6 net)

-- An IPv4 network that is read holds an IPv4 address.
pub record IsRanged (n : Ipnet) : Type 0 where
  pub from_str-fits4 :
      (s : Str) (net : IpNet4) → n.from_str s ≡ some (IpNet.v4 net) → net.addr < 2 ^ 32
