-- ===== src/General/Routers.antt =====
-- `config_to_vr` (src/general.rs) on the configurations that `validate_configs` accepts.
use failover.Base.{
  ℕ, zero, suc, ◌+◌, ◌*◌, ◌≡◌, ◌≢◌, ◌≤◌, refl, List, [], ◌∷◌, none, some, Str, arith, All, length,
  take, ltb, not, if_cases, length-take-le,
}
use failover.Version.{VrrpVersion, v2, v3}
use failover.Net.{IpNet, IpNet4, IpNet6}
use failover.Crates.Ipnet.{Ipnet}
use failover.StateMachine.{init}
use failover.Packet.{max_ip_count}
use failover.Config.{Config}
use failover.Config.Valid.{IsAllowed, IsValidConfig}
use failover.General.{parse_addresses, push, kept, config_to_vr}

abbrev count : List IpNet4 × List IpNet6 → ℕ
count nets = length nets.0 + length nets.1

module _ (n : Ipnet) where
  -- Each address that is allowed parses, to an IPv4 network in version 2.
  parse_one :
      (version : VrrpVersion) (addr : Str) (nets : List IpNet4 × List IpNet6)
      → IsAllowed n version addr
      → (count (push (n.from_str addr) nets) ≡ 1 + count nets)
        × (version ≡ v2 → nets.1 ≡ [] → (push (n.from_str addr) nets).1 ≡ [])
  parse_one v2 addr nets h = ground (arith, h.1)
  parse_one v3 addr nets h = go h.0 h.1
    where
      go :
          (net : IpNet)
          → n.from_str addr ≡ some net
          → (count (push (n.from_str addr) nets) ≡ 1 + count nets)
            × (v3 ≡ v2 → nets.1 ≡ [] → (push (n.from_str addr) nets).1 ≡ [])
      go (IpNet.v4 net) e = ground (arith, e)
      go (IpNet.v6 net) e = ground (arith, e)

  parse_addresses_lem :
      (version : VrrpVersion) (addrs : List Str)
      → All (IsAllowed n version) addrs
      → (count (parse_addresses n addrs) ≡ length addrs)
        × (version ≡ v2 → (parse_addresses n addrs).1 ≡ [])
  unfolding parse_addresses
  parse_addresses_lem version [] h = (refl, λ e. refl)
  parse_addresses_lem version (addr ∷ addrs) h =
      let here = parse_one version addr (parse_addresses n addrs) h.0 in
      let rest = parse_addresses_lem version addrs h.1 in
      (omega (arith, here.0, rest.0), λ e. here.1 e (rest.1 e))

  All-take : (P : Str → Type 0) (k : ℕ) (xs : List Str) → All P xs → All P (take k xs)
  All-take P zero [] h = tt
  All-take P (suc k) [] h = tt
  All-take P zero (x ∷ xs) h = tt
  All-take P (suc k) (x ∷ xs) h = (h.0, All-take P k xs h.1)

  -- The router of a valid configuration has all its addresses where these are at most 16, and
  -- never more than 16; in version 2 it has no IPv6 addresses and no IPv6 side; in version 3 it
  -- has an IPv6 side, and an interval that the packet's field of 12 bits holds; and it starts in
  -- INIT.
  pub config_to_vr_valid :
      (conf : Config)
      → IsValidConfig n conf
      → let vr = config_to_vr n conf in
        (length conf.ip_addresses ≤ max_ip_count
          → length vr.ipv4_addresses + length vr.ipv6_addresses ≡ length conf.ip_addresses)
        × (length vr.ipv4_addresses + length vr.ipv6_addresses ≤ max_ip_count)
        × (vr.version ≡ v2 → (vr.ipv6_addresses ≡ []) × (vr.mac_vlan_interface_v6 ≡ none))
        × (vr.version ≡ v3 → (vr.mac_vlan_interface_v6 ≢ none) × (vr.advert_interval * 100 ≤ 4000))
        × (vr.fsm.state ≡ init)
  unfolding config_to_vr
  config_to_vr_valid conf h =
      let allowed =
        if_cases (All (IsAllowed n conf.version))
          (not (ltb max_ip_count (length conf.ip_addresses))) h.allowed
          (All-take (IsAllowed n conf.version) max_ip_count conf.ip_addresses h.allowed) in
      let parsed = parse_addresses_lem conf.version (kept conf.ip_addresses) allowed in
      let capped = h.capped in
      (
        λ e. ground (arith, parsed.0),
        ground (arith, parsed.0, length-take-le max_ip_count conf.ip_addresses),
        λ e. (parsed.1 e, ground arith),
        λ e. ground (arith, capped e),
        refl,
      )
