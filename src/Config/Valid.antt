-- ===== src/Config/Valid.antt =====
-- The validity of a list of configurations, described independently of `validate_configs`
-- (src/config.rs).
use failover.Base.{
  ◌≡◌, ◌≢◌, refl, ◌≤◌, ◌↔◌, List, [], ◌∷◌, Option, none, some, Str, str_eq_iff, All, arith,
}
use failover.Error.{Result, ok, err, panic, ◌>>◌, ConfigError}
use failover.Version.{VrrpVersion, v2, v3}
use failover.Net.{IpNet, IpNet4}
use failover.Crates.Ipnet.{Ipnet}
use failover.Config.{
  Config, check_interval, check_address, check_addresses, check_others, validate_configs,
}

-- An address of version 2 is an IPv4 network, one of version 3 any network.
abbrev pub IsAllowed : Ipnet → VrrpVersion → Str → Type 0
IsAllowed n v2 addr = (net : IpNet4) × (n.from_str addr ≡ some (IpNet.v4 net))
IsAllowed n v3 addr = (net : IpNet) × (n.from_str addr ≡ some net)

-- Two configurations share neither the name nor the VRID, unless their versions differ.
abbrev pub AreApart : Config → Config → Type 0
AreApart cfg other = other.version ≡ cfg.version → (other.name ≢ cfg.name) × (other.vrid ≢ cfg.vrid)

pub record IsValidConfig (n : Ipnet) (cfg : Config) : Type 0 where
  pub capped : cfg.version ≡ v3 → cfg.advert_interval ≤ 40
  pub allowed : All (IsAllowed n cfg.version) cfg.ip_addresses

abbrev pub AreValid : Ipnet → List Config → Type 0
AreValid n [] = Unit {0}
AreValid n (cfg ∷ rest) = IsValidConfig n cfg × All (AreApart cfg) rest × AreValid n rest

>>_iff : (m k : Result ConfigError (Unit {0})) → ((m >> k) ≡ ok tt) ↔ ((m ≡ ok tt) × (k ≡ ok tt))
>>_iff (ok t) k = ground arith
>>_iff (err e) k = ground arith
>>_iff panic k = ground arith

check_interval_iff :
    (cfg : Config) → (check_interval cfg ≡ ok tt) ↔ (cfg.version ≡ v3 → cfg.advert_interval ≤ 40)
unfolding check_interval
check_interval_iff cfg = ground arith

module _ (n : Ipnet) where
  check_address_iff :
      (version : VrrpVersion) (name addr : Str)
      → (check_address version name addr (n.from_str addr) ≡ ok tt) ↔ IsAllowed n version addr
  unfolding check_address
  check_address_iff v2 name addr = go (n.from_str addr)
    where
      go :
          (r : Option IpNet)
          → (check_address v2 name addr r ≡ ok tt) ↔ ((net : IpNet4) × (r ≡ some (IpNet.v4 net)))
      go none = (λ h. cc, λ h. cc)
      go (some (IpNet.v4 net)) = (λ h. (net, refl), λ h. refl)
      go (some (IpNet.v6 net)) = (λ h. cc, λ h. cc)
  check_address_iff v3 name addr = go (n.from_str addr)
    where
      go :
          (r : Option IpNet)
          → (check_address v3 name addr r ≡ ok tt) ↔ ((net : IpNet) × (r ≡ some net))
      go none = (λ h. cc, λ h. cc)
      go (some net) = (λ h. (net, refl), λ h. refl)

  check_addresses_iff :
      (version : VrrpVersion) (name : Str) (addrs : List Str)
      → (check_addresses n version name addrs ≡ ok tt) ↔ All (IsAllowed n version) addrs
  unfolding check_addresses
  check_addresses_iff version name [] = (λ h. tt, λ h. refl)
  check_addresses_iff version name (addr ∷ addrs) =
      let here = check_address_iff version name addr in
      let rest = check_addresses_iff version name addrs in
      let both =
        >>_iff (check_address version name addr (n.from_str addr))
          (check_addresses n version name addrs) in
      (λ h. (here.0 ((both.0 h).0), rest.0 ((both.0 h).1)), λ h. both.1 (here.1 h.0, rest.1 h.1))

check_others_iff :
    (cfg : Config) (others : List Config)
    → (check_others cfg others ≡ ok tt) ↔ All (AreApart cfg) others
unfolding check_others
check_others_iff cfg [] = (λ h. tt, λ h. refl)
check_others_iff cfg (other ∷ others) =
    ground (arith, check_others_iff cfg others, str_eq_iff other.name cfg.name)

-- The checks accept a list of configurations exactly if in each the addresses are networks that
-- its version allows and a version 3 interval is at most 40 s, and no two of one version share a
-- name or a VRID.
pub validate_configs_iff :
    (n : Ipnet) (configs : List Config) → (validate_configs n configs ≡ ok tt) ↔ AreValid n configs
unfolding validate_configs
validate_configs_iff n [] = (λ h. tt, λ h. refl)
validate_configs_iff n (cfg ∷ rest) =
    let interval = check_interval cfg in
    let addresses = check_addresses n cfg.version cfg.name cfg.ip_addresses in
    let others = check_others cfg rest in
    let last = >>_iff (interval >> addresses >> others) (validate_configs n rest) in
    let middle = >>_iff (interval >> addresses) others in
    let first = >>_iff interval addresses in
    let i = check_interval_iff cfg in
    let a = check_addresses_iff n cfg.version cfg.name cfg.ip_addresses in
    let o = check_others_iff cfg rest in
    let r = validate_configs_iff n rest in
    (
      λ h.
          let m = middle.0 ((last.0 h).0) in
          let f = first.0 (m.0) in
          (record { capped = i.0 (f.0); allowed = a.0 (f.1) }, o.0 (m.1), r.0 ((last.0 h).1)),
      λ h. last.1 (middle.1 (first.1 (i.1 h.0.capped, a.1 h.0.allowed), o.1 h.1), r.1 h.2),
    )
