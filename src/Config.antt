-- ===== src/Config.antt =====
-- The configuration (src/config.rs): `Config`, its checks, and the command line's mode.
pub mod Valid
pub mod Load
use failover.Base.{
  ℕ, Bool, true, false, not, ◌&&◌, ◌==◌, List, [], ◌∷◌, Option, none, some, Str, str_eq, ltb, take,
  if◌then◌else◌,
}
use failover.Error.{
  Result, ok, err, panic, reject_if, ◌>>◌, ConfigError, invalid_version, ip_formatting,
  duplicate_name, duplicate_vrid, advert_interval_too_large, ipv6_not_supported_in_v2, PacketError,
}
use failover.Version.{VrrpVersion, v2, v3, version_eq, as_u8, try_from}
use failover.Net.{IpNet}
use failover.Crates.Ipnet.{Ipnet}

abbrev pub default_priority : ℕ
default_priority = 100

abbrev pub default_advert_int : ℕ
default_advert_int = 1

abbrev pub default_preempt_mode : Bool
default_preempt_mode = true

pub record Config : Type 0 where
  pub name : Str
  pub vrid : ℕ  -- u8
  pub ip_addresses : List Str
  pub interface_name : Str
  pub priority : ℕ  -- u8
  pub advert_interval : ℕ  -- u8
  pub preempt_mode : Bool
  pub version : VrrpVersion

-- A configuration's object in JSON, in which serde gives the fields that are missing their defaults.
pub record JsonConfig : Type 0 where
  pub name : Option Str
  pub vrid : ℕ
  pub ip_addresses : List Str
  pub interface_name : Str
  pub priority : Option ℕ
  pub advert_interval : Option ℕ
  pub preempt_mode : Option Bool
  pub version : Option VrrpVersion

abbrev pub unwrap_or {ℓ} : {A : Type ℓ} → Option A → A → A
unwrap_or none default = default
unwrap_or (some a) default = a

-- `random_vr_name` (src/general.rs): "VR_" and ten of the characters that rand draws.
abbrev pub random_vr_name : List ℕ → Str
random_vr_name alphanumerics = 86 ∷ 82 ∷ 95 ∷ take 10 alphanumerics

-- `random_name` is what `random_vr_name` gives.
abbrev pub fill_defaults : (random_name : Str) → JsonConfig → Config
fill_defaults random_name json = record {
  name = unwrap_or json.name random_name;
  vrid = json.vrid;
  ip_addresses = json.ip_addresses;
  interface_name = json.interface_name;
  priority = unwrap_or json.priority default_priority;
  advert_interval = unwrap_or json.advert_interval default_advert_int;
  preempt_mode = unwrap_or json.preempt_mode default_preempt_mode;
  version = unwrap_or json.version v3;
}

check_interval : Config → Result ConfigError (Unit {0})
check_interval cfg =
    reject_if (version_eq cfg.version v3 && ltb 40 cfg.advert_interval)
      (advert_interval_too_large cfg.name cfg.advert_interval)

-- One address, by what `IpNet::from_str` gives.
check_address : VrrpVersion → (name addr : Str) → Option IpNet → Result ConfigError (Unit {0})
check_address v2 name addr (some (IpNet.v6 net)) = err (ipv6_not_supported_in_v2 name addr)
check_address v2 name addr (some (IpNet.v4 net)) = ok tt
check_address v2 name addr none = err (ip_formatting addr)
check_address v3 name addr (some net) = ok tt
check_address v3 name addr none = err (ip_formatting addr)

check_addresses : Ipnet → VrrpVersion → (name : Str) → List Str → Result ConfigError (Unit {0})
unfolding check_address
check_addresses n version name [] = ok tt
check_addresses n version name (addr ∷ addrs) =
    check_address version name addr (n.from_str addr) >> check_addresses n version name addrs

check_others : Config → List Config → Result ConfigError (Unit {0})
check_others cfg [] = ok tt
check_others cfg (other ∷ others) =
    let rest = check_others cfg others in
    if not (version_eq other.version cfg.version)
    then rest
    else if str_eq other.name cfg.name
    then err (duplicate_name cfg.name (as_u8 cfg.version))
    else if other.vrid == cfg.vrid
    then err (duplicate_vrid cfg.vrid (as_u8 cfg.version))
    else rest

unfoldable pub validate_configs : Ipnet → List Config → Result ConfigError (Unit {0})
unfolding check_interval check_addresses check_others
validate_configs n [] = ok tt
validate_configs n (cfg ∷ rest) =
    check_interval cfg
    >> check_addresses n cfg.version cfg.name cfg.ip_addresses
    >> check_others cfg rest
    >> validate_configs n rest
