-- ===== src/General/Configured.antt =====
-- `config_to_vr` (src/general.rs): the router of a valid configuration can be advertised.
use failover.Base.{
  ◌<◌, ◌≡◌, refl, List, [], ◌∷◌, Option, none, some, Str, map, All, arith, size, length-map,
}
use failover.Net.{IpNet, IpNet4, IpNet6}
use failover.Crates.Ipnet.{Ipnet, IsRanged}
use failover.Router.{VirtualRouter, new}
use failover.Handlers.Wired.{IsConfigured}
use failover.Config.{Config}
use failover.Config.Valid.{IsValidConfig}
use failover.General.{push, parse_addresses, kept, config_to_vr}
use failover.General.Routers.{config_to_vr_valid}

-- The fields that are a u8 in the source.
pub record FitsTypes (vr : VirtualRouter) : Type 0 where
  pub vrid_fits : vr.vrid < 256
  pub priority_fits : vr.priority < 256
  pub interval_fits : vr.advert_interval < 256

module _ (n : Ipnet) (ranged : IsRanged n) where
  push-fits :
      (addr : Str) (nets : List IpNet4 × List IpNet6) (r : Option IpNet)
      → n.from_str addr ≡ r
      → All (λ a. a < size 4) (map (λ net. net.addr) nets.0)
      → All (λ a. a < size 4) (map (λ net. net.addr) (push r nets).0)
  push-fits addr nets none read rest = rest
  push-fits addr nets (some (IpNet.v4 net)) read rest = (ranged.from_str-fits4 addr net read, rest)
  push-fits addr nets (some (IpNet.v6 net)) read rest = rest

  parse_addresses-fits :
      (addrs : List Str) → All (λ a. a < size 4) (map (λ net. net.addr) (parse_addresses n addrs).0)
  unfolding parse_addresses
  parse_addresses-fits [] = tt
  parse_addresses-fits (addr ∷ addrs) =
      push-fits addr (parse_addresses n addrs) (n.from_str addr) refl (parse_addresses-fits addrs)

  -- The router of a valid configuration, if its numbers fit, can be advertised.
  pub config_to_vr-IsConfigured :
      (conf : Config)
      → IsValidConfig n conf
      → FitsTypes (config_to_vr n conf)
      → IsConfigured (config_to_vr n conf)
  unfolding config_to_vr new
  config_to_vr-IsConfigured conf valid fits =
      let vr = config_to_vr n conf in
      let few = (config_to_vr_valid n conf valid).1 in
      record {
        fits = record {
          vrid_fits = fits.vrid_fits;
          priority_fits = fits.priority_fits;
          few = omega (arith, few, length-map vr.ipv4_addresses (λ net. net.addr));
          addrs_fit = parse_addresses-fits (kept conf.ip_addresses);
        };
        interval_fits = fits.interval_fits;
        interval_carried = valid.capped;
      }
