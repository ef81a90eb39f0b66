-- ===== src/Observer/DualStack.antt =====
-- The events of a router with both families (src/observer.rs): its addresses are where it is.
use failover.Base.{◌≡◌, true, false, some, Str, str_eq, str_eq_refl, arith, any}
use failover.Crates.Ipnet.{Ipnet}
use failover.Router.{VirtualRouter, str_ipv4_addresses, str_ipv6_addresses}
use failover.Observer.{add_virtual_addresses, delete_virtual_addresses}
use failover.Observer.Ownership.{IsControlled}

-- `a4` is one of the router's printed IPv4 addresses, `a6` one of its IPv6 addresses, and it has an
-- IPv6 side, on another interface than its IPv4 one.
pub record IsDualStack (n : Ipnet) (vr : VirtualRouter) (v6_iface a4 a6 : Str) : Type 0 where
  pub sided : vr.mac_vlan_interface_v6 ≡ some v6_iface
  pub apart : str_eq vr.mac_vlan_interface_v4 v6_iface ≡ false
  pub apart' : str_eq v6_iface vr.mac_vlan_interface_v4 ≡ false
  pub listed4 : any (λ x. str_eq x a4) (str_ipv4_addresses n vr) ≡ true
  pub listed6 : any (λ x. str_eq x a6) (str_ipv6_addresses n vr) ≡ true

module _ (n : Ipnet) (vr : VirtualRouter) (v6_iface a4 a6 : Str)
    (dual : IsDualStack n vr v6_iface a4 a6) where
  pub v4-IsControlled : IsControlled n vr vr.mac_vlan_interface_v4 a4
  unfolding add_virtual_addresses delete_virtual_addresses
  v4-IsControlled = record {
    added = λ held.
        rw (dual.sided)
          (ground (arith, str_eq_refl vr.mac_vlan_interface_v4, dual.listed4, dual.apart'));
    deleted = λ held.
        rw (dual.sided)
          (ground (arith, str_eq_refl vr.mac_vlan_interface_v4, dual.listed4, dual.apart'));
  }

  pub v6-IsControlled : IsControlled n vr v6_iface a6
  unfolding add_virtual_addresses delete_virtual_addresses
  v6-IsControlled = record {
    added = λ held. rw (dual.sided) (ground (arith, str_eq_refl v6_iface, dual.listed6));
    deleted = λ held. rw (dual.sided) (ground (arith, str_eq_refl v6_iface, dual.listed6));
  }
