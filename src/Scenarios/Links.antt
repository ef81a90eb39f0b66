-- ===== src/Scenarios/Links.antt =====
-- The mac-vlans and their addresses at concrete inputs (src/general.rs).
use failover.Base.{◌≡◌, ◌↔◌, refl, List, [], ◌∷◌, none, some, Str}
use failover.Error.{ok}
use failover.Net.{IpAddr, IpNet4}
use failover.General.{AddressFamily, mac_vlan_name, virtual_mac}
use failover.General.MacVlan.{
  LinkMessage, found, Answers, create_mac_vlan, link, address, link_info, kind_mac_vlan,
}
use failover.General.Addresses.{AddressMessage}
use failover.General.MacVlan.Laws.{IsOurs, create_mac_vlan_existing}
use failover.Scenarios.Routers.{virtual_ip}

abbrev pub parent : Str
parent = 101 ∷ []

abbrev pub parent_link : LinkMessage
parent_link = record { index = 3; attributes = [] }

abbrev pub our_link : LinkMessage
our_link = record {
  index = 4;
  attributes =
      link 3 ∷ address (virtual_mac AddressFamily.v4 51) ∷ link_info (kind_mac_vlan ∷ []) ∷ [];
}

abbrev pub kernel : Answers
kernel = record {
  connection = none;
  parent = found parent_link;
  existing = found our_link;
  creation = none;
}

create_mac_vlan_existing_example :
    ((create_mac_vlan parent 51 AddressFamily.v4 kernel).0 ≡ [])
    × (((create_mac_vlan parent 51 AddressFamily.v4 kernel).1
          ≡ ok (mac_vlan_name parent 51 AddressFamily.v4))
        ↔ IsOurs (virtual_mac AddressFamily.v4 51) 3 our_link)
create_mac_vlan_existing_example =
    create_mac_vlan_existing parent 51 AddressFamily.v4 kernel parent_link our_link refl refl refl

abbrev listed : List AddressMessage
listed = (none ∷ some (IpAddr.v4 virtual_ip) ∷ []) ∷ []

abbrev nets : List IpNet4
nets = record { addr = virtual_ip; prefix_len = 24 } ∷ []
