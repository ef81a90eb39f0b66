-- ===== src/General/Kernel.antt =====
-- What the kernel is asked for over netlink by the effects of a call: `virtual_address_action` and
-- `delete_mac_vlan` (src/general.rs), which block on the asynchronous code.
pub mod Takeover
use failover.Base.{List, [], ◌∷◌, ◌++◌, Option, Str}
use failover.Error.{Source}
use failover.Version.{AddressAction}
use failover.Crates.Ipnet.{Ipnet}
use failover.Router.{Effect, address_action, remove_mac_vlan}
use failover.General.MacVlan.{Lookup, Request}
use failover.General.Addresses.{AddressMessage, apply_address_action, apply_delete_mac_vlan}

-- What netlink answers: an error to connect, the link of a name, and what it lists of the addresses
-- on a link that is about to be deleted.
pub record Netlink : Type 0 where
  pub connection : Option Source
  pub link : Str → Lookup
  pub addresses : Str → List AddressMessage × Option Source

module _ (n : Ipnet) (netlink : Netlink) where
  unfoldable pub virtual_address_action : AddressAction → List Str → Str → List Request
  unfolding apply_address_action
  virtual_address_action action addresses interface_name =
      apply_address_action n action addresses netlink.connection (netlink.link interface_name)

  unfoldable pub delete_mac_vlan : Str → List Request
  unfolding apply_delete_mac_vlan
  delete_mac_vlan name =
      apply_delete_mac_vlan netlink.connection (netlink.link name) (netlink.addresses name)

  -- The netlink requests of an effect: what is sent and logged has none.
  unfoldable pub requests_of : Effect → List Request
  unfolding virtual_address_action delete_mac_vlan
  requests_of (address_action action addresses ifname) =
      virtual_address_action action addresses ifname
  requests_of (remove_mac_vlan ifname) = delete_mac_vlan ifname
  requests_of _ = []

  unfoldable pub requests_of_all : List Effect → List Request
  unfolding requests_of
  requests_of_all [] = []
  requests_of_all (effect ∷ effects) = requests_of effect ++ requests_of_all effects
