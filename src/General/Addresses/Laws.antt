-- ===== src/General/Addresses/Laws.antt =====
-- When a mac-vlan is deleted, and which addresses are set (src/general.rs).
use failover.Base.{
  ℕ, ◌≡◌, ◌≤◌, ◌<◌, ◌^◌, refl, ◌↔◌, true, List, [], ◌∷◌, map, Option, none, some, All, arith,
}
use failover.Error.{Source}
use failover.Version.{AddressAction, add, delete}
use failover.Net.{IpAddr, IpNet, IpNet4, is_unicast_link_local}
use failover.Crates.Ipnet.{Ipnet, IsIpnet}
use failover.General.MacVlan.{LinkMessage, found, Request, add_address, delete_link}
use failover.General.Addresses.{
  AddressMessage, count_message, count_addresses, apply_delete_mac_vlan, apply_address_action,
}

-- No address, or a link-local one first.
abbrev pub IsLinkLocal : AddressMessage → Type 0
IsLinkLocal [] = Unit {0}
IsLinkLocal (none ∷ attributes) = IsLinkLocal attributes
IsLinkLocal (some (IpAddr.v4 addr) ∷ attributes) = ⊥
IsLinkLocal (some (IpAddr.v6 addr) ∷ attributes) = is_unicast_link_local addr ≡ true

count_message_iff : (m : AddressMessage) → (count_message m ≡ 0) ↔ IsLinkLocal m
unfolding count_message
count_message_iff [] = (λ h. tt, λ h. refl)
count_message_iff (none ∷ attributes) = count_message_iff attributes
count_message_iff (some (IpAddr.v4 addr) ∷ attributes) = ground arith
count_message_iff (some (IpAddr.v6 addr) ∷ attributes) = ground arith

count_addresses_iff :
    (messages : List AddressMessage) → (count_addresses messages ≡ 0) ↔ All IsLinkLocal messages
unfolding count_addresses
count_addresses_iff [] = (λ h. tt, λ h. refl)
count_addresses_iff (m ∷ messages) =
    ground (arith, count_message_iff m, count_addresses_iff messages)

-- A mac-vlan that is found is deleted exactly if the kernel lists its addresses without an error
-- and no message gives an address, or a link-local one first.
pub apply_delete_mac_vlan_iff :
    (l : LinkMessage) (messages : List AddressMessage) (end : Option Source)
    → (apply_delete_mac_vlan none (found l) (messages, end) ≡ delete_link l.index ∷ [])
      ↔ ((end ≡ none) × All IsLinkLocal messages)
unfolding apply_delete_mac_vlan
apply_delete_mac_vlan_iff l messages none = ground (arith, count_addresses_iff messages)
apply_delete_mac_vlan_iff l messages (some source) = ground arith

-- The address and the prefix length of an IPv4 network.
abbrev pub IsNet4 : IpNet4 → Type 0
IsNet4 net = (net.addr < 2 ^ 32) × (net.prefix_len ≤ 32)

abbrev pub request : AddressAction → ℕ → IpNet → Request
request add index net = add_address index net
request delete index net = Request.delete_address index net

-- Each of a list of IPv4 networks, printed, is asked of the kernel in order, for adding and for
-- deleting, and none is skipped, where the interface is found and what ipnet prints reads back.
pub apply_address_action-to_string4 :
    (n : Ipnet) (action : AddressAction) (nets : List IpNet4) (l : LinkMessage)
    → IsIpnet n
    → All IsNet4 nets
    → apply_address_action n action (map n.to_string4 nets) none (found l)
      ≡ map (λ net. request action l.index (IpNet.v4 net)) nets
unfolding apply_address_action
apply_address_action-to_string4 n action [] l lawful h = refl
apply_address_action-to_string4 n add (net ∷ nets) l lawful h = ground (
  arith,
  lawful.from_str-to_string4 net h.0.0 h.0.1,
  apply_address_action-to_string4 n add nets l lawful h.1,
)
apply_address_action-to_string4 n delete (net ∷ nets) l lawful h = ground (
  arith,
  lawful.from_str-to_string4 net h.0.0 h.0.1,
  apply_address_action-to_string4 n delete nets l lawful h.1,
)
