-- ===== src/General/Addresses.antt =====
-- The deletion of an unused mac-vlan and the virtual addresses (src/general.rs), over what the kernel
-- answers on a netlink socket.
pub mod Laws
use failover.Base.{ℕ, ◌+◌, ◌==◌, Bool, List, [], ◌∷◌, ◌++◌, Option, none, some, Str, if◌then◌else◌}
use failover.Error.{Result, ok, err, panic, Source}
use failover.Version.{AddressAction, add, delete}
use failover.Net.{IpAddr, IpNet, is_unicast_link_local}
use failover.Crates.Ipnet.{Ipnet}
use failover.General.MacVlan.{
  Lookup, found, absent, failed, Request, add_address, delete_address, delete_link,
}

-- An address message: its `Address` attributes, the others being passed over. The loop leaves a
-- message at its first link-local address.
abbrev pub AddressMessage : Type 0
AddressMessage = List (Option IpAddr)

count_message : AddressMessage → ℕ
count_message [] = 0
count_message (none ∷ attributes) = count_message attributes
count_message (some (IpAddr.v4 addr) ∷ attributes) = 1 + count_message attributes
count_message (some (IpAddr.v6 addr) ∷ attributes) =
    let rest = count_message attributes in if is_unicast_link_local addr then 0 else 1 + rest

unfoldable pub count_addresses : List AddressMessage → ℕ
unfolding count_message
count_addresses [] = 0
count_addresses (message ∷ messages) = count_message message + count_addresses messages

-- `remaining_address_count`: the messages may end in an error.
remaining_address_count : List AddressMessage × Option Source → Result Source ℕ
unfolding count_addresses
remaining_address_count (messages, none) = ok (count_addresses messages)
remaining_address_count (messages, some source) = err source

delete_unused : ℕ → Result Source ℕ → List Request
delete_unused index (ok count) = if count == 0 then delete_link index ∷ [] else []
delete_unused index (err source) = []
delete_unused index panic = []

delete_link_found : Lookup → List AddressMessage × Option Source → List Request
unfolding remaining_address_count delete_unused
delete_link_found (found l) addresses = delete_unused l.index (remaining_address_count addresses)
delete_link_found absent addresses = []
delete_link_found (failed no_such_device source) addresses = []

unfoldable pub apply_delete_mac_vlan :
    (connection : Option Source) → Lookup → List AddressMessage × Option Source → List Request
unfolding delete_link_found
apply_delete_mac_vlan (some source) lookup addresses = []
apply_delete_mac_vlan none lookup addresses = delete_link_found lookup addresses

-- One address of `apply_address_action`.
address_request : AddressAction → ℕ → Option IpNet → List Request
address_request action index none = []
address_request add index (some net) = add_address index net ∷ []
address_request delete index (some net) = delete_address index net ∷ []

address_requests : Ipnet → AddressAction → ℕ → List Str → List Request
unfolding address_request
address_requests n action index [] = []
address_requests n action index (addr ∷ addresses) =
    address_request action index (n.from_str addr) ++ address_requests n action index addresses

on_link : Ipnet → AddressAction → List Str → Lookup → List Request
unfolding address_requests
on_link n action addresses (found l) = address_requests n action l.index addresses
on_link n action addresses absent = []
on_link n action addresses (failed no_such_device source) = []

unfoldable pub apply_address_action :
    Ipnet → AddressAction → List Str → (connection : Option Source) → Lookup → List Request
unfolding on_link
apply_address_action n action addresses (some source) lookup = []
apply_address_action n action addresses none lookup = on_link n action addresses lookup
