-- ===== src/Observer.antt =====
-- `EventObserver` (src/observer.rs) and `get_interface` (src/general.rs).
pub mod Laws
pub mod Shutdown
pub mod Ownership
pub mod DualStack
use failover.Base.{
  ℕ, ◌==◌, Bool, List, [], ◌∷◌, ◌++◌, Option, none, some, Str, str_eq, if◌then◌else◌,
}
use failover.Error.{Result, ok, err, panic, NetworkError, interface_not_found, lock_poisoned}
use failover.Version.{AddressAction, add, delete}
use failover.Net.{NetworkInterface}
use failover.Crates.Ipnet.{Ipnet}
use failover.Float.{as_f32}
use failover.StateMachine.{
  State, init, backup, master, Event, startup, shutdown, set_advert_timer, set_master_down_timer,
  disable_timer,
}
use failover.Router.{
  VirtualRouter, Effect, address_action, remove_mac_vlan, Env, str_ipv4_addresses,
  str_ipv6_addresses, send_advertisement, send_gratuitous_arps, send_neighbor_advertisements,
}

-- `get_interface`: the first interface of that name.
unfoldable pub find_interface : List NetworkInterface → Str → Option NetworkInterface
find_interface [] name = none
find_interface (i ∷ interfaces) name =
    if str_eq i.name name then some i else find_interface interfaces name

unfoldable pub or_not_found : Option NetworkInterface → Str → Result NetworkError NetworkInterface
or_not_found none name = err (interface_not_found name)
or_not_found (some i) name = ok i

unfoldable pub get_interface : List NetworkInterface → Str → Result NetworkError NetworkInterface
unfolding find_interface or_not_found
get_interface interfaces name = or_not_found (find_interface interfaces name) name

-- What a handler leaves: the router, what it asked for, and its result. On a panic the router is as
-- it was at the panic.
pub record Outcome : Type 0 where
  pub router : VirtualRouter
  pub effects : List Effect
  pub result : Result NetworkError (Unit {0})

-- The MAC address of an interface that is looked up, if it is there and has one.
mac_of : Result NetworkError NetworkInterface → Option (List ℕ)
mac_of (ok i) = i.mac
mac_of (err e) = none
mac_of panic = none

mac_of_v6 : Env → Option Str → Option (List ℕ)
unfolding mac_of get_interface
mac_of_v6 env none = none
mac_of_v6 env (some name) = mac_of (get_interface env.interfaces_later name)

unfoldable pub v6_interface_mac : Env → VirtualRouter → Option (List ℕ)
unfolding mac_of_v6
v6_interface_mac env vr = mac_of_v6 env vr.mac_vlan_interface_v6

-- An action on the addresses of the IPv6 side, where there is one.
v6_action : AddressAction → List Str → Option Str → List Effect
v6_action action addresses none = []
v6_action action addresses (some v6_iface) = address_action action addresses v6_iface ∷ []

unfoldable pub add_virtual_addresses : Ipnet → VirtualRouter → List Effect
unfolding v6_action
add_virtual_addresses n vr =
    address_action add (str_ipv4_addresses n vr) vr.mac_vlan_interface_v4
    ∷ v6_action add (str_ipv6_addresses n vr) vr.mac_vlan_interface_v6

unfoldable pub delete_virtual_addresses : Ipnet → VirtualRouter → List Effect
unfolding v6_action
delete_virtual_addresses n vr =
    address_action delete (str_ipv4_addresses n vr) vr.mac_vlan_interface_v4
    ∷ v6_action delete (str_ipv6_addresses n vr) vr.mac_vlan_interface_v6

announce_v6 : VirtualRouter → Option (List ℕ) → List Effect
announce_v6 vr none = []
announce_v6 vr (some v6_mac) = send_neighbor_advertisements vr v6_mac

unfoldable pub announce_ownership : Env → VirtualRouter → List ℕ → List Effect
unfolding announce_v6 v6_interface_mac
announce_ownership env vr v4_mac =
    send_gratuitous_arps env.big_endian vr v4_mac ++ announce_v6 vr (v6_interface_mac env vr)

-- Both ways to MASTER send an advertisement, announce the addresses, which panics where the
-- interface has no MAC address (`unwrap`), and add them.
become_master : Ipnet → Env → VirtualRouter → Option (List ℕ) → Outcome
unfolding announce_ownership add_virtual_addresses set_advert_timer
become_master n env vr none = record {
  router = vr;
  effects = send_advertisement vr;
  result = panic;
}
become_master n env vr (some mac) = record {
  router = record vr {
    fsm = record (set_advert_timer env.now (as_f32 vr.advert_interval) vr.fsm) { state = master };
  };
  effects = send_advertisement vr ++ announce_ownership env vr mac ++ add_virtual_addresses n vr;
  result = ok tt;
}

start_backup : Ipnet → Env → VirtualRouter → Outcome
unfolding delete_virtual_addresses set_master_down_timer
start_backup n env vr = record {
  router = record vr {
    fsm = record (set_master_down_timer env.now vr.master_down_interval vr.fsm) { state = backup };
  };
  effects = delete_virtual_addresses n vr;
  result = ok tt;
}

remove_v6 : Option Str → List Effect
remove_v6 none = []
remove_v6 (some v6_iface) = remove_mac_vlan v6_iface ∷ []

abbrev pub remove_mac_vlans : VirtualRouter → List Effect
unfolding remove_v6
remove_mac_vlans vr = remove_mac_vlan vr.mac_vlan_interface_v4 ∷ remove_v6 vr.mac_vlan_interface_v6

to_init : VirtualRouter → VirtualRouter
unfolding disable_timer
to_init vr = record vr { fsm = record (disable_timer vr.fsm) { state = init } }

shut_down : Ipnet → State → VirtualRouter → Outcome
unfolding to_init delete_virtual_addresses remove_v6
shut_down n backup vr = record {
  router = to_init vr;
  effects = remove_mac_vlans vr;
  result = ok tt;
}
shut_down n master vr = record {
  router = to_init vr;
  effects = send_advertisement vr ++ delete_virtual_addresses n vr ++ remove_mac_vlans vr;
  result = ok tt;
}
shut_down n init vr = record { router = vr; effects = remove_mac_vlans vr; result = ok tt }

-- `match event`, with its guards on the state.
on_event : Ipnet → Env → Event → State → VirtualRouter → Option (List ℕ) → Outcome
unfolding become_master start_backup shut_down
on_event n env startup init vr mac =
    if vr.priority == 255 then become_master n env vr mac else start_backup n env vr
on_event n env shutdown state vr mac = shut_down n state vr
on_event n env Event.master_down backup vr mac = become_master n env vr mac
on_event n env _ _ vr mac = record { router = vr; effects = []; result = ok tt }

on_interface : Ipnet → Env → Event → VirtualRouter → Result NetworkError NetworkInterface → Outcome
unfolding on_event
on_interface n env event vr (ok interface) = on_event n env event vr.fsm.state vr interface.mac
on_interface n env event vr (err e) = record { router = vr; effects = []; result = err e }
on_interface n env event vr panic = record { router = vr; effects = []; result = panic }

-- `EventObserver::notify_mut`
unfoldable pub notify_mut : Ipnet → Env → Event → VirtualRouter → Outcome
unfolding on_interface get_interface
notify_mut n env event vr =
    on_interface n env event vr (get_interface env.interfaces vr.mac_vlan_interface_v4)

-- `Mutex<VirtualRouter>`: a panic while it is held poisons it.
pub record Mutex : Type 0 where
  pub poisoned : Bool
  pub router : VirtualRouter

-- `EventObserver::notify`
unfoldable pub notify : Ipnet → Env → Event → Mutex → Outcome
unfolding notify_mut
notify n env event m =
    if m.poisoned
    then record { router = m.router; effects = []; result = err lock_poisoned }
    else notify_mut n env event m.router
