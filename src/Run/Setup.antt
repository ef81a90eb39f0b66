-- ===== src/Run/Setup.antt =====
-- The router that `run` (src/lib.rs) hands to its tasks.
use failover.Base.{
  ℕ, ◌≡◌, ◌≢◌, ap, ◌∙◌, subst, true, false, List, [], ◌∷◌, Option, none, some, Str, str_eq, any,
  arith, str_eq_iff, Bool-cases, inl, inr,
}
use failover.Error.{ok, >>=-eq-ok}
use failover.Version.{VrrpVersion, v2, v3}
use failover.Net.{NetworkInterface}
use failover.Crates.Buffer.{Buffer, IsBuffer}
use failover.Crates.Checksum.{Checksum}
use failover.Crates.Ipnet.{Ipnet}
use failover.StateMachine.{init}
use failover.Router.{VirtualRouter, Env, str_ipv4_addresses}
use failover.Observer.{find_interface, get_interface}
use failover.Observer.Ownership.{assigned, is_master}
use failover.General.{AddressFamily, primary_ipv4, mac_vlan_name}
use failover.General.MacVlan.{create_mac_vlan}
use failover.General.MacVlan.Laws.{create_mac_vlan-name}
use failover.CoreTasks.Steps.{Input, at_start, run}
use failover.CoreTasks.Steps.Invariants.{run_owned}
use failover.Run.{Host, TaskItems, v6_side, set_up}

find_interface-name :
    (interfaces : List NetworkInterface) (name : Str) (i : NetworkInterface)
    → find_interface interfaces name ≡ some i
    → i.name ≡ name
unfolding find_interface
find_interface-name [] name i h = cc
find_interface-name (x ∷ interfaces) name i h = elim (Bool-cases (str_eq x.name name)) [
  | inl here ↦ ground (arith, str_eq_iff x.name name)
  | inr there ↦ find_interface-name interfaces name i (ground arith)
]

get_interface-name :
    (interfaces : List NetworkInterface) (name : Str) (i : NetworkInterface)
    → get_interface interfaces name ≡ ok i
    → i.name ≡ name
unfolding get_interface
get_interface-name interfaces name i h = find_interface-name interfaces name i (ground arith)

-- What the setup may change of a router: its interfaces and its primary addresses.
abbrev pub Prepared : VirtualRouter → VirtualRouter → Type 0
Prepared vr vr' =
    record vr' {
      primary_ip = vr.primary_ip;
      primary_ip_v6 = vr.primary_ip_v6;
      mac_vlan_interface_v4 = vr.mac_vlan_interface_v4;
      mac_vlan_interface_v6 = vr.mac_vlan_interface_v6;
    }
    ≡ vr

-- The side of a version: version 3 has the IPv6 mac-vlan, version 2 leaves what was there.
abbrev pub HasV6Side :
    VrrpVersion → (parent : Str) (vrid : ℕ) (before : Option Str) → TaskItems → Type 0
HasV6Side v3 parent vrid before items =
    (items.interface_v6 ≢ none)
    × (items.vrouter.mac_vlan_interface_v6 ≡ some (mac_vlan_name parent vrid AddressFamily.v6))
HasV6Side v2 parent vrid before items =
    (items.interface_v6 ≡ none) × (items.vrouter.mac_vlan_interface_v6 ≡ before)

v6_side_lem :
    (host : Host) (parent : NetworkInterface) (vr : VirtualRouter) (interface : NetworkInterface)
    (version : VrrpVersion) (items : TaskItems)
    → parent.name ≡ vr.network_interface
    → v6_side host parent vr interface version ≡ ok items
    → Prepared vr items.vrouter
      × (items.vrouter.mac_vlan_interface_v4 ≡ vr.mac_vlan_interface_v4)
      × (items.vrouter.primary_ip ≡ vr.primary_ip)
      × HasV6Side version vr.network_interface vr.vrid vr.mac_vlan_interface_v6 items
unfolding v6_side
v6_side_lem host parent vr interface v2 items known h = ground arith
v6_side_lem host parent vr interface v3 items known h =
    let made = create_mac_vlan parent.name vr.vrid AddressFamily.v6 host.kernel_v6 in
    let (name, named, h1) = >>=-eq-ok made.1 _ h in
    let (i, there, h2) = >>=-eq-ok (get_interface host.interfaces_v6 name) _ h1 in
    let e = create_mac_vlan-name parent.name vr.vrid AddressFamily.v6 host.kernel_v6 name named in
    ground (arith, e)

-- A setup that succeeds changes nothing of the router but its interfaces and primary addresses:
-- its IPv4 interface is the mac-vlan of its VRID on its parent, and in version 3 its IPv6
-- interface is the IPv6 one, which the tasks then listen on, while in version 2 they listen on
-- none and the router's IPv6 side is left as it was.
pub set_up_lem :
    (host : Host) (vr : VirtualRouter) (items : TaskItems)
    → set_up host vr ≡ ok items
    → Prepared vr items.vrouter
      × (items.vrouter.mac_vlan_interface_v4
          ≡ mac_vlan_name vr.network_interface vr.vrid AddressFamily.v4)
      × HasV6Side vr.version vr.network_interface vr.vrid vr.mac_vlan_interface_v6 items
unfolding set_up
set_up_lem host vr items h =
    let (parent, known, h1) = >>=-eq-ok (get_interface host.interfaces vr.network_interface) _ h in
    let (primary_ip, has, h2) = >>=-eq-ok (primary_ipv4 parent) _ h1 in
    let made = create_mac_vlan parent.name vr.vrid AddressFamily.v4 host.kernel_v4 in
    let (name, named, h3) = >>=-eq-ok made.1 _ h2 in
    let (interface, there, h4) = >>=-eq-ok (get_interface host.interfaces_v4 name) _ h3 in
    let same_name = get_interface-name host.interfaces vr.network_interface parent known in
    let e = create_mac_vlan-name parent.name vr.vrid AddressFamily.v4 host.kernel_v4 name named in
    let vr' = record vr { primary_ip = primary_ip; mac_vlan_interface_v4 = name } in
    let (same, v4_same, ip_same, side) =
      v6_side_lem host parent vr' interface vr.version items same_name h4 in
    (
      ap
          (λ (r : VirtualRouter). record r {
            primary_ip = vr.primary_ip;
            mac_vlan_interface_v4 = vr.mac_vlan_interface_v4;
          })
          same,
      v4_same ∙ e ∙ ap (λ (p : Str). mac_vlan_name p vr.vrid AddressFamily.v4) same_name,
      side,
    )

-- From the setup on: a version 2 router that has the state INIT and no IPv6 side, once its setup
-- succeeds, whatever packets, ticks, starts and stops come and in whatever order: the kernel has
-- each of the router's IPv4 addresses on the router's mac-vlan exactly if the router is MASTER,
-- where the kernel carries out every address action and has none of the addresses at the start.
pub set_up_owned :
    (b : Buffer) (c : Checksum) (n : Ipnet) (host : Host) (vr : VirtualRouter) (items : TaskItems)
    (a : Str) (inputs : List (Env × Input))
    → IsBuffer b
    → vr.version ≡ v2
    → vr.mac_vlan_interface_v6 ≡ none
    → vr.fsm.state ≡ init
    → any (λ x. str_eq x a) (str_ipv4_addresses n vr) ≡ true
    → set_up host vr ≡ ok items
    → let w = run b c n inputs (at_start items.vrouter) in
      assigned (mac_vlan_name vr.network_interface vr.vrid AddressFamily.v4) a false w.history
      ≡ is_master w.mutex.router.fsm.state
set_up_owned b c n host vr items a inputs lawful version v4_only start listed done =
    let (same, name, side) = set_up_lem host vr items done in
    let (none_v6, kept) =
      subst (λ v. HasV6Side v vr.network_interface vr.vrid vr.mac_vlan_interface_v6 items) version
        side in
    subst
      (λ i.
        let w = run b c n inputs (at_start items.vrouter) in
        assigned i a false w.history ≡ is_master w.mutex.router.fsm.state)
      name
      (run_owned b c n lawful a items.vrouter inputs
        (record {
          listed =
              ap (λ (r : VirtualRouter). any (λ x. str_eq x a) (str_ipv4_addresses n r)) same
              ∙ listed;
          v4_only = kept ∙ v4_only;
        })
        (ap (λ (r : VirtualRouter). r.fsm.state) same ∙ start))
