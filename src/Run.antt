-- ===== src/Run.antt =====
-- `run` (src/lib.rs): what is set up before the tasks start, over the answers of the kernel.
pub mod Setup
pub mod DualStack
pub mod Serve
use failover.Base.{ℕ, Bool, true, false, List, [], ◌∷◌, ◌++◌, Option, none, some, Str}
use failover.Error.{Result, ok, err, panic, ◌>>=◌, NetworkError}
use failover.Version.{VrrpVersion, v2, v3}
use failover.Net.{NetworkInterface}
use failover.Crates.Ipnet.{Ipnet}
use failover.StateMachine.{Event}
use failover.Router.{VirtualRouter, Env, Effect}
use failover.Observer.{get_interface, notify}
use failover.General.{AddressFamily, primary_ipv4, primary_ipv6}
use failover.General.MacVlan.{Answers, Request, create_mac_vlan}
use failover.CoreTasks.Steps.{World}

-- What the host answers: its interfaces at each look-up, and the kernel, for each mac-vlan.
pub record Host : Type 0 where
  pub interfaces : List NetworkInterface
  pub interfaces_v4 : List NetworkInterface
  pub interfaces_v6 : List NetworkInterface
  pub kernel_v4 : Answers
  pub kernel_v6 : Answers
  pub on_startup : Env

-- `TaskItems`: the router, and the interfaces that the tasks listen on.
pub record TaskItems : Type 0 where
  pub vrouter : VirtualRouter
  pub interface : NetworkInterface
  pub interface_v6 : Option NetworkInterface
  pub parent_interface : NetworkInterface

v6_side :
    Host
    → NetworkInterface
    → VirtualRouter
    → NetworkInterface
    → VrrpVersion
    → Result NetworkError TaskItems
unfolding create_mac_vlan get_interface primary_ipv6
v6_side host parent vr interface v3 = do
  v6_name ← (create_mac_vlan parent.name vr.vrid AddressFamily.v6 host.kernel_v6).1
  interface_v6 ← get_interface host.interfaces_v6 v6_name
  ok (record {
    vrouter = record vr {
      mac_vlan_interface_v6 = some v6_name;
      primary_ip_v6 = primary_ipv6 parent;
    };
    interface = interface;
    interface_v6 = some interface_v6;
    parent_interface = parent;
  })
v6_side host parent vr interface v2 =
    ok (record {
      vrouter = vr;
      interface = interface;
      interface_v6 = none;
      parent_interface = parent;
    })

unfoldable pub set_up : Host → VirtualRouter → Result NetworkError TaskItems
unfolding get_interface primary_ipv4 create_mac_vlan v6_side
set_up host vrouter = do
  parent ← get_interface host.interfaces vrouter.network_interface
  primary_ip ← primary_ipv4 parent
  name ← (create_mac_vlan parent.name vrouter.vrid AddressFamily.v4 host.kernel_v4).1
  interface ← get_interface host.interfaces_v4 name
  v6_side host parent (record vrouter { primary_ip = primary_ip; mac_vlan_interface_v4 = name })
      interface vrouter.version

-- After the first `notify`: the tasks start, or `run` panics.
after_startup :
    VirtualRouter → List Effect → Result NetworkError (Unit {0}) → Result NetworkError World
after_startup router effects (ok t) = ok (record {
  mutex = record { poisoned = false; router = router };
  ticking = true;
  history = effects;
})
after_startup router effects (err e) = panic
after_startup router effects panic = panic

unfoldable pub first_notify : Ipnet → Host → TaskItems → Result NetworkError World
unfolding notify after_startup
first_notify n host items =
    let o =
      notify n host.on_startup Event.startup
        (record { poisoned = false; router = items.vrouter }) in
    after_startup o.router o.effects o.result
