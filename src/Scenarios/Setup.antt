-- ===== src/Scenarios/Setup.antt =====
-- The setup at a concrete host (src/lib.rs).
use failover.Base.{◌≡◌, refl, false, [], ◌∷◌, none, some}
use failover.Error.{ok}
use failover.Net.{IpAddr}
use failover.Router.{new}
use failover.Observer.Ownership.{assigned, is_master}
use failover.CoreTasks.Steps.{at_start, run}
use failover.General.{AddressFamily, mac_vlan_name, fnv1a_hash}
use failover.Run.{Host, TaskItems, set_up}
use failover.Run.Setup.{set_up_owned}
use failover.Scenarios.Crates.{bytes_buffer, bytes_buffer-IsBuffer, rfc1071, numbers}
use failover.Scenarios.Routers.{virtual_ip, v2_params, vlan_mac, env}
use failover.Scenarios.Runs.{inputs}
use failover.Scenarios.Links.{parent, kernel}

-- The host has the parent interface, and the kernel the router's mac-vlan under it.
abbrev pub host : Host
host = record {
  interfaces =
      record { name = parent; mac = none; ips = IpAddr.v6 1 ∷ IpAddr.v4 3232261121 ∷ [] } ∷ [];
  interfaces_v4 =
      record { name = mac_vlan_name parent 51 AddressFamily.v4; mac = some vlan_mac; ips = [] }
      ∷ [];
  interfaces_v6 = [];
  kernel_v4 = kernel;
  kernel_v6 = kernel;
  on_startup = env;
}

abbrev pub prepared : TaskItems
prepared = record {
  vrouter = record (new v2_params) {
    primary_ip = 3232261121;
    mac_vlan_interface_v4 = mac_vlan_name parent 51 AddressFamily.v4;
  };
  interface = record {
    name = mac_vlan_name parent 51 AddressFamily.v4;
    mac = some vlan_mac;
    ips = [];
  };
  interface_v6 = none;
  parent_interface = record {
    name = parent;
    mac = none;
    ips = IpAddr.v6 1 ∷ IpAddr.v4 3232261121 ∷ [];
  };
}

pub host-prepares : set_up host (new v2_params) ≡ ok prepared
unfolding set_up new mac_vlan_name fnv1a_hash
host-prepares = refl

set_up_owned_example :
    let w = run bytes_buffer rfc1071 numbers inputs (at_start prepared.vrouter) in
    assigned (mac_vlan_name parent 51 AddressFamily.v4) (virtual_ip ∷ 24 ∷ []) false w.history
    ≡ is_master w.mutex.router.fsm.state
unfolding new
set_up_owned_example =
    set_up_owned bytes_buffer rfc1071 numbers host (new v2_params) prepared (virtual_ip ∷ 24 ∷ [])
      inputs bytes_buffer-IsBuffer refl refl refl refl host-prepares
