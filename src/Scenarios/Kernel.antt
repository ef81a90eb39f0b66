-- ===== src/Scenarios/Kernel.antt =====
-- What the kernel is asked for at concrete inputs (src/general.rs, src/observer.rs).
use failover.Base.{◌≡◌, refl, [], ◌∷◌, ◌++◌, none, map, arith}
use failover.Net.{IpNet}
use failover.StateMachine.{shutdown}
use failover.Observer.{notify_mut, get_interface, find_interface, or_not_found}
use failover.Observer.Shutdown.{Finds}
use failover.CoreTasks.{timer_tick}
use failover.General.MacVlan.{found, add_address, delete_address, delete_link}
use failover.General.Kernel.{Netlink, requests_of_all}
use failover.General.Kernel.Takeover.{HasLink, timer_tick-requests, shutdown-requests}
use failover.Scenarios.Crates.{numbers, numbers-IsIpnet}
use failover.Scenarios.Routers.{
  vlan, vlan_mac, vlan_interface, env, the_backup, the_master, held_by,
}
use failover.Scenarios.Runs.{the_backup-IsConsistent, vlan-HasMac}
use failover.Scenarios.Links.{our_link}

-- Every name is that of the mac-vlan, which has no addresses.
abbrev netlink : Netlink
netlink = record {
  connection = none;
  link = λ name. found our_link;
  addresses = λ name. ([], none);
}

netlink-HasLink : HasLink netlink vlan our_link
netlink-HasLink = record { connected = refl; there = refl }

timer_tick-requests_example :
    requests_of_all numbers netlink (timer_tick numbers env (held_by the_backup)).effects
    ≡ map (λ net. add_address 4 (IpNet.v4 net)) the_backup.ipv4_addresses
timer_tick-requests_example =
    timer_tick-requests numbers netlink the_backup refl our_link numbers-IsIpnet
      ((omega arith, omega arith), tt) netlink-HasLink env 10 vlan_mac the_backup-IsConsistent refl
      refl (omega arith) vlan-HasMac

vlan-Finds : Finds vlan env
unfolding get_interface find_interface or_not_found
vlan-Finds = (vlan_interface, refl)

shutdown-requests_example :
    requests_of_all numbers netlink (notify_mut numbers env shutdown the_master).effects
    ≡ map (λ net. delete_address 4 (IpNet.v4 net)) the_master.ipv4_addresses ++ delete_link 4 ∷ []
shutdown-requests_example =
    shutdown-requests numbers netlink the_master refl our_link numbers-IsIpnet
      ((omega arith, omega arith), tt) netlink-HasLink env [] refl vlan-Finds refl tt
