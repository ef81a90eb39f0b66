-- ===== src/Scenarios/Program.antt =====
-- The program and its instances at concrete inputs (src/bin/failover.rs).
use failover.Base.{ℕ, ◌+◌, ◌^◌, ◌≡◌, ◌≢◌, refl, false, [], ◌∷◌, none, some, Str, arith}
use failover.Error.{ok, err}
use failover.Version.{v2, v3}
use failover.StateMachine.{backup, master, adver, TimerType}
use failover.Router.{VirtualRouter, Env, new}
use failover.Config.{JsonConfig}
use failover.Config.Load.{Os, Files, FileMode, file_mode}
use failover.General.{AddressFamily, config_to_vr, mac_vlan_name, fnv1a_hash}
use failover.General.MacVlan.{found, absent}
use failover.General.Kernel.{Netlink, requests_of_all}
use failover.CoreTasks.Steps.{tick, stopped, World, handle, step, at_start}
use failover.Run.{Host, TaskItems, set_up}
use failover.Main.{spawns, main}
use failover.Main.Apart.{main-own_mac_vlan}
use failover.Main.Links.{Links, interfaces_of, carry_out, IsIndexed}
use failover.Main.Shared.{shared_mac_vlan_lost}
use failover.Scenarios.Crates.{bytes_buffer, rfc1071, numbers}
use failover.Scenarios.Routers.{virtual_ip, v2_params, vlan_mac, machine, env}
use failover.Scenarios.Links.{parent, our_link, kernel}
use failover.Scenarios.Setup.{host, prepared, host-prepares}
use failover.Scenarios.Serving.{at_home, home-Finds}

abbrev pub first : JsonConfig
first = record {
  name = some (86 ∷ []);
  vrid = 51;
  ip_addresses = (virtual_ip ∷ 24 ∷ []) ∷ [];
  interface_name = 101 ∷ [];
  priority = none;
  advert_interval = none;
  preempt_mode = none;
  version = some v2;
}

abbrev second : JsonConfig
second = record first { name = some (87 ∷ []); vrid = 52 }

abbrev config_file : Str
config_file = 99 ∷ []

-- One file holds both instances.
abbrev pub two_files : Files
two_files = (config_file, 123 ∷ []) ∷ []

abbrev pub two : Os
two = record {
  snap_common = none;
  parent = λ path. none;
  create_fails = λ again path. none;
  written = λ path contents. contents;
  open_fails = λ path. none;
  no_such_file = 2;
  parse_list = λ text. ok (first ∷ second ∷ []);
  parse_one = λ text. err 1;
  log_file_fails = λ path. none;
  logging_fails = none;
  alphanumerics = λ i. [];
}

abbrev pub mode : FileMode
mode = record { filename = some config_file; log_file_path = none }

abbrev spawned : ℕ → Str → VirtualRouter
spawned vrid name = new (record v2_params { name = name; vrid = vrid; priority = 100 })

two-spawned :
    main numbers two (file_mode mode) two_files
    ≡ spawns (spawned 51 (86 ∷ []) ∷ spawned 52 (87 ∷ []) ∷ [])
unfolding main new config_to_vr
two-spawned = refl

main-own_mac_vlan_example :
    mac_vlan_name (101 ∷ []) 52 AddressFamily.v4 ≢ mac_vlan_name (101 ∷ []) 51 AddressFamily.v4
unfolding new
main-own_mac_vlan_example =
    main-own_mac_vlan numbers two (file_mode mode) two_files [] [] [] (spawned 51 (86 ∷ []))
      (spawned 52 (87 ∷ [])) AddressFamily.v4 two-spawned refl refl (omega arith) (omega arith)

-- The same VRID in version 3.
abbrev pub v3_router : VirtualRouter
v3_router = new (record v2_params {
  version = v3;
  ipv6_addresses = record { addr = 2 ^ 125 + 1; prefix_len = 64 } ∷ [];
})

abbrev pub v3_host : Host
v3_host = record host {
  interfaces_v6 =
      record { name = mac_vlan_name parent 51 AddressFamily.v6; mac = some vlan_mac; ips = [] }
      ∷ [];
  kernel_v6 = record kernel { existing = absent };
}

abbrev pub v3_prepared : TaskItems
v3_prepared = record prepared {
  vrouter = record v3_router {
    primary_ip = 3232261121;
    mac_vlan_interface_v4 = mac_vlan_name parent 51 AddressFamily.v4;
    mac_vlan_interface_v6 = some (mac_vlan_name parent 51 AddressFamily.v6);
  };
  interface_v6 =
      some
        (record { name = mac_vlan_name parent 51 AddressFamily.v6; mac = some vlan_mac; ips = [] });
}

pub v3_host-prepares : set_up v3_host v3_router ≡ ok v3_prepared
unfolding set_up new mac_vlan_name fnv1a_hash
v3_host-prepares = refl

-- The version 3 instance is BACKUP, and the version 2 one MASTER.
abbrev sharer : World
sharer = at_start (record v3_prepared.vrouter { fsm = machine backup TimerType.master_down })

abbrev leaver : World
leaver = at_start (record prepared.vrouter { fsm = machine master adver })

-- Netlink has their mac-vlan, with no addresses on it.
abbrev netlink : Netlink
netlink = record {
  connection = none;
  link = λ name. found our_link;
  addresses = λ name. ([], none);
}

abbrev links : Links
links =
    (4, record { name = mac_vlan_name parent 51 AddressFamily.v4; mac = some vlan_mac; ips = [] })
    ∷ (2, record { name = parent; mac = none; ips = [] })
    ∷ []

-- The links that are left once the version 2 instance has ended.
abbrev left : Env
left = record env {
  interfaces = interfaces_of (
      carry_out
        (requests_of_all numbers netlink
          (handle bytes_buffer rfc1071 numbers at_home stopped leaver).effects)
        links);
}

links-IsIndexed : IsIndexed (mac_vlan_name parent 51 AddressFamily.v4) 4 links
unfolding mac_vlan_name fnv1a_hash
links-IsIndexed = (λ e. refl, (λ e. cc, tt))

shared_mac_vlan_lost_example :
    let w' = step bytes_buffer rfc1071 numbers (left, tick) sharer in
    (w'.ticking ≡ false) × (w'.mutex.router ≡ sharer.mutex.router)
unfolding new
shared_mac_vlan_lost_example =
    shared_mac_vlan_lost bytes_buffer rfc1071 numbers host v3_host (new v2_params) v3_router
      prepared v3_prepared at_home left leaver sharer netlink our_link [] links 10 refl refl
      host-prepares v3_host-prepares refl refl home-Finds refl refl refl tt links-IsIndexed refl
      refl refl (record { right_timer = refl; deadline = refl }) refl refl (omega arith)
