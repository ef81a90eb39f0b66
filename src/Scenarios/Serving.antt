-- ===== src/Scenarios/Serving.antt =====
-- A run from its setup to its end at concrete inputs (src/lib.rs).
use failover.Base.{◌≡◌, ◌⊎◌, ◌↔◌, refl, true, false, List, [], ◌∷◌, ◌++◌, none, some, arith}
use failover.Error.{ok}
use failover.Version.{AddressAction}
use failover.Net.{NetworkInterface}
use failover.StateMachine.{State, master, set_master_down_timer}
use failover.Router.{Env, new, address_action}
use failover.Observer.{get_interface, find_interface, or_not_found}
use failover.Observer.Shutdown.{Finds}
use failover.General.{AddressFamily, mac_vlan_name, fnv1a_hash}
use failover.Network.Listeners.{Calls, would_block, datagram}
use failover.CoreTasks.Steps.{tick, stopped, World, handle, step, at_start}
use failover.CoreTasks.Processes.{Sockets, Views, Happening, on_vrrp, on_arp, ticks, signal}
use failover.Run.{Host, set_up, first_notify}
use failover.Run.Serve.{Tasks, run, finished, serving, serve, spawn_all}
use failover.Run.Serve.Course.{Finishes}
use failover.Run.Serve.Course.Exact.{serve_iff}
use failover.Run.Serve.Deaf.{deaf, deaf_takes_over}
use failover.Run.Serve.Shutdown.{IsReleased, run_shuts_down}
use failover.Scenarios.Crates.{bytes_buffer, bytes_buffer-IsBuffer, rfc1071, numbers}
use failover.Scenarios.Routers.{virtual_ip, v2_params, vlan_mac, env, the_backup}
use failover.Scenarios.Links.{parent}
use failover.Scenarios.Listening.{names, all_well}
use failover.Scenarios.Setup.{host, prepared}
use failover.Scenarios.Runs.{the_backup-IsConsistent, vlan-HasMac}

abbrev pub sockets : Sockets
sockets = record {
  names = names;
  vrrp = all_well;
  vrrp_v6 = all_well;
  arp = all_well;
  ndp = all_well;
}

abbrev pub views : Views
views = record { ipv4 = λ buf. none; ethernet = λ buf. none }

-- The surroundings in which the router's mac-vlan is there.
abbrev pub at_home : Env
at_home = record env { interfaces = host.interfaces_v4 }

abbrev pub before : List (Env × Happening)
before = (at_home, on_vrrp would_block) ∷ (at_home, ticks) ∷ (at_home, on_arp (datagram [] 4)) ∷ []

abbrev pub home_host : Host
home_host = record host { on_startup = at_home }

home_host-prepares : set_up home_host (new v2_params) ≡ ok prepared
unfolding set_up new mac_vlan_name fnv1a_hash
home_host-prepares = refl

abbrev begun : World
begun = record {
  mutex = record {
    poisoned = false;
    router = record prepared.vrouter {
      fsm =
          record (set_master_down_timer 20 prepared.vrouter.master_down_interval
            prepared.vrouter.fsm) { state = State.backup };
    };
  };
  ticking = true;
  history =
      address_action AddressAction.delete ((virtual_ip ∷ 24 ∷ []) ∷ [])
        (mac_vlan_name parent 51 AddressFamily.v4)
      ∷ [];
}

home_host-begins : first_notify numbers home_host prepared ≡ ok begun
unfolding first_notify new set_master_down_timer mac_vlan_name fnv1a_hash get_interface
    find_interface or_not_found
home_host-begins = refl

abbrev our_vlan : NetworkInterface
our_vlan = record { name = mac_vlan_name parent 51 AddressFamily.v4; mac = some vlan_mac; ips = [] }

pub home-Finds : Finds (mac_vlan_name parent 51 AddressFamily.v4) at_home
unfolding mac_vlan_name fnv1a_hash get_interface find_interface or_not_found
home-Finds = (our_vlan, refl)

run_shuts_down_example :
    (w' : World) × (run bytes_buffer rfc1071 numbers views home_host sockets none
        (before ++ (at_home, signal) ∷ (at_home, ticks) ∷ [])
        (new v2_params)
      ≡ ok (finished w'))
    × ((w'.mutex.poisoned ≡ true)
        ⊎ IsReleased (mac_vlan_name parent 51 AddressFamily.v4) (virtual_ip ∷ 24 ∷ []) w')
unfolding new
run_shuts_down_example =
    run_shuts_down bytes_buffer rfc1071 numbers bytes_buffer-IsBuffer home_host (new v2_params)
      prepared (virtual_ip ∷ 24 ∷ []) refl refl refl refl home_host-prepares sockets views begun
      before ((at_home, ticks) ∷ []) at_home home_host-begins
      (home-Finds, (home-Finds, (home-Finds, (home-Finds, (home-Finds, tt)))))

abbrev all_tasks : Tasks
all_tasks = record { vrrp = true; vrrp_v6 = false; arp = true; ndp = false }

-- Of what happens before the signal only the tick is handled.
abbrev ended : World
ended =
    step bytes_buffer rfc1071 numbers (at_home, stopped)
      (step bytes_buffer rfc1071 numbers (at_home, tick) begun)

abbrev with_signal : List (Env × Happening)
with_signal = before ++ (at_home, signal) ∷ (at_home, ticks) ∷ []

serve_iff_example :
    (serve bytes_buffer rfc1071 numbers views with_signal (all_tasks, begun) ≡ finished ended)
    ↔ Finishes bytes_buffer rfc1071 numbers views all_tasks begun with_signal ended
serve_iff_example = serve_iff bytes_buffer rfc1071 numbers views with_signal all_tasks begun ended

-- The left side holds.
with_signal-ends :
    serve bytes_buffer rfc1071 numbers views with_signal (all_tasks, begun) ≡ finished ended
unfolding serve step handle
with_signal-ends = refl

-- The kernel allows no raw socket.
abbrev no_permission : Calls
no_permission = record all_well { creation = some 1 }

abbrev refused : Sockets
refused = record {
  names = names;
  vrrp = no_permission;
  vrrp_v6 = no_permission;
  arp = no_permission;
  ndp = no_permission;
}

abbrev early : Env
early = record env { now = 5 }

deaf_takes_over_example :
    (w' : World) × (serve bytes_buffer rfc1071 numbers views
        (((early, on_vrrp (datagram (69 ∷ []) none)) ∷ (early, ticks) ∷ []) ++ (env, ticks) ∷ [])
        (spawn_all false refused prepared, at_start the_backup)
      ≡ serving deaf w')
    × (w'.mutex.router.fsm.state ≡ master)
deaf_takes_over_example =
    deaf_takes_over bytes_buffer rfc1071 numbers views the_backup 10 refl refused prepared 1 false
      ((early, on_vrrp (datagram (69 ∷ []) none)) ∷ (early, ticks) ∷ []) env vlan_mac
      (at_start the_backup) (record { vrrp = refl; vrrp_v6 = refl; arp = refl; ndp = refl }) refl
      refl the_backup-IsConsistent refl ((refl, omega arith), ((refl, omega arith), tt))
      (omega arith) vlan-HasMac
