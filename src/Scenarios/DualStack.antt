-- ===== src/Scenarios/DualStack.antt =====
-- A router of version 3 with both families from its setup on, at concrete inputs (src/lib.rs).
use failover.Base.{◌+◌, ◌^◌, ◌≡◌, ◌⊎◌, refl, true, false, none, List, [], ◌∷◌, ◌++◌, arith}
use failover.Error.{ok}
use failover.Router.{Env, new}
use failover.StateMachine.{master}
use failover.Observer.{find_interface, get_interface, or_not_found}
use failover.Observer.Ownership.{assigned, is_master}
use failover.General.{AddressFamily, mac_vlan_name, fnv1a_hash}
use failover.CoreTasks.{Received}
use failover.CoreTasks.Steps.{Input, arp, tick, started, handle, step, at_start, World, run}
use failover.CoreTasks.Processes.{ticks, signal}
use failover.Run.{Host, set_up, first_notify}
use failover.Run.Serve
use failover.Run.Serve.{finished}
use failover.Run.Serve.Removal.{IsRemoved, run_removes_both}
use failover.Run.DualStack.{set_up_owns_both}
use failover.Scenarios.Crates.{bytes_buffer, bytes_buffer-IsBuffer, rfc1071, numbers}
use failover.Scenarios.Routers.{virtual_ip}
use failover.Scenarios.Links.{parent}
use failover.Scenarios.Program.{v3_host, v3_router, v3_prepared, v3_host-prepares}
use failover.Scenarios.Serving.{sockets, views, before, at_home, home-Finds}

abbrev at_last : Env
at_last = record at_home { now = 10000000000 }

-- It starts, an ARP frame is lost, and its deadline passes.
abbrev inputs : List (Env × Input)
inputs = (at_home, started) ∷ (at_home, arp Received.unreadable) ∷ (at_last, tick) ∷ []

becomes_master :
    (run bytes_buffer rfc1071 numbers inputs (at_start v3_prepared.vrouter)).mutex.router.fsm.state
    ≡ master
unfolding run step handle mac_vlan_name fnv1a_hash new find_interface get_interface or_not_found
becomes_master = refl

set_up_owns_both_example :
    let w = run bytes_buffer rfc1071 numbers inputs (at_start v3_prepared.vrouter) in
    (assigned (mac_vlan_name parent 51 AddressFamily.v4) (virtual_ip ∷ 24 ∷ []) false w.history
      ≡ is_master w.mutex.router.fsm.state)
    × (assigned
          (mac_vlan_name parent 51 AddressFamily.v6)
          (58 ∷ (2 ^ 125 + 1) ∷ 64 ∷ [])
          false
          w.history
        ≡ is_master w.mutex.router.fsm.state)
unfolding new
set_up_owns_both_example =
    set_up_owns_both bytes_buffer rfc1071 numbers v3_host v3_router v3_prepared
      (virtual_ip ∷ 24 ∷ []) (58 ∷ (2 ^ 125 + 1) ∷ 64 ∷ []) inputs bytes_buffer-IsBuffer refl refl
      (omega arith) refl refl v3_host-prepares (tt, (tt, (tt, tt)))

abbrev v3_home : Host
v3_home = record v3_host { on_startup = at_home }

v3_home-prepares : set_up v3_home v3_router ≡ ok v3_prepared
unfolding set_up new mac_vlan_name fnv1a_hash
v3_home-prepares = refl

abbrev v3_begun : World
v3_begun = step bytes_buffer rfc1071 numbers (at_home, started) (at_start v3_prepared.vrouter)

v3_home-begins : first_notify numbers v3_home v3_prepared ≡ ok v3_begun
unfolding first_notify step handle mac_vlan_name fnv1a_hash new
v3_home-begins = refl

run_removes_both_example :
    (w' : World) × (failover.Run.Serve.run bytes_buffer rfc1071 numbers views v3_home sockets none
        (before ++ (at_home, signal) ∷ (at_home, ticks) ∷ [])
        v3_router
      ≡ ok (finished w'))
    × ((w'.mutex.poisoned ≡ true)
        ⊎ IsRemoved
            (mac_vlan_name parent 51 AddressFamily.v4)
            (mac_vlan_name parent 51 AddressFamily.v6)
            w')
unfolding new
run_removes_both_example =
    run_removes_both bytes_buffer rfc1071 numbers bytes_buffer-IsBuffer v3_home v3_router
      v3_prepared refl v3_home-prepares sockets views v3_begun before ((at_home, ticks) ∷ [])
      at_home v3_home-begins
      (home-Finds, (home-Finds, (home-Finds, (home-Finds, (home-Finds, tt)))))
