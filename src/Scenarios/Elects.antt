-- ===== src/Scenarios/Elects.antt =====
-- Two hosts that run the program, at concrete inputs (src/bin/failover.rs).
use failover.Base.{ℕ, ◌≡◌, refl, [], ◌∷◌, some, arith}
use failover.Error.{ok}
use failover.StateMachine.{backup, master}
use failover.Router.{VirtualRouter, Env, new}
use failover.Observer.{find_interface, get_interface, or_not_found}
use failover.Config.{JsonConfig}
use failover.Config.Load.{Os, file_mode}
use failover.General.{AddressFamily, config_to_vr, mac_vlan_name, fnv1a_hash}
use failover.General.Configured.{FitsTypes}
use failover.Handlers.Election.{Hears}
use failover.CoreTasks.Steps.{tick, started, World, at_start, handle, step, run}
use failover.Run.{TaskItems, set_up, first_notify}
use failover.Main.{spawns, main}
use failover.Main.Elects.{IsRunning, program_elects_one}
use failover.Scenarios.Crates.{
  bytes_buffer, bytes_buffer-IsBuffer, rfc1071, rfc1071-IsChecksum, numbers, numbers-IsRanged,
}
use failover.Scenarios.Routers.{v2_params, env}
use failover.Scenarios.Links.{parent}
use failover.Scenarios.Setup.{prepared}
use failover.Scenarios.Program.{first, two, mode, two_files}
use failover.Scenarios.Serving.{home_host, at_home}
use failover.Scenarios.Election.{somewhere}

-- The host's one configuration, with its priority.
abbrev own : ℕ → JsonConfig
own priority = record first { priority = some priority }

abbrev one : ℕ → Os
one priority = record two { parse_list = λ text. ok (own priority ∷ []) }

abbrev configured : ℕ → VirtualRouter
configured priority = new (record v2_params { priority = priority })

abbrev set_up_so : ℕ → TaskItems
set_up_so priority = record prepared {
  vrouter = record (configured priority) {
    primary_ip = 3232261121;
    mac_vlan_interface_v4 = mac_vlan_name parent 51 AddressFamily.v4;
  };
}

abbrev notified : ℕ → World
notified priority =
    step bytes_buffer rfc1071 numbers (home_host.on_startup, started)
      (at_start (set_up_so priority).vrouter)

-- Late enough for every deadline.
abbrev late : Env
late = record at_home { now = 10000000000 }

abbrev ticked : ℕ → World
ticked priority = run bytes_buffer rfc1071 numbers ((late, tick) ∷ []) (notified priority)

one-spawned :
    (priority : ℕ)
    → main numbers (one priority) (file_mode mode) two_files ≡ spawns (configured priority ∷ [])
unfolding main new config_to_vr
one-spawned priority = refl

home-prepares : (priority : ℕ) → set_up home_host (configured priority) ≡ ok (set_up_so priority)
unfolding set_up new mac_vlan_name fnv1a_hash
home-prepares priority = refl

high-begins : first_notify numbers home_host (set_up_so 200) ≡ ok (notified 200)
unfolding first_notify step handle mac_vlan_name fnv1a_hash new
high-begins = refl

low-begins : first_notify numbers home_host (set_up_so 101) ≡ ok (notified 101)
unfolding first_notify step handle mac_vlan_name fnv1a_hash new
low-begins = refl

high-masters : (ticked 200).mutex.router.fsm.state ≡ master
unfolding run step handle mac_vlan_name fnv1a_hash new find_interface get_interface or_not_found
high-masters = refl

low-masters : (ticked 101).mutex.router.fsm.state ≡ master
unfolding run step handle mac_vlan_name fnv1a_hash new find_interface get_interface or_not_found
low-masters = refl

runs :
    (priority : ℕ)
    → first_notify numbers home_host (set_up_so priority) ≡ ok (notified priority)
    → IsRunning bytes_buffer rfc1071 numbers (configured priority) (ticked priority)
runs priority begins = record {
  os = one priority;
  mode = file_mode mode;
  files = two_files;
  before = [];
  after = [];
  spawned = one-spawned priority;
  host = home_host;
  items = set_up_so priority;
  prepared = home-prepares priority;
  begun = notified priority;
  begins = begins;
  inputs = (late, tick) ∷ [];
  comes_to = refl;
}

high-FitsTypes : FitsTypes (configured 200)
unfolding new
high-FitsTypes = record {
  vrid_fits = omega arith;
  priority_fits = omega arith;
  interval_fits = omega arith;
}

low-FitsTypes : FitsTypes (configured 101)
unfolding new
low-FitsTypes = record {
  vrid_fits = omega arith;
  priority_fits = omega arith;
  interval_fits = omega arith;
}

program_elects_one_example :
    let high = (ticked 200).mutex.router in
    let low = (ticked 101).mutex.router in
    Hears bytes_buffer rfc1071 bytes_buffer-IsBuffer rfc1071-IsChecksum numbers env somewhere high
      low master
    × Hears bytes_buffer rfc1071 bytes_buffer-IsBuffer rfc1071-IsChecksum numbers env somewhere low
        high backup
unfolding new
program_elects_one_example =
    program_elects_one bytes_buffer rfc1071 numbers env somewhere (configured 200) (configured 101)
      (ticked 200) (ticked 101) bytes_buffer-IsBuffer rfc1071-IsChecksum numbers-IsRanged
      (runs 200 high-begins) (runs 101 low-begins)
      (record { same_vrid = refl; same_interval = refl; same_addresses = refl }) high-FitsTypes
      low-FitsTypes high-masters low-masters (omega arith) (omega arith)
