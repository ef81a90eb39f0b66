-- ===== src/Scenarios/Runs.antt =====
-- The runs and the ticks at concrete inputs (src/core_tasks.rs).
use failover.Base.{◌≡◌, refl, true, List, [], ◌∷◌, arith}
use failover.StateMachine.{backup, master}
use failover.Router.{VirtualRouter, Env}
use failover.Observer.{find_interface, get_interface, or_not_found}
use failover.Observer.Laws.{IsConsistent}
use failover.CoreTasks.{Received}
use failover.CoreTasks.Steps.Diagram.{Arrow, handle-Follows}
use failover.CoreTasks.Steps.{handle, Input, tick, started, stopped, vrrp, World, at_start, run}
use failover.CoreTasks.Steps.Invariants.{run-IsConsistent}
use failover.CoreTasks.Timers.{HasMac, silent_backup_takes_over}
use failover.Scenarios.Crates.{bytes_buffer, bytes_buffer-IsBuffer, rfc1071, numbers}
use failover.Scenarios.Routers.{vlan_mac, vlan_interface, the_backup, the_master, env}

abbrev pub inputs : List (Env × Input)
inputs = (env, started) ∷ (env, tick) ∷ (env, vrrp Received.unreadable) ∷ (env, stopped) ∷ []

abbrev world : VirtualRouter → World
world vr = at_start vr

pub the_backup-IsConsistent : IsConsistent the_backup.fsm
the_backup-IsConsistent = record { right_timer = refl; deadline = refl }

the_master-IsConsistent : IsConsistent the_master.fsm
the_master-IsConsistent = record { right_timer = refl; deadline = refl }

run-IsConsistent_example :
    IsConsistent (run bytes_buffer rfc1071 numbers inputs (world the_backup)).mutex.router.fsm
run-IsConsistent_example =
    run-IsConsistent bytes_buffer rfc1071 numbers bytes_buffer-IsBuffer inputs (world the_backup)
      the_backup-IsConsistent

abbrev broken : World
broken = record (world the_backup) { mutex = record { poisoned = true; router = the_backup } }

pub vlan-HasMac : HasMac env the_backup vlan_mac
unfolding get_interface find_interface or_not_found
vlan-HasMac = record { interface = vlan_interface; found = refl; has = refl }

abbrev early : Env
early = record env { now = 10 }

silent_backup_takes_over_example :
    (run bytes_buffer rfc1071 numbers
      ((early, tick) ∷ (env, tick) ∷ [])
      (world the_backup)).mutex.router.fsm.state
    ≡ master
silent_backup_takes_over_example =
    silent_backup_takes_over bytes_buffer rfc1071 numbers the_backup 10 refl (early ∷ []) env
      vlan_mac (world the_backup) refl refl the_backup-IsConsistent refl (omega arith, tt)
      (omega arith) vlan-HasMac

handle-Follows_example :
    Arrow tick backup
      (handle bytes_buffer rfc1071 numbers env tick (world the_backup)).router.fsm.state
handle-Follows_example =
    handle-Follows bytes_buffer rfc1071 numbers bytes_buffer-IsBuffer env (world the_backup) tick

-- The tick does make the router MASTER.
expired-moves :
    (handle bytes_buffer rfc1071 numbers env tick (world the_backup)).router.fsm.state ≡ master
unfolding handle find_interface
expired-moves = refl
