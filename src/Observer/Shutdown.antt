-- ===== src/Observer/Shutdown.antt =====
-- What the event of the shutdown does (src/observer.rs).
use failover.Base.{◌≡◌, refl, List, [], ◌∷◌, ◌++◌, none, some, Str, All}
use failover.Error.{Result, ok, err, panic, NetworkError}
use failover.Net.{NetworkInterface}
use failover.Crates.Ipnet.{Ipnet}
use failover.StateMachine.{State, init, backup, master, shutdown}
use failover.Router.{VirtualRouter, Env, Effect, remove_mac_vlan, send_advertisement}
use failover.Observer.{
  Outcome, get_interface, notify_mut, on_event, on_interface, shut_down, to_init, remove_mac_vlans,
  remove_v6, delete_virtual_addresses,
}
use failover.Observer.Ownership.{IsQuiet, remove_mac_vlans-IsQuiet}

-- The interface is there when it is looked up.
abbrev pub Finds : Str → Env → Type 0
Finds name env = (interface : NetworkInterface) × (get_interface env.interfaces name ≡ ok interface)

-- The router is in INIT, and the last that was asked for is the removal of its mac-vlans.
pub record IsShutDown (vr : VirtualRouter) (o : Outcome) : Type 0 where
  pub state : o.router.fsm.state ≡ init
  pub succeeds : o.result ≡ ok tt
  pub earlier : List Effect
  pub removes : o.effects ≡ earlier ++ remove_mac_vlans vr

pub remove_mac_vlans-alone :
    (vr : VirtualRouter)
    → vr.mac_vlan_interface_v6 ≡ none
    → remove_mac_vlans vr ≡ remove_mac_vlan vr.mac_vlan_interface_v4 ∷ []
unfolding remove_v6
remove_mac_vlans-alone vr v4_only = rw v4_only refl

pub remove_mac_vlans-first :
    (vr : VirtualRouter)
    → (rest : List Effect) × (remove_mac_vlans vr ≡ remove_mac_vlan vr.mac_vlan_interface_v4 ∷ rest)
unfolding remove_mac_vlans
remove_mac_vlans-first vr = (_, refl)

pub remove_mac_vlans-both :
    (vr : VirtualRouter) (v6_iface : Str)
    → vr.mac_vlan_interface_v6 ≡ some v6_iface
    → remove_mac_vlans vr ≡ remove_mac_vlan vr.mac_vlan_interface_v4 ∷ remove_mac_vlan v6_iface ∷ []
unfolding remove_v6
remove_mac_vlans-both vr v6_iface sided = rw sided refl

module _ (n : Ipnet) (env : Env) (vr : VirtualRouter) where
  shut_down-IsShutDown :
      (state : State) → vr.fsm.state ≡ state → IsShutDown vr (shut_down n state vr)
  unfolding shut_down to_init
  shut_down-IsShutDown init same = record {
    state = same;
    succeeds = refl;
    earlier = [];
    removes = refl;
  }
  shut_down-IsShutDown backup same = record {
    state = refl;
    succeeds = refl;
    earlier = [];
    removes = refl;
  }
  shut_down-IsShutDown master same = record {
    state = refl;
    succeeds = refl;
    earlier = send_advertisement vr ++ delete_virtual_addresses n vr;
    removes = refl;
  }

  pub notify_mut-IsShutDown :
      Finds vr.mac_vlan_interface_v4 env → IsShutDown vr (notify_mut n env shutdown vr)
  unfolding notify_mut on_interface on_event
  notify_mut-IsShutDown (interface, found) = rw found (shut_down-IsShutDown vr.fsm.state refl)

-- A MASTER sends its advertisement, gives up its addresses, and has its mac-vlan removed.
pub notify_mut-shutdown_master :
    (n : Ipnet) (env : Env) (vr : VirtualRouter)
    → vr.mac_vlan_interface_v6 ≡ none
    → vr.fsm.state ≡ master
    → Finds vr.mac_vlan_interface_v4 env
    → (notify_mut n env shutdown vr).effects
      ≡ send_advertisement vr
        ++ delete_virtual_addresses n vr
        ++ remove_mac_vlan vr.mac_vlan_interface_v4 ∷ []
unfolding notify_mut on_interface on_event shut_down remove_v6
notify_mut-shutdown_master n env vr v4_only state (interface, found) =
    rw (found, state, v4_only) refl

module _ (n : Ipnet) (env : Env) (vr : VirtualRouter) (waits : vr.fsm.state ≡ backup) where
  stop_found-IsQuiet :
      (found : Result NetworkError NetworkInterface)
      → All IsQuiet (on_interface n env shutdown vr found).effects
  unfolding on_interface on_event shut_down
  stop_found-IsQuiet (ok interface) = rw waits (remove_mac_vlans-IsQuiet vr)
  stop_found-IsQuiet (err e) = tt
  stop_found-IsQuiet panic = tt

  -- A BACKUP that stops neither adds nor deletes an address.
  pub backup_stop-IsQuiet : All IsQuiet (notify_mut n env shutdown vr).effects
  unfolding notify_mut
  backup_stop-IsQuiet = stop_found-IsQuiet (get_interface env.interfaces vr.mac_vlan_interface_v4)

  pub backup_stops :
      Finds vr.mac_vlan_interface_v4 env → (notify_mut n env shutdown vr).router.fsm.state ≡ init
  unfolding notify_mut on_interface on_event shut_down
  backup_stops (interface, found) = rw (found, waits) refl
