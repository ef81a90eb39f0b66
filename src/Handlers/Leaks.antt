-- ===== src/Handlers/Leaks.antt =====
-- A router of version 3 that steps down and is then stopped (src/pkt/handlers.rs and
-- src/observer.rs together).
use failover.Base.{ℕ, ◌≤◌, ◌≢◌, ◌≡◌, ap, ◌∙◌, true, false, List, ◌++◌, Str, str_eq, arith}
use failover.Version.{VrrpAddresses}
use failover.Crates.Ipnet.{Ipnet}
use failover.StateMachine.{init, backup, master, shutdown}
use failover.Packet.{VrrpPacket}
use failover.Router.{VirtualRouter, Env}
use failover.Observer.{notify_mut}
use failover.Observer.Shutdown.{Finds, backup_stop-IsQuiet, backup_stops}
use failover.Observer.Ownership.{assigned, assigned-append, assigned_quiet}
use failover.Handlers.{process_decoded}
use failover.Handlers.Reaction.{IsAcceptable}
use failover.Handlers.Transition.{process_decoded-react, process_decoded-SameConfig}
use failover.Handlers.Families.{process_decoded-IsKept}

-- A MASTER that hears an acceptable IPv4 packet with a priority that is neither 0 nor below its
-- own steps down; if it is then stopped and its IPv4 mac-vlan is found, it is in INIT, but an
-- address that was on another interface, such as its IPv6 mac-vlan, is still there.
pub stepped_down_leaks :
    (n : Ipnet) (env env' : Env) (pkt : VrrpPacket) (vr : VirtualRouter) (v6_iface a : Str)
    (addrs : List ℕ)
    → str_eq vr.mac_vlan_interface_v4 v6_iface ≡ false
    → vr.fsm.state ≡ master
    → pkt.addresses ≡ VrrpAddresses.v4 addrs
    → IsAcceptable 255 pkt vr
    → pkt.priority ≢ 0
    → vr.priority ≤ pkt.priority
    → Finds vr.mac_vlan_interface_v4 env'
    → let heard = process_decoded n env 255 pkt vr in
      let stopped = notify_mut n env' shutdown heard.router in
      (heard.router.fsm.state ≡ backup)
      × (stopped.router.fsm.state ≡ init)
      × (assigned v6_iface a true (heard.effects ++ stopped.effects) ≡ true)
stepped_down_leaks n env env' pkt vr v6_iface a addrs apart masters listed acceptable positive
      higher found =
    let heard = process_decoded n env 255 pkt vr in
    let waits : heard.router.fsm.state ≡ backup =
      (process_decoded-react n env 255 pkt vr acceptable).0 ∙ ground (arith, masters) in
    (
      waits,
      backup_stops n env' heard.router waits (
          rw
            (ap (λ (r : VirtualRouter). r.mac_vlan_interface_v4)
              (process_decoded-SameConfig n env 255 pkt vr))
            found),
      assigned-append v6_iface a true heard.effects _
          ∙ assigned_quiet v6_iface a _ _ (backup_stop-IsQuiet n env' heard.router waits)
          ∙ process_decoded-IsKept n env pkt vr v6_iface a true apart 255 addrs listed,
    )
