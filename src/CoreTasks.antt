-- ===== src/CoreTasks.antt =====
-- One round of each of the loops of src/core_tasks.rs: what was received, or the timer's tick.
pub mod Timers
pub mod Steps
pub mod Processes
use failover.Base.{
  ℕ, Bool, true, false, not, ◌||◌, List, [], ◌∷◌, Option, none, some, ltb, if◌then◌else◌,
}
use failover.Error.{Result, ok, err, panic, NetworkError, Source}
use failover.Net.{IpAddr, EthernetPacket, Ipv4Packet}
use failover.Crates.Buffer.{Buffer}
use failover.Crates.Checksum.{Checksum}
use failover.Crates.Ipnet.{Ipnet}
use failover.Float.{as_f32}
use failover.StateMachine.{TimerType, master_down, adver, Event, set_advert_timer}
use failover.Router.{VirtualRouter, Effect, Env, send_advertisement}
use failover.Observer.{Outcome, Mutex, notify_mut}
use failover.Handlers.{unchanged, handle_incoming_vrrp_v4_pkt, handle_incoming_vrrp_v6_pkt}
use failover.Handlers.Neighbors.{handle_incoming_arp_pkt, handle_incoming_ndp_pkt}

abbrev expired : ℕ → ℕ → Bool
expired now waiting = ltb waiting now

on_timer : Ipnet → Env → TimerType → Option ℕ → VirtualRouter → Outcome
unfolding notify_mut set_advert_timer
on_timer n env master_down (some waiting) vr =
    if expired env.now waiting then notify_mut n env Event.master_down vr else unchanged vr []
on_timer n env adver (some waiting) vr =
    if expired env.now waiting
    then record {
      router = record vr { fsm = set_advert_timer env.now (as_f32 vr.advert_interval) vr.fsm };
      effects = send_advertisement vr;
      result = ok tt;
    }
    else unchanged vr []
on_timer n env _ _ vr = unchanged vr []

-- A tick of `timer_process`. On an error the task returns, and ticks no more.
unfoldable pub timer_tick : Ipnet → Env → Mutex → Outcome
unfolding on_timer
timer_tick n env m =
    if m.poisoned
    then unchanged m.router []
    else on_timer n env m.router.fsm.timer.t_type m.router.fsm.timer.waiting_for m.router

-- What `recv` and the packet views of pnet give: an error, bytes that hold no packet, or one.
pub data Received (A : Type 0) : Type 0 where
  failed : Source → Received A
  unreadable : Received A
  packet : A → Received A

-- `if let Err(err) = …` only logs: the loops go on.
abbrev logged : Outcome → Outcome
logged o = record o { result = keep_on o.result }
  where
    keep_on : Result NetworkError (Unit {0}) → Result NetworkError (Unit {0})
    keep_on (ok t) = ok t
    keep_on (err e) = ok tt
    keep_on panic = panic

module _ (b : Buffer) (c : Checksum) (n : Ipnet) where
  unfoldable pub vrrp_round : Env → Received Ipv4Packet → Mutex → Outcome
  unfolding handle_incoming_vrrp_v4_pkt
  vrrp_round env (packet p) m = logged (handle_incoming_vrrp_v4_pkt b c n env p m)
  vrrp_round env _ m = unchanged m.router []

  abbrev vrrp_v6_from : Env → List ℕ → IpAddr → Mutex → Outcome
  vrrp_v6_from env payload (IpAddr.v6 src) m =
      logged (handle_incoming_vrrp_v6_pkt b c n env payload src m)
  vrrp_v6_from env payload (IpAddr.v4 src) m = unchanged m.router []

  unfoldable pub vrrp_v6_round : Env → Received (List ℕ × IpAddr) → Mutex → Outcome
  unfolding handle_incoming_vrrp_v6_pkt
  vrrp_v6_round env (packet (payload, src)) m = vrrp_v6_from env payload src m
  vrrp_v6_round env _ m = unchanged m.router []

module _ (b : Buffer) where
  unfoldable pub arp_round : Env → Received EthernetPacket → Mutex → Outcome
  unfolding handle_incoming_arp_pkt
  arp_round env (packet p) m = logged (handle_incoming_arp_pkt b env p m)
  arp_round env _ m = unchanged m.router []

unfoldable pub ndp_round : Env → Received (List ℕ × ℕ) → Mutex → Outcome
unfolding handle_incoming_ndp_pkt
ndp_round env (packet (payload, src)) m = logged (handle_incoming_ndp_pkt env payload src m)
ndp_round env _ m = unchanged m.router []
