-- ===== src/CoreTasks/Steps/Cases.antt =====
-- The ways in which one input changes the router (src/core_tasks.rs, src/pkt/handlers.rs).
use failover.Base.{ℕ, ◌≡◌, refl, sym, subst, List, [], Option, none, some, ltb, All, if_cases}
use failover.Net.{IpAddr, EthernetPacket, Ipv4Packet}
use failover.Crates.Buffer.{Buffer, IsBuffer}
use failover.Crates.Checksum.{Checksum}
use failover.Crates.Ipnet.{Ipnet}
use failover.Float.{as_f32}
use failover.StateMachine.{
  TimerType, master_down, adver, Event, startup, shutdown, set_advert_timer,
}
use failover.Packet.{VrrpPacket}
use failover.Router.{VirtualRouter, Effect, Env, send_advertisement}
use failover.Observer.{Outcome, Mutex, notify_mut, notify}
use failover.Observer.Ownership.{IsQuiet}
use failover.Handlers.{process_decoded}
use failover.Handlers.Ownership.{IsLog-IsQuiet}
use failover.Handlers.Neighbors.{handle_incoming_arp_pkt, handle_incoming_ndp_pkt}
use failover.Handlers.Neighbors.Idle.{
  IsIdle, handle_incoming_arp_pkt-IsIdle, handle_incoming_ndp_pkt-IsIdle,
}
use failover.Handlers.Receive.{vrrp_v4_cases, vrrp_v6_cases}
use failover.CoreTasks.{
  Received, packet, vrrp_round, vrrp_v6_round, arp_round, ndp_round, timer_tick, on_timer,
}
use failover.CoreTasks.Steps.{Input, vrrp, vrrp_v6, arp, ndp, tick, started, stopped, World, handle}

module _ (n : Ipnet) (env : Env) where
  module _ {ℓ} (vr : VirtualRouter) (P : VirtualRouter → List Effect → Type ℓ) where
    -- A property of the router and the effects that holds in each of the ways a router changes
    -- while it hears no VRRP packet.
    pub record HoldsUnheard : Type ℓ where
      pub alone : (effects : List Effect) → All IsQuiet effects → P vr effects
      pub notified : (event : Event) → let o = notify_mut n env event vr in P o.router o.effects
      pub readvertised :
          vr.fsm.timer.t_type ≡ adver
          → P
              (record vr { fsm = set_advert_timer env.now (as_f32 vr.advert_interval) vr.fsm })
              (send_advertisement vr)

    -- One that also holds after a VRRP packet.
    pub record HoldsInAllWays : Type ℓ where
      pub unheard : HoldsUnheard
      pub processed :
          (ttl : ℕ) (pkt : VrrpPacket)
          → let o = process_decoded n env ttl pkt vr in P o.router o.effects

  module _ {ℓ} (m : Mutex) (P : VirtualRouter → List Effect → Type ℓ)
      (holds : HoldsUnheard m.router P) where
    abbrev Holds : Outcome → Type ℓ
    Holds o = P o.router o.effects

    idle : (o : Outcome) → IsIdle m.router o → Holds o
    idle o h = subst (λ (r : VirtualRouter). P r o.effects) (sym h.0) (holds.alone o.effects h.1)

    notify-Holds : (event : Event) → Holds (notify n env event m)
    unfolding notify
    notify-Holds event = if_cases Holds m.poisoned (holds.alone [] tt) (holds.notified event)

    on_timer-Holds :
        (t_type : TimerType) (waiting : Option ℕ)
        → m.router.fsm.timer.t_type ≡ t_type
        → Holds (on_timer n env t_type waiting m.router)
    unfolding on_timer
    on_timer-Holds master_down (some waiting) e =
        if_cases Holds (ltb waiting env.now) (holds.notified Event.master_down) (holds.alone [] tt)
    on_timer-Holds adver (some waiting) e =
        if_cases Holds (ltb waiting env.now) (holds.readvertised e) (holds.alone [] tt)
    on_timer-Holds TimerType.null (some waiting) e = holds.alone [] tt
    on_timer-Holds master_down none e = holds.alone [] tt
    on_timer-Holds adver none e = holds.alone [] tt
    on_timer-Holds TimerType.null none e = holds.alone [] tt

    timer_tick-Holds : Holds (timer_tick n env m)
    unfolding timer_tick
    timer_tick-Holds =
        if_cases Holds m.poisoned (holds.alone [] tt)
          (on_timer-Holds m.router.fsm.timer.t_type m.router.fsm.timer.waiting_for refl)

    arp-Holds :
        (b : Buffer) (received : Received EthernetPacket) → Holds (arp_round b env received m)
    unfolding arp_round
    arp-Holds b (packet p) =
        idle (handle_incoming_arp_pkt b env p m) (handle_incoming_arp_pkt-IsIdle b env p m)
    arp-Holds b (Received.failed e) = holds.alone [] tt
    arp-Holds b Received.unreadable = holds.alone [] tt

    ndp-Holds : (received : Received (List ℕ × ℕ)) → Holds (ndp_round env received m)
    unfolding ndp_round
    ndp-Holds (packet (payload, src)) =
        idle (handle_incoming_ndp_pkt env payload src m)
          (handle_incoming_ndp_pkt-IsIdle env payload src m)
    ndp-Holds (Received.failed e) = holds.alone [] tt
    ndp-Holds Received.unreadable = holds.alone [] tt

    module _ (b : Buffer) (c : Checksum) (lawful : IsBuffer b)
        (processed : (ttl : ℕ) (pkt : VrrpPacket)
          → Holds (process_decoded n env ttl pkt m.router)) where
      vrrp-Holds : (received : Received Ipv4Packet) → Holds (vrrp_round b c n env received m)
      unfolding vrrp_round
      vrrp-Holds (packet p) =
          vrrp_v4_cases b c lawful n env Holds p m
            (λ effects logs. holds.alone effects (IsLog-IsQuiet effects logs))
            (λ pkt read. processed p.ttl pkt)
      vrrp-Holds (Received.failed e) = holds.alone [] tt
      vrrp-Holds Received.unreadable = holds.alone [] tt

      vrrp_v6-Holds :
          (received : Received (List ℕ × IpAddr)) → Holds (vrrp_v6_round b c n env received m)
      unfolding vrrp_v6_round
      vrrp_v6-Holds (packet (payload, IpAddr.v6 src)) =
          vrrp_v6_cases b c lawful n env Holds payload src m
            (λ effects logs. holds.alone effects (IsLog-IsQuiet effects logs))
            (λ pkt read. processed 255 pkt)
      vrrp_v6-Holds (packet (payload, IpAddr.v4 src)) = holds.alone [] tt
      vrrp_v6-Holds (Received.failed e) = holds.alone [] tt
      vrrp_v6-Holds Received.unreadable = holds.alone [] tt

-- What comes is no VRRP packet.
abbrev pub IsUnheard : Input → Type 0
IsUnheard (vrrp received) = ⊥
IsUnheard (vrrp_v6 received) = ⊥
IsUnheard _ = Unit {0}

-- What holds in each of the ways without VRRP packets holds after every input that is none.
pub handle_unheard {ℓ} :
    (b : Buffer) (c : Checksum) (n : Ipnet) (env : Env) (w : World)
    (P : VirtualRouter → List Effect → Type ℓ)
    → HoldsUnheard n env w.mutex.router P
    → (input : Input) → IsUnheard input
    → let o = handle b c n env input w in P o.router o.effects
unfolding handle
handle_unheard b c n env w P holds (vrrp received) quiet = absurd quiet
handle_unheard b c n env w P holds (vrrp_v6 received) quiet = absurd quiet
handle_unheard b c n env w P holds (arp received) quiet = arp-Holds n env w.mutex P holds b received
handle_unheard b c n env w P holds (ndp received) quiet = ndp-Holds n env w.mutex P holds received
handle_unheard b c n env w P holds tick quiet =
    if_cases (λ (o : Outcome). P o.router o.effects) w.ticking
      (timer_tick-Holds n env w.mutex P holds) (holds.alone [] tt)
handle_unheard b c n env w P holds started quiet = notify-Holds n env w.mutex P holds startup
handle_unheard b c n env w P holds stopped quiet = notify-Holds n env w.mutex P holds shutdown

-- What holds in each of the ways a router changes holds after every input.
pub handle_holds {ℓ} :
    (b : Buffer) (c : Checksum) (n : Ipnet) (env : Env) (w : World)
    (P : VirtualRouter → List Effect → Type ℓ)
    → IsBuffer b
    → HoldsInAllWays n env w.mutex.router P
    → (input : Input) → let o = handle b c n env input w in P o.router o.effects
unfolding handle
handle_holds b c n env w P lawful holds (vrrp received) =
    vrrp-Holds n env w.mutex P holds.unheard b c lawful holds.processed received
handle_holds b c n env w P lawful holds (vrrp_v6 received) =
    vrrp_v6-Holds n env w.mutex P holds.unheard b c lawful holds.processed received
handle_holds b c n env w P lawful holds (arp received) =
    handle_unheard b c n env w P holds.unheard (arp received) tt
handle_holds b c n env w P lawful holds (ndp received) =
    handle_unheard b c n env w P holds.unheard (ndp received) tt
handle_holds b c n env w P lawful holds tick = handle_unheard b c n env w P holds.unheard tick tt
handle_holds b c n env w P lawful holds started =
    handle_unheard b c n env w P holds.unheard started tt
handle_holds b c n env w P lawful holds stopped =
    handle_unheard b c n env w P holds.unheard stopped tt
