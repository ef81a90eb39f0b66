-- ===== src/CoreTasks/Steps/Diagram.antt =====
-- The state diagram of a virtual router (RFC 3768 section 6.4): which inputs make it change its state
-- (src/core_tasks.rs, src/lib.rs).
use failover.Base.{ℕ, ◌≡◌, refl, sym, ap, subst, ◌⊎◌, inl, inr, List, arith, if_cases}
use failover.Net.{IpAddr, EthernetPacket, Ipv4Packet}
use failover.Crates.Buffer.{Buffer, IsBuffer}
use failover.Crates.Checksum.{Checksum}
use failover.Crates.Ipnet.{Ipnet}
use failover.StateMachine.{State, init, backup, master, Event, startup, shutdown}
use failover.Packet.{VrrpPacket}
use failover.Router.{VirtualRouter, Env}
use failover.Observer.{Outcome, Mutex, notify_mut, notify}
use failover.Handlers.{process_decoded}
use failover.Handlers.Receive.{vrrp_v4_cases, vrrp_v6_cases}
use failover.Handlers.Neighbors.Idle.{
  handle_incoming_arp_pkt-IsIdle, handle_incoming_ndp_pkt-IsIdle,
}
use failover.CoreTasks.{
  Received, packet, vrrp_round, vrrp_v6_round, arp_round, ndp_round, timer_tick,
}
use failover.CoreTasks.Steps.{Input, vrrp, vrrp_v6, arp, ndp, tick, started, stopped, World, handle}

-- The arrows of the diagram: an input, the state before and the state after it.
pub data Arrow : Input → State → State → Type 0 where
  stay : (input : Input) (s : State) → Arrow input s s
  own : Arrow started init master
  wait : Arrow started init backup
  expire : Arrow tick backup master
  preempt : (received : Received Ipv4Packet) → Arrow (vrrp received) backup master
  step_down : (received : Received Ipv4Packet) → Arrow (vrrp received) master backup
  preempt6 : (received : Received (List ℕ × IpAddr)) → Arrow (vrrp_v6 received) backup master
  step_down6 : (received : Received (List ℕ × IpAddr)) → Arrow (vrrp_v6 received) master backup
  stop : (s : State) → Arrow stopped s init

-- The three ways in which a packet may leave the state.
abbrev Ends : State → State → Type 0
Ends s s' = (s' ≡ s) ⊎ (((s ≡ backup) × (s' ≡ master)) ⊎ ((s ≡ master) × (s' ≡ backup)))

module _ (n : Ipnet) (env : Env) (vr : VirtualRouter) where
  process_decoded-Ends :
      (ttl : ℕ) (pkt : VrrpPacket)
      → Ends vr.fsm.state (process_decoded n env ttl pkt vr).router.fsm.state
  unfolding process_decoded
  process_decoded-Ends ttl pkt = ground arith

  notify_ends :
      (event : Event)
      → let s = (notify_mut n env event vr).router.fsm.state in
        (s ≡ vr.fsm.state)
        ⊎ (((event ≡ startup) × (vr.fsm.state ≡ init) × ((s ≡ master) ⊎ (s ≡ backup)))
            ⊎ (((event ≡ shutdown) × (s ≡ init))
                ⊎ ((event ≡ Event.master_down) × (vr.fsm.state ≡ backup) × (s ≡ master))))
  unfolding notify_mut
  notify_ends startup = ground arith
  notify_ends Event.null = ground arith
  notify_ends shutdown = ground arith
  notify_ends Event.master_down = ground arith

-- An arrow between states that are known up to an equation.
arrow : {input : Input} {s s' t t' : State} → s ≡ t → s' ≡ t' → Arrow input t t' → Arrow input s s'
arrow {input = input} {s = s} {t' = t'} e e' h =
    subst (λ (x : State). Arrow input s x) (sym e')
      (subst (λ (x : State). Arrow input x t') (sym e) h)

timer_tick_ends :
    (n : Ipnet) (env : Env) (m : Mutex)
    → let s = (timer_tick n env m).router.fsm.state in
      (s ≡ m.router.fsm.state) ⊎ ((m.router.fsm.state ≡ backup) × (s ≡ master))
unfolding timer_tick
timer_tick_ends n env m = ground arith

module _ (b : Buffer) (c : Checksum) (n : Ipnet) (lawful : IsBuffer b) (env : Env) (w : World) where
  abbrev before : State
  before = w.mutex.router.fsm.state

  -- The arrow of an outcome.
  abbrev Follows : Input → Outcome → Type 0
  Follows input o = Arrow input before o.router.fsm.state

  vrrp-Follows :
      (received : Received Ipv4Packet)
      → Follows (vrrp received) (vrrp_round b c n env received w.mutex)
  unfolding vrrp_round
  vrrp-Follows (Received.failed e) = stay _ before
  vrrp-Follows Received.unreadable = stay _ before
  vrrp-Follows (packet p) =
      vrrp_v4_cases b c lawful n env (Follows (vrrp (packet p))) p w.mutex
        (λ effects logs. stay _ before)
        (λ pkt read. elim (process_decoded-Ends n env w.mutex.router p.ttl pkt) [
          | inl e ↦ arrow refl e (stay _ before)
          | inr (inl (e, e')) ↦ arrow e e' (preempt (packet p))
          | inr (inr (e, e')) ↦ arrow e e' (step_down (packet p))
        ])

  vrrp_v6-Follows :
      (received : Received (List ℕ × IpAddr))
      → Follows (vrrp_v6 received) (vrrp_v6_round b c n env received w.mutex)
  unfolding vrrp_v6_round
  vrrp_v6-Follows (Received.failed e) = stay _ before
  vrrp_v6-Follows Received.unreadable = stay _ before
  vrrp_v6-Follows (packet (payload, IpAddr.v4 src)) = stay _ before
  vrrp_v6-Follows (packet (payload, IpAddr.v6 src)) =
      vrrp_v6_cases b c lawful n env (Follows (vrrp_v6 (packet (payload, IpAddr.v6 src)))) payload
        src w.mutex (λ effects logs. stay _ before)
        (λ pkt read. elim (process_decoded-Ends n env w.mutex.router 255 pkt) [
          | inl e ↦ arrow refl e (stay _ before)
          | inr (inl (e, e')) ↦ arrow e e' (preempt6 (packet (payload, IpAddr.v6 src)))
          | inr (inr (e, e')) ↦ arrow e e' (step_down6 (packet (payload, IpAddr.v6 src)))
        ])

  arp-Follows :
      (received : Received EthernetPacket)
      → Follows (arp received) (arp_round b env received w.mutex)
  unfolding arp_round
  arp-Follows (Received.failed e) = stay _ before
  arp-Follows Received.unreadable = stay _ before
  arp-Follows (packet p) =
      arrow refl
        (ap (λ (r : VirtualRouter). r.fsm.state) (handle_incoming_arp_pkt-IsIdle b env p w.mutex).0)
        (stay _ before)

  ndp-Follows :
      (received : Received (List ℕ × ℕ)) → Follows (ndp received) (ndp_round env received w.mutex)
  unfolding ndp_round
  ndp-Follows (Received.failed e) = stay _ before
  ndp-Follows Received.unreadable = stay _ before
  ndp-Follows (packet (payload, src)) =
      arrow refl
        (ap (λ (r : VirtualRouter). r.fsm.state)
          (handle_incoming_ndp_pkt-IsIdle env payload src w.mutex).0)
        (stay _ before)

  tick-Follows : Follows tick (timer_tick n env w.mutex)
  tick-Follows = elim (timer_tick_ends n env w.mutex) [
    | inl e ↦ arrow refl e (stay _ before)
    | inr (e, e') ↦ arrow e e' expire
  ]

  started-Follows : Follows started (notify n env startup w.mutex)
  unfolding notify
  started-Follows =
      if_cases (Follows started) w.mutex.poisoned (stay _ before)
        (elim (notify_ends n env w.mutex.router startup) [
          | inl e ↦ arrow refl e (stay _ before)
          | inr (inl (k, e, inl e')) ↦ arrow e e' own
          | inr (inl (k, e, inr e')) ↦ arrow e e' wait
          | inr (inr (inl (k, e'))) ↦ absurd (ground arith)
          | inr (inr (inr (k, e, e'))) ↦ absurd (ground arith)
        ])

  stopped-Follows : Follows stopped (notify n env shutdown w.mutex)
  unfolding notify
  stopped-Follows =
      if_cases (Follows stopped) w.mutex.poisoned (stay _ before)
        (elim (notify_ends n env w.mutex.router shutdown) [
          | inl e ↦ arrow refl e (stay _ before)
          | inr (inl (k, e, e')) ↦ absurd (ground arith)
          | inr (inr (inl (k, e'))) ↦ arrow refl e' (stop before)
          | inr (inr (inr (k, e, e'))) ↦ absurd (ground arith)
        ])

  -- Whatever comes next, the state changes only along an arrow of the diagram: from INIT to
  -- MASTER or BACKUP at the start, from BACKUP to MASTER at a tick or on a VRRP packet, from
  -- MASTER to BACKUP on a VRRP packet, and to INIT at the stop; in all other cases it stays as it
  -- is.
  pub handle-Follows :
      (input : Input) → Arrow input before (handle b c n env input w).router.fsm.state
  unfolding handle
  handle-Follows (vrrp received) = vrrp-Follows received
  handle-Follows (vrrp_v6 received) = vrrp_v6-Follows received
  handle-Follows (arp received) = arp-Follows received
  handle-Follows (ndp received) = ndp-Follows received
  handle-Follows tick = if_cases (Follows tick) w.ticking tick-Follows (stay _ before)
  handle-Follows started = started-Follows
  handle-Follows stopped = stopped-Follows
