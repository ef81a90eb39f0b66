-- ===== src/Handlers/Protocol.antt =====
-- The handler of src/pkt/handlers.rs against RFC 3768 sections 6.4.2 and 6.4.3, which its comment
-- names: where it follows them, and the two places where it does not.
use failover.Base.{ℕ, ◌≡◌, ◌<◌, Bool, true, false, not, ◌&&◌, ◌||◌, ◌==◌, ltb, leb, if◌then◌else◌}
use failover.Crates.Ipnet.{Ipnet}
use failover.StateMachine.{State, init, backup, master}
use failover.Packet.{VrrpPacket}
use failover.Router.{VirtualRouter, Env}
use failover.Observer.{Outcome}
use failover.Handlers.Reaction.{
  Reaction, ignore, restart_skew, restart_down, readvertise, take_over, step_down, state_after,
  timer_after,
}

-- What the RFC has a router of the given state and priority do on an advertisement of the priority
-- `heard`: section 6.4.2 for BACKUP, 6.4.3 for MASTER. `greater`: the sender's primary address is
-- the greater one.
abbrev pub rfc_reaction : State → (preempt : Bool) → (own heard : ℕ) → (greater : Bool) → Reaction
rfc_reaction init preempt own heard greater = ignore
rfc_reaction backup preempt own heard greater =
    if heard == 0
    then restart_skew
    else if not preempt || leb own heard
    then restart_down
    else ignore
rfc_reaction master preempt own heard greater =
    if heard == 0
    then readvertise
    else if ltb own heard || (heard == own && greater)
    then step_down
    else ignore

module _ (n : Ipnet) (env : Env) (ttl : ℕ) (pkt : VrrpPacket) (vr : VirtualRouter) where
  -- The state and the timer are those of the reaction.
  abbrev pub IsReaction : Reaction → Outcome → Type 0
  IsReaction r o =
      (o.router.fsm.state ≡ state_after r vr.fsm.state)
      × (o.router.fsm.timer ≡ timer_after r env.now vr)

  -- The two departures, each with the reaction in place of the RFC's.
  abbrev pub PreemptsAtOnce : Outcome → Type 0
  PreemptsAtOnce o =
      (vr.fsm.state ≡ backup)
      × (vr.preempt_mode ≡ true)
      × (0 < pkt.priority)
      × (pkt.priority < vr.priority)
      × IsReaction take_over o

  abbrev pub YieldsToEqual : Bool → Outcome → Type 0
  YieldsToEqual greater o =
      (vr.fsm.state ≡ master)
      × (0 < pkt.priority)
      × (pkt.priority ≡ vr.priority)
      × (greater ≡ false)
      × IsReaction step_down o
