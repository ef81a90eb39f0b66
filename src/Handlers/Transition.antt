-- ===== src/Handlers/Transition.antt =====
-- The handler of src/pkt/handlers.rs: its checks, and the table of its transitions.
use failover.Base.{ℕ, ◌≡◌, ◌≢◌, refl, ◌⊎◌, inr, ◌==◌, ltb, List, none, some, Str, arith, All}
use failover.Error.{ok, panic}
use failover.Version.{VrrpAddresses}
use failover.Crates.Ipnet.{Ipnet}
use failover.Packet.{VrrpPacket}
use failover.Router.{VirtualRouter, Env}
use failover.Observer.{Outcome}
use failover.Observer.Laws.{IsConsistent, SameConfig}
use failover.Handlers.{family_side, process_decoded}
use failover.Handlers.Reaction.{
  Reaction, IsAcceptable, HasSide, IsLog, checks_iff, react, state_after, timer_after,
}

module _ (n : Ipnet) (env : Env) (ttl : ℕ) (pkt : VrrpPacket) (vr : VirtualRouter) where
  -- The packet and the router's family side; `family_side` is none exactly without an interface.
  pub family_side-cases :
      (addresses : VrrpAddresses)
      → (family_side n vr addresses ≡ none)
        ⊎ ((side : Str × List Str) × (family_side n vr addresses ≡ some side)
            × HasSide vr addresses)
  unfolding family_side
  family_side-cases (VrrpAddresses.v4 addrs) = inr (_, refl, tt)
  family_side-cases (VrrpAddresses.v6 addrs) = ground arith

  abbrev outcome : Outcome
  outcome = process_decoded n env ttl pkt vr

  -- A decoded packet is acceptable, or the router stays as it was, the effects are reports of
  -- dropped packets at most, and the call succeeds.
  pub process_decoded-checked :
      IsAcceptable ttl pkt vr
      ⊎ ((outcome.router ≡ vr) × All IsLog outcome.effects × (outcome.result ≡ ok tt))
  unfolding process_decoded
  process_decoded-checked =
      ground (arith, checks_iff vr pkt.addresses, family_side-cases pkt.addresses)

  abbrev reaction : Reaction
  reaction = react vr.fsm.state vr.preempt_mode (ltb pkt.priority vr.priority) (pkt.priority == 0)

  -- A packet that is acceptable (TTL 255, same VRID and interval, from the owner or with the
  -- configured addresses, in a family that the router has an interface for) leaves the router in
  -- the state, and with the timer, that the table `react` gives.
  pub process_decoded-react :
      IsAcceptable ttl pkt vr
      → (outcome.router.fsm.state ≡ state_after reaction vr.fsm.state)
        × (outcome.router.fsm.timer ≡ timer_after reaction env.now vr)
  unfolding process_decoded
  process_decoded-react acceptable =
      ground (arith, checks_iff vr pkt.addresses, family_side-cases pkt.addresses)

  -- The timer stays the one of the state.
  pub process_decoded-IsConsistent : IsConsistent vr.fsm → IsConsistent outcome.router.fsm
  unfolding process_decoded
  process_decoded-IsConsistent h = ground (arith, family_side-cases pkt.addresses)

  pub process_decoded-SameConfig : SameConfig vr outcome.router
  unfolding process_decoded
  process_decoded-SameConfig = ground arith

  pub process_decoded-ne-panic : outcome.result ≢ panic
  unfolding process_decoded
  process_decoded-ne-panic = ground arith
