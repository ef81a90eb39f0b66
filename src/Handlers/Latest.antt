-- ===== src/Handlers/Latest.antt =====
-- Two advertisements, one after the other (src/packet.rs and src/pkt/handlers.rs together).
use failover.Base.{ℕ, ◌≡◌, ◌<◌, refl, sym, ap, ◌∙◌, ◌==◌, ltb, true, false, List, arith, subst}
use failover.Error.{ok}
use failover.Net.{IpAddr}
use failover.Crates.Buffer.{Buffer, IsBuffer}
use failover.Crates.Checksum.{Checksum, IsChecksum}
use failover.Crates.Ipnet.{Ipnet}
use failover.StateMachine.{State, backup, master}
use failover.Router.{VirtualRouter, Env}
use failover.Observer.Laws.{SameConfig}
use failover.Handlers.{process_vrrp_packet}
use failover.Handlers.Receive.{process_vrrp_packet-SameConfig}
use failover.Handlers.Reaction.{react, state_after}
use failover.Handlers.Wired.{
  IsConfigured, ArePeers, advert_bytes, advert-delivered, process_vrrp_packet-advert,
}

module _ (b : Buffer) (c : Checksum) (lawful : IsBuffer b) (sums : IsChecksum c) (n : Ipnet)
    (env : Env) (dst : IpAddr) where
  -- The router after the bytes of the sender's IPv4 advertisement, with a TTL of 255.
  abbrev pub after : VirtualRouter → List ℕ → VirtualRouter → VirtualRouter
  after sender bytes receiver =
      (process_vrrp_packet b c n env bytes (IpAddr.v4 sender.primary_ip) dst 255
        (record { poisoned = false; router = receiver })).router

  -- The state that the table `react` gives a receiver in `state` for the sender.
  abbrev pub expected : State → VirtualRouter → VirtualRouter → State
  expected state sender receiver =
      state_after
        (react state receiver.preempt_mode (ltb sender.priority receiver.priority)
          (sender.priority == 0))
        state

  pub after-expected :
      (sender receiver : VirtualRouter) (bytes : List ℕ)
      → IsConfigured sender
      → ArePeers sender receiver
      → advert_bytes b c lawful sums n sender ≡ ok bytes
      → (after sender bytes receiver).fsm.state ≡ expected receiver.fsm.state sender receiver
  after-expected sender receiver bytes configured peers sent =
      let (bytes', sent', reacted) =
        process_vrrp_packet-advert b c lawful sums n sender env
          (record { poisoned = false; router = receiver }) dst configured peers refl in
      let same : bytes' ≡ bytes = cc in
      subst
        (λ (bytes : List ℕ).
          (after sender bytes receiver).fsm.state ≡ expected receiver.fsm.state sender receiver)
        same reacted.0

  pub after-SameConfig :
      (sender receiver : VirtualRouter) (bytes : List ℕ)
      → SameConfig receiver (after sender bytes receiver)
  after-SameConfig sender receiver bytes =
      process_vrrp_packet-SameConfig b c lawful n env bytes (IpAddr.v4 sender.primary_ip) dst 255
        (record { poisoned = false; router = receiver })

  pub ArePeers-after :
      (sender receiver heard : VirtualRouter) (bytes : List ℕ)
      → ArePeers sender receiver
      → ArePeers sender (after heard bytes receiver)
  ArePeers-after sender receiver heard bytes peers =
      let peers' = subst (ArePeers sender) (sym (after-SameConfig heard receiver bytes)) peers in
      record {
        same_vrid = peers'.same_vrid;
        same_interval = peers'.same_interval;
        same_addresses = peers'.same_addresses;
      }

  -- The state after the advertisements of two senders, one after the other.
  after_both :
      (first second receiver : VirtualRouter) (bytes bytes' : List ℕ)
      → IsConfigured first
      → IsConfigured second
      → ArePeers first receiver
      → ArePeers second receiver
      → advert_bytes b c lawful sums n first ≡ ok bytes
      → advert_bytes b c lawful sums n second ≡ ok bytes'
      → (after second bytes' (after first bytes receiver)).fsm.state
        ≡ expected (expected receiver.fsm.state first receiver) second receiver
  after_both first second receiver bytes bytes' configured configured' peers peers' sent sent' =
      after-expected second (after first bytes receiver) bytes' configured'
        (ArePeers-after second receiver first bytes peers') sent'
      ∙ ap (λ (state : State). expected state second (after first bytes receiver))
          (after-expected first receiver bytes configured peers sent)
      ∙ ap (λ (vr : VirtualRouter). expected (expected receiver.fsm.state first receiver) second vr)
          (after-SameConfig first receiver bytes)

  -- A MASTER that preempts and gets the IPv4 advertisements of two peers configured within the
  -- types, one of a higher priority and one of a lower that is not 0, with a TTL of 255: if the
  -- lower one's comes last it is MASTER again, and if the higher one's comes last it is BACKUP.
  pub last_heard_decides :
      (high low receiver : VirtualRouter)
      → IsConfigured high
      → IsConfigured low
      → ArePeers high receiver
      → ArePeers low receiver
      → receiver.fsm.state ≡ master
      → receiver.preempt_mode ≡ true
      → 0 < low.priority
      → low.priority < receiver.priority
      → receiver.priority < high.priority
      → (of_high of_low : List ℕ) × (advert_bytes b c lawful sums n high ≡ ok of_high)
        × (advert_bytes b c lawful sums n low ≡ ok of_low)
        × ((after low of_low (after high of_high receiver)).fsm.state ≡ master)
        × ((after high of_high (after low of_low receiver)).fsm.state ≡ backup)
  last_heard_decides high low receiver configured configured' peers peers' masters preempts positive
        lower higher =
      let (of_high, sent, _) = advert-delivered b c lawful sums n high dst configured in
      let (of_low, sent', _) = advert-delivered b c lawful sums n low dst configured' in
      (
        of_high,
        of_low,
        sent,
        sent',
        after_both high low receiver of_high of_low configured configured' peers peers' sent sent'
            ∙ ground (arith, masters, preempts),
        after_both low high receiver of_low of_high configured' configured peers' peers sent' sent
            ∙ ground (arith, masters, preempts),
      )
