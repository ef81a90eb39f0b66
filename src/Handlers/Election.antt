-- ===== src/Handlers/Election.antt =====
-- Two MASTERs of one virtual router that hear each other (src/router.rs, src/packet.rs and
-- src/pkt/handlers.rs together).
use failover.Base.{ℕ, ◌≡◌, ◌<◌, refl, ◌∙◌, ◌==◌, ltb, true, false, List, arith}
use failover.Error.{ok}
use failover.Net.{IpAddr}
use failover.Crates.Buffer.{Buffer, IsBuffer}
use failover.Crates.Checksum.{Checksum, IsChecksum}
use failover.Crates.Ipnet.{Ipnet}
use failover.StateMachine.{State, backup, master}
use failover.Router.{VirtualRouter, Env}
use failover.Handlers.{process_vrrp_packet}
use failover.Handlers.Reaction.{react, state_after}
use failover.Handlers.Wired.{IsConfigured, ArePeers, advert_bytes, process_vrrp_packet-advert}

module _ (b : Buffer) (c : Checksum) (lawful : IsBuffer b) (sums : IsChecksum c) (n : Ipnet)
    (env : Env) (dst : IpAddr) where
  -- The state of `receiver` after the IPv4 advertisement of `sender`: the bytes, and what follows.
  abbrev pub Hears : VirtualRouter → VirtualRouter → State → Type 0
  Hears receiver sender state =
      (bytes : List ℕ) × (advert_bytes b c lawful sums n sender ≡ ok bytes)
      × ((process_vrrp_packet b c n env bytes (IpAddr.v4 sender.primary_ip) dst 255
            (record { poisoned = false; router = receiver })).router.fsm.state
          ≡ state)

  hears :
      (receiver sender : VirtualRouter) (state : State)
      → IsConfigured sender
      → ArePeers sender receiver
      → state_after
          (react receiver.fsm.state receiver.preempt_mode
            (ltb sender.priority receiver.priority)
            (sender.priority == 0))
          receiver.fsm.state
        ≡ state
      → Hears receiver sender state
  hears receiver sender state configured peers e =
      let (bytes, sent, reacted) =
        process_vrrp_packet-advert b c lawful sums n sender env
          (record { poisoned = false; router = receiver }) dst configured peers refl in
      (bytes, sent, reacted.0 ∙ e)

  -- Of two MASTERs of one virtual router, both configured within the types, with different
  -- priorities, the lower one not 0, that receive each other's IPv4 advertisements with a TTL of
  -- 255, the one of the higher priority stays MASTER and the other becomes BACKUP.
  pub one_master :
      (high low : VirtualRouter)
      → IsConfigured high
      → IsConfigured low
      → ArePeers high low
      → ArePeers low high
      → high.fsm.state ≡ master
      → low.fsm.state ≡ master
      → 0 < low.priority
      → low.priority < high.priority
      → Hears high low master × Hears low high backup
  one_master high low configured configured' peers peers' e e' positive higher = (
    hears high low master configured' peers' (ground (arith, e)),
    hears low high backup configured peers (ground (arith, e')),
  )

  -- Two MASTERs of one virtual router, both configured within the types, with the same priority,
  -- not 0, that receive each other's IPv4 advertisements with a TTL of 255, both become BACKUP.
  pub no_master :
      (one other : VirtualRouter)
      → IsConfigured one
      → IsConfigured other
      → ArePeers one other
      → ArePeers other one
      → one.fsm.state ≡ master
      → other.fsm.state ≡ master
      → 0 < one.priority
      → one.priority ≡ other.priority
      → Hears one other backup × Hears other one backup
  no_master one other configured configured' peers peers' e e' positive same = (
    hears one other backup configured' peers' (ground (arith, e)),
    hears other one backup configured peers (ground (arith, e')),
  )

  -- A BACKUP that receives, with a TTL of 255, the IPv4 advertisement of a peer configured within
  -- the types whose priority is lower than its own and not 0 becomes MASTER if it preempts, and
  -- stays BACKUP if it does not.
  pub backup_preempts :
      (high low : VirtualRouter)
      → IsConfigured low
      → ArePeers low high
      → high.fsm.state ≡ backup
      → 0 < low.priority
      → low.priority < high.priority
      → (high.preempt_mode ≡ true → Hears high low master)
        × (high.preempt_mode ≡ false → Hears high low backup)
  backup_preempts high low configured peers e positive higher = (
    λ preempt. hears high low master configured peers (ground (arith, e)),
    λ stays. hears high low backup configured peers (ground (arith, e)),
  )
