-- ===== src/Handlers/Segment.antt =====
-- Any number of MASTERs of one virtual router on one segment (src/packet.rs and src/pkt/handlers.rs
-- together).
use failover.Base.{ℕ, ◌≡◌, ◌<◌, sym, ap, ◌∙◌, List, [], ◌∷◌, All, arith}
use failover.Error.{Result, ok, err, panic, PacketError}
use failover.Net.{IpAddr}
use failover.Crates.Buffer.{Buffer, IsBuffer}
use failover.Crates.Checksum.{Checksum, IsChecksum}
use failover.Crates.Ipnet.{Ipnet}
use failover.StateMachine.{backup, master}
use failover.Router.{VirtualRouter, Env}
use failover.Handlers.Wired.{IsConfigured, ArePeers, advert_bytes, advert-delivered}
use failover.Handlers.Election.{Hears}
use failover.Handlers.Latest.{after, after-expected, after-SameConfig, ArePeers-after}

-- A peer that is configured within the types, has a lower priority, which is not 0, and is MASTER.
pub record IsLowerMaster (high low : VirtualRouter) : Type 0 where
  pub configured : IsConfigured low
  pub peers : ArePeers low high
  pub positive : 0 < low.priority
  pub lower : low.priority < high.priority
  pub masters : low.fsm.state ≡ master

abbrev or_none : Result PacketError (List ℕ) → List ℕ
or_none (ok bytes) = bytes
or_none (err e) = []
or_none panic = []

module _ (b : Buffer) (c : Checksum) (lawful : IsBuffer b) (sums : IsChecksum c) (n : Ipnet)
    (env : Env) (dst : IpAddr) where
  abbrev pub bytes_of : VirtualRouter → List ℕ
  bytes_of sender = or_none (advert_bytes b c lawful sums n sender)

  -- The router after the IPv4 advertisement of each of these senders.
  abbrev pub after_all : List VirtualRouter → VirtualRouter → VirtualRouter
  after_all [] receiver = receiver
  after_all (sender ∷ senders) receiver =
      after_all senders (after b c lawful sums n env dst sender (bytes_of sender) receiver)

  bytes_of-sent :
      (sender : VirtualRouter)
      → IsConfigured sender
      → advert_bytes b c lawful sums n sender ≡ ok (bytes_of sender)
  bytes_of-sent sender configured =
      let (bytes, sent, _) = advert-delivered b c lawful sums n sender dst configured in
      sent ∙ ap (λ r. ok (or_none r)) (sym sent)

  IsLowerMaster-after :
      (high low heard : VirtualRouter)
      → IsLowerMaster high low
      → IsLowerMaster (after b c lawful sums n env dst heard (bytes_of heard) high) low
  IsLowerMaster-after high low heard h =
      let same =
        ap (λ (r : VirtualRouter). r.priority)
          (after-SameConfig b c lawful sums n env dst heard high (bytes_of heard)) in
      record {
        configured = h.configured;
        peers = ArePeers-after b c lawful sums n env dst low high heard (bytes_of heard) h.peers;
        positive = h.positive;
        lower = omega (arith, h.lower, same);
        masters = h.masters;
      }

  All-IsLowerMaster-after :
      (high heard : VirtualRouter) (lows : List VirtualRouter)
      → All (IsLowerMaster high) lows
      → All (IsLowerMaster (after b c lawful sums n env dst heard (bytes_of heard) high)) lows
  All-IsLowerMaster-after high heard [] h = tt
  All-IsLowerMaster-after high heard (low ∷ lows) h =
      (IsLowerMaster-after high low heard h.0, All-IsLowerMaster-after high heard lows h.1)

  stays_master :
      (lows : List VirtualRouter) (high : VirtualRouter)
      → high.fsm.state ≡ master
      → All (IsLowerMaster high) lows
      → (after_all lows high).fsm.state ≡ master
  stays_master [] high masters h = masters
  stays_master (low ∷ lows) high masters h =
      stays_master lows (after b c lawful sums n env dst low (bytes_of low) high)
        (after-expected b c lawful sums n env dst low high (bytes_of low) h.0.configured h.0.peers
            (bytes_of-sent low h.0.configured)
          ∙ ground (arith, masters, h.0.lower, h.0.positive))
        (All-IsLowerMaster-after high low lows h.1)

  others_step_down :
      (lows : List VirtualRouter) (high : VirtualRouter)
      → IsConfigured high
      → All (IsLowerMaster high) lows
      → All (λ low. Hears b c lawful sums n env dst low high backup) lows
  others_step_down [] high configured h = tt
  others_step_down (low ∷ lows) high configured h = (
    (
      bytes_of high,
      bytes_of-sent high configured,
      after-expected b c lawful sums n env dst high low (bytes_of high) configured
            (record {
              same_vrid = sym h.0.peers.same_vrid;
              same_interval = sym h.0.peers.same_interval;
              same_addresses = sym h.0.peers.same_addresses;
            })
            (bytes_of-sent high configured)
          ∙ ground (arith, h.0.masters, h.0.lower, h.0.positive),
    ),
    others_step_down lows high configured h.1,
  )

  -- Of any number of MASTERs of one virtual router, all configured within the types, with the
  -- highest priority at only one and none with 0, that receive each other's IPv4 advertisements
  -- with a TTL of 255: the one of the highest priority stays MASTER, in whatever order and
  -- however often the others' come, and each of the others becomes BACKUP on the advertisement of
  -- that one.
  pub one_of_many :
      (high : VirtualRouter) (lows : List VirtualRouter)
      → IsConfigured high
      → high.fsm.state ≡ master
      → All (IsLowerMaster high) lows
      → ((after_all lows high).fsm.state ≡ master)
        × All (λ low. Hears b c lawful sums n env dst low high backup) lows
  one_of_many high lows configured masters h =
      (stays_master lows high masters h, others_step_down lows high configured h)
