-- ===== src/Handlers/Wired.antt =====
-- One router's advertisement, over the wire, into another router (src/router.rs, src/packet.rs and
-- src/pkt/handlers.rs together).
use failover.Base.{
  ℕ, ◌*◌, ◌≤◌, ◌<◌, ◌≡◌, refl, ap, ◌∙◌, subst, inl, inr, ◌==◌, ltb, false, List, [], ◌∷◌, All,
  length, length-map, map,
}
use failover.Error.{Result, ok, PacketError, >>=-eq-ok}
use failover.Version.{v3, VrrpAddresses}
use failover.Net.{IpAddr, IpNet4}
use failover.Crates.Buffer.{Buffer, IsBuffer}
use failover.Crates.Checksum.{Checksum, IsChecksum}
use failover.Crates.Ipnet.{Ipnet}
use failover.Packet.{VrrpPacket}
use failover.Packet.Encode.{encode}
use failover.Packet.Reads.{Fits}
use failover.Packet.Decode.{decode}
use failover.Packet.RoundTrip.{decode-encode_v4, carried_seconds}
use failover.Router.{VirtualRouter, Env, advert, ipv4_addrs}
use failover.Observer.{Mutex}
use failover.Handlers.{process_vrrp_packet}
use failover.Handlers.Reaction.{IsAcceptable, IsAmong, react, state_after, timer_after}
use failover.Handlers.Transition.{process_decoded-react}

-- The router's configuration fits its types, and its interval what the version can carry: for
-- version 3 that is what `validate_configs` checks.
pub record IsConfigured (vr : VirtualRouter) : Type 0 where
  pub fits : Fits 4 (advert vr (VrrpAddresses.v4 (ipv4_addrs vr))) (ipv4_addrs vr)
  pub interval_fits : vr.advert_interval < 256
  pub interval_carried : vr.version ≡ v3 → vr.advert_interval ≤ 40

-- Two instances of one virtual router.
pub record ArePeers (sender receiver : VirtualRouter) : Type 0 where
  pub same_vrid : sender.vrid ≡ receiver.vrid
  pub same_interval : sender.advert_interval ≡ receiver.advert_interval
  pub same_addresses : sender.ipv4_addresses ≡ receiver.ipv4_addresses

IsAmong-cons : (x : ℕ) (xs addrs : List ℕ) → All (IsAmong xs) addrs → All (IsAmong (x ∷ xs)) addrs
IsAmong-cons x xs [] h = tt
IsAmong-cons x xs (a ∷ addrs) h = (inr h.0, IsAmong-cons x xs addrs h.1)

pub IsAmong-self : (xs : List ℕ) → All (IsAmong xs) xs
IsAmong-self [] = tt
IsAmong-self (x ∷ xs) = (inl refl, IsAmong-cons x xs xs (IsAmong-self xs))

module _ (b : Buffer) (c : Checksum) (lawful : IsBuffer b) (sums : IsChecksum c) (n : Ipnet) where
  -- The bytes of a router's IPv4 advertisement.
  abbrev pub advert_bytes : VirtualRouter → Result PacketError (List ℕ)
  advert_bytes vr =
      encode b c (advert vr (VrrpAddresses.v4 (ipv4_addrs vr))) (IpAddr.v4 vr.primary_ip)

  advert-IsAcceptable :
      (sender receiver : VirtualRouter)
      → IsConfigured sender
      → ArePeers sender receiver
      → IsAcceptable 255 (advert sender (VrrpAddresses.v4 (ipv4_addrs sender))) receiver
  advert-IsAcceptable sender receiver configured peers = record {
    hop = refl;
    same_vrid = peers.same_vrid;
    same_interval = ap (λ (i : ℕ). i * 100) peers.same_interval;
    addressed = inr (
        subst
          (λ (nets : List IpNet4).
            (length (ipv4_addrs sender) ≡ length nets)
            × All (IsAmong (map (λ net. net.addr) nets)) (ipv4_addrs sender))
          peers.same_addresses
          (length-map sender.ipv4_addresses (λ net. net.addr), IsAmong-self (ipv4_addrs sender)));
    sided = tt;
  }

  -- The bytes are there, and decode to the packet that was sent.
  pub advert-delivered :
      (sender : VirtualRouter) (dst : IpAddr)
      → IsConfigured sender
      → (bytes : List ℕ) × (advert_bytes sender ≡ ok bytes)
        × (decode b c bytes (IpAddr.v4 sender.primary_ip) dst
            ≡ ok (advert sender (VrrpAddresses.v4 (ipv4_addrs sender))))
  advert-delivered sender dst configured =
      >>=-eq-ok (advert_bytes sender) (λ bytes. decode b c bytes (IpAddr.v4 sender.primary_ip) dst)
        (decode-encode_v4 b c lawful sums pkt (ipv4_addrs sender) (IpAddr.v4 sender.primary_ip) dst
            sender.primary_ip refl configured.fits
          ∙ ap (λ (i : ℕ). ok (record pkt { adver_int_cs = i }))
              (carried_seconds sender.version sender.advert_interval configured.interval_fits
                configured.interval_carried))
    where
      pkt : VrrpPacket
      pkt = advert sender (VrrpAddresses.v4 (ipv4_addrs sender))

  -- A router whose configuration fits its types, and 40 s in version 3, has the IPv4
  -- advertisement it builds encoded without a panic; received with a TTL of 255 by a router with
  -- the same VRID, interval and IPv4 addresses whose lock is not poisoned, those bytes pass every
  -- check, and the state and the timer of the receiver become what the protocol's reaction to the
  -- sender's priority says.
  pub process_vrrp_packet-advert :
      (sender : VirtualRouter) (env : Env) (m : Mutex) (dst : IpAddr)
      → IsConfigured sender
      → ArePeers sender m.router
      → m.poisoned ≡ false
      → let lower = ltb sender.priority m.router.priority in
        let r = react m.router.fsm.state m.router.preempt_mode lower (sender.priority == 0) in
        (bytes : List ℕ) × (advert_bytes sender ≡ ok bytes)
        × (let o = process_vrrp_packet b c n env bytes (IpAddr.v4 sender.primary_ip) dst 255 m in
            (o.router.fsm.state ≡ state_after r m.router.fsm.state)
            × (o.router.fsm.timer ≡ timer_after r env.now m.router))
  unfolding process_vrrp_packet
  process_vrrp_packet-advert sender env m dst configured peers usable =
      let (bytes, sent, read) = advert-delivered sender dst configured in
      (
        bytes,
        sent,
        rw (usable, read)
            (process_decoded-react n env 255 (advert sender (VrrpAddresses.v4 (ipv4_addrs sender)))
              m.router (advert-IsAcceptable sender m.router configured peers)),
      )
