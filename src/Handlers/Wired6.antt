-- ===== src/Handlers/Wired6.antt =====
-- A version 3 router's IPv6 advertisement, over the wire, into another router (src/router.rs,
-- src/packet.rs and src/pkt/handlers.rs together).
use failover.Base.{
  ℕ, ◌*◌, ◌≤◌, ◌≡◌, ◌≢◌, refl, ap, ◌∙◌, subst, inr, ◌==◌, ltb, false, arith, List, none, All,
  length, length-map, map,
}
use failover.Error.{Result, ok, PacketError, >>=-eq-ok}
use failover.Version.{v3, VrrpAddresses}
use failover.Net.{IpAddr, IpNet6}
use failover.Crates.Buffer.{Buffer, IsBuffer}
use failover.Crates.Checksum.{Checksum, IsChecksum}
use failover.Crates.Ipnet.{Ipnet}
use failover.Packet.{VrrpPacket, vrrp_v6_mcast_addr}
use failover.Packet.Encode.{encode}
use failover.Packet.Reads.{Fits}
use failover.Packet.Decode.{decode}
use failover.Packet.RoundTrip.{decode-encode_v6, carried_seconds}
use failover.Router.{VirtualRouter, Env, advert, ipv6_addrs}
use failover.Observer.{Mutex}
use failover.Handlers.{process_vrrp_packet, handle_incoming_vrrp_v6_pkt, is_local}
use failover.Handlers.Reaction.{IsAcceptable, IsAmong, react, state_after, timer_after}
use failover.Handlers.Transition.{process_decoded-react}
use failover.Handlers.Wired.{IsAmong-self}

-- A router of version 3 whose IPv6 addresses and interval fit the packet.
pub record IsConfigured6 (vr : VirtualRouter) : Type 0 where
  pub version_3 : vr.version ≡ v3
  pub fits : Fits 16 (advert vr (VrrpAddresses.v6 (ipv6_addrs vr))) (ipv6_addrs vr)
  pub capped : vr.advert_interval ≤ 40

-- Two instances of one virtual router, the second with an IPv6 side.
pub record ArePeers6 (sender receiver : VirtualRouter) : Type 0 where
  pub same_vrid : sender.vrid ≡ receiver.vrid
  pub same_interval : sender.advert_interval ≡ receiver.advert_interval
  pub same_addresses : sender.ipv6_addresses ≡ receiver.ipv6_addresses
  pub sided : receiver.mac_vlan_interface_v6 ≢ none

module _ (b : Buffer) (c : Checksum) (lawful : IsBuffer b) (sums : IsChecksum c) (n : Ipnet)
    (sender : VirtualRouter) (src : ℕ) where
  abbrev pkt : VrrpPacket
  pkt = advert sender (VrrpAddresses.v6 (ipv6_addrs sender))

  -- The bytes of the router's IPv6 advertisement.
  abbrev pub advert_bytes6 : Result PacketError (List ℕ)
  advert_bytes6 = encode b c pkt (IpAddr.v6 src)

  advert6-IsAcceptable :
      (receiver : VirtualRouter) → ArePeers6 sender receiver → IsAcceptable 255 pkt receiver
  advert6-IsAcceptable receiver peers = record {
    hop = refl;
    same_vrid = peers.same_vrid;
    same_interval = ap (λ (i : ℕ). i * 100) peers.same_interval;
    addressed = inr (
        subst
          (λ (nets : List IpNet6).
            (length (ipv6_addrs sender) ≡ length nets)
            × All (IsAmong (map (λ net. net.addr) nets)) (ipv6_addrs sender))
          peers.same_addresses
          (length-map sender.ipv6_addresses (λ net. net.addr), IsAmong-self (ipv6_addrs sender)));
    sided = peers.sided;
  }

  advert6-delivered :
      IsConfigured6 sender
      → (bytes : List ℕ) × (advert_bytes6 ≡ ok bytes)
        × (decode b c bytes (IpAddr.v6 src) (IpAddr.v6 vrrp_v6_mcast_addr) ≡ ok pkt)
  advert6-delivered configured =
      >>=-eq-ok advert_bytes6
        (λ bytes. decode b c bytes (IpAddr.v6 src) (IpAddr.v6 vrrp_v6_mcast_addr))
        (decode-encode_v6 b c lawful sums pkt (ipv6_addrs sender) src refl configured.version_3
            configured.fits
          ∙ ap (λ (i : ℕ). ok (record pkt { adver_int_cs = i }))
              (carried_seconds v3 sender.advert_interval (omega (arith, configured.capped))
                (λ e. configured.capped)))

  -- A version 3 router with an interval of at most 40 s whose fields and IPv6 addresses fit their
  -- types has the IPv6 advertisement it builds encoded without a panic; received from an address
  -- that is none of the host's by a router with the same VRID, interval and IPv6 addresses, an
  -- IPv6 side and a lock that is not poisoned, those bytes pass every check, and the state and
  -- the timer of the receiver become what the table of the handler's transitions
  -- (Handlers.Reaction.react) has for the sender's priority.
  pub handle_incoming_vrrp_v6_pkt-advert :
      (env : Env) (m : Mutex)
      → IsConfigured6 sender
      → ArePeers6 sender m.router
      → m.poisoned ≡ false
      → is_local env (IpAddr.v6 src) ≡ false
      → let lower = ltb sender.priority m.router.priority in
        let r = react m.router.fsm.state m.router.preempt_mode lower (sender.priority == 0) in
        (bytes : List ℕ) × (advert_bytes6 ≡ ok bytes)
        × (let o = handle_incoming_vrrp_v6_pkt b c n env bytes src m in
            (o.router.fsm.state ≡ state_after r m.router.fsm.state)
            × (o.router.fsm.timer ≡ timer_after r env.now m.router))
  unfolding handle_incoming_vrrp_v6_pkt process_vrrp_packet
  handle_incoming_vrrp_v6_pkt-advert env m configured peers usable foreign =
      let (bytes, sent, read) = advert6-delivered configured in
      (
        bytes,
        sent,
        rw (foreign, usable, read)
            (process_decoded-react n env 255 pkt m.router (advert6-IsAcceptable m.router peers)),
      )
