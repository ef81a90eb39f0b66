-- ===== src/Network/Delivery.antt =====
-- One router's advertisement, from the socket that it is sent on to the handler of another router
-- (src/network.rs, src/packet.rs, src/pkt/handlers.rs together).
use failover.Base.{ℕ, ◌≡◌, refl, ◌==◌, ltb, false, none, some}
use failover.Error.{ok}
use failover.Net.{IpAddr, Ipv4Packet}
use failover.Crates.Buffer.{Buffer, IsBuffer}
use failover.Crates.Checksum.{Checksum, IsChecksum}
use failover.Crates.Ipnet.{Ipnet}
use failover.Version.{VrrpAddresses}
use failover.Router.{VirtualRouter, Env, advert, ipv4_addrs}
use failover.Observer.{Mutex}
use failover.Handlers.{handle_incoming_vrrp_v4_pkt, is_local}
use failover.Handlers.Reaction.{react, state_after, timer_after}
use failover.Handlers.Wired.{IsConfigured, ArePeers, process_vrrp_packet-advert}
use failover.Network.{
  Socket, Datagram, hop_limit, call, encoded, send_vrrp_packet_v4, vrrp_mcast_addr,
}

-- No call on the socket fails.
pub record Works (sock : Socket) : Type 0 where
  pub creation : sock.creation ≡ none
  pub bind_device : sock.bind_device ≡ none
  pub bind : sock.bind ≡ none
  pub unicast_hops : sock.unicast_hops ≡ none
  pub multicast_hops : sock.multicast_hops ≡ none
  pub sending : sock.sending ≡ none

-- The IPv4 packet that a datagram between IPv4 addresses arrives as, on the same link.
abbrev pub arrives : Datagram → ℕ → Ipv4Packet
arrives d src = record {
  source = src;
  destination = vrrp_mcast_addr;
  ttl = hop_limit d;
  payload = d.payload;
}

module _ (b : Buffer) (c : Checksum) (lawful : IsBuffer b) (sums : IsChecksum c) (n : Ipnet) where
  -- A router whose configuration fits its types, and 40 s in version 3, sends the IPv4
  -- advertisement it builds, if no call on its socket fails; what is sent, received as an IPv4
  -- packet with the hop limit it was sent with, from an address that is none of the host's, by a
  -- router with the same VRID, interval and IPv4 addresses whose lock is not poisoned, passes
  -- every check, and the state and the timer of the receiver become what the table of the
  -- handler's transitions (Handlers.Reaction.react) has for the sender's priority.
  pub send_vrrp_packet_v4-handled :
      (sock : Socket) (sender : VirtualRouter) (env : Env) (m : Mutex)
      → Works sock
      → IsConfigured sender
      → ArePeers sender m.router
      → m.poisoned ≡ false
      → is_local env (IpAddr.v4 sender.primary_ip) ≡ false
      → let lower = ltb sender.priority m.router.priority in
        let r = react m.router.fsm.state m.router.preempt_mode lower (sender.priority == 0) in
        let packet = advert sender (VrrpAddresses.v4 (ipv4_addrs sender)) in
        (d : Datagram) × (send_vrrp_packet_v4 b c sock sender.mac_vlan_interface_v4
            sender.primary_ip packet
          ≡ ok d)
        × (let o = handle_incoming_vrrp_v4_pkt b c n env (arrives d sender.primary_ip) m in
            (o.router.fsm.state ≡ state_after r m.router.fsm.state)
            × (o.router.fsm.timer ≡ timer_after r env.now m.router))
  unfolding send_vrrp_packet_v4 handle_incoming_vrrp_v4_pkt
  send_vrrp_packet_v4-handled sock sender env m works configured peers usable foreign =
      let (bytes, sent, reacted) =
        process_vrrp_packet-advert b c lawful sums n sender env m (IpAddr.v4 vrrp_mcast_addr)
          configured peers usable in
      (
        record {
          device = some sender.mac_vlan_interface_v4;
          protocol = failover.Network.vrrp_protocol_number;
          source = IpAddr.v4 sender.primary_ip;
          destination = IpAddr.v4 vrrp_mcast_addr;
          unicast_hop_limit = 255;
          multicast_hop_limit = 255;
          payload = bytes;
        },
        rw
            (
              works.creation, works.bind_device, works.bind, works.unicast_hops,
              works.multicast_hops, works.sending, sent,
            )
            refl,
        rw foreign reacted,
      )
