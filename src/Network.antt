-- ===== src/Network.antt =====
-- What src/network.rs puts on a socket: the datagram that the kernel is given, over its answers to
-- each call on the socket.
pub mod Delivery
pub mod Listeners
use failover.Base.{
  ℕ, ◌*◌, ◌/◌, ◌%◌, ◌^◌, ◌+◌, ◌==◌, Bool, true, false, any, List, [], ◌∷◌, Option, none, some, Str,
  if◌then◌else◌,
}
use failover.Error.{Result, ok, err, panic, ◌>>=◌, ◌>>◌, Source}
use failover.Net.{IpAddr}
use failover.Crates.Buffer.{Buffer}
use failover.Crates.Checksum.{Checksum}
use failover.Packet.{VrrpPacket, vrrp_v6_mcast_addr, all_nodes_v6_mcast_addr}
use failover.Packet.Encode.{encode}
use failover.Arp.{ArpFrame, frame_bytes}
use failover.Ndp.{NdpNeighborAdvertisement, encode_advertisement}

abbrev pub vrrp_protocol_number : ℕ
vrrp_protocol_number = 112

abbrev pub icmpv6_protocol_number : ℕ
icmpv6_protocol_number = 58

-- 224.0.0.18
abbrev pub vrrp_mcast_addr : ℕ
vrrp_mcast_addr = 224 * 2 ^ 24 + 18

-- The error, if any, of each call on a socket.
pub record Socket : Type 0 where
  pub creation : Option Source
  pub bind_device : Option Source
  pub bind : Option Source
  pub unicast_hops : Option Source
  pub multicast_hops : Option Source
  pub sending : Option Source

-- What is sent: with the two hop limits of its socket, of which the kernel takes the second for a
-- multicast destination.
pub record Datagram : Type 0 where
  pub device : Option Str
  pub protocol : ℕ
  pub source : IpAddr
  pub destination : IpAddr
  pub unicast_hop_limit : ℕ
  pub multicast_hop_limit : ℕ
  pub payload : List ℕ

-- 224.0.0.0/4 and ff00::/8
abbrev is_multicast : IpAddr → Bool
is_multicast (IpAddr.v4 addr) = addr / 2 ^ 28 == 14
is_multicast (IpAddr.v6 addr) = addr / 2 ^ 120 == 0xff

abbrev pub hop_limit : Datagram → ℕ
hop_limit d = if is_multicast d.destination then d.multicast_hop_limit else d.unicast_hop_limit

-- The call failed with `source`, or it went well.
unfoldable pub call : Option Source → Result Source (Unit {0})
call none = ok tt
call (some source) = err source

-- What libc says of the host's interfaces: `if_nametoindex`, which is 0 on an error, the error that
-- `errno` then holds, and that of a name with a NUL byte.
pub record IfNames : Type 0 where
  pub if_nametoindex : Str → ℕ
  pub last_os_error : Source
  pub invalid_input : Source

unfoldable pub if_index : IfNames → Str → Result Source ℕ
if_index names ifname =
    if any (λ byte. byte == 0) ifname
    then err names.invalid_input
    else if names.if_nametoindex ifname == 0
    then err names.last_os_error
    else ok (names.if_nametoindex ifname)

-- The fields of a `sockaddr_ll` that are not zero. An i32 is its 32 bits.
pub record SockaddrLl : Type 0 where
  pub sll_family : ℕ
  pub sll_protocol : ℕ
  pub sll_ifindex : ℕ
  pub sll_halen : ℕ

abbrev pub af_packet : ℕ
af_packet = 17

abbrev pub eth_p_arp : ℕ
eth_p_arp = 0x0806

-- `u16::to_be`
abbrev pub to_be : Bool → ℕ → ℕ
to_be true x = x
to_be false x = x % 256 * 256 + x / 256

unfoldable pub arp_link_addr : Bool → ℕ → SockaddrLl
arp_link_addr big_endian ifindex = record {
  sll_family = af_packet;
  sll_protocol = to_be big_endian eth_p_arp;
  sll_ifindex = ifindex % 2 ^ 32;
  sll_halen = 6;
}

-- The payload, where encoding it does not panic; it has no other errors.
encoded {κ} : {E : Type κ} → Result E (List ℕ) → Result Source (List ℕ)
encoded (ok bytes) = ok bytes
encoded (err e) = panic
encoded panic = panic

-- The device of a socket after a `bind_device` whose failure is passed over.
abbrev bound_to : Option Source → Str → Option Str
bound_to none ifname = some ifname
bound_to (some source) ifname = none

module _ (b : Buffer) (c : Checksum) where
  unfoldable pub send_vrrp_packet_v4 : Socket → Str → ℕ → VrrpPacket → Result Source Datagram
  unfolding call encoded encode
  send_vrrp_packet_v4 sock ifname src_ip packet = do
    call sock.creation
    call sock.bind_device
    call sock.bind
    call sock.unicast_hops
    call sock.multicast_hops
    buf ← encoded (encode b c packet (IpAddr.v4 src_ip))
    call sock.sending
    ok (record {
      device = some ifname;
      protocol = vrrp_protocol_number;
      source = IpAddr.v4 src_ip;
      destination = IpAddr.v4 vrrp_mcast_addr;
      unicast_hop_limit = 255;
      multicast_hop_limit = 255;
      payload = buf;
    })

  unfoldable pub send_vrrp_packet_v6 : Socket → Str → ℕ → VrrpPacket → Result Source Datagram
  unfolding call encoded encode
  send_vrrp_packet_v6 sock ifname src_ip packet = do
    call sock.creation
    call sock.bind_device
    call sock.bind
    call sock.unicast_hops
    call sock.multicast_hops
    buf ← encoded (encode b c packet (IpAddr.v6 src_ip))
    call sock.sending
    ok (record {
      device = some ifname;
      protocol = vrrp_protocol_number;
      source = IpAddr.v6 src_ip;
      destination = IpAddr.v6 vrrp_v6_mcast_addr;
      unicast_hop_limit = 255;
      multicast_hop_limit = 255;
      payload = buf;
    })

  -- `send_neighbor_advertisement`, with the kernel's choice of the source address: a failure to
  -- create the socket or to send is only logged, and after one to bind it, which is passed over, the
  -- datagram is bound to no device. It sets no hop limit: the socket has the kernel's defaults.
  unfoldable pub send_neighbor_advertisement :
      (kernel_source default_unicast default_multicast : ℕ)
      → Socket
      → Str
      → ℕ
      → NdpNeighborAdvertisement
      → Result Source Datagram
  unfolding call encoded encode_advertisement
  send_neighbor_advertisement kernel_source default_unicast default_multicast sock ifname
        target_addr na =
      do
        call sock.creation
        buf ← encoded (encode_advertisement b c na target_addr all_nodes_v6_mcast_addr)
        call sock.sending
        ok (record {
          device = bound_to sock.bind_device ifname;
          protocol = icmpv6_protocol_number;
          source = IpAddr.v6 kernel_source;
          destination = IpAddr.v6 all_nodes_v6_mcast_addr;
          unicast_hop_limit = default_unicast;
          multicast_hop_limit = default_multicast;
          payload = buf;
        })

-- The raw frame that `send_packet_arp` hands to an AF_PACKET socket, and the address it is sent to. A
-- failure to bind or to allow broadcasts is passed over.
unfoldable pub send_packet_arp :
    Bool → IfNames → Socket → Str → ArpFrame → Result Source (SockaddrLl × List ℕ)
unfolding call if_index arp_link_addr frame_bytes
send_packet_arp big_endian names sock ifname arp_frame = do
  call sock.creation
  ifindex ← if_index names ifname
  call sock.sending
  ok (arp_link_addr big_endian ifindex, frame_bytes big_endian arp_frame)
