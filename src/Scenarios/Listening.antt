-- ===== src/Scenarios/Listening.antt =====
-- The listening sockets and the loops on them at concrete inputs (src/network.rs, src/core_tasks.rs).
use failover.Base.{ℕ, ◌≡◌, ◌↔◌, refl, List, [], ◌∷◌, none, some, be_bytes}
use failover.Error.{ok}
use failover.Version.{VrrpAddresses}
use failover.Net.{IpAddr}
use failover.Router.{advert, ipv4_addrs}
use failover.Packet.Encode.{encode}
use failover.Network.{IfNames, Datagram, send_vrrp_packet_v4, if_index}
use failover.Network.Listeners.{
  Calls, Listener, bind_vrrp, Turn, would_block, datagram, recv_arp, ipv4,
}
use failover.Network.Listeners.Laws.{Heard, recv_arp_iff}
use failover.Network.Listeners.Groups.{IsAdvertisement, IsHeardBy, bind_vrrp-IsHeardBy}
use failover.Scenarios.Crates.{bytes_buffer, rfc1071}
use failover.Scenarios.Routers.{vlan, the_sender}
use failover.Scenarios.Sockets.{working}

abbrev pub names : IfNames
names = record { if_nametoindex = λ name. 7; last_os_error = 19; invalid_input = 22 }

abbrev pub all_well : Calls
all_well = record {
  creation = none;
  bind_device = none;
  bind = none;
  join = none;
  nonblocking = none;
  registration = none;
}

-- A turn with nothing to read, a copy of a frame that was sent, and a frame for this host.
abbrev arp_turns : List (Turn ℕ)
arp_turns = would_block ∷ datagram (1 ∷ []) 4 ∷ datagram (2 ∷ []) 0 ∷ Turn.failed 5 ∷ []

recv_arp_iff_example :
    (recv_arp arp_turns ≡ some (ok (2 ∷ []), Turn.failed 5 ∷ []))
    ↔ Heard arp_turns (2 ∷ []) (Turn.failed 5 ∷ [])
recv_arp_iff_example = recv_arp_iff arp_turns (Turn.failed 5 ∷ []) (2 ∷ [])

-- The left side holds.
arp_turns-received : recv_arp arp_turns ≡ some (ok (2 ∷ []), Turn.failed 5 ∷ [])
unfolding recv_arp
arp_turns-received = refl

abbrev listener : Listener
listener = record {
  domain = ipv4;
  protocol = 112;
  device = some vlan;
  address = none;
  group = some (IpAddr.v4 3758096402, 7);
}

listener-bound : bind_vrrp names all_well vlan (IpAddr.v4 0) ≡ ok listener
unfolding bind_vrrp if_index
listener-bound = refl

-- The advertisement as it is sent.
abbrev sent : Datagram
sent = record {
  device = some vlan;
  protocol = 112;
  source = IpAddr.v4 3232261121;
  destination = IpAddr.v4 3758096402;
  unicast_hop_limit = 255;
  multicast_hop_limit = 255;
  payload =
      33 ∷ 51 ∷ 200 ∷ 1 ∷ 0 ∷ 1 ∷ 241 ∷ 188 ∷ 192 ∷ 168 ∷ 100 ∷ 100 ∷ 0 ∷ 0 ∷ 0 ∷ 0 ∷ 0 ∷ 0 ∷ 0 ∷ 0
      ∷ [];
}

sent-IsAdvertisement : IsAdvertisement bytes_buffer rfc1071 (IpAddr.v4 0) sent
unfolding send_vrrp_packet_v4 encode be_bytes
sent-IsAdvertisement =
    (working, vlan, 3232261121, advert the_sender (VrrpAddresses.v4 (ipv4_addrs the_sender)), refl)

bind_vrrp-IsHeardBy_example : IsHeardBy names vlan listener sent
bind_vrrp-IsHeardBy_example =
    bind_vrrp-IsHeardBy bytes_buffer rfc1071 names all_well vlan (IpAddr.v4 0) listener sent
      listener-bound sent-IsAdvertisement
