-- ===== src/Network/Listeners.antt =====
-- The listening sockets of src/network.rs: how each is bound, over the kernel's answers to the calls
-- on its socket, and the loop that waits for what it receives.
pub mod Laws
pub mod Groups
use failover.Base.{
  ℕ, ◌*◌, ◌+◌, ◌/◌, ◌%◌, ◌^◌, ◌==◌, Bool, true, List, [], ◌∷◌, Option, none, some, Str, any, take,
  if◌then◌else◌,
}
use failover.Error.{Result, ok, err, ◌>>=◌, ◌>>◌, Source}
use failover.Net.{IpAddr, unspecified}
use failover.Packet.{vrrp_v6_mcast_addr, all_nodes_v6_mcast_addr}
use failover.Network.{
  call, IfNames, if_index, SockaddrLl, arp_link_addr, eth_p_arp, to_be, vrrp_protocol_number,
  icmpv6_protocol_number, vrrp_mcast_addr,
}

pub data Domain : Type 0 where
  ipv4 ipv6 packet : Domain

-- The error, if any, of each call while a listener is bound.
pub record Calls : Type 0 where
  pub creation : Option Source
  pub bind_device : Option Source
  pub bind : Option Source
  pub join : Option Source
  pub nonblocking : Option Source
  pub registration : Option Source

-- The socket of a listener: what it is bound to, and the multicast group that it joined with the
-- index of the interface it did so on.
pub record Listener : Type 0 where
  pub domain : Domain
  pub protocol : ℕ
  pub device : Option Str
  pub address : Option SockaddrLl
  pub group : Option (IpAddr × ℕ)

abbrev family : IpAddr → Domain × IpAddr
family (IpAddr.v4 _) = (ipv4, IpAddr.v4 vrrp_mcast_addr)
family (IpAddr.v6 _) = (ipv6, IpAddr.v6 vrrp_v6_mcast_addr)

module _ (names : IfNames) (calls : Calls) where
  -- `VrrpListener::bind`
  unfoldable pub bind_vrrp : Str → IpAddr → Result Source Listener
  unfolding call if_index
  bind_vrrp ifname addr = do
    call calls.creation
    call calls.bind_device
    ifindex ← if_index names ifname
    call calls.join
    call calls.nonblocking
    call calls.registration
    ok (record {
      domain = (family addr).0;
      protocol = vrrp_protocol_number;
      device = some ifname;
      address = none;
      group = some ((family addr).1, ifindex);
    })

  -- `NdpListener::bind`
  unfoldable pub bind_ndp : Str → Result Source Listener
  unfolding call if_index
  bind_ndp ifname = do
    call calls.creation
    call calls.bind_device
    ifindex ← if_index names ifname
    call calls.join
    call calls.nonblocking
    call calls.registration
    ok (record {
      domain = ipv6;
      protocol = icmpv6_protocol_number;
      device = some ifname;
      address = none;
      group = some (IpAddr.v6 all_nodes_v6_mcast_addr, ifindex);
    })

  -- `ArpListener::bind`
  unfoldable pub bind_arp : Bool → Str → Result Source Listener
  unfolding call if_index arp_link_addr
  bind_arp big_endian ifname = do
    call calls.creation
    ifindex ← if_index names ifname
    call calls.bind
    call calls.nonblocking
    call calls.registration
    ok (record {
      domain = packet;
      protocol = to_be big_endian eth_p_arp;
      device = none;
      address = some (arp_link_addr big_endian ifindex);
      group = none;
    })

-- One turn of a loop in `recv`: the wait for the socket fails, or the read would block, fails, or
-- gives a datagram, with what the kernel says of its sender.
pub data Turn (A : Type 0) : Type 0 where
  not_readable : Source → Turn A
  would_block : Turn A
  failed : Source → Turn A
  datagram : List ℕ → A → Turn A

-- `loop { … }`, where the body returns or continues: the result with the turns that are left, or
-- none while the loop waits.
unfoldable pub wait {ℓ κ} :
    {T : Type ℓ} {A : Type κ} (body : T → Option (Result Source A)) (turns : List T)
    → Option (Result Source A × List T)
wait body [] = none
wait body (turn ∷ turns) =
    let rest = wait body turns in
    elim (body turn) [ none ↦ rest | some result ↦ some (result, turns) ]

abbrev pub vrrp_buffer_len : ℕ
vrrp_buffer_len = 512

abbrev pub buffer_len : ℕ
buffer_len = 128

-- The address of the sender, where the kernel gives one of the right family.
abbrev or_address : IpAddr → Option IpAddr → IpAddr
or_address unspec_addr none = unspec_addr
or_address unspec_addr (some addr) = addr

abbrev ipv6_or_unspecified : Option IpAddr → ℕ
ipv6_or_unspecified none = unspecified
ipv6_or_unspecified (some (IpAddr.v4 addr)) = unspecified
ipv6_or_unspecified (some (IpAddr.v6 addr)) = addr

-- The body of `VrrpListener::recv`. A datagram longer than the buffer is cut off.
unfoldable pub vrrp_turn : IpAddr → Turn (Option IpAddr) → Option (Result Source (List ℕ × IpAddr))
vrrp_turn unspec_addr (not_readable source) = some (err source)
vrrp_turn unspec_addr would_block = none
vrrp_turn unspec_addr (failed source) = some (err source)
vrrp_turn unspec_addr (datagram bytes addr) =
    some (ok (take vrrp_buffer_len bytes, or_address unspec_addr addr))

-- The body of `NdpListener::recv`.
unfoldable pub ndp_turn : Turn (Option IpAddr) → Option (Result Source (List ℕ × ℕ))
ndp_turn (not_readable source) = some (err source)
ndp_turn would_block = none
ndp_turn (failed source) = some (err source)
ndp_turn (datagram bytes addr) = some (ok (take buffer_len bytes, ipv6_or_unspecified addr))

-- `PACKET_OUTGOING`
abbrev pub packet_outgoing : ℕ
packet_outgoing = 4

-- The body of `ArpListener::recv`: the type of the packet is that of packet(7).
unfoldable pub arp_turn : Turn ℕ → Option (Result Source (List ℕ))
arp_turn (not_readable source) = some (err source)
arp_turn would_block = none
arp_turn (failed source) = some (err source)
arp_turn (datagram bytes pkttype) =
    if pkttype == packet_outgoing then none else some (ok (take buffer_len bytes))

unfoldable pub recv_vrrp :
    IpAddr
    → List (Turn (Option IpAddr))
    → Option (Result Source (List ℕ × IpAddr) × List (Turn (Option IpAddr)))
unfolding wait vrrp_turn
recv_vrrp unspec_addr turns = wait (vrrp_turn unspec_addr) turns

unfoldable pub recv_ndp :
    List (Turn (Option IpAddr)) → Option (Result Source (List ℕ × ℕ) × List (Turn (Option IpAddr)))
unfolding wait ndp_turn
recv_ndp turns = wait ndp_turn turns

unfoldable pub recv_arp : List (Turn ℕ) → Option (Result Source (List ℕ) × List (Turn ℕ))
unfolding wait arp_turn
recv_arp turns = wait arp_turn turns
