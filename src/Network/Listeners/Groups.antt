-- ===== src/Network/Listeners/Groups.antt =====
-- The listeners of src/network.rs join the groups that its senders send to.
use failover.Base.{ℕ, ◌≡◌, refl, sym, ap, ◌∙◌, Option, none, some, Str}
use failover.Error.{Result, ok, ◌>>◌, Source, Ensures, Ensures-ok, Ensures->>=}
use failover.Net.{IpAddr}
use failover.Crates.Buffer.{Buffer}
use failover.Crates.Checksum.{Checksum}
use failover.Packet.{VrrpPacket, vrrp_v6_mcast_addr, all_nodes_v6_mcast_addr}
use failover.Packet.Encode.{encode}
use failover.Ndp.{NdpNeighborAdvertisement, encode_advertisement}
use failover.Network.{
  IfNames, if_index, Socket, Datagram, call, encoded, send_vrrp_packet_v4, send_vrrp_packet_v6,
  send_neighbor_advertisement, vrrp_mcast_addr, vrrp_protocol_number, icmpv6_protocol_number,
}
use failover.Network.Listeners.{Domain, ipv4, ipv6, Calls, Listener, family, bind_vrrp, bind_ndp}

-- What is left after a call on the socket decides what the whole ensures.
Ensures-call {ℓ κ} :
    {A : Type ℓ} (P : A → Type κ) (answer : Option Source) (next : Result Source A)
    → Ensures P next
    → Ensures P (call answer >> next)
Ensures-call P answer next h = Ensures->>= P (call answer) (λ _. next) (λ _ _. h)

abbrev domain_of : IpAddr → Domain
domain_of (IpAddr.v4 _) = ipv4
domain_of (IpAddr.v6 _) = ipv6

-- What a raw socket needs to be given a datagram that arrives on an interface: it is of the
-- datagram's family and protocol, it is bound to that interface or to none, and it joined the
-- datagram's group on that interface.
pub record IsHeardBy (names : IfNames) (ifname : Str) (l : Listener) (d : Datagram) : Type 0 where
  pub domain : l.domain ≡ domain_of d.destination
  pub protocol : l.protocol ≡ d.protocol
  pub device : l.device ≡ some ifname
  pub ifindex : ℕ
  pub index : if_index names ifname ≡ ok ifindex
  pub group : l.group ≡ some (d.destination, ifindex)

module _ (b : Buffer) (c : Checksum) where
  -- The datagram is an advertisement of one of the families, sent by any router.
  abbrev pub IsAdvertisement : IpAddr → Datagram → Type 0
  IsAdvertisement (IpAddr.v4 _) d =
      (sock : Socket) × (vlan : Str) × (src_ip : ℕ) × (packet : VrrpPacket) × (send_vrrp_packet_v4 b
          c sock vlan src_ip packet
        ≡ ok d)
  IsAdvertisement (IpAddr.v6 _) d =
      (sock : Socket) × (vlan : Str) × (src_ip : ℕ) × (packet : VrrpPacket) × (send_vrrp_packet_v6 b
          c sock vlan src_ip packet
        ≡ ok d)

  abbrev IsTo : IpAddr → ℕ → Datagram → Type 0
  IsTo destination protocol d = (d.destination ≡ destination) × (d.protocol ≡ protocol)

  send_vrrp_packet_v4-IsTo :
      (sock : Socket) (vlan : Str) (src_ip : ℕ) (packet : VrrpPacket)
      → Ensures
          (IsTo (IpAddr.v4 vrrp_mcast_addr) vrrp_protocol_number)
          (send_vrrp_packet_v4 b c sock vlan src_ip packet)
  unfolding send_vrrp_packet_v4
  send_vrrp_packet_v4-IsTo sock vlan src_ip packet =
      let P = IsTo (IpAddr.v4 vrrp_mcast_addr) vrrp_protocol_number in
      Ensures-call P sock.creation _ (
        Ensures-call P sock.bind_device _ (
          Ensures-call P sock.bind _ (
            Ensures-call P sock.unicast_hops _ (
              Ensures-call P sock.multicast_hops _ (
                Ensures->>= P (encoded (encode b c packet (IpAddr.v4 src_ip))) _
                  (λ buf _. Ensures-call P sock.sending _ (Ensures-ok P _ (refl, refl))))))))

  send_vrrp_packet_v6-IsTo :
      (sock : Socket) (vlan : Str) (src_ip : ℕ) (packet : VrrpPacket)
      → Ensures
          (IsTo (IpAddr.v6 vrrp_v6_mcast_addr) vrrp_protocol_number)
          (send_vrrp_packet_v6 b c sock vlan src_ip packet)
  unfolding send_vrrp_packet_v6
  send_vrrp_packet_v6-IsTo sock vlan src_ip packet =
      let P = IsTo (IpAddr.v6 vrrp_v6_mcast_addr) vrrp_protocol_number in
      Ensures-call P sock.creation _ (
        Ensures-call P sock.bind_device _ (
          Ensures-call P sock.bind _ (
            Ensures-call P sock.unicast_hops _ (
              Ensures-call P sock.multicast_hops _ (
                Ensures->>= P (encoded (encode b c packet (IpAddr.v6 src_ip))) _
                  (λ buf _. Ensures-call P sock.sending _ (Ensures-ok P _ (refl, refl))))))))

  send_neighbor_advertisement-IsTo :
      (kernel_source unicast multicast : ℕ) (sock : Socket) (vlan : Str) (target_addr : ℕ)
      (na : NdpNeighborAdvertisement)
      → Ensures
          (IsTo (IpAddr.v6 all_nodes_v6_mcast_addr) icmpv6_protocol_number)
          (send_neighbor_advertisement b c kernel_source unicast multicast sock vlan target_addr na)
  unfolding send_neighbor_advertisement
  send_neighbor_advertisement-IsTo kernel_source unicast multicast sock vlan target_addr na =
      let P = IsTo (IpAddr.v6 all_nodes_v6_mcast_addr) icmpv6_protocol_number in
      Ensures-call P sock.creation _ (
        Ensures->>= P (encoded (encode_advertisement b c na target_addr all_nodes_v6_mcast_addr)) _
          (λ buf _. Ensures-call P sock.sending _ (Ensures-ok P _ (refl, refl))))

  module _ (names : IfNames) (calls : Calls) (ifname : Str) where
    -- What a listener that is bound has, of the datagrams to `destination` over `protocol`.
    abbrev Hears : IpAddr → ℕ → Listener → Type 0
    Hears destination protocol l =
        (d : Datagram) → IsTo destination protocol d → IsHeardBy names ifname l d

    Hears-joined :
        (domain : Domain) (destination : IpAddr) (protocol ifindex : ℕ)
        → domain ≡ domain_of destination
        → if_index names ifname ≡ ok ifindex
        → Hears destination protocol (record {
          domain = domain;
          protocol = protocol;
          device = some ifname;
          address = none;
          group = some (destination, ifindex);
        })
    Hears-joined domain destination protocol ifindex same known d (to, over) = record {
      domain = same ∙ ap domain_of (sym to);
      protocol = sym over;
      device = refl;
      ifindex = ifindex;
      index = known;
      group = ap (λ (to : IpAddr). some (to, ifindex)) (sym to);
    }

    family-domain : (addr : IpAddr) → (family addr).0 ≡ domain_of (family addr).1
    family-domain (IpAddr.v4 _) = refl
    family-domain (IpAddr.v6 _) = refl

    bind_vrrp-Hears :
        (destination : IpAddr)
        → Ensures
            (Hears (family destination).1 vrrp_protocol_number)
            (bind_vrrp names calls ifname destination)
    unfolding bind_vrrp
    bind_vrrp-Hears destination =
        let P = Hears (family destination).1 vrrp_protocol_number in
        Ensures-call P calls.creation _ (
          Ensures-call P calls.bind_device _ (
            Ensures->>= P (if_index names ifname) _ (λ i known. Ensures-call P calls.join _ (
              Ensures-call P calls.nonblocking _ (
                Ensures-call P calls.registration _
                  (Ensures-ok P _ (Hears-joined _ _ _ i (family-domain destination) known)))))))

    bind_ndp-Hears :
        Ensures
          (Hears (IpAddr.v6 all_nodes_v6_mcast_addr) icmpv6_protocol_number)
          (bind_ndp names calls ifname)
    unfolding bind_ndp
    bind_ndp-Hears =
        let P = Hears (IpAddr.v6 all_nodes_v6_mcast_addr) icmpv6_protocol_number in
        Ensures-call P calls.creation _ (
          Ensures-call P calls.bind_device _ (
            Ensures->>= P (if_index names ifname) _ (λ i known. Ensures-call P calls.join _ (
              Ensures-call P calls.nonblocking _ (
                Ensures-call P calls.registration _
                  (Ensures-ok P _ (Hears-joined _ _ _ i refl known)))))))

    -- The VRRP listener of a family that is bound to an interface hears the advertisements of
    -- that family, whatever router sends them: it has their domain and protocol, it is bound to
    -- the interface, and it has joined, on the index of the interface, the group that they are
    -- sent to.
    pub bind_vrrp-IsHeardBy :
        (addr : IpAddr) (l : Listener) (d : Datagram)
        → bind_vrrp names calls ifname addr ≡ ok l
        → IsAdvertisement addr d
        → IsHeardBy names ifname l d
    bind_vrrp-IsHeardBy (IpAddr.v4 a) l d bound (sock, vlan, src_ip, packet, sent) =
        bind_vrrp-Hears (IpAddr.v4 a) l bound d
          (send_vrrp_packet_v4-IsTo sock vlan src_ip packet d sent)
    bind_vrrp-IsHeardBy (IpAddr.v6 a) l d bound (sock, vlan, src_ip, packet, sent) =
        bind_vrrp-Hears (IpAddr.v6 a) l bound d
          (send_vrrp_packet_v6-IsTo sock vlan src_ip packet d sent)

    -- A bound NDP listener hears the neighbor advertisements that this program sends.
    pub bind_ndp-IsHeardBy :
        (kernel_source unicast multicast : ℕ) (sock : Socket) (vlan : Str) (target_addr : ℕ)
        (na : NdpNeighborAdvertisement) (l : Listener) (d : Datagram)
        → bind_ndp names calls ifname ≡ ok l
        → send_neighbor_advertisement b c kernel_source unicast multicast sock vlan target_addr na
          ≡ ok d
        → IsHeardBy names ifname l d
    bind_ndp-IsHeardBy kernel_source unicast multicast sock vlan target_addr na l d bound sent =
        bind_ndp-Hears l bound d (
          send_neighbor_advertisement-IsTo kernel_source unicast multicast sock vlan target_addr na
            d sent)
