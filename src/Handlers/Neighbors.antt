-- ===== src/Handlers/Neighbors.antt =====
-- The handlers of ARP and NDP packets (src/pkt/handlers.rs).
pub mod Replies
pub mod Solicited
pub mod Idle
use failover.Base.{
  ℕ, ◌==◌, Bool, true, false, not, ◌||◌, List, [], ◌∷◌, Option, none, some, Str, str_eq,
  if◌then◌else◌, any,
}
use failover.Error.{Result, ok, err, panic, NetworkError, lock_poisoned}
use failover.Net.{NetworkInterface, IpNet4, IpNet6, EthernetPacket, octets4}
use failover.Crates.Buffer.{Buffer}
use failover.StateMachine.{State, init, backup, master}
use failover.Arp.{ArpPacket, ArpFrame, EthernetFrame, new_frame, decode_arp}
use failover.Ndp.{NdpNeighborAdvertisement, NdpNeighborSolicitation, decode_solicitation}
use failover.Router.{VirtualRouter, Effect, send_arp, send_advert_na, Env}
use failover.Observer.{Outcome, Mutex, get_interface}
use failover.Handlers.{unchanged}

abbrev failed : VirtualRouter → NetworkError → Outcome
failed vr e = record { router = vr; effects = []; result = err e }

abbrev panicked : VirtualRouter → Outcome
panicked vr = record { router = vr; effects = []; result = panic }

-- The answer to a request: the interface's MAC address for the address that is asked for.
unfoldable pub arp_reply : Bool → List ℕ → List ℕ → ArpPacket → ArpFrame
unfolding new_frame
arp_reply big_endian source interface_mac arp_packet =
    new_frame big_endian (record { dst_mac = source; src_mac = interface_mac; ethertype = 0x806 })
      (record {
        hw_type = 1;
        proto_type = 0x0800;
        hw_length = 6;
        proto_length = 4;
        operation = 2;
        sender_hw_address = interface_mac;
        sender_proto_address = arp_packet.target_proto_address;
        target_hw_address = arp_packet.sender_hw_address;
        target_proto_address = arp_packet.sender_proto_address;
      })

-- The loop over the addresses of a MASTER: a reply for each that is asked for.
unfoldable pub arp_replies : List IpNet4 → ArpPacket → Effect → List Effect
arp_replies [] arp_packet reply = []
arp_replies (net ∷ nets) arp_packet reply =
    let rest = arp_replies nets arp_packet reply in
    if str_eq (octets4 net.addr) arp_packet.target_proto_address then reply ∷ rest else rest

-- A BACKUP returns early for its own addresses and its own MAC, and otherwise falls through.
arp_in_state :
    Env → EthernetPacket → NetworkInterface → List ℕ → ArpPacket → State → VirtualRouter → Outcome
unfolding arp_replies arp_reply
arp_in_state env eth interface mac arp_packet init vr = unchanged vr []
arp_in_state env eth interface mac arp_packet backup vr =
    if any (λ net. str_eq (octets4 net.addr) arp_packet.target_proto_address) vr.ipv4_addresses
    then unchanged vr []
    else if str_eq arp_packet.target_hw_address mac
    then unchanged vr []
    else unchanged vr []
arp_in_state env eth interface mac arp_packet master vr =
    if not (arp_packet.operation == 1) || str_eq arp_packet.sender_hw_address mac
    then unchanged vr []
    else unchanged vr (
        arp_replies vr.ipv4_addresses arp_packet
          (send_arp interface.name (arp_reply env.big_endian eth.source mac arp_packet)))

arp_with_mac :
    Env → EthernetPacket → NetworkInterface → Option (List ℕ) → ArpPacket → VirtualRouter → Outcome
unfolding arp_in_state
arp_with_mac env eth interface none arp_packet vr = unchanged vr []
arp_with_mac env eth interface (some mac) arp_packet vr =
    arp_in_state env eth interface mac arp_packet vr.fsm.state vr

arp_decoded :
    Env
    → EthernetPacket
    → NetworkInterface
    → Result NetworkError (Option ArpPacket)
    → VirtualRouter
    → Outcome
unfolding arp_with_mac
arp_decoded env eth interface (ok none) vr = unchanged vr []
arp_decoded env eth interface (ok (some arp_packet)) vr =
    arp_with_mac env eth interface interface.mac arp_packet vr
arp_decoded env eth interface (err e) vr = failed vr e
arp_decoded env eth interface panic vr = panicked vr

module _ (b : Buffer) where
  arp_on_interface :
      Env → EthernetPacket → Result NetworkError NetworkInterface → VirtualRouter → Outcome
  unfolding arp_decoded
  arp_on_interface env eth (ok interface) vr =
      arp_decoded env eth interface (decode_arp b eth.payload) vr
  arp_on_interface env eth (err e) vr = failed vr e
  arp_on_interface env eth panic vr = panicked vr

  unfoldable pub handle_incoming_arp_pkt : Env → EthernetPacket → Mutex → Outcome
  unfolding arp_on_interface
  handle_incoming_arp_pkt env eth m =
      if m.poisoned
      then failed m.router lock_poisoned
      else arp_on_interface env eth (get_interface env.interfaces m.router.mac_vlan_interface_v4)
          m.router

-- A MASTER with an IPv6 side answers a solicitation for one of its addresses.
na_with_mac : Str → NdpNeighborSolicitation → Option (List ℕ) → List Effect
na_with_mac v6_iface ns none = []
na_with_mac v6_iface ns (some mac) =
    send_advert_na v6_iface ns.target_address
      (record { target_address = ns.target_address; target_link_addr = mac; override_flag = true })
    ∷ []

ndp_on_interface :
    Str → NdpNeighborSolicitation → Result NetworkError NetworkInterface → VirtualRouter → Outcome
unfolding na_with_mac
ndp_on_interface v6_iface ns (ok interface) vr =
    unchanged vr (na_with_mac v6_iface ns interface.mac)
ndp_on_interface v6_iface ns (err e) vr = failed vr e
ndp_on_interface v6_iface ns panic vr = panicked vr

abbrev pub owns_v6 : VirtualRouter → ℕ → Bool
owns_v6 vr target = any (λ (net : IpNet6). net.addr == target) vr.ipv6_addresses

ndp_solicited : Env → Str → Option NdpNeighborSolicitation → VirtualRouter → Outcome
unfolding ndp_on_interface
ndp_solicited env v6_iface none vr = unchanged vr []
ndp_solicited env v6_iface (some ns) vr =
    if not (owns_v6 vr ns.target_address)
    then unchanged vr []
    else ndp_on_interface v6_iface ns (get_interface env.interfaces v6_iface) vr

ndp_in_state : Env → List ℕ → Str → State → VirtualRouter → Outcome
unfolding ndp_solicited
ndp_in_state env payload v6_iface master vr =
    ndp_solicited env v6_iface (decode_solicitation payload) vr
ndp_in_state env payload v6_iface _ vr = unchanged vr []

ndp_on_side : Env → List ℕ → Option Str → VirtualRouter → Outcome
unfolding ndp_in_state
ndp_on_side env payload none vr = unchanged vr []
ndp_on_side env payload (some v6_iface) vr = ndp_in_state env payload v6_iface vr.fsm.state vr

-- The source address is not used.
unfoldable pub handle_incoming_ndp_pkt : Env → List ℕ → ℕ → Mutex → Outcome
unfolding ndp_on_side
handle_incoming_ndp_pkt env payload src_ip m =
    if m.poisoned
    then failed m.router lock_poisoned
    else ndp_on_side env payload m.router.mac_vlan_interface_v6 m.router
