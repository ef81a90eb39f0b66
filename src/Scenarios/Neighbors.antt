-- ===== src/Scenarios/Neighbors.antt =====
-- The ARP packets at concrete inputs (src/pkt/handlers.rs).
use failover.Base.{
  ◌++◌, arith, ℕ, ◌≡◌, ◌⊎◌, refl, true, false, List, [], ◌∷◌, some, be_bytes, from_be_bytes,
}
use failover.Error.{ok}
use failover.Version.{v3}
use failover.Net.{EthernetPacket}
use failover.StateMachine.{backup, master}
use failover.Arp.{ArpPacket, ArpFrame, decode_arp, frame_bytes}
use failover.Router.{VirtualRouter, Effect, send_arp}
use failover.Observer.{get_interface, find_interface, or_not_found}
use failover.Handlers.Neighbors.{handle_incoming_arp_pkt, handle_incoming_ndp_pkt}
use failover.Handlers.Neighbors.Solicited.{
  claim, IsAnswer, ndp_answered_by_master, ndp_master_answers,
}
use failover.Handlers.Neighbors.Replies.{
  owns_v4, reply_bytes, arp_answered_by_master, arp_master_answers,
}
use failover.Scenarios.Crates.{bytes_buffer}
use failover.Scenarios.Routers.{
  vlan, vlan_mac, vlan_interface, the_backup, the_master, env, held_by,
}

abbrev arp_payload : List ℕ
arp_payload =
    0 ∷ 1 ∷ 8 ∷ 0 ∷ 6 ∷ 4 ∷ 0 ∷ 1 ∷ 2 ∷ 0 ∷ 0 ∷ 0 ∷ 0 ∷ 7 ∷ 192 ∷ 168 ∷ 100 ∷ 7 ∷ 0 ∷ 0 ∷ 0 ∷ 0 ∷ 0
    ∷ 0 ∷ 192 ∷ 168 ∷ 100 ∷ 100 ∷ []

abbrev who_has : ArpPacket
who_has = record {
  hw_type = 1;
  proto_type = 0x0800;
  hw_length = 6;
  proto_length = 4;
  operation = 1;
  sender_hw_address = 2 ∷ 0 ∷ 0 ∷ 0 ∷ 0 ∷ 7 ∷ [];
  sender_proto_address = 192 ∷ 168 ∷ 100 ∷ 7 ∷ [];
  target_hw_address = 0 ∷ 0 ∷ 0 ∷ 0 ∷ 0 ∷ 0 ∷ [];
  target_proto_address = 192 ∷ 168 ∷ 100 ∷ 100 ∷ [];
}

arp_payload-who_has : decode_arp bytes_buffer arp_payload ≡ ok (some who_has)
unfolding decode_arp from_be_bytes
arp_payload-who_has = refl

who_has-owned : owns_v4 the_master.ipv4_addresses who_has.target_proto_address ≡ true
unfolding be_bytes
who_has-owned = refl

vlan_found : get_interface env.interfaces vlan ≡ ok vlan_interface
unfolding get_interface find_interface or_not_found
vlan_found = refl

abbrev arp_frame : EthernetPacket
arp_frame = record { source = 2 ∷ 0 ∷ 0 ∷ 0 ∷ 0 ∷ 7 ∷ []; payload = arp_payload }

arp_answered_by_master_example :
    let o = handle_incoming_arp_pkt bytes_buffer env arp_frame (held_by the_backup) in
    (o.router ≡ the_backup)
    × ((o.effects ≡ [])
        ⊎ ((backup ≡ master)
            × (p : ArpPacket) × (decode_arp bytes_buffer arp_payload ≡ ok (some p))
            × (p.operation ≡ 1)
            × (owns_v4 the_backup.ipv4_addresses p.target_proto_address ≡ true)))
arp_answered_by_master_example =
    arp_answered_by_master bytes_buffer env arp_frame (held_by the_backup)

arp_master_answers_example :
    (frame : ArpFrame) × (rest : List Effect) × ((handle_incoming_arp_pkt bytes_buffer env arp_frame
        (held_by the_master)).effects
      ≡ send_arp vlan frame ∷ rest)
    × (frame_bytes false frame ≡ reply_bytes (2 ∷ 0 ∷ 0 ∷ 0 ∷ 0 ∷ 7 ∷ []) vlan_mac who_has)
arp_master_answers_example =
    arp_master_answers bytes_buffer env arp_frame (held_by the_master) vlan_interface vlan_mac
      who_has refl refl vlan_found refl arp_payload-who_has refl refl who_has-owned

-- A MASTER of version 3, solicited for its IPv6 address.
abbrev v6_master : VirtualRouter
v6_master = record the_master {
  version = v3;
  ipv6_addresses = record { addr = 7; prefix_len = 64 } ∷ [];
  mac_vlan_interface_v6 = some vlan;
}

abbrev solicitation_head : List ℕ
solicitation_head = 0 ∷ 18 ∷ 52 ∷ 0 ∷ 0 ∷ 0 ∷ 0 ∷ []

abbrev solicitation : List ℕ
solicitation = 135 ∷ (solicitation_head ++ (be_bytes 16 7 ++ []))

ndp_answered_by_master_example :
    let o = handle_incoming_ndp_pkt env solicitation 9 (held_by v6_master) in
    (o.router ≡ v6_master) × ((o.effects ≡ []) ⊎ IsAnswer solicitation v6_master o.effects)
ndp_answered_by_master_example = ndp_answered_by_master env solicitation 9 (held_by v6_master)

ndp_master_answers_example :
    let o = handle_incoming_ndp_pkt env solicitation 9 (held_by v6_master) in
    (o.effects ≡ claim vlan 7 vlan_mac ∷ []) × (o.result ≡ ok tt)
ndp_master_answers_example =
    ndp_master_answers env solicitation_head [] 7 9 (held_by v6_master) vlan vlan_interface vlan_mac
      refl (omega arith) refl refl refl vlan_found refl refl
