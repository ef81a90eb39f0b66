-- ===== src/Scenarios/Packets.antt =====
-- The messages at concrete inputs (src/packet.rs).
use failover.Base.{
  ℕ, ◌+◌, ◌*◌, ◌^◌, ◌≡◌, refl, true, false, List, [], ◌∷◌, some, drop, length, arith, be_bytes,
  from_be_bytes, Bytes,
}
use failover.Error.{ok, ◌>>=◌}
use failover.Version.{v2, v3, VrrpAddresses, try_from}
use failover.Net.{IpAddr}
use failover.Packet.{VrrpPacket, vrrp_v6_mcast_addr, icmpv6_proto_num}
use failover.Packet.Encode.{encode, pseudo_header}
use failover.Packet.Decode.{decode, verify_checksum_v4, verify_checksum_v6, trailing_auth_len}
use failover.Packet.Reads.{carried, Fits}
use failover.Packet.Bytes.{encode-Bytes}
use failover.Packet.Totals.{IsWhole}
use failover.Packet.RoundTrip.{decode-encode_v4, decode-encode_v6}
use failover.Packet.Accept.{decode-IsWhole_v4, decode-IsWhole_v6}
use failover.Arp.{ArpPacket, EthernetFrame, new_frame, frame_bytes, decode_arp}
use failover.Arp.RoundTrip.{IsSized, decode_arp-payload}
use failover.Ndp.{NdpNeighborAdvertisement, encode_advertisement}
use failover.Ndp.Checked.{advertisement, encode_advertisement-verifies}
use failover.Scenarios.Crates.{bytes_buffer, bytes_buffer-IsBuffer, rfc1071, rfc1071-IsChecksum}

-- 192.168.100.100
abbrev virtual_ip : ℕ
virtual_ip = 3232261220

-- 2001:db8::64
abbrev virtual_ip6 : ℕ
virtual_ip6 = 0x20010db8 * 2 ^ 96 + 0x64

abbrev packet_v4 : VrrpPacket
packet_v4 = record {
  version = v2;
  vrid = 51;
  priority = 101;
  adver_int_cs = 100;
  addresses = VrrpAddresses.v4 (virtual_ip ∷ []);
}

abbrev packet_v6 : VrrpPacket
packet_v6 = record {
  version = v3;
  vrid = 51;
  priority = 101;
  adver_int_cs = 100;
  addresses = VrrpAddresses.v6 (virtual_ip6 ∷ []);
}

packet_v4-Fits : Fits 4 packet_v4 (virtual_ip ∷ [])
packet_v4-Fits = record {
  vrid_fits = omega arith;
  priority_fits = omega arith;
  few = omega arith;
  addrs_fit = (omega arith, tt);
}

packet_v6-Fits : Fits 16 packet_v6 (virtual_ip6 ∷ [])
packet_v6-Fits = record {
  vrid_fits = omega arith;
  priority_fits = omega arith;
  few = omega arith;
  addrs_fit = (omega arith, tt);
}

abbrev source : IpAddr
source = IpAddr.v4 3232261121

decode-encode_v4_example :
    (encode bytes_buffer rfc1071 packet_v4 source >>= λ bytes.
    decode bytes_buffer rfc1071 bytes source source)
    ≡ ok (record packet_v4 { adver_int_cs = carried v2 100 })
decode-encode_v4_example =
    decode-encode_v4 bytes_buffer rfc1071 bytes_buffer-IsBuffer rfc1071-IsChecksum packet_v4
      (virtual_ip ∷ []) source source 3232261121 refl packet_v4-Fits

decode-encode_v6_example :
    (encode bytes_buffer rfc1071 packet_v6 (IpAddr.v6 1) >>= λ bytes.
    decode bytes_buffer rfc1071 bytes (IpAddr.v6 1) (IpAddr.v6 vrrp_v6_mcast_addr))
    ≡ ok (record packet_v6 { adver_int_cs = carried v3 100 })
decode-encode_v6_example =
    decode-encode_v6 bytes_buffer rfc1071 bytes_buffer-IsBuffer rfc1071-IsChecksum packet_v6
      (virtual_ip6 ∷ []) 1 refl refl packet_v6-Fits

-- The eight bytes of an advertisement of version 3 with no addresses, the last two its checksum.
abbrev wire_v4 : List ℕ
wire_v4 = 49 ∷ 51 ∷ 101 ∷ 0 ∷ 0 ∷ 100 ∷ 105 ∷ 104 ∷ []

abbrev empty_v4 : VrrpPacket
empty_v4 = record packet_v4 { version = v3; addresses = VrrpAddresses.v4 [] }

-- The type nibble is not read: a message of type 0 decodes as well.
abbrev wire_type_0 : List ℕ
wire_type_0 = 48 ∷ 51 ∷ 101 ∷ 0 ∷ 0 ∷ 100 ∷ 106 ∷ 104 ∷ []

wire_v4-decodes : decode bytes_buffer rfc1071 wire_v4 source source ≡ ok empty_v4
unfolding decode be_bytes try_from from_be_bytes
wire_v4-decodes = refl

wire_type_0-decodes : decode bytes_buffer rfc1071 wire_type_0 source source ≡ ok empty_v4
unfolding decode be_bytes try_from from_be_bytes
wire_type_0-decodes = refl

decode-IsWhole_v4_example :
    IsWhole 4 (trailing_auth_len v3) wire_v4 empty_v4
    × (verify_checksum_v4 bytes_buffer rfc1071 wire_v4 ≡ true)
decode-IsWhole_v4_example =
    decode-IsWhole_v4 bytes_buffer rfc1071 bytes_buffer-IsBuffer wire_v4 3232261121 source empty_v4
      wire_v4-decodes

abbrev empty_v6 : VrrpPacket
empty_v6 = record packet_v6 { addresses = VrrpAddresses.v6 [] }

-- From ::1 to ::2, over the pseudo-header of both.
abbrev wire_v6 : List ℕ
wire_v6 = 49 ∷ 51 ∷ 101 ∷ 0 ∷ 0 ∷ 100 ∷ 104 ∷ 237 ∷ []

wire_v6-decodes : decode bytes_buffer rfc1071 wire_v6 (IpAddr.v6 1) (IpAddr.v6 2) ≡ ok empty_v6
unfolding decode be_bytes try_from from_be_bytes
wire_v6-decodes = refl

decode-IsWhole_v6_example :
    IsWhole 16 0 wire_v6 empty_v6 × (verify_checksum_v6 bytes_buffer rfc1071 wire_v6 1 2 ≡ true)
decode-IsWhole_v6_example =
    decode-IsWhole_v6 bytes_buffer rfc1071 bytes_buffer-IsBuffer wire_v6 1 2 empty_v6
      wire_v6-decodes

abbrev host_mac : List ℕ
host_mac = 2 ∷ 0 ∷ 0 ∷ 0 ∷ 0 ∷ 7 ∷ []

abbrev arp_request : ArpPacket
arp_request = record {
  hw_type = 1;
  proto_type = 0x0800;
  hw_length = 6;
  proto_length = 4;
  operation = 1;
  sender_hw_address = host_mac;
  sender_proto_address = 192 ∷ 168 ∷ 100 ∷ 7 ∷ [];
  target_hw_address = 0 ∷ 0 ∷ 0 ∷ 0 ∷ 0 ∷ 0 ∷ [];
  target_proto_address = 192 ∷ 168 ∷ 100 ∷ 100 ∷ [];
}

arp_request-IsSized : IsSized arp_request
arp_request-IsSized = record {
  hw_type_fits = omega arith;
  proto_type_fits = omega arith;
  hw_length_fits = omega arith;
  proto_length_fits = omega arith;
  operation_fits = omega arith;
  sender_hw = refl;
  sender_proto = refl;
  target_hw = refl;
  target_proto = refl;
}

abbrev ethernet : EthernetFrame
ethernet = record { dst_mac = host_mac; src_mac = host_mac; ethertype = 0x0806 }

decode_arp-payload_example :
    decode_arp bytes_buffer (drop 14 (frame_bytes false (new_frame false ethernet arp_request)))
    ≡ ok (some arp_request)
decode_arp-payload_example =
    decode_arp-payload bytes_buffer bytes_buffer-IsBuffer false ethernet arp_request refl refl
      arp_request-IsSized

abbrev na : NdpNeighborAdvertisement
na = record {
  target_address = virtual_ip6;
  target_link_addr = 0 ∷ 0 ∷ 94 ∷ 0 ∷ 2 ∷ 51 ∷ [];
  override_flag = true;
}

encode_advertisement-verifies_example :
    (k : ℕ × ℕ) × (encode_advertisement bytes_buffer rfc1071 na virtual_ip6 1
      ≡ ok (advertisement na k))
    × (length (advertisement na k) ≡ 32)
    × (rfc1071.checksum (
          rfc1071.add_bytes
            (pseudo_header bytes_buffer rfc1071 virtual_ip6 1 32 icmpv6_proto_num)
            (advertisement na k))
        ≡ (0, 0))
encode_advertisement-verifies_example =
    encode_advertisement-verifies bytes_buffer rfc1071 bytes_buffer-IsBuffer rfc1071-IsChecksum na
      virtual_ip6 1 refl

abbrev solicitation_head : List ℕ
solicitation_head = 0 ∷ 18 ∷ 52 ∷ 0 ∷ 0 ∷ 0 ∷ 0 ∷ []

encode-Bytes_example :
    (bytes : List ℕ) × (encode bytes_buffer rfc1071 packet_v4 (IpAddr.v4 1) ≡ ok bytes)
    × Bytes bytes
    × (length bytes ≡ 20)
encode-Bytes_example =
    encode-Bytes bytes_buffer rfc1071 bytes_buffer-IsBuffer rfc1071-IsChecksum packet_v4
      (IpAddr.v4 1)
