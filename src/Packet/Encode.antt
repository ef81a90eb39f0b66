-- ===== src/Packet/Encode.antt =====
-- `VrrpPacket::encode` (src/packet.rs), over the crates `bytes` and `internet-checksum`.
use failover.Base.{ℕ, ◌*◌, ◌/◌, ◌%◌, ◌^◌, List, [], ◌∷◌, length, low_bits, be_bytes, as_u8, bit_or}
use failover.Error.{Result, PacketError}
use failover.Version
use failover.Version.{VrrpVersion, v2, v3, VrrpAddresses}
use failover.Net.{IpAddr, octets6, unspecified}
use failover.Crates.Buffer.{Buffer}
use failover.Crates.Checksum.{Checksum}
use failover.Packet.{VrrpPacket, hdwr_type, vrrp_proto_num, vrrp_v6_mcast_addr, copy_from_slice}

-- The byte of the version and the type: `(version << 4) | HDWR_TYPE`, in a u8.
unfoldable pub ver_type : VrrpVersion → ℕ
unfolding Version.as_u8
ver_type version = bit_or (as_u8 (Version.as_u8 version * 2 ^ 4)) hdwr_type

v6_source : IpAddr → ℕ
v6_source (IpAddr.v6 addr) = addr
v6_source (IpAddr.v4 _) = unspecified

module _ (b : Buffer) (c : Checksum) where
  open b use {put_u8, put_u16, put_u32, put_u128}
  open c use {new, add_bytes, checksum}

  -- The two bytes between the address count and the checksum.
  unfoldable pub put_interval : VrrpVersion → ℕ → List ℕ → List ℕ
  put_interval v2 adver_int_cs buf = put_u8 (put_u8 buf 0) (as_u8 (adver_int_cs / 100))
  put_interval v3 adver_int_cs buf = put_u16 buf (low_bits adver_int_cs 12)

  unfoldable pub put_addrs4 : List ℕ → List ℕ → List ℕ
  put_addrs4 [] buf = buf
  put_addrs4 (addr ∷ addrs) buf = put_addrs4 addrs (put_u32 buf addr)

  unfoldable pub put_addrs6 : List ℕ → List ℕ → List ℕ
  put_addrs6 [] buf = buf
  put_addrs6 (addr ∷ addrs) buf = put_addrs6 addrs (put_u128 buf addr)

  unfoldable pub put_auth : VrrpVersion → List ℕ → List ℕ
  put_auth v2 buf = put_u32 (put_u32 buf 0) 0
  put_auth v3 buf = buf

  -- The buffer of an IPv4 message before its checksum is filled in.
  unfoldable pub buffer_v4 : VrrpPacket → List ℕ → List ℕ
  unfolding ver_type put_interval put_addrs4 put_auth
  buffer_v4 p addrs =
      let start = put_u8 [] (ver_type p.version) in
      let ids = put_u8 (put_u8 (put_u8 start p.vrid) p.priority) (as_u8 (length addrs)) in
      let header = put_u16 (put_interval p.version p.adver_int_cs ids) 0 in
      put_auth p.version (put_addrs4 addrs header)

  unfoldable pub encode_v4 : VrrpPacket → List ℕ → Result PacketError (List ℕ)
  unfolding buffer_v4
  encode_v4 p addrs =
      let buf = buffer_v4 p addrs in
      let check = checksum (add_bytes new buf) in copy_from_slice 6 8 (check.0 ∷ check.1 ∷ []) buf

  -- The checksum state after the pseudo-header of an IPv6 message: the addresses, the length as
  -- a u32 and the protocol number.
  unfoldable pub pseudo_header : ℕ → ℕ → ℕ → ℕ → c.State
  pseudo_header src dst len protocol =
      let addresses = add_bytes (add_bytes new (octets6 src)) (octets6 dst) in
      add_bytes (add_bytes addresses (be_bytes 4 (len % 2 ^ 32))) (0 ∷ 0 ∷ 0 ∷ protocol ∷ [])

  unfoldable pub buffer_v6 : VrrpPacket → List ℕ → List ℕ
  unfolding ver_type put_addrs6
  buffer_v6 p addrs =
      let start = put_u8 [] (ver_type p.version) in
      let ids = put_u8 (put_u8 (put_u8 start p.vrid) p.priority) (as_u8 (length addrs)) in
      put_addrs6 addrs (put_u16 (put_u16 ids (low_bits p.adver_int_cs 12)) 0)

  unfoldable pub encode_v6 : VrrpPacket → ℕ → List ℕ → Result PacketError (List ℕ)
  unfolding buffer_v6 pseudo_header
  encode_v6 p src_ip addrs =
      let buf = buffer_v6 p addrs in
      let pseudo = pseudo_header src_ip vrrp_v6_mcast_addr (length buf) vrrp_proto_num in
      let check = checksum (add_bytes pseudo buf) in
      copy_from_slice 6 8 (check.0 ∷ check.1 ∷ []) buf

  encode_addresses : VrrpAddresses → VrrpPacket → IpAddr → Result PacketError (List ℕ)
  unfolding encode_v4 encode_v6 v6_source
  encode_addresses (VrrpAddresses.v4 addrs) p src_ip = encode_v4 p addrs
  encode_addresses (VrrpAddresses.v6 addrs) p src_ip = encode_v6 p (v6_source src_ip) addrs

  unfoldable pub encode : VrrpPacket → IpAddr → Result PacketError (List ℕ)
  unfolding encode_addresses
  encode p src_ip = encode_addresses p.addresses p src_ip
