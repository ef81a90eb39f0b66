-- ===== src/Packet/RoundTrip.antt =====
-- What `decode` (src/packet.rs) makes of the messages that `encode` produces.
use failover.Base.{
  ℕ, ◌*◌, ◌%◌, ◌^◌, ◌≤◌, ◌<◌, ◌≡◌, refl, true, List, [], ◌∷◌, ◌++◌, length, length-be_bytes,
  be_bytes, arith,
}
use failover.Error.{ok, ◌>>=◌}
use failover.Version.{VrrpVersion, v2, v3, VrrpAddresses}
use failover.Net.{IpAddr}
use failover.Crates.Buffer.{Buffer, IsBuffer}
use failover.Crates.Checksum.{Checksum, IsChecksum, Aligned, fresh, more}
use failover.Packet.{VrrpPacket, vrrp_v6_mcast_addr, vrrp_proto_num}
use failover.Packet.Encode.{ver_type, pseudo_header, encode}
use failover.Packet.Wire.{
  addr_bytes, auth_bytes, interval_bytes, message4, message6, encode_v4-message, encode_v6-message,
}
use failover.Packet.Reads.{carried, Fits, decode_v4-message, decode_v6-message}
use failover.Packet.Decode.{verify_checksum_v4, verify_checksum_v6, decode}

-- The first six bytes of a message.
abbrev header : VrrpPacket → ℕ × ℕ → ℕ → List ℕ
header p interval count =
    ver_type p.version
    ∷ (p.vrid % 256)
    ∷ (p.priority % 256)
    ∷ (count % 256)
    ∷ interval.0
    ∷ interval.1
    ∷ []

module _ (b : Buffer) (c : Checksum) (lawful : IsBuffer b) (sums : IsChecksum c) where
  -- Filling in the checksum of the message with none makes the checksum of the whole zero.
  verify_checksum_v4-message :
      (p : VrrpPacket) (addrs : List ℕ)
      → let k = c.checksum (c.add_bytes c.new (message4 p addrs (0, 0))) in
        verify_checksum_v4 b c (message4 p addrs k) ≡ true
  unfolding verify_checksum_v4
  verify_checksum_v4-message p addrs = rw (
      sums.verifies c.new (header p (interval_bytes p.version p.adver_int_cs) (length addrs))
        (addr_bytes 4 addrs ++ auth_bytes p.version) fresh refl)

  pub pseudo_header-Aligned :
      (src dst len protocol : ℕ) → Aligned c (pseudo_header b c src dst len protocol)
  unfolding pseudo_header
  pseudo_header-Aligned src dst len protocol = more _ refl (
      more (be_bytes 4 (len % 2 ^ 32)) (omega (arith, length-be_bytes 4 (len % 2 ^ 32))) (
        more (be_bytes 16 dst) (omega (arith, length-be_bytes 16 dst))
          (more (be_bytes 16 src) (omega (arith, length-be_bytes 16 src)) fresh)))

  verify_checksum_v6-message :
      (p : VrrpPacket) (addrs : List ℕ) (src : ℕ)
      → let len = length (message6 p addrs (0, 0)) in
        let pseudo = pseudo_header b c src vrrp_v6_mcast_addr len vrrp_proto_num in
        let k = c.checksum (c.add_bytes pseudo (message6 p addrs (0, 0))) in
        verify_checksum_v6 b c (message6 p addrs k) src vrrp_v6_mcast_addr ≡ true
  unfolding verify_checksum_v6
  verify_checksum_v6-message p addrs src = rw (
      sums.verifies _ (header p (interval_bytes v3 p.adver_int_cs) (length addrs))
        (addr_bytes 16 addrs)
        (pseudo_header-Aligned src vrrp_v6_mcast_addr (length (message6 p addrs (0, 0)))
          vrrp_proto_num)
        refl)

  -- A packet with IPv4 addresses whose VRID, priority and addresses fit their types and which has
  -- at most 16 addresses comes back from its encoding, read from any IPv4 source, but for what
  -- the interval field of its version cannot carry.
  pub decode-encode_v4 :
      (p : VrrpPacket) (addrs : List ℕ) (src_ip dst_ip : IpAddr) (s : ℕ)
      → p.addresses ≡ VrrpAddresses.v4 addrs
      → Fits 4 p addrs
      → (encode b c p src_ip >>= λ bytes. decode b c bytes (IpAddr.v4 s) dst_ip)
        ≡ ok (record p { adver_int_cs = carried p.version p.adver_int_cs })
  unfolding encode decode
  decode-encode_v4 p addrs src_ip dst_ip s e f = rw e (
      rw (encode_v4-message b c lawful p addrs, encode)
        (rw
          (decode_v4-message b c lawful p addrs _ f (verify_checksum_v4-message p addrs), decode)))

  -- A version 3 packet with IPv6 addresses whose VRID, priority and addresses fit their types and
  -- which has at most 16 addresses comes back from its encoding, read with the source that it was
  -- encoded for and the VRRP multicast group as the destination, but for the bits of the interval
  -- above the twelfth.
  pub decode-encode_v6 :
      (p : VrrpPacket) (addrs : List ℕ) (src : ℕ)
      → p.addresses ≡ VrrpAddresses.v6 addrs
      → p.version ≡ v3
      → Fits 16 p addrs
      → (encode b c p (IpAddr.v6 src) >>= λ bytes.
          decode b c bytes (IpAddr.v6 src) (IpAddr.v6 vrrp_v6_mcast_addr))
        ≡ ok (record p { adver_int_cs = carried v3 p.adver_int_cs })
  unfolding encode decode
  decode-encode_v6 p addrs src e v f = rw e (
      rw (encode_v6-message b c lawful p src addrs, encode)
        (rw (
          decode_v6-message b c lawful p addrs src vrrp_v6_mcast_addr _ v f
              (verify_checksum_v6-message p addrs src),
          decode,
        )))

-- A configured interval survives the wire: in seconds below 256 for version 2, and up to 40 s,
-- the limit of `validate_configs`, for version 3.
pub carried_seconds :
    (v : VrrpVersion) (seconds : ℕ)
    → seconds < 256
    → (v ≡ v3 → seconds ≤ 40)
    → carried v (seconds * 100) ≡ seconds * 100
carried_seconds v2 seconds h k = omega arith
carried_seconds v3 seconds h k = let l : seconds ≤ 40 = k refl in omega arith
