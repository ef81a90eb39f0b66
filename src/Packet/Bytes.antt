-- ===== src/Packet/Bytes.antt =====
-- That `encode` (src/packet.rs) always gives a message, and that the message is one of bytes.
use failover.Base.{
  ℕ, ◌+◌, ◌*◌, ◌≡◌, refl, List, [], ◌∷◌, All-append, IsByte, Bytes, be_bytes, be_bytes-Bytes,
  length, length-append, arith,
}
use failover.Error.{ok}
use failover.Version.{VrrpVersion, v2, v3, VrrpAddresses}
use failover.Net.{IpAddr}
use failover.Crates.Buffer.{Buffer, IsBuffer}
use failover.Crates.Checksum.{Checksum, IsChecksum}
use failover.Packet.{VrrpPacket, vrrp_v6_mcast_addr, vrrp_proto_num}
use failover.Packet.Encode.{pseudo_header, encode_v4, encode_v6, encode}
use failover.Packet.Wire.{
  addr_bytes, auth_bytes, interval_bytes, message4, message6, length-addr_bytes, ver_type-lt,
  encode_v4-message, encode_v6-message,
}

-- The length of a message: its header, its addresses, and in version 2, over IPv4, its trailer.
abbrev pub trailer_length : VrrpVersion → ℕ
trailer_length v2 = 8
trailer_length v3 = 0

abbrev pub message_length : VrrpVersion → VrrpAddresses → ℕ
message_length version (VrrpAddresses.v4 addrs) = 8 + 4 * length addrs + trailer_length version
message_length version (VrrpAddresses.v6 addrs) = 8 + 16 * length addrs

addr_bytes-Bytes : (k : ℕ) (l : List ℕ) → Bytes (addr_bytes k l)
addr_bytes-Bytes k [] = tt
addr_bytes-Bytes k (a ∷ l) =
    All-append IsByte (be_bytes k a) (addr_bytes k l) (be_bytes-Bytes k a) (addr_bytes-Bytes k l)

auth_bytes-Bytes : (v : VrrpVersion) → Bytes (auth_bytes v)
auth_bytes-Bytes v2 = ground arith
auth_bytes-Bytes v3 = tt

length-auth_bytes : (v : VrrpVersion) → length (auth_bytes v) ≡ trailer_length v
length-auth_bytes v2 = refl
length-auth_bytes v3 = refl

interval_bytes-Bytes :
    (v : VrrpVersion) (cs : ℕ) → IsByte (interval_bytes v cs).0 × IsByte (interval_bytes v cs).1
interval_bytes-Bytes v2 cs = omega arith
interval_bytes-Bytes v3 cs = omega arith

message4-Bytes :
    (p : VrrpPacket) (addrs : List ℕ) (k : ℕ × ℕ)
    → IsByte k.0 × IsByte k.1
    → Bytes (message4 p addrs k)
      × (length (message4 p addrs k) ≡ 8 + 4 * length addrs + trailer_length p.version)
message4-Bytes p addrs k sum =
    let interval = interval_bytes-Bytes p.version p.adver_int_cs in
    let body =
      All-append IsByte (addr_bytes 4 addrs) (auth_bytes p.version) (addr_bytes-Bytes 4 addrs)
        (auth_bytes-Bytes p.version) in
    (
      (
        ver_type-lt p.version,
        (
          omega arith,
          (omega arith, (omega arith, (interval.0, (interval.1, (sum.0, (sum.1, body)))))),
        ),
      ),
      omega (
        arith,
        length-append (addr_bytes 4 addrs) (auth_bytes p.version),
        length-addr_bytes 4 addrs,
        length-auth_bytes p.version,
      ),
    )

message6-Bytes :
    (p : VrrpPacket) (addrs : List ℕ) (k : ℕ × ℕ)
    → IsByte k.0 × IsByte k.1
    → Bytes (message6 p addrs k) × (length (message6 p addrs k) ≡ 8 + 16 * length addrs)
message6-Bytes p addrs k sum =
    let interval = interval_bytes-Bytes v3 p.adver_int_cs in
    (
      (
        ver_type-lt p.version,
        (
          omega arith,
          (
            omega arith,
            (omega arith, (interval.0, (interval.1, (sum.0, (sum.1, addr_bytes-Bytes 16 addrs))))),
          ),
        ),
      ),
      omega (arith, length-addr_bytes 16 addrs),
    )

module _ (b : Buffer) (c : Checksum) (lawful : IsBuffer b) (sums : IsChecksum c) where
  encode_v4-Bytes :
      (p : VrrpPacket) (addrs : List ℕ)
      → (bytes : List ℕ) × (encode_v4 b c p addrs ≡ ok bytes)
        × Bytes bytes
        × (length bytes ≡ 8 + 4 * length addrs + trailer_length p.version)
  encode_v4-Bytes p addrs =
      let k = c.checksum (c.add_bytes c.new (message4 p addrs (0, 0))) in
      let (is, long) = message4-Bytes p addrs k (sums.is_bytes _) in
      (message4 p addrs k, encode_v4-message b c lawful p addrs, is, long)

  encode_v6-Bytes :
      (p : VrrpPacket) (src : ℕ) (addrs : List ℕ)
      → (bytes : List ℕ) × (encode_v6 b c p src addrs ≡ ok bytes)
        × Bytes bytes
        × (length bytes ≡ 8 + 16 * length addrs)
  encode_v6-Bytes p src addrs =
      let len = length (message6 p addrs (0, 0)) in
      let pseudo = pseudo_header b c src vrrp_v6_mcast_addr len vrrp_proto_num in
      let k = c.checksum (c.add_bytes pseudo (message6 p addrs (0, 0))) in
      let (is, long) = message6-Bytes p addrs k (sums.is_bytes _) in
      (message6 p addrs k, encode_v6-message b c lawful p src addrs, is, long)

  -- Every packet, whatever numbers its fields hold, is encoded, without an error or a panic, in a
  -- list of bytes: eight for the header, then four or sixteen for each address, and eight more
  -- for version 2 over IPv4.
  pub encode-Bytes :
      (p : VrrpPacket) (src_ip : IpAddr)
      → (bytes : List ℕ) × (encode b c p src_ip ≡ ok bytes)
        × Bytes bytes
        × (length bytes ≡ message_length p.version p.addresses)
  unfolding encode
  encode-Bytes p src_ip = by_family p.addresses refl
    where
      by_family :
          (addresses : VrrpAddresses)
          → p.addresses ≡ addresses
          → (bytes : List ℕ) × (encode b c p src_ip ≡ ok bytes)
            × Bytes bytes
            × (length bytes ≡ message_length p.version addresses)
      by_family (VrrpAddresses.v4 addrs) same = rw same (encode_v4-Bytes p addrs)
      by_family (VrrpAddresses.v6 addrs) same = rw same (encode_v6-Bytes p _ addrs)
