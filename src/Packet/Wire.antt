-- ===== src/Packet/Wire.antt =====
-- The layout of a VRRP message, byte by byte, written down independently of the encoder of
-- src/packet.rs, and the encoder's output.
use mathlib.Core.List.{append_assoc, append-nil}
use failover.Base.{
  ℕ, ◌*◌, ◌/◌, ◌%◌, ◌<◌, ◌≡◌, sym, ap, ◌∙◌, List, [], ◌∷◌, ◌++◌, length, length-append,
  length-be_bytes, be_bytes, low_bits, arith,
}
use failover.Error.{ok, PacketError}
use failover.Version.{VrrpVersion, v2, v3}
use failover.Crates.Buffer.{Buffer, IsBuffer}
use failover.Crates.Checksum.{Checksum}
use failover.Packet.{VrrpPacket, copy_from_slice, vrrp_v6_mcast_addr, vrrp_proto_num}
use failover.Packet.Encode.{
  ver_type, put_interval, put_addrs4, put_addrs6, put_auth, pseudo_header, buffer_v4, buffer_v6,
  encode_v4, encode_v6,
}

-- The addresses, four or sixteen bytes each.
abbrev pub addr_bytes : ℕ → List ℕ → List ℕ
addr_bytes k [] = []
addr_bytes k (a ∷ l) = be_bytes k a ++ addr_bytes k l

abbrev pub auth_bytes : VrrpVersion → List ℕ
auth_bytes v2 = 0 ∷ 0 ∷ 0 ∷ 0 ∷ 0 ∷ 0 ∷ 0 ∷ 0 ∷ []
auth_bytes v3 = []

abbrev pub interval_bytes : VrrpVersion → ℕ → ℕ × ℕ
interval_bytes v2 cs = (0, cs / 100 % 256)
interval_bytes v3 cs = (low_bits cs 12 / 256 % 256, low_bits cs 12 % 256)

-- The eight bytes of the header, with `k` for the checksum, and then the rest.
abbrev pub message : VrrpPacket → ℕ × ℕ → ℕ → ℕ × ℕ → List ℕ → List ℕ
message p interval count k body =
    ver_type p.version
    ∷ (p.vrid % 256)
    ∷ (p.priority % 256)
    ∷ (count % 256)
    ∷ interval.0
    ∷ interval.1
    ∷ k.0
    ∷ k.1
    ∷ body

abbrev pub message4 : VrrpPacket → List ℕ → ℕ × ℕ → List ℕ
message4 p addrs k =
    message p (interval_bytes p.version p.adver_int_cs) (length addrs) k
      (addr_bytes 4 addrs ++ auth_bytes p.version)

abbrev pub message6 : VrrpPacket → List ℕ → ℕ × ℕ → List ℕ
message6 p addrs k =
    message p (interval_bytes v3 p.adver_int_cs) (length addrs) k (addr_bytes 16 addrs)

pub length-addr_bytes : (k : ℕ) (l : List ℕ) → length (addr_bytes k l) ≡ k * length l
length-addr_bytes k [] = omega arith
length-addr_bytes k (a ∷ l) = omega (
  arith,
  length-append (be_bytes k a) (addr_bytes k l),
  length-be_bytes k a,
  length-addr_bytes k l,
)

pub ver_type-lt : (v : VrrpVersion) → ver_type v < 256
unfolding ver_type
ver_type-lt v2 = omega arith
ver_type-lt v3 = omega arith

-- Filling in the checksum leaves the other bytes alone.
copy_header :
    (a b c d e f y z k l : ℕ) (body : List ℕ)
    → copy_from_slice {E = PacketError} 6 8 (k ∷ l ∷ []) (a ∷ b ∷ c ∷ d ∷ e ∷ f ∷ y ∷ z ∷ body)
      ≡ ok (a ∷ b ∷ c ∷ d ∷ e ∷ f ∷ k ∷ l ∷ body)
copy_header a b c d e f y z k l body = ground arith

module _ (b : Buffer) (c : Checksum) (lawful : IsBuffer b) where
  open lawful use {put_u8_lem, put_u16_lem, put_u32_lem, put_u128_lem}

  put_addrs4_lem : (l buf : List ℕ) → put_addrs4 b c l buf ≡ buf ++ addr_bytes 4 l
  unfolding put_addrs4
  put_addrs4_lem [] buf = sym (append-nil buf)
  put_addrs4_lem (a ∷ l) buf =
      put_addrs4_lem l (b.put_u32 buf a)
      ∙ rw (put_u32_lem buf a) (append_assoc buf (be_bytes 4 a) (addr_bytes 4 l))

  put_addrs6_lem : (l buf : List ℕ) → put_addrs6 b c l buf ≡ buf ++ addr_bytes 16 l
  unfolding put_addrs6
  put_addrs6_lem [] buf = sym (append-nil buf)
  put_addrs6_lem (a ∷ l) buf =
      put_addrs6_lem l (b.put_u128 buf a)
      ∙ rw (put_u128_lem buf a) (append_assoc buf (be_bytes 16 a) (addr_bytes 16 l))

  put_interval_lem :
      (v : VrrpVersion) (cs : ℕ) (buf : List ℕ)
      → put_interval b c v cs buf ≡ buf ++ (interval_bytes v cs).0 ∷ (interval_bytes v cs).1 ∷ []
  unfolding put_interval be_bytes
  put_interval_lem v2 cs buf =
      simp (put_u8_lem, append_assoc) (ap (λ (t : ℕ). buf ++ 0 ∷ t ∷ []) (omega arith))
  put_interval_lem v3 cs buf = put_u16_lem buf (low_bits cs 12)

  put_auth_lem : (v : VrrpVersion) (buf : List ℕ) → put_auth b c v buf ≡ buf ++ auth_bytes v
  unfolding put_auth be_bytes
  put_auth_lem v2 buf = simp (put_u32_lem, append_assoc)
  put_auth_lem v3 buf = sym (append-nil buf)

  buffer_v4_lem :
      (p : VrrpPacket) (addrs : List ℕ) → buffer_v4 b c p addrs ≡ message4 p addrs (0, 0)
  unfolding buffer_v4 be_bytes
  buffer_v4_lem p addrs =
      simp (put_auth_lem, put_addrs4_lem, put_u16_lem, put_interval_lem, put_u8_lem, append_assoc)
        (ground (arith, ver_type-lt p.version))

  buffer_v6_lem :
      (p : VrrpPacket) (addrs : List ℕ) → buffer_v6 b c p addrs ≡ message6 p addrs (0, 0)
  unfolding buffer_v6 be_bytes
  buffer_v6_lem p addrs =
      simp (put_addrs6_lem, put_u16_lem, put_u8_lem, append_assoc)
        (ground (arith, ver_type-lt p.version))

  -- The encoder lays an IPv4 message out so, with the checksum of the message whose checksum is 0.
  pub encode_v4-message :
      (p : VrrpPacket) (addrs : List ℕ)
      → encode_v4 b c p addrs
        ≡ ok (message4 p addrs (c.checksum (c.add_bytes c.new (message4 p addrs (0, 0)))))
  unfolding encode_v4
  encode_v4-message p addrs =
      rw (buffer_v4_lem p addrs, encode_v4) (copy_header _ _ _ _ _ _ 0 0 _ _ _)

  -- And an IPv6 message so, under the pseudo-header of its source and the VRRP multicast group.
  pub encode_v6-message :
      (p : VrrpPacket) (src : ℕ) (addrs : List ℕ)
      → let len = length (message6 p addrs (0, 0)) in
        let pseudo = pseudo_header b c src vrrp_v6_mcast_addr len vrrp_proto_num in
        encode_v6 b c p src addrs
        ≡ ok (message6 p addrs (c.checksum (c.add_bytes pseudo (message6 p addrs (0, 0)))))
  unfolding encode_v6
  encode_v6-message p src addrs =
      rw (buffer_v6_lem p addrs, encode_v6) (copy_header _ _ _ _ _ _ 0 0 _ _ _)
