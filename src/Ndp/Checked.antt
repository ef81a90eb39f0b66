-- ===== src/Ndp/Checked.antt =====
-- What the NDP messages of src/packet.rs carry on the wire.
use mathlib.Core.List.{append_assoc}
use failover.Base.{
  ℕ, ◌%◌, ◌<◌, ◌≡◌, refl, Bool, true, false, List, [], ◌∷◌, ◌++◌, some, length, arith, be_bytes,
  length-be_bytes, length-append, from_be_bytes-be_bytes, size, take-append, drop-append,
  be_bytes_one, be_bytes_two, if◌then◌else◌,
}
use failover.Error.{ok}
use failover.Crates.Buffer.{Buffer, IsBuffer}
use failover.Crates.Checksum.{Checksum, IsChecksum}
use failover.Packet.{icmpv6_proto_num}
use failover.Packet.Encode.{pseudo_header}
use failover.Packet.RoundTrip.{pseudo_header-Aligned}
use failover.Ndp.{
  NdpNeighborAdvertisement, advertisement_buffer, encode_advertisement, decode_solicitation,
}

-- RFC 4861 section 4.4: the type, the code, the checksum `k`, the flags, the target address, and
-- the option with the link-layer address.
abbrev pub advertisement : NdpNeighborAdvertisement → ℕ × ℕ → List ℕ
advertisement na k =
    136
    ∷ 0
    ∷ k.0
    ∷ k.1
    ∷ (if na.override_flag then 32 else 0)
    ∷ 0
    ∷ 0
    ∷ 0
    ∷ (be_bytes 16 na.target_address ++ 2 ∷ 1 ∷ na.target_link_addr)

module _ (b : Buffer) (c : Checksum) (lawful : IsBuffer b) where
  open lawful use {put_u8_lem, put_u16_lem, put_slice_lem}

  advertisement_buffer_lem :
      (na : NdpNeighborAdvertisement) → advertisement_buffer b c na ≡ advertisement na (0, 0)
  unfolding advertisement_buffer
  advertisement_buffer_lem na =
      simp (put_u8_lem, put_u16_lem, put_slice_lem, be_bytes_one, be_bytes_two, append_assoc)
        (flag na.override_flag)
    where
      flag :
          (f : Bool)
          → ◌≡◌ {A = List ℕ}
              (136
                ∷ 0
                ∷ 0
                ∷ 0
                ∷ ((if f then 32 else 0) % 256)
                ∷ 0
                ∷ 0
                ∷ 0
                ∷ (be_bytes 16 na.target_address ++ 2 ∷ 1 ∷ na.target_link_addr))
              (136
                ∷ 0
                ∷ 0
                ∷ 0
                ∷ (if f then 32 else 0)
                ∷ 0
                ∷ 0
                ∷ 0
                ∷ (be_bytes 16 na.target_address ++ 2 ∷ 1 ∷ na.target_link_addr))
      flag true = refl
      flag false = refl

  length-advertisement :
      (na : NdpNeighborAdvertisement) (k : ℕ × ℕ)
      → length na.target_link_addr ≡ 6
      → length (advertisement na k) ≡ 32
  length-advertisement na k h = omega (
    arith,
    length-append (be_bytes 16 na.target_address) (2 ∷ 1 ∷ na.target_link_addr),
    length-be_bytes 16 na.target_address,
  )

  -- A neighbor advertisement for a link address of six bytes is encoded, without a panic, in 32
  -- bytes laid out as in RFC 4861, and its checksum over the IPv6 pseudo-header verifies.
  pub encode_advertisement-verifies :
      IsChecksum c
      → (na : NdpNeighborAdvertisement) (src dst : ℕ) → length na.target_link_addr ≡ 6
      → (k : ℕ × ℕ) × (encode_advertisement b c na src dst ≡ ok (advertisement na k))
        × (length (advertisement na k) ≡ 32)
        × (c.checksum
              (c.add_bytes (pseudo_header b c src dst 32 icmpv6_proto_num) (advertisement na k))
            ≡ (0, 0))
  unfolding encode_advertisement
  encode_advertisement-verifies sums na src dst h =
      let pseudo = pseudo_header b c src dst 32 icmpv6_proto_num in
      let k = c.checksum (c.add_bytes pseudo (advertisement na (0, 0))) in
      let body =
        (if na.override_flag then 32 else 0)
        ∷ 0
        ∷ 0
        ∷ 0
        ∷ (be_bytes 16 na.target_address ++ 2 ∷ 1 ∷ na.target_link_addr) in
      (
        k,
        rw (advertisement_buffer_lem na, encode_advertisement)
            (rw (length-advertisement na (0, 0) h) (ground arith)),
        length-advertisement na k h,
        sums.verifies pseudo (136 ∷ 0 ∷ []) body
            (pseudo_header-Aligned b c lawful sums src dst 32 icmpv6_proto_num) refl,
      )

-- A neighbor solicitation, that is, the byte 135, any seven bytes, the target address and any
-- options, is read for its target address.
pub decode_solicitation_target :
    (head rest : List ℕ) (target : ℕ)
    → length head ≡ 7
    → target < size 16
    → decode_solicitation (135 ∷ (head ++ (be_bytes 16 target ++ rest)))
      ≡ some (record { target_address = target })
unfolding decode_solicitation
decode_solicitation_target head rest target h fits =
    rw (drop-append 7 head (be_bytes 16 target ++ rest) h, decode_solicitation)
      (rw
        (take-append 16 (be_bytes 16 target) rest (length-be_bytes 16 target), decode_solicitation)
        (ground (
          arith,
          length-append head (be_bytes 16 target ++ rest),
          length-append (be_bytes 16 target) rest,
          length-be_bytes 16 target,
          from_be_bytes-be_bytes 16 target fits,
        )))
