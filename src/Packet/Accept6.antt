-- ===== src/Packet/Accept6.antt =====
-- What `decode` (src/packet.rs) does on any bytes at all: IPv6.
use failover.Base.{
  ℕ, ◌+◌, ◌*◌, ◌/◌, ◌<◌, ◌≡◌, inl, inr, refl, sym, ap, Bool, true, false, not, List, [], ◌∷◌,
  length, arith, shr, ltb, Bool-cases, ◌==◌, ◌%◌, ◌||◌,
}
use failover.Error.{ok, err, PacketError, malformed, bad_checksum, unsupported_version}
use failover.Version
use failover.Version.{VrrpVersion, v2, v3, VrrpAddresses, try_from-eq-ok}
use failover.Crates.Buffer.{Buffer, IsBuffer, get_u8-cons, get_u16-cons}
use failover.Crates.Checksum.{Checksum}
use failover.Packet.{VrrpPacket}
use failover.Packet.Decode.{verify_checksum_v6, decode_v6}
use failover.Packet.Totals.{IsWhole, Answers, try_from-cases, get_addrs6-total}

module _ (b : Buffer) (c : Checksum) (lawful : IsBuffer b) where
  pub decode_v6-short :
      (bytes : List ℕ) (src dst : ℕ)
      → length bytes < 8
      → (e : PacketError) × (decode_v6 b c bytes src dst ≡ err e)
  unfolding decode_v6
  decode_v6-short [] src dst h = (malformed, refl)
  decode_v6-short (d ∷ rest) src dst h = elim (try_from-cases (shr d 4)) [
    | inl (v2, good) ↦
        (unsupported_version (shr d 4), simp (get_u8-cons b lawful, good) (ground arith))
    | inl (v3, good) ↦ (malformed, simp (get_u8-cons b lawful, good) (ground arith))
    | inr (x, bad) ↦ (x, simp (get_u8-cons b lawful, bad) (ground arith))
  ]

  module _ (d e f g h i j k : ℕ) (rest : List ℕ) (src dst : ℕ) where
    abbrev pub bytes8 : List ℕ
    bytes8 = d ∷ e ∷ f ∷ g ∷ h ∷ i ∷ j ∷ k ∷ rest

    abbrev wrong_size : ℕ → Bool
    wrong_size n = ltb 16 g || not (n == length bytes8)

    decode_v6-IsWhole :
        Version.try_from (shr d 4) ≡ ok v3
        → wrong_size (8 + g * 16) ≡ false
        → verify_checksum_v6 b c bytes8 src dst ≡ true
        → (p : VrrpPacket) × (decode_v6 b c bytes8 src dst ≡ ok p) × IsWhole 16 0 bytes8 p
    unfolding decode_v6 Version.len
    decode_v6-IsWhole known right good =
        let addrs = get_addrs6-total b c lawful g rest (ground arith) in
        (
          record {
            version = v3;
            vrid = e;
            priority = f;
            adver_int_cs = (h * 256 + i) % 4096;
            addresses = VrrpAddresses.v6 addrs.0;
          },
          simp (get_u8-cons b lawful, get_u16-cons b lawful, known) (ground (arith, addrs.2)),
          record {
            first = d;
            rest = h ∷ i ∷ j ∷ k ∷ rest;
            layout = ap (λ (n : ℕ). d ∷ e ∷ f ∷ n ∷ h ∷ i ∷ j ∷ k ∷ rest) (sym addrs.3);
            version_nibble = try_from-eq-ok (d / 16) v3 known;
            exact = ground (arith, addrs.3);
            few = ground (arith, addrs.3);
          },
        )

    pub decode_v6-eight :
        Answers 16
          (λ _. 0)
          (verify_checksum_v6 b c bytes8 src dst)
          bytes8
          (decode_v6 b c bytes8 src dst)
    unfolding decode_v6
    decode_v6-eight = elim (try_from-cases (shr d 4)) [
      | inr (x, bad) ↦ inl (x, simp (get_u8-cons b lawful, bad) (ground arith))
      | inl (v2, known) ↦
          inl (unsupported_version (shr d 4), simp (get_u8-cons b lawful, known) (ground arith))
      | inl (v3, known) ↦ elim (Bool-cases (wrong_size (8 + g * 16))) [
        | inl wrong ↦
            inl
              (malformed, simp (get_u8-cons b lawful, get_u16-cons b lawful, known) (ground arith))
        | inr right ↦ elim (Bool-cases (verify_checksum_v6 b c bytes8 src dst)) [
          | inl good ↦ let w = decode_v6-IsWhole known right good in inr (w.0, w.1, w.2, good)
          | inr broken ↦ inl (
            bad_checksum,
            simp (get_u8-cons b lawful, get_u16-cons b lawful, known) (ground arith),
          )
        ]
      ]
    ]
