-- ===== src/Packet/Accept4.antt =====
-- What `decode` (src/packet.rs) does on any bytes at all: IPv4.
use failover.Base.{
  ℕ, ◌+◌, ◌*◌, ◌/◌, ◌<◌, ◌≡◌, inl, inr, refl, sym, ap, Bool, true, false, not, List, [], ◌∷◌,
  length, arith, shr, ltb, Bool-cases, ◌==◌, ◌||◌,
}
use failover.Error.{ok, err, PacketError, malformed, bad_checksum}
use failover.Version
use failover.Version.{VrrpVersion, v2, v3, VrrpAddresses, try_from-eq-ok}
use failover.Crates.Buffer.{Buffer, IsBuffer, get_u8-cons, get_u16-cons}
use failover.Crates.Checksum.{Checksum}
use failover.Packet.{VrrpPacket}
use failover.Packet.Decode.{verify_checksum_v4, decode_v4, trailing_auth_len}
use failover.Packet.Totals.{
  IsWhole, Answers, try_from-cases, get_addrs4-total, get_auth-total, get_interval-total,
}

module _ (b : Buffer) (c : Checksum) (lawful : IsBuffer b) where
  pub decode_v4-short :
      (bytes : List ℕ) → length bytes < 8 → (e : PacketError) × (decode_v4 b c bytes ≡ err e)
  unfolding decode_v4
  decode_v4-short [] h = (malformed, refl)
  decode_v4-short (d ∷ rest) h = elim (try_from-cases (shr d 4)) [
    | inl (v, good) ↦ (malformed, simp (get_u8-cons b lawful, good) (ground arith))
    | inr (x, bad) ↦ (x, simp (get_u8-cons b lawful, bad) (ground arith))
  ]

  module _ (d e f g h i j k : ℕ) (rest : List ℕ) where
    abbrev pub bytes8 : List ℕ
    bytes8 = d ∷ e ∷ f ∷ g ∷ h ∷ i ∷ j ∷ k ∷ rest

    abbrev wrong_size : ℕ → Bool
    wrong_size n = ltb 16 g || not (n == length bytes8)

    decode_v4-IsWhole :
        (v : VrrpVersion)
        → Version.try_from (shr d 4) ≡ ok v
        → wrong_size (8 + trailing_auth_len v + g * 4) ≡ false
        → verify_checksum_v4 b c bytes8 ≡ true
        → (p : VrrpPacket) × (decode_v4 b c bytes8 ≡ ok p)
          × IsWhole 4 (trailing_auth_len p.version) bytes8 p
    unfolding decode_v4 Version.len
    decode_v4-IsWhole v known right good =
        let (cs, interval) = get_interval-total b c lawful v h i (j ∷ k ∷ rest) in
        let addrs = get_addrs4-total b c lawful g rest (ground arith) in
        let auth = get_auth-total b c lawful v addrs.1 (ground (arith, addrs.4)) in
        (
          record {
            version = v;
            vrid = e;
            priority = f;
            adver_int_cs = cs;
            addresses = VrrpAddresses.v4 addrs.0;
          },
          simp (get_u8-cons b lawful, get_u16-cons b lawful, known, interval)
              (ground (arith, addrs.2, auth.1)),
          record {
            first = d;
            rest = h ∷ i ∷ j ∷ k ∷ rest;
            layout = ap (λ (n : ℕ). d ∷ e ∷ f ∷ n ∷ h ∷ i ∷ j ∷ k ∷ rest) (sym addrs.3);
            version_nibble = try_from-eq-ok (d / 16) v known;
            exact = ground (arith, addrs.3);
            few = ground (arith, addrs.3);
          },
        )

    pub decode_v4-eight :
        Answers 4 trailing_auth_len (verify_checksum_v4 b c bytes8) bytes8 (decode_v4 b c bytes8)
    unfolding decode_v4
    decode_v4-eight = elim (try_from-cases (shr d 4)) [
      | inr (x, bad) ↦ inl (x, simp (get_u8-cons b lawful, bad) (ground arith))
      | inl (v, known) ↦
          let (cs, interval) = get_interval-total b c lawful v h i (j ∷ k ∷ rest) in
          elim (Bool-cases (wrong_size (8 + trailing_auth_len v + g * 4))) [
            | inl wrong ↦
                inl (malformed, simp (get_u8-cons b lawful, known, interval) (ground arith))
            | inr right ↦ elim (Bool-cases (verify_checksum_v4 b c bytes8)) [
              | inl good ↦ let w = decode_v4-IsWhole v known right good in inr (w.0, w.1, w.2, good)
              | inr broken ↦
                  inl (bad_checksum, simp (get_u8-cons b lawful, known, interval) (ground arith))
            ]
          ]
    ]
