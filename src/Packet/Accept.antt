-- ===== src/Packet/Accept.antt =====
-- What `decode` (src/packet.rs) does on any bytes at all.
use failover.Base.{ℕ, ◌≡◌, ◌≢◌, inl, true, List, ◌∷◌, arith}
use failover.Error.{ok, panic}
use failover.Net.{IpAddr}
use failover.Crates.Buffer.{Buffer, IsBuffer}
use failover.Crates.Checksum.{Checksum}
use failover.Packet.{VrrpPacket}
use failover.Packet.Decode.{
  verify_checksum_v4, verify_checksum_v6, decode_v4, decode_v6, decode, trailing_auth_len,
}
use failover.Packet.Totals.{IsWhole, Answers, Answers-ok}
use failover.Packet.Accept4.{decode_v4-short, decode_v4-eight}
use failover.Packet.Accept6.{decode_v6-short, decode_v6-eight}

module _ (b : Buffer) (c : Checksum) (lawful : IsBuffer b) where
  decode_v4-Answers :
      (bytes : List ℕ)
      → Answers 4 trailing_auth_len (verify_checksum_v4 b c bytes) bytes (decode_v4 b c bytes)
  decode_v4-Answers (d ∷ e ∷ f ∷ g ∷ h ∷ i ∷ j ∷ k ∷ rest) =
      decode_v4-eight b c lawful d e f g h i j k rest
  decode_v4-Answers bytes = inl (decode_v4-short b c lawful _ (omega arith))

  decode_v6-Answers :
      (bytes : List ℕ) (src dst : ℕ)
      → Answers 16
          (λ _. 0)
          (verify_checksum_v6 b c bytes src dst)
          bytes
          (decode_v6 b c bytes src dst)
  decode_v6-Answers (d ∷ e ∷ f ∷ g ∷ h ∷ i ∷ j ∷ k ∷ rest) src dst =
      decode_v6-eight b c lawful d e f g h i j k rest src dst
  decode_v6-Answers bytes src dst = inl (decode_v6-short b c lawful _ src dst (omega arith))

  -- The decoder reads past the end of no buffer: it panics on no bytes whatever, for any
  -- addresses of the IP header.
  pub decode-ne-panic : (bytes : List ℕ) (src dst : IpAddr) → decode b c bytes src dst ≢ panic
  unfolding decode
  decode-ne-panic bytes (IpAddr.v4 s) dst = ground (arith, decode_v4-Answers bytes)
  decode-ne-panic bytes (IpAddr.v6 s) (IpAddr.v6 d) = ground (arith, decode_v6-Answers bytes s d)
  decode-ne-panic bytes (IpAddr.v6 s) (IpAddr.v4 d) = ground arith

  -- What the decoder accepts from an IPv4 source is a whole message: its length is that of its
  -- header, addresses and trailer, its version, VRID, priority and count stand in its first four
  -- bytes, it has at most 16 addresses, and its checksum verifies.
  pub decode-IsWhole_v4 :
      (bytes : List ℕ) (s : ℕ) (dst : IpAddr) (p : VrrpPacket)
      → decode b c bytes (IpAddr.v4 s) dst ≡ ok p
      → IsWhole 4 (trailing_auth_len p.version) bytes p × (verify_checksum_v4 b c bytes ≡ true)
  unfolding decode
  decode-IsWhole_v4 bytes s dst p h =
      Answers-ok 4 trailing_auth_len _ bytes (decode_v4-Answers bytes) p h

  -- What the decoder accepts between two IPv6 addresses is a whole message, as for IPv4 but with
  -- no trailer, and its checksum over the pseudo-header of both verifies.
  pub decode-IsWhole_v6 :
      (bytes : List ℕ) (s d : ℕ) (p : VrrpPacket)
      → decode b c bytes (IpAddr.v6 s) (IpAddr.v6 d) ≡ ok p
      → IsWhole 16 0 bytes p × (verify_checksum_v6 b c bytes s d ≡ true)
  unfolding decode
  decode-IsWhole_v6 bytes s d p h = Answers-ok 16 (λ _. 0) _ bytes (decode_v6-Answers bytes s d) p h
