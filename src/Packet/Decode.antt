-- ===== src/Packet/Decode.antt =====
-- `VrrpPacket::decode` (src/packet.rs), over the crates `bytes` and `internet-checksum`.
use failover.Base.{
  ℕ, zero, suc, ◌+◌, ◌*◌, Bool, not, ◌&&◌, ◌||◌, List, [], ◌∷◌, length, low_bits, shr, ltb, ◌==◌,
  if◌then◌else◌,
}
use failover.Error.{
  Result, ok, err, ◌>>=◌, ◌>>◌, reject_if, PacketError, malformed, bad_checksum,
  unsupported_version,
}
use failover.Version
use failover.Version.{VrrpVersion, v2, v3, VrrpAddresses, version_eq}
use failover.Net.{IpAddr}
use failover.Crates.Buffer.{Buffer}
use failover.Crates.Checksum.{Checksum}
use failover.Packet.{
  VrrpPacket, max_ip_count, fixed_header_len, v2_auth_trailer_len, vrrp_proto_num, must,
}
use failover.Packet.Encode.{pseudo_header}

-- `check.checksum() == [0, 0]`
abbrev pub is_zero : ℕ × ℕ → Bool
is_zero k = k.0 == 0 && k.1 == 0

abbrev pub trailing_auth_len : VrrpVersion → ℕ
trailing_auth_len version = if version_eq version v2 then v2_auth_trailer_len else 0

module _ (b : Buffer) (c : Checksum) where
  open b use {get_u8, get_u16, get_u32, get_u128}
  open c use {new, add_bytes, checksum}

  unfoldable pub verify_checksum_v4 : List ℕ → Bool
  verify_checksum_v4 data' = is_zero (checksum (add_bytes new data'))

  unfoldable pub verify_checksum_v6 : List ℕ → ℕ → ℕ → Bool
  unfolding pseudo_header
  verify_checksum_v6 data' src dst =
      is_zero (checksum (add_bytes (pseudo_header b c src dst (length data') vrrp_proto_num) data'))

  -- The interval in centiseconds: v2 has an authentication type and seconds, v3 twelve bits.
  unfoldable pub get_interval : VrrpVersion → List ℕ → Result PacketError (ℕ × List ℕ)
  get_interval v2 buf = do
    (auth_type, buf) ← must (get_u8 buf)
    (seconds, buf) ← must (get_u8 buf)
    ok (seconds * 100, buf)
  get_interval v3 buf = do (field, buf) ← must (get_u16 buf); ok (low_bits field 12, buf)

  unfoldable pub get_addrs4 : ℕ → List ℕ → Result PacketError (List ℕ × List ℕ)
  get_addrs4 zero buf = ok ([], buf)
  get_addrs4 (suc n) buf = do
    (addr, buf) ← must (get_u32 buf)
    (addrs, buf) ← get_addrs4 n buf
    ok (addr ∷ addrs, buf)

  unfoldable pub get_addrs6 : ℕ → List ℕ → Result PacketError (List ℕ × List ℕ)
  get_addrs6 zero buf = ok ([], buf)
  get_addrs6 (suc n) buf = do
    (addr, buf) ← must (get_u128 buf)
    (addrs, buf) ← get_addrs6 n buf
    ok (addr ∷ addrs, buf)

  unfoldable pub get_auth : VrrpVersion → List ℕ → Result PacketError (List ℕ)
  get_auth v2 buf = do
    (auth_data1, buf) ← must (get_u32 buf)
    (auth_data2, buf) ← must (get_u32 buf)
    ok buf
  get_auth v3 buf = ok buf

  unfoldable pub decode_v4 : List ℕ → Result PacketError VrrpPacket
  unfolding verify_checksum_v4 get_interval get_addrs4 get_auth
  decode_v4 data' = do
    reject_if (length data' == 0) malformed
    (ver_type, buf) ← must (get_u8 data')
    version ← Version.try_from (shr ver_type 4)
    reject_if (ltb (length data') fixed_header_len) malformed
    (vrid, buf) ← must (get_u8 buf)
    (priority, buf) ← must (get_u8 buf)
    (count_ip, buf) ← must (get_u8 buf)
    (adver_int_cs, buf) ← get_interval version buf
    let expected_len = fixed_header_len + trailing_auth_len version + count_ip * 4
    reject_if (ltb max_ip_count count_ip || not (expected_len == length data')) malformed
    reject_if (not (verify_checksum_v4 data')) bad_checksum
    (sum, buf) ← must (get_u16 buf)
    (addrs, buf) ← get_addrs4 count_ip buf
    rest ← get_auth version buf
    ok (record {
      version = version;
      vrid = vrid;
      priority = priority;
      adver_int_cs = adver_int_cs;
      addresses = VrrpAddresses.v4 addrs;
    })

  unfoldable pub decode_v6 : List ℕ → ℕ → ℕ → Result PacketError VrrpPacket
  unfolding verify_checksum_v6 get_addrs6
  decode_v6 data' src_ip dst_ip = do
    reject_if (length data' == 0) malformed
    (ver_type, buf) ← must (get_u8 data')
    let version_raw = shr ver_type 4
    version ← Version.try_from version_raw
    reject_if (not (version_eq version v3)) (unsupported_version version_raw)
    reject_if (ltb (length data') fixed_header_len) malformed
    (vrid, buf) ← must (get_u8 buf)
    (priority, buf) ← must (get_u8 buf)
    (count_ip, buf) ← must (get_u8 buf)
    (field, buf) ← must (get_u16 buf)
    let expected_len = fixed_header_len + count_ip * 16
    reject_if (ltb max_ip_count count_ip || not (expected_len == length data')) malformed
    reject_if (not (verify_checksum_v6 data' src_ip dst_ip)) bad_checksum
    (sum, buf) ← must (get_u16 buf)
    (addrs, buf) ← get_addrs6 count_ip buf
    ok (record {
      version = version;
      vrid = vrid;
      priority = priority;
      adver_int_cs = low_bits field 12;
      addresses = VrrpAddresses.v6 addrs;
    })

  unfoldable pub decode : List ℕ → IpAddr → IpAddr → Result PacketError VrrpPacket
  unfolding decode_v4 decode_v6
  decode data' (IpAddr.v4 _) dst = decode_v4 data'
  decode data' (IpAddr.v6 src) (IpAddr.v6 dst) = decode_v6 data' src dst
  decode data' (IpAddr.v6 src) (IpAddr.v4 _) = err malformed
