-- ===== src/Packet/Reads.antt =====
-- What the reads of `decode` (src/packet.rs) give on a message laid out as in Wire.
use mathlib.Core.List.{append_assoc, append-nil}
use failover.Base.{
  ℕ, ◌+◌, ◌*◌, ◌/◌, ◌%◌, ◌≤◌, ◌<◌, ◌≡◌, refl, ap, ◌∙◌, true, List, [], ◌∷◌, ◌++◌, length,
  length-append, length-be_bytes, be_bytes, low_bits, arith, All, some, size,
  from_be_bytes-be_bytes, take-append, drop-append,
}
use failover.Error.{ok}
use failover.Version
use failover.Version.{VrrpVersion, v2, v3, VrrpAddresses, try_from-as_u8}
use failover.Crates.Buffer.{Buffer, IsBuffer, read, get_u8-cons, get_u16-cons}
use failover.Crates.Checksum.{Checksum}
use failover.Packet.{VrrpPacket}
use failover.Packet.Encode.{ver_type}
use failover.Packet.Wire.{
  addr_bytes, auth_bytes, interval_bytes, message4, message6, length-addr_bytes,
}
use failover.Packet.Decode.{
  verify_checksum_v4, verify_checksum_v6, get_interval, get_addrs4, get_addrs6, get_auth, decode_v4,
  decode_v6, trailing_auth_len,
}

-- What the interval field can carry: whole seconds in a byte, or twelve bits of centiseconds.
abbrev pub carried : VrrpVersion → ℕ → ℕ
carried v2 cs = cs / 100 % 256 * 100
carried v3 cs = low_bits cs 12

-- The fields fit their types, and there are as many addresses as VRRP allows.
pub record Fits (k : ℕ) (p : VrrpPacket) (addrs : List ℕ) : Type 0 where
  pub vrid_fits : p.vrid < 256
  pub priority_fits : p.priority < 256
  pub few : length addrs ≤ 16
  pub addrs_fit : All (λ a. a < size k) addrs

read-be_bytes :
    (k n : ℕ) (rest : List ℕ) → n < size k → read k (be_bytes k n ++ rest) ≡ some (n, rest)
read-be_bytes k n rest h = ground (
  arith,
  length-append (be_bytes k n) rest,
  length-be_bytes k n,
  take-append k (be_bytes k n) rest,
  drop-append k (be_bytes k n) rest,
  from_be_bytes-be_bytes k n h,
)

ver_type-shr : (v : VrrpVersion) → ver_type v / 16 ≡ Version.as_u8 v
unfolding ver_type
ver_type-shr v2 = refl
ver_type-shr v3 = refl

length-message4 :
    (p : VrrpPacket) (addrs : List ℕ) (k : ℕ × ℕ)
    → length (message4 p addrs k) ≡ 8 + trailing_auth_len p.version + length addrs * 4
length-message4 p addrs k =
    ground
      (arith, length-append (addr_bytes 4 addrs) (auth_bytes p.version), length-addr_bytes 4 addrs)

module _ (b : Buffer) (c : Checksum) (lawful : IsBuffer b) where
  open lawful use {get_u8_lem, get_u16_lem, get_u32_lem, get_u128_lem}

  get_u32-be_bytes :
      (n : ℕ) (rest : List ℕ) → n < size 4 → b.get_u32 (be_bytes 4 n ++ rest) ≡ some (n, rest)
  get_u32-be_bytes n rest h = get_u32_lem (be_bytes 4 n ++ rest) ∙ read-be_bytes 4 n rest h

  get_u128-be_bytes :
      (n : ℕ) (rest : List ℕ) → n < size 16 → b.get_u128 (be_bytes 16 n ++ rest) ≡ some (n, rest)
  get_u128-be_bytes n rest h = get_u128_lem (be_bytes 16 n ++ rest) ∙ read-be_bytes 16 n rest h

  get_addrs4-addr_bytes :
      (addrs rest : List ℕ)
      → All (λ a. a < size 4) addrs
      → get_addrs4 b c (length addrs) (addr_bytes 4 addrs ++ rest) ≡ ok (addrs, rest)
  unfolding get_addrs4
  get_addrs4-addr_bytes [] rest h = refl
  get_addrs4-addr_bytes (a ∷ addrs) rest h =
      rw (append_assoc (be_bytes 4 a) (addr_bytes 4 addrs) rest) (
        rw (get_u32-be_bytes a (addr_bytes 4 addrs ++ rest) h.0, get_addrs4)
          (rw (get_addrs4-addr_bytes addrs rest h.1, get_addrs4)))

  get_addrs6-addr_bytes :
      (addrs rest : List ℕ)
      → All (λ a. a < size 16) addrs
      → get_addrs6 b c (length addrs) (addr_bytes 16 addrs ++ rest) ≡ ok (addrs, rest)
  unfolding get_addrs6
  get_addrs6-addr_bytes [] rest h = refl
  get_addrs6-addr_bytes (a ∷ addrs) rest h =
      rw (append_assoc (be_bytes 16 a) (addr_bytes 16 addrs) rest) (
        rw (get_u128-be_bytes a (addr_bytes 16 addrs ++ rest) h.0, get_addrs6)
          (rw (get_addrs6-addr_bytes addrs rest h.1, get_addrs6)))

  get_interval-cons :
      (v : VrrpVersion) (cs : ℕ) (rest : List ℕ)
      → let i = interval_bytes v cs in
        get_interval b c v (i.0 ∷ i.1 ∷ rest) ≡ ok (carried v cs, rest)
  unfolding get_interval
  get_interval-cons v2 cs rest = simp (get_u8-cons b lawful)
  get_interval-cons v3 cs rest =
      simp (get_u16-cons b lawful) (ap (λ (t : ℕ). ok (t, rest)) (omega arith))

  get_auth-auth_bytes :
      (v : VrrpVersion) → (rest : List ℕ) × (get_auth b c v (auth_bytes v) ≡ ok rest)
  unfolding get_auth be_bytes
  get_auth-auth_bytes v2 = (
    [],
    rw (get_u32-be_bytes 0 (0 ∷ 0 ∷ 0 ∷ 0 ∷ []) (omega arith), get_auth)
        (rw (get_u32-be_bytes 0 [] (omega arith), get_auth)),
  )
  get_auth-auth_bytes v3 = ([], refl)

  pub decode_v4-message :
      (p : VrrpPacket) (addrs : List ℕ) (k : ℕ × ℕ)
      → Fits 4 p addrs
      → verify_checksum_v4 b c (message4 p addrs k) ≡ true
      → decode_v4 b c (message4 p addrs k)
        ≡ ok (record p {
          adver_int_cs = carried p.version p.adver_int_cs;
          addresses = VrrpAddresses.v4 addrs;
        })
  unfolding decode_v4
  decode_v4-message p addrs k f good =
      simp
        (
          get_u8-cons b lawful,
          get_u16-cons b lawful,
          ver_type-shr,
          try_from-as_u8,
          get_interval-cons,
        )
        (ground (
          arith,
          length-message4 p addrs k,
          get_addrs4-addr_bytes addrs (auth_bytes p.version) f.addrs_fit,
          (get_auth-auth_bytes p.version).1,
        ))

  pub decode_v6-message :
      (p : VrrpPacket) (addrs : List ℕ) (src dst : ℕ) (k : ℕ × ℕ)
      → p.version ≡ v3
      → Fits 16 p addrs
      → verify_checksum_v6 b c (message6 p addrs k) src dst ≡ true
      → decode_v6 b c (message6 p addrs k) src dst
        ≡ ok (record p {
          adver_int_cs = carried v3 p.adver_int_cs;
          addresses = VrrpAddresses.v6 addrs;
        })
  unfolding decode_v6
  decode_v6-message p addrs src dst k e f good =
      simp (get_u8-cons b lawful, get_u16-cons b lawful, ver_type-shr, try_from-as_u8)
        (ground (
          arith,
          length-addr_bytes 16 addrs,
          append-nil (addr_bytes 16 addrs),
          get_addrs6-addr_bytes addrs [] f.addrs_fit,
        ))
