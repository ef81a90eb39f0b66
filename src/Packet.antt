-- ===== src/Packet.antt =====
-- The VRRP packet of src/packet.rs: its data and constants. The codec is in the children.
pub mod Encode
pub mod Decode
pub mod Wire
pub mod Reads
pub mod RoundTrip
pub mod Totals
pub mod Bytes
pub mod Accept4
pub mod Accept6
pub mod Accept
use failover.Base.{
  ℕ, ◌+◌, ◌*◌, ◌^◌, ◌&&◌, ◌==◌, Bool, List, ◌++◌, Option, none, some, length, take, drop, leb,
  if◌then◌else◌,
}
use failover.Error.{Result, ok, panic}
use failover.Version.{VrrpVersion, VrrpAddresses}

pub record VrrpPacket : Type 0 where
  pub version : VrrpVersion
  pub vrid : ℕ  -- u8
  pub priority : ℕ  -- u8
  pub adver_int_cs : ℕ  -- u16
  pub addresses : VrrpAddresses

abbrev pub max_ip_count : ℕ
max_ip_count = 16

abbrev pub hdwr_type : ℕ
hdwr_type = 1

abbrev pub fixed_header_len : ℕ
fixed_header_len = 8

abbrev pub v2_auth_trailer_len : ℕ
v2_auth_trailer_len = 8

abbrev pub vrrp_proto_num : ℕ
vrrp_proto_num = 112

abbrev pub icmpv6_proto_num : ℕ
icmpv6_proto_num = 58

-- ff02::12 and ff02::1
abbrev pub vrrp_v6_mcast_addr : ℕ
vrrp_v6_mcast_addr = 0xff02 * 2 ^ 112 + 0x12

abbrev pub all_nodes_v6_mcast_addr : ℕ
all_nodes_v6_mcast_addr = 0xff02 * 2 ^ 112 + 1

-- A read past the end of a buffer panics.
abbrev pub must {ℓ κ} : {E : Type κ} {A : Type ℓ} → Option A → Result E A
must none = panic
must (some a) = ok a

-- `buf[lo..hi].copy_from_slice(src)`, which panics out of range or where the lengths differ.
abbrev pub copy_from_slice {κ} : {E : Type κ} → ℕ → ℕ → List ℕ → List ℕ → Result E (List ℕ)
copy_from_slice lo hi src buf =
    if leb hi (length buf) && (lo + length src == hi)
    then ok (take lo buf ++ src ++ drop hi buf)
    else panic
