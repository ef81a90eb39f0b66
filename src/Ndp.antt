-- ===== src/Ndp.antt =====
-- Neighbor discovery messages (src/packet.rs: `NdpNeighborAdvertisement`, `NdpNeighborSolicitation`).
pub mod Checked
use failover.Base.{
  ℕ, Bool, true, false, not, ◌||◌, List, [], ◌∷◌, ◌==◌, ltb, if◌then◌else◌, length, take, drop,
  from_be_bytes, Option, none, some,
}
use failover.Error.{Result, NetworkError}
use failover.Net.{octets6}
use failover.Crates.Buffer.{Buffer}
use failover.Crates.Checksum.{Checksum}
use failover.Packet.{icmpv6_proto_num, copy_from_slice}
use failover.Packet.Encode.{pseudo_header}

pub record NdpNeighborAdvertisement : Type 0 where
  pub target_address : ℕ
  pub target_link_addr : List ℕ  -- [u8; 6]
  pub override_flag : Bool

pub record NdpNeighborSolicitation : Type 0 where
  pub target_address : ℕ

abbrev pub advertisement_type : ℕ
advertisement_type = 136

abbrev pub opt_target_link_addr : ℕ
opt_target_link_addr = 2

abbrev pub solicitation_type : ℕ
solicitation_type = 135

module _ (b : Buffer) (c : Checksum) where
  open b use {put_u8, put_u16, put_slice}

  -- The message before its checksum is filled in.
  unfoldable pub advertisement_buffer : NdpNeighborAdvertisement → List ℕ
  advertisement_buffer na =
      let start = put_u16 (put_u8 (put_u8 [] advertisement_type) 0) 0 in
      let flags : ℕ = if na.override_flag then 0b0010_0000 else 0 in
      let header = put_u8 (put_u8 (put_u8 (put_u8 start flags) 0) 0) 0 in
      let option =
        put_u8 (put_u8 (put_slice header (octets6 na.target_address)) opt_target_link_addr) 1 in
      put_slice option na.target_link_addr

  -- `NdpNeighborAdvertisement::encode`
  unfoldable pub encode_advertisement :
      NdpNeighborAdvertisement → ℕ → ℕ → Result NetworkError (List ℕ)
  unfolding advertisement_buffer pseudo_header
  encode_advertisement na src_ip dst_ip =
      let msg = advertisement_buffer na in
      let pseudo = pseudo_header b c src_ip dst_ip (length msg) icmpv6_proto_num in
      let check = c.checksum (c.add_bytes pseudo msg) in
      copy_from_slice 2 4 (check.0 ∷ check.1 ∷ []) msg

-- `data[0] != TYPE`
abbrev first_is : ℕ → List ℕ → Bool
first_is t [] = false
first_is t (x ∷ bytes) = x == t

-- `NdpNeighborSolicitation::decode`: the sixteen bytes from the eighth on.
unfoldable pub decode_solicitation : List ℕ → Option NdpNeighborSolicitation
decode_solicitation bytes =
    if ltb (length bytes) 24 || not (first_is solicitation_type bytes)
    then none
    else some (record { target_address = from_be_bytes (take 16 (drop 8 bytes)) })
