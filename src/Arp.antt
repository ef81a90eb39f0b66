-- ===== src/Arp.antt =====
-- ARP frames (src/packet.rs: `ARPframe`, `EthernetFrame`, `ArpPacket`). Arrays of bytes are lists.
pub mod RoundTrip
use failover.Base.{
  ℕ, zero, suc, ◌+◌, ◌*◌, ◌/◌, ◌%◌, Bool, not, List, [], ◌∷◌, ◌++◌, ◌==◌, if◌then◌else◌, length,
  be_bytes, Option, none, some,
}
use failover.Error.{Result, ok, ◌>>=◌, NetworkError}
use failover.Crates.Buffer.{Buffer}
use failover.Packet.{must}

pub record EthernetFrame : Type 0 where
  pub dst_mac : List ℕ  -- [u8; 6]
  pub src_mac : List ℕ
  pub ethertype : ℕ  -- u16

pub record ArpPacket : Type 0 where
  pub hw_type : ℕ  -- u16
  pub proto_type : ℕ  -- u16
  pub hw_length : ℕ  -- u8
  pub proto_length : ℕ  -- u8
  pub operation : ℕ  -- u16
  pub sender_hw_address : List ℕ  -- [u8; 6]
  pub sender_proto_address : List ℕ  -- [u8; 4]
  pub target_hw_address : List ℕ
  pub target_proto_address : List ℕ

pub record ArpFrame : Type 0 where
  pub dst_mac : List ℕ
  pub src_mac : List ℕ
  pub ethertype : ℕ
  pub hardware_type : ℕ
  pub protocol_type : ℕ
  pub hw_addr_len : ℕ
  pub proto_addr_len : ℕ
  pub opcode : ℕ
  pub sender_hw_addr : List ℕ
  pub sender_proto_addr : List ℕ
  pub target_hw_addr : List ℕ
  pub target_proto_addr : List ℕ

-- `u16::to_be`: on a little-endian host (`big_endian` false) it swaps the two bytes.
abbrev pub to_be : Bool → ℕ → ℕ
to_be big_endian n = if big_endian then n else n % 256 * 256 + n / 256 % 256

-- `ARPframe::new`
unfoldable pub new_frame : Bool → EthernetFrame → ArpPacket → ArpFrame
new_frame big_endian eth_pkt arp_pkt = record {
  dst_mac = eth_pkt.dst_mac;
  src_mac = eth_pkt.src_mac;
  ethertype = to_be big_endian eth_pkt.ethertype;
  hardware_type = to_be big_endian arp_pkt.hw_type;
  protocol_type = to_be big_endian arp_pkt.proto_type;
  hw_addr_len = arp_pkt.hw_length;
  proto_addr_len = arp_pkt.proto_length;
  opcode = to_be big_endian arp_pkt.operation;
  sender_hw_addr = arp_pkt.sender_hw_address;
  sender_proto_addr = arp_pkt.sender_proto_address;
  target_hw_addr = arp_pkt.target_hw_address;
  target_proto_addr = arp_pkt.target_proto_address;
}

-- The two bytes of a u16 in memory.
abbrev pub memory16 : Bool → ℕ → List ℕ
memory16 big_endian n =
    if big_endian then n / 256 % 256 ∷ (n % 256) ∷ [] else (n % 256) ∷ (n / 256 % 256) ∷ []

-- The frame as `sendto` reads it: the fields in order, as `#[repr(C)]` lays them out (every u16
-- falls on an even offset, so there is no padding).
unfoldable pub frame_bytes : Bool → ArpFrame → List ℕ
frame_bytes big_endian f =
    f.dst_mac
    ++ f.src_mac
    ++ memory16 big_endian f.ethertype
    ++ memory16 big_endian f.hardware_type
    ++ memory16 big_endian f.protocol_type
    ++ (f.hw_addr_len % 256)
      ∷ (f.proto_addr_len % 256)
      ∷ (memory16 big_endian f.opcode
          ++ f.sender_hw_addr
          ++ f.sender_proto_addr
          ++ f.target_hw_addr
          ++ f.target_proto_addr)

module _ (b : Buffer) where
  open b use {get_u8, get_u16}

  -- `std::array::from_fn(|_| buf.get_u8())`, of `n` bytes.
  unfoldable pub get_array : ℕ → List ℕ → Result NetworkError (List ℕ × List ℕ)
  get_array zero buf = ok ([], buf)
  get_array (suc n) buf = do
    (x, buf) ← must (get_u8 buf)
    (xs, buf) ← get_array n buf
    ok (x ∷ xs, buf)

  decode_fields : List ℕ → Result NetworkError ArpPacket
  unfolding get_array
  decode_fields buf = do
    (hw_type, buf) ← must (get_u16 buf)
    (proto_type, buf) ← must (get_u16 buf)
    (hw_length, buf) ← must (get_u8 buf)
    (proto_length, buf) ← must (get_u8 buf)
    (operation, buf) ← must (get_u16 buf)
    (sender_hw_address, buf) ← get_array 6 buf
    (sender_proto_address, buf) ← get_array 4 buf
    (target_hw_address, buf) ← get_array 6 buf
    (target_proto_address, buf) ← get_array 4 buf
    ok (record {
      hw_type = hw_type;
      proto_type = proto_type;
      hw_length = hw_length;
      proto_length = proto_length;
      operation = operation;
      sender_hw_address = sender_hw_address;
      sender_proto_address = sender_proto_address;
      target_hw_address = target_hw_address;
      target_proto_address = target_proto_address;
    })

  -- `ArpPacket::decode`
  unfoldable pub decode_arp : List ℕ → Result NetworkError (Option ArpPacket)
  unfolding decode_fields
  decode_arp bytes =
      if not (length bytes == 28) then ok none else decode_fields bytes >>= λ p. ok (some p)
