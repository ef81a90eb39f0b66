-- ===== src/Arp/RoundTrip.antt =====
-- The ARP frames that the program sends (src/packet.rs) and the decoder of what it receives.
use mathlib.Core.List.{append_assoc, append-nil}
use mathlib.Core.Path.{ap₂}
use failover.Base.{
  ℕ, zero, suc, ◌/◌, ◌%◌, ◌<◌, ◌≡◌, refl, Bool, true, false, List, [], ◌∷◌, ◌++◌, some, length,
  drop, drop-append, length-append, subst, arith,
}
use failover.Error.{ok}
use failover.Crates.Buffer.{Buffer, IsBuffer, get_u8-cons, get_u16-cons}
use failover.Arp.{
  EthernetFrame, ArpPacket, new_frame, frame_bytes, memory16, to_be, get_array, decode_arp,
}

-- The fields have the sizes of their types.
pub record IsSized (p : ArpPacket) : Type 0 where
  pub hw_type_fits : p.hw_type < 65536
  pub proto_type_fits : p.proto_type < 65536
  pub hw_length_fits : p.hw_length < 256
  pub proto_length_fits : p.proto_length < 256
  pub operation_fits : p.operation < 65536
  pub sender_hw : length p.sender_hw_address ≡ 6
  pub sender_proto : length p.sender_proto_address ≡ 4
  pub target_hw : length p.target_hw_address ≡ 6
  pub target_proto : length p.target_proto_address ≡ 4

-- The Ethernet header and the ARP payload on the wire, in network byte order.
abbrev pub ethernet_bytes : EthernetFrame → List ℕ
ethernet_bytes eth =
    eth.dst_mac ++ (eth.src_mac ++ (eth.ethertype / 256 % 256) ∷ (eth.ethertype % 256) ∷ [])

abbrev pub arp_bytes : ArpPacket → List ℕ
arp_bytes p =
    (p.hw_type / 256 % 256)
    ∷ (p.hw_type % 256)
    ∷ (p.proto_type / 256 % 256)
    ∷ (p.proto_type % 256)
    ∷ (p.hw_length % 256)
    ∷ (p.proto_length % 256)
    ∷ (p.operation / 256 % 256)
    ∷ (p.operation % 256)
    ∷ (p.sender_hw_address
        ++ (p.sender_proto_address ++ (p.target_hw_address ++ p.target_proto_address)))

-- `to_be` and then the host's layout give network byte order.
memory16-to_be :
    (big_endian : Bool) (n : ℕ)
    → memory16 big_endian (to_be big_endian n) ≡ (n / 256 % 256) ∷ (n % 256) ∷ []
memory16-to_be true n = refl
memory16-to_be false n = ap₂ (λ x y. x ∷ y ∷ []) (omega arith) (omega arith)

-- The bytes that are sent are the Ethernet header and the ARP payload.
pub frame_bytes-new_frame :
    (big_endian : Bool) (eth : EthernetFrame) (p : ArpPacket)
    → frame_bytes big_endian (new_frame big_endian eth p) ≡ ethernet_bytes eth ++ arp_bytes p
unfolding frame_bytes new_frame
frame_bytes-new_frame big_endian eth p = simp (memory16-to_be, append_assoc)

length-ethernet_bytes :
    (eth : EthernetFrame)
    → length eth.dst_mac ≡ 6
    → length eth.src_mac ≡ 6
    → length (ethernet_bytes eth) ≡ 14
length-ethernet_bytes eth dst src =
    let tail = (eth.ethertype / 256 % 256) ∷ (eth.ethertype % 256) ∷ [] in
    omega (arith, length-append eth.dst_mac (eth.src_mac ++ tail), length-append eth.src_mac tail)

module _ (b : Buffer) (lawful : IsBuffer b) where
  get_array-append :
      (n : ℕ) (xs rest : List ℕ) → length xs ≡ n → get_array b n (xs ++ rest) ≡ ok (xs, rest)
  unfolding get_array
  get_array-append zero [] rest h = refl
  get_array-append zero (x ∷ xs) rest h = absurd (omega arith)
  get_array-append (suc n) [] rest h = absurd (omega arith)
  get_array-append (suc n) (x ∷ xs) rest h =
      rw (get_u8-cons b lawful x (xs ++ rest), get_array)
        (rw (get_array-append n xs rest (omega arith), get_array))

  get_array-all : (n : ℕ) (xs : List ℕ) → length xs ≡ n → get_array b n xs ≡ ok (xs, [])
  get_array-all n xs h =
      subst (λ l. get_array b n l ≡ ok (xs, [])) (append-nil xs) (get_array-append n xs [] h)

  decode_arp-arp_bytes : (p : ArpPacket) → IsSized p → decode_arp b (arp_bytes p) ≡ ok (some p)
  unfolding decode_arp
  decode_arp-arp_bytes p sized =
      let shw = p.sender_hw_address in
      let spr = p.sender_proto_address in
      let thw = p.target_hw_address in
      let tpr = p.target_proto_address in
      simp
        (
          get_u16-cons b lawful,
          get_u8-cons b lawful,
          get_array-append 6 shw (spr ++ (thw ++ tpr)) sized.sender_hw,
          get_array-append 4 spr (thw ++ tpr) sized.sender_proto,
          get_array-append 6 thw tpr sized.target_hw,
          get_array-all 4 tpr sized.target_proto,
        )
        (ground (
          arith,
          length-append shw (spr ++ (thw ++ tpr)),
          length-append spr (thw ++ tpr),
          length-append thw tpr,
        ))

  -- What follows the Ethernet header in the bytes of a frame, on a host of either byte order,
  -- decodes to the ARP packet that the frame was built from, if its fields and the MAC addresses
  -- have the sizes of their types.
  pub decode_arp-payload :
      (big_endian : Bool) (eth : EthernetFrame) (p : ArpPacket)
      → length eth.dst_mac ≡ 6
      → length eth.src_mac ≡ 6
      → IsSized p
      → decode_arp b (drop 14 (frame_bytes big_endian (new_frame big_endian eth p))) ≡ ok (some p)
  decode_arp-payload big_endian eth p dst src sized = rw (frame_bytes-new_frame big_endian eth p) (
      rw (drop-append 14 (ethernet_bytes eth) (arp_bytes p) (length-ethernet_bytes eth dst src))
        (decode_arp-arp_bytes p sized))
