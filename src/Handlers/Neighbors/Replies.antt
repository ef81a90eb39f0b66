-- ===== src/Handlers/Neighbors/Replies.antt =====
-- Who answers ARP and NDP requests, and with what (src/pkt/handlers.rs).
use failover.Base.{
  ℕ, ◌≡◌, refl, ◌⊎◌, inl, inr, Bool, true, false, List, [], ◌∷◌, ◌++◌, Option, none, some, str_eq,
  arith, any, Bool-cases,
}
use failover.Error.{Result, ok, err, panic, NetworkError}
use failover.Net.{NetworkInterface, EthernetPacket, octets4, IpNet4}
use failover.Crates.Buffer.{Buffer}
use failover.StateMachine.{master}
use failover.Arp.{ArpPacket, ArpFrame, decode_arp, frame_bytes}
use failover.Router.{Env, Effect, send_arp}
use failover.Observer.{Outcome, Mutex, get_interface}
use failover.Handlers.Neighbors.{
  handle_incoming_arp_pkt, arp_reply, arp_replies, arp_decoded, arp_with_mac, arp_on_interface,
}

-- One of the router's IPv4 addresses has these octets.
abbrev pub owns_v4 : List IpNet4 → List ℕ → Bool
owns_v4 nets octets = any (λ net. str_eq (octets4 net.addr) octets) nets

-- An ARP reply from `mac` to `source`, byte by byte (RFC 826): Ethernet and IPv4, with six and four
-- bytes for an address, operation 2, the sender's pair of addresses and the target's.
abbrev pub reply_bytes : (source mac : List ℕ) → (request : ArpPacket) → List ℕ
reply_bytes source mac request =
    source
    ++ mac
    ++ (8 ∷ 6 ∷ [])
    ++ (0 ∷ 1 ∷ [])
    ++ (8 ∷ 0 ∷ [])
    ++ 6
      ∷ 4
      ∷ (0 ∷ 2 ∷ []
          ++ mac
          ++ request.target_proto_address
          ++ request.sender_hw_address
          ++ request.sender_proto_address)

arp_replies_none :
    (nets : List IpNet4) (p : ArpPacket) (reply : Effect)
    → (arp_replies nets p reply ≡ []) ⊎ (owns_v4 nets p.target_proto_address ≡ true)
unfolding arp_replies
arp_replies_none [] p reply = inl refl
arp_replies_none (net ∷ nets) p reply = ground (arith, arp_replies_none nets p reply)

arp_replies_some :
    (nets : List IpNet4) (p : ArpPacket) (reply : Effect)
    → owns_v4 nets p.target_proto_address ≡ true
    → (rest : List Effect) × (arp_replies nets p reply ≡ reply ∷ rest)
unfolding arp_replies
arp_replies_some [] p reply h = cc
arp_replies_some (net ∷ nets) p reply h =
    elim (Bool-cases (str_eq (octets4 net.addr) p.target_proto_address)) [
      | inl hit ↦ (arp_replies nets p reply, rw hit)
      | inr miss ↦
          let found = arp_replies_some nets p reply (ground arith) in (found.0, rw miss found.1)
    ]

module _ (b : Buffer) (env : Env) (eth : EthernetPacket) (m : Mutex) where
  abbrev arp_outcome : Outcome
  arp_outcome = handle_incoming_arp_pkt b env eth m

  -- An ARP frame never changes the router, and it is answered only by a MASTER, and only if it is
  -- a request for one of the router's IPv4 addresses.
  pub arp_answered_by_master :
      (arp_outcome.router ≡ m.router)
      × ((arp_outcome.effects ≡ [])
          ⊎ ((m.router.fsm.state ≡ master)
              × (p : ArpPacket) × (decode_arp b eth.payload ≡ ok (some p))
              × (p.operation ≡ 1)
              × (owns_v4 m.router.ipv4_addresses p.target_proto_address ≡ true)))
  unfolding handle_incoming_arp_pkt
  arp_answered_by_master = elim (Bool-cases m.poisoned) [
    | inl bad ↦ rw bad (refl, inl refl)
    | inr usable ↦ rw usable (found (get_interface env.interfaces m.router.mac_vlan_interface_v4))
  ]
    where
      Answered : Outcome → Type 0
      Answered o =
          (o.router ≡ m.router)
          × ((o.effects ≡ [])
              ⊎ ((m.router.fsm.state ≡ master)
                  × (p : ArpPacket) × (decode_arp b eth.payload ≡ ok (some p))
                  × (p.operation ≡ 1)
                  × (owns_v4 m.router.ipv4_addresses p.target_proto_address ≡ true)))

      with_mac :
          (i : NetworkInterface) (p : ArpPacket)
          → decode_arp b eth.payload ≡ ok (some p)
          → (mac : Option (List ℕ)) → Answered (arp_with_mac env eth i mac p m.router)
      with_mac i p e none = (refl, inl refl)
      with_mac i p e (some mac) =
          let o = arp_with_mac env eth i (some mac) p m.router in
          let reply = send_arp i.name (arp_reply env.big_endian eth.source mac p) in
          let answered : (o.router ≡ m.router)
              × ((o.effects ≡ [])
                  ⊎ ((m.router.fsm.state ≡ master)
                      × (p.operation ≡ 1)
                      × (owns_v4 m.router.ipv4_addresses p.target_proto_address ≡ true))) =
            ground (arith, arp_replies_none m.router.ipv4_addresses p reply) in
          (
            answered.0,
            elim answered.1 [ inl quiet ↦ inl quiet | inr (s, op, own) ↦ inr (s, p, e, op, own) ],
          )

      decoded :
          (i : NetworkInterface) (r : Result NetworkError (Option ArpPacket))
          → decode_arp b eth.payload ≡ r
          → Answered (arp_decoded env eth i r m.router)
      decoded i (ok none) e = (refl, inl refl)
      decoded i (ok (some p)) e = with_mac i p e i.mac
      decoded i (err x) e = (refl, inl refl)
      decoded i panic e = (refl, inl refl)

      found :
          (r : Result NetworkError NetworkInterface)
          → Answered (arp_on_interface b env eth r m.router)
      found (ok i) = decoded i (decode_arp b eth.payload) refl
      found (err x) = (refl, inl refl)
      found panic = (refl, inl refl)

  -- A MASTER with a lock that is not poisoned and an interface that is there and has a MAC
  -- address answers a request from another MAC address for one of its IPv4 addresses: first of
  -- all with a frame on that interface which, on a host of either byte order, goes on the wire
  -- from the interface's MAC address to the source of the request as an ARP reply that gives the
  -- interface's MAC address for the address that was asked for, to the one who asked.
  pub arp_master_answers :
      (i : NetworkInterface) (mac : List ℕ) (p : ArpPacket)
      → m.poisoned ≡ false
      → m.router.fsm.state ≡ master
      → get_interface env.interfaces m.router.mac_vlan_interface_v4 ≡ ok i
      → i.mac ≡ some mac
      → decode_arp b eth.payload ≡ ok (some p)
      → p.operation ≡ 1
      → str_eq p.sender_hw_address mac ≡ false
      → owns_v4 m.router.ipv4_addresses p.target_proto_address ≡ true
      → (frame : ArpFrame) × (rest : List Effect) × (arp_outcome.effects
          ≡ send_arp i.name frame ∷ rest)
        × (frame_bytes env.big_endian frame ≡ reply_bytes eth.source mac p)
  unfolding handle_incoming_arp_pkt arp_reply frame_bytes
  arp_master_answers i mac p usable state found has read request other owned =
      let frame = arp_reply env.big_endian eth.source mac p in
      let (rest, replies) =
        arp_replies_some m.router.ipv4_addresses p (send_arp i.name frame) owned in
      (
        frame,
        rest,
        ground (arith, replies),
        elim (Bool-cases env.big_endian) [ inl big ↦ rw big refl | inr little ↦ rw little refl ],
      )
