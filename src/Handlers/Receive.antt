-- ===== src/Handlers/Receive.antt =====
-- `process_vrrp_packet` and the two entry points (src/pkt/handlers.rs), on the bytes received.
use failover.Base.{ℕ, ◌≡◌, ◌≢◌, refl, ◌⊎◌, inl, inr, List, [], ◌∷◌, All, Bool-cases}
use failover.Error.{Result, ok, err, panic, PacketError}
use failover.Net.{IpAddr, Ipv4Packet}
use failover.Crates.Buffer.{Buffer, IsBuffer}
use failover.Crates.Checksum.{Checksum}
use failover.Crates.Ipnet.{Ipnet}
use failover.Packet.{VrrpPacket, vrrp_v6_mcast_addr}
use failover.Packet.Decode.{decode}
use failover.Packet.Accept.{decode-ne-panic}
use failover.Router.{VirtualRouter, Effect, log_drop, Env}
use failover.Observer.{Outcome, Mutex}
use failover.Observer.Laws.{SameConfig}
use failover.Handlers.{
  unchanged, on_decoded, process_decoded, process_vrrp_packet, handle_incoming_vrrp_v4_pkt,
  handle_incoming_vrrp_v6_pkt, is_local,
}
use failover.Handlers.Reaction.{IsAcceptable, IsLog}
use failover.Handlers.Transition.{
  process_decoded-checked, process_decoded-ne-panic, process_decoded-SameConfig,
}

module _ (b : Buffer) (c : Checksum) (lawful : IsBuffer b) (n : Ipnet) (env : Env) where
  -- What holds of a router left alone, of one with a report, and of one that has processed the
  -- packet that the bytes decode to, holds after any bytes.
  pub process_vrrp_packet_cases {ℓ} :
      (P : Outcome → Type ℓ) (payload : List ℕ) (src dst : IpAddr) (ttl : ℕ) (m : Mutex)
      → ((effects : List Effect) → All IsLog effects → P (unchanged m.router effects))
      → ((pkt : VrrpPacket)
          → decode b c payload src dst ≡ ok pkt
          → P (process_decoded n env ttl pkt m.router))
      → P (process_vrrp_packet b c n env payload src dst ttl m)
  unfolding process_vrrp_packet
  process_vrrp_packet_cases P payload src dst ttl m alone processed = elim (Bool-cases m.poisoned) [
    | inl bad ↦ rw bad (alone [] tt)
    | inr usable ↦ rw usable (go (decode b c payload src dst) refl)
  ]
    where
      go :
          (r : Result PacketError VrrpPacket)
          → decode b c payload src dst ≡ r
          → P (on_decoded n env ttl r m.router)
      go (ok pkt) read = processed pkt read
      go (err e) read = alone (log_drop e ∷ []) (tt, tt)
      go panic read = absurd (decode-ne-panic b c lawful payload src dst read)

  pub process_vrrp_packet-SameConfig :
      (payload : List ℕ) (src dst : IpAddr) (ttl : ℕ) (m : Mutex)
      → SameConfig m.router (process_vrrp_packet b c n env payload src dst ttl m).router
  process_vrrp_packet-SameConfig payload src dst ttl m =
      process_vrrp_packet_cases (λ o. SameConfig m.router o.router) payload src dst ttl m
        (λ effects logs. refl) (λ pkt read. process_decoded-SameConfig n env ttl pkt m.router)

  -- The same for the two entry points, which first drop what this host sent itself.
  pub vrrp_v4_cases {ℓ} :
      (P : Outcome → Type ℓ) (p : Ipv4Packet) (m : Mutex)
      → ((effects : List Effect) → All IsLog effects → P (unchanged m.router effects))
      → ((pkt : VrrpPacket)
          → decode b c p.payload (IpAddr.v4 p.source) (IpAddr.v4 p.destination) ≡ ok pkt
          → P (process_decoded n env p.ttl pkt m.router))
      → P (handle_incoming_vrrp_v4_pkt b c n env p m)
  unfolding handle_incoming_vrrp_v4_pkt
  vrrp_v4_cases P p m alone processed = elim (Bool-cases (is_local env (IpAddr.v4 p.source))) [
    | inl ours ↦ rw ours (alone [] tt)
    | inr theirs ↦ rw theirs (
        process_vrrp_packet_cases P p.payload (IpAddr.v4 p.source) (IpAddr.v4 p.destination) p.ttl m
          alone processed)
  ]

  pub vrrp_v6_cases {ℓ} :
      (P : Outcome → Type ℓ) (payload : List ℕ) (src : ℕ) (m : Mutex)
      → ((effects : List Effect) → All IsLog effects → P (unchanged m.router effects))
      → ((pkt : VrrpPacket)
          → decode b c payload (IpAddr.v6 src) (IpAddr.v6 vrrp_v6_mcast_addr) ≡ ok pkt
          → P (process_decoded n env 255 pkt m.router))
      → P (handle_incoming_vrrp_v6_pkt b c n env payload src m)
  unfolding handle_incoming_vrrp_v6_pkt
  vrrp_v6_cases P payload src m alone processed = elim (Bool-cases (is_local env (IpAddr.v6 src))) [
    | inl ours ↦ rw ours (alone [] tt)
    | inr theirs ↦ rw theirs (
        process_vrrp_packet_cases P payload (IpAddr.v6 src) (IpAddr.v6 vrrp_v6_mcast_addr) 255 m
          alone processed)
  ]

  -- The bytes decode to an acceptable packet.
  abbrev pub Carries : List ℕ → IpAddr → IpAddr → ℕ → VirtualRouter → Type 0
  Carries payload src dst ttl vr =
      (pkt : VrrpPacket) × (decode b c payload src dst ≡ ok pkt) × IsAcceptable ttl pkt vr

  -- Only bytes that decode to an acceptable packet change the router or ask for anything: after
  -- all others the router is as it was, the effects are reports of dropped packets at most, and
  -- the result is a success; and no bytes at all make the handler panic.
  pub process_vrrp_packet-checked :
      (payload : List ℕ) (src dst : IpAddr) (ttl : ℕ) (m : Mutex)
      → let o = process_vrrp_packet b c n env payload src dst ttl m in
        (Carries payload src dst ttl m.router
          ⊎ ((o.router ≡ m.router) × All IsLog o.effects × (o.result ≡ ok tt)))
        × (o.result ≢ panic)
  process_vrrp_packet-checked payload src dst ttl m =
      process_vrrp_packet_cases
        (λ o.
          (Carries payload src dst ttl m.router
            ⊎ ((o.router ≡ m.router) × All IsLog o.effects × (o.result ≡ ok tt)))
          × (o.result ≢ panic))
        payload src dst ttl m (λ effects logs. (inr (refl, logs, refl), λ e. cc))
        (λ pkt read. (processed pkt read, process_decoded-ne-panic n env ttl pkt m.router))
    where
      processed :
          (pkt : VrrpPacket)
          → decode b c payload src dst ≡ ok pkt
          → Carries payload src dst ttl m.router
            ⊎ (((process_decoded n env ttl pkt m.router).router ≡ m.router)
                × All IsLog (process_decoded n env ttl pkt m.router).effects
                × ((process_decoded n env ttl pkt m.router).result ≡ ok tt))
      processed pkt read = elim (process_decoded-checked n env ttl pkt m.router) [
        | inl good ↦ inl (pkt, read, good)
        | inr same ↦ inr same
      ]
