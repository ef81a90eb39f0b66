-- ===== src/Handlers/Neighbors/Idle.antt =====
-- The handlers of ARP and NDP packets (src/pkt/handlers.rs) and what they change.
use failover.Base.{ℕ, ◌≡◌, refl, List, [], ◌∷◌, Option, none, some, arith, All, if_cases, str_eq}
use failover.Error.{Result, ok, err, panic, NetworkError}
use failover.Net.{IpNet4, octets4, EthernetPacket, NetworkInterface}
use failover.Crates.Buffer.{Buffer}
use failover.StateMachine.{State, init, backup, master}
use failover.Arp.{ArpPacket, decode_arp}
use failover.Router.{VirtualRouter, Effect, Env}
use failover.Observer.{Outcome, Mutex, get_interface}
use failover.Observer.Ownership.{IsQuiet}
use failover.Handlers.Neighbors.{
  handle_incoming_arp_pkt, arp_replies, arp_in_state, arp_with_mac, arp_decoded, arp_on_interface,
  handle_incoming_ndp_pkt,
}

-- The router is left alone, and so are the addresses.
abbrev pub IsIdle : VirtualRouter → Outcome → Type 0
IsIdle vr o = (o.router ≡ vr) × All IsQuiet o.effects

arp_replies-IsQuiet :
    (nets : List IpNet4) (p : ArpPacket) (reply : Effect)
    → IsQuiet reply
    → All IsQuiet (arp_replies nets p reply)
unfolding arp_replies
arp_replies-IsQuiet [] p reply q = tt
arp_replies-IsQuiet (net ∷ nets) p reply q =
    let rest = arp_replies-IsQuiet nets p reply q in
    if_cases (All IsQuiet) (str_eq (octets4 net.addr) p.target_proto_address)
      {x = reply ∷ arp_replies nets p reply} (q, rest) rest

module _ (env : Env) (eth : EthernetPacket) (i : NetworkInterface) (vr : VirtualRouter) where
  arp_in_state-IsIdle :
      (mac : List ℕ) (p : ArpPacket) (s : State) → IsIdle vr (arp_in_state env eth i mac p s vr)
  unfolding arp_in_state
  arp_in_state-IsIdle mac p init = (refl, tt)
  arp_in_state-IsIdle mac p backup = ground arith
  arp_in_state-IsIdle mac p master =
      let silent : IsIdle vr (record { router = vr; effects = []; result = ok tt }) = (refl, tt) in
      if_cases (IsIdle vr) _ silent (refl, arp_replies-IsQuiet vr.ipv4_addresses p _ tt)

  arp_with_mac-IsIdle :
      (mac : Option (List ℕ)) (p : ArpPacket) → IsIdle vr (arp_with_mac env eth i mac p vr)
  unfolding arp_with_mac
  arp_with_mac-IsIdle none p = (refl, tt)
  arp_with_mac-IsIdle (some mac) p = arp_in_state-IsIdle mac p vr.fsm.state

  arp_decoded-IsIdle :
      (r : Result NetworkError (Option ArpPacket)) → IsIdle vr (arp_decoded env eth i r vr)
  unfolding arp_decoded
  arp_decoded-IsIdle (ok none) = (refl, tt)
  arp_decoded-IsIdle (ok (some p)) = arp_with_mac-IsIdle i.mac p
  arp_decoded-IsIdle (err e) = (refl, tt)
  arp_decoded-IsIdle panic = (refl, tt)

pub handle_incoming_arp_pkt-IsIdle :
    (b : Buffer) (env : Env) (eth : EthernetPacket) (m : Mutex)
    → IsIdle m.router (handle_incoming_arp_pkt b env eth m)
unfolding handle_incoming_arp_pkt arp_on_interface
handle_incoming_arp_pkt-IsIdle b env eth m =
    if_cases (IsIdle m.router) m.poisoned (refl, tt)
      (on_interface (get_interface env.interfaces m.router.mac_vlan_interface_v4))
  where
    on_interface :
        (r : Result NetworkError NetworkInterface)
        → IsIdle m.router (arp_on_interface b env eth r m.router)
    on_interface (ok i) = arp_decoded-IsIdle env eth i m.router (decode_arp b eth.payload)
    on_interface (err e) = (refl, tt)
    on_interface panic = (refl, tt)

pub handle_incoming_ndp_pkt-IsIdle :
    (env : Env) (payload : List ℕ) (src : ℕ) (m : Mutex)
    → IsIdle m.router (handle_incoming_ndp_pkt env payload src m)
unfolding handle_incoming_ndp_pkt
handle_incoming_ndp_pkt-IsIdle env payload src m = ground arith
