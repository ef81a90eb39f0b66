-- ===== src/Handlers.antt =====
-- The handlers of VRRP packets (src/pkt/handlers.rs). Those of ARP and NDP packets are in children.
pub mod Neighbors
pub mod Reaction
pub mod Transition
pub mod Protocol
pub mod Ownership
pub mod Families
pub mod Leaks
pub mod Unordered
pub mod Receive
pub mod Wired
pub mod Wired6
pub mod Election
pub mod Latest
pub mod Segment
pub mod Asked
use failover.Base.{
  ℕ, ◌+◌, ◌*◌, ◌/◌, ◌==◌, Bool, true, false, not, ◌&&◌, ◌||◌, List, [], ◌∷◌, ◌++◌, map, Option,
  none, some, Str, if◌then◌else◌, ltb, leb, length, all, any, as_u8,
}
use failover.Error.{
  Result, ok, err, panic, PacketError, NetworkError, bad_ttl, vrid_mismatch,
  advert_interval_mismatch, ip_count_mismatch, ip_list_mismatch,
}
use failover.Version
use failover.Version.{VrrpAddresses, add, delete}
use failover.Net.{IpAddr, NetworkInterface, Ipv4Packet}
use failover.Crates.Buffer.{Buffer}
use failover.Crates.Checksum.{Checksum}
use failover.Crates.Ipnet.{Ipnet}
use failover.Float.{as_f32}
use failover.StateMachine.{
  State, init, backup, master, Event, VirtualRouterMachine, set_advert_timer, set_master_down_timer,
}
use failover.Packet.{VrrpPacket, vrrp_v6_mcast_addr}
use failover.Packet.Decode.{decode}
use failover.Router.{
  VirtualRouter, Effect, address_action, log_drop, Env, str_ipv4_addresses, str_ipv6_addresses,
  ipv4_addrs, ipv6_addrs, send_advertisement,
}
use failover.Observer.{Outcome, Mutex, notify_mut}

-- `return Ok(())`, the router as it was.
abbrev pub unchanged : VirtualRouter → List Effect → Outcome
unchanged vr effects = record { router = vr; effects = effects; result = ok tt }

abbrev pub contains : List ℕ → ℕ → Bool
contains addrs a = any (λ x. x == a) addrs

-- `count_check`, `addr_check` and `expected_count`, for the packet's family.
pub count_check : VirtualRouter → VrrpAddresses → Bool
count_check vr (VrrpAddresses.v4 addrs) = length addrs == length vr.ipv4_addresses
count_check vr (VrrpAddresses.v6 addrs) = length addrs == length vr.ipv6_addresses

pub addr_check : VirtualRouter → VrrpAddresses → Bool
addr_check vr (VrrpAddresses.v4 addrs) = all (contains (ipv4_addrs vr)) addrs
addr_check vr (VrrpAddresses.v6 addrs) = all (contains (ipv6_addrs vr)) addrs

expected_count : VirtualRouter → VrrpAddresses → ℕ
expected_count vr (VrrpAddresses.v4 addrs) = as_u8 (length vr.ipv4_addresses)
expected_count vr (VrrpAddresses.v6 addrs) = as_u8 (length vr.ipv6_addresses)

-- The interface and the printed addresses of the packet's family.
v6_side : Option Str → List Str → Option (Str × List Str)
v6_side none addresses = none
v6_side (some iface) addresses = some (iface, addresses)

unfoldable pub family_side : Ipnet → VirtualRouter → VrrpAddresses → Option (Str × List Str)
unfolding v6_side
family_side n vr (VrrpAddresses.v4 addrs) = some (vr.mac_vlan_interface_v4, str_ipv4_addresses n vr)
family_side n vr (VrrpAddresses.v6 addrs) =
    v6_side vr.mac_vlan_interface_v6 (str_ipv6_addresses n vr)

-- The end of the handler, after the checks: `match vrouter.fsm.state`.
in_backup : Env → VrrpPacket → Str × List Str → List Effect → VirtualRouter → Outcome
unfolding set_advert_timer set_master_down_timer
in_backup env pkt side logged vr =
    if pkt.priority == 0
    then record {
      router = record vr { fsm = set_master_down_timer env.now vr.skew_time vr.fsm };
      effects = logged;
      result = ok tt;
    }
    else if not vr.preempt_mode || leb vr.priority pkt.priority
    then record {
      router = record vr { fsm = set_master_down_timer env.now vr.master_down_interval vr.fsm };
      effects = logged;
      result = ok tt;
    }
    else if ltb pkt.priority vr.priority
    then record {
      router = record vr {
        fsm =
            set_advert_timer env.now (as_f32 vr.advert_interval) (record vr.fsm { state = master });
      };
      effects = logged ++ address_action add side.1 side.0 ∷ [];
      result = ok tt;
    }
    else unchanged vr logged

-- What went before, and then `EventObserver::notify_mut(vrouter, Event::Null)?`.
then_notify : Ipnet → Env → List Effect → VirtualRouter → Outcome
unfolding notify_mut
then_notify n env effects vr =
    let o = notify_mut n env Event.null vr in
    record { router = o.router; effects = effects ++ o.effects; result = o.result }

to_backup : Env → VirtualRouterMachine → VirtualRouter → VirtualRouter
unfolding set_master_down_timer
to_backup env fsm vr = record vr {
  fsm = record (set_master_down_timer env.now vr.master_down_interval fsm) { state = backup };
}

in_master : Ipnet → Env → VrrpPacket → Str × List Str → List Effect → VirtualRouter → Outcome
unfolding set_advert_timer to_backup then_notify
in_master n env pkt side logged vr =
    if pkt.priority == 0
    then record {
      router = record vr { fsm = set_advert_timer env.now (as_f32 vr.advert_interval) vr.fsm };
      effects = logged ++ send_advertisement vr;
      result = ok tt;
    }
    else if ltb vr.priority pkt.priority
    then then_notify n env (logged ++ address_action delete side.1 side.0 ∷ [])
        (to_backup env vr.fsm vr)
    else if pkt.priority == vr.priority
    then then_notify n env (logged ++ address_action delete side.1 side.0 ∷ [])
        (to_backup env (record vr.fsm { event = Event.null }) vr)
    else unchanged vr logged

in_state : State → Ipnet → Env → VrrpPacket → Str × List Str → List Effect → VirtualRouter → Outcome
unfolding in_backup in_master
in_state backup n env pkt side logged vr = in_backup env pkt side logged vr
in_state master n env pkt side logged vr = in_master n env pkt side logged vr
in_state init n env pkt side logged vr = unchanged vr logged

pub on_side :
    Ipnet → Env → VrrpPacket → Option (Str × List Str) → List Effect → VirtualRouter → Outcome
unfolding in_state
on_side n env pkt none logged vr = unchanged vr logged
on_side n env pkt (some side) logged vr = in_state vr.fsm.state n env pkt side logged vr

-- The checks of a decoded packet (RFC 3768 section 7.1), and what follows them.
unfoldable pub process_decoded : Ipnet → Env → ℕ → VrrpPacket → VirtualRouter → Outcome
unfolding on_side count_check addr_check expected_count family_side Version.len
process_decoded n env ttl pkt vr =
    let expected_adver_int_cs = vr.advert_interval * 100 in
    let received = as_u8 (pkt.adver_int_cs / 100) in
    let counted = count_check vr pkt.addresses in
    let count_mismatch =
      log_drop
        (ip_count_mismatch (expected_count vr pkt.addresses) (as_u8 (Version.len pkt.addresses))) in
    let logged : List Effect = if counted then [] else count_mismatch ∷ [] in
    let is_owner = pkt.priority == 255 in
    if not (ttl == 255)
    then unchanged vr (log_drop (bad_ttl ttl) ∷ [])
    else if not (pkt.vrid == vr.vrid)
    then unchanged vr (log_drop (vrid_mismatch vr.vrid pkt.vrid) ∷ [])
    else if not (pkt.adver_int_cs == expected_adver_int_cs)
    then unchanged vr (log_drop (advert_interval_mismatch vr.advert_interval received) ∷ [])
    else if not counted && not is_owner
    then unchanged vr logged
    else if not (addr_check vr pkt.addresses) && not is_owner
    then unchanged vr (logged ++ log_drop ip_list_mismatch ∷ [])
    else on_side n env pkt (family_side n vr pkt.addresses) logged vr

on_decoded : Ipnet → Env → ℕ → Result PacketError VrrpPacket → VirtualRouter → Outcome
on_decoded n env ttl (ok pkt) vr = process_decoded n env ttl pkt vr
on_decoded n env ttl (err e) vr = unchanged vr (log_drop e ∷ [])
on_decoded n env ttl panic vr = record { router = vr; effects = []; result = panic }

abbrev pub ip_eq : IpAddr → IpAddr → Bool
ip_eq (IpAddr.v4 x) (IpAddr.v4 y) = x == y
ip_eq (IpAddr.v4 x) (IpAddr.v6 y) = false
ip_eq (IpAddr.v6 x) (IpAddr.v4 y) = false
ip_eq (IpAddr.v6 x) (IpAddr.v6 y) = x == y

-- Whether an address is one of this host's.
abbrev pub is_local : Env → IpAddr → Bool
is_local env addr = any (λ i. any (λ ip. ip_eq ip addr) i.ips) env.interfaces_on_arrival

module _ (b : Buffer) (c : Checksum) (n : Ipnet) where
  -- `process_vrrp_packet`; a poisoned lock is only reported.
  unfoldable pub process_vrrp_packet : Env → List ℕ → IpAddr → IpAddr → ℕ → Mutex → Outcome
  unfolding on_decoded
  process_vrrp_packet env payload src_ip dst_ip ttl m =
      if m.poisoned
      then unchanged m.router []
      else on_decoded n env ttl (decode b c payload src_ip dst_ip) m.router

  unfoldable pub handle_incoming_vrrp_v4_pkt : Env → Ipv4Packet → Mutex → Outcome
  unfolding process_vrrp_packet
  handle_incoming_vrrp_v4_pkt env ip_packet m =
      if is_local env (IpAddr.v4 ip_packet.source)
      then unchanged m.router []
      else process_vrrp_packet env ip_packet.payload (IpAddr.v4 ip_packet.source)
          (IpAddr.v4 ip_packet.destination) ip_packet.ttl m

  unfoldable pub handle_incoming_vrrp_v6_pkt : Env → List ℕ → ℕ → Mutex → Outcome
  unfolding process_vrrp_packet
  handle_incoming_vrrp_v6_pkt env payload src_ip m =
      if is_local env (IpAddr.v6 src_ip)
      then unchanged m.router []
      else process_vrrp_packet env payload (IpAddr.v6 src_ip) (IpAddr.v6 vrrp_v6_mcast_addr) 255 m
