-- ===== src/Scenarios/Routers.antt =====
-- The routers at concrete inputs (src/router.rs, src/observer.rs, src/pkt/handlers.rs).
use failover.Base.{
  ℕ, ◌+◌, ◌^◌, ◌<◌, ◌≡◌, ◌≢◌, ◌⊎◌, inr, refl, true, false, List, [], ◌∷◌, ◌++◌, none, some, Str,
  arith, All,
}
use failover.Error.{ok, panic}
use failover.Version.{v2, v3, VrrpAddresses}
use failover.Net.{IpAddr, NetworkInterface}
use failover.StateMachine.{
  State, init, backup, master, Event, shutdown, VirtualRouterMachine, TimerType, adver,
}
use failover.Packet.{VrrpPacket}
use failover.Router.{VirtualRouter, VirtualRouterParams, new, Env, advert}
use failover.Router.Timing.{new-intervals}
use failover.Observer.{Outcome, Mutex, get_interface, notify_mut}
use failover.Observer.Shutdown.{Finds}
use failover.Observer.Ownership.{assigned}
use failover.Handlers.{process_decoded, process_vrrp_packet}
use failover.Handlers.Reaction.{IsAcceptable, IsLog}
use failover.Handlers.Leaks.{stepped_down_leaks}
use failover.Handlers.Receive.{Carries, process_vrrp_packet-checked}
use failover.Handlers.Wired.{IsConfigured, ArePeers}
use failover.Scenarios.Crates.{bytes_buffer, bytes_buffer-IsBuffer, rfc1071, numbers}

-- 192.168.100.100
abbrev pub virtual_ip : ℕ
virtual_ip = 3232261220

abbrev pub v2_params : VirtualRouterParams
v2_params = record {
  name = 86 ∷ [];
  vrid = 51;
  version = v2;
  ipv4_addresses = record { addr = virtual_ip; prefix_len = 24 } ∷ [];
  ipv6_addresses = [];
  priority = 101;
  advert_interval = 1;
  preempt_mode = true;
  network_interface = 101 ∷ [];
}

-- The interface that the router listens on, and its MAC address.
abbrev pub vlan : Str
vlan = 118 ∷ []

abbrev pub vlan_mac : List ℕ
vlan_mac = 0 ∷ 0 ∷ 94 ∷ 0 ∷ 1 ∷ 51 ∷ []

abbrev pub vlan_interface : NetworkInterface
vlan_interface = record { name = vlan; mac = some vlan_mac; ips = [] }

abbrev pub machine : State → TimerType → VirtualRouterMachine
machine state t_type = record {
  timer = record { t_type = t_type; remaining_time = 0; waiting_for = some 10 };
  state = state;
  event = Event.null;
}

-- A router of version 2 as its tasks have it.
abbrev pub router : ℕ → VirtualRouterMachine → VirtualRouter
router priority fsm = record {
  name = 86 ∷ [];
  vrid = 51;
  version = v2;
  ipv4_addresses = record { addr = virtual_ip; prefix_len = 24 } ∷ [];
  ipv6_addresses = [];
  priority = priority;
  skew_time = 155;
  advert_interval = 1;
  master_down_interval = 923;
  preempt_mode = true;
  network_interface = 101 ∷ [];
  mac_vlan_interface_v4 = vlan;
  mac_vlan_interface_v6 = none;
  primary_ip = 3232261121;
  primary_ip_v6 = none;
  fsm = fsm;
}

abbrev pub the_backup : VirtualRouter
the_backup = router 101 (machine backup TimerType.master_down)

abbrev pub the_master : VirtualRouter
the_master = router 101 (machine master adver)

abbrev pub env : Env
env = record {
  interfaces_on_arrival = [];
  interfaces = vlan_interface ∷ [];
  interfaces_later = vlan_interface ∷ [];
  now = 20;
  big_endian = false;
}

abbrev pub held_by : VirtualRouter → Mutex
held_by vr = record { poisoned = false; router = vr }

new-intervals_example :
    ((new v2_params).skew_time ≡ 155)
    × ((new v2_params).master_down_interval ≡ 923)
    × ((new v2_params).master_down_interval < 2 ^ 24)
new-intervals_example = new-intervals v2_params (omega arith)

abbrev printed : Str
printed = virtual_ip ∷ 24 ∷ []

-- An advertisement of a peer with another priority.
abbrev heard : ℕ → VrrpPacket
heard priority = record (advert the_backup (VrrpAddresses.v4 (virtual_ip ∷ []))) {
  priority = priority;
}

heard-IsAcceptable :
    (vr : VirtualRouter)
    → vr.vrid ≡ 51
    → vr.advert_interval ≡ 1
    → vr.ipv4_addresses ≡ the_backup.ipv4_addresses
    → IsAcceptable 255 (heard 200) vr
heard-IsAcceptable vr e f g = record {
  hop = refl;
  same_vrid = ground (arith, e);
  same_interval = ground (arith, f);
  addressed = inr (ground (arith, g));
  sided = tt;
}

-- A MASTER of version 3 with an IPv6 side, which an IPv4 packet makes step down.
abbrev dual_master : VirtualRouter
dual_master = record the_master {
  version = v3;
  ipv6_addresses = record { addr = 2 ^ 125 + 1; prefix_len = 64 } ∷ [];
  mac_vlan_interface_v6 = some (119 ∷ []);
}

abbrev printed6 : Str
printed6 = (2 ^ 125 + 1) ∷ 64 ∷ []

abbrev stepped_down : Outcome
stepped_down = process_decoded numbers env 255 (heard 200) dual_master

abbrev stopped : Outcome
stopped = notify_mut numbers env shutdown stepped_down.router

vlan-found : Finds vlan env
unfolding get_interface
vlan-found = (vlan_interface, ground arith)

stepped_down_leaks_example :
    (stepped_down.router.fsm.state ≡ backup)
    × (stopped.router.fsm.state ≡ init)
    × (assigned (119 ∷ []) printed6 true (stepped_down.effects ++ stopped.effects) ≡ true)
stepped_down_leaks_example =
    stepped_down_leaks numbers env env (heard 200) dual_master (119 ∷ []) printed6 (virtual_ip ∷ [])
      refl refl refl (heard-IsAcceptable dual_master refl refl refl) (λ e. omega (arith, e))
      (omega arith) vlan-found

process_vrrp_packet-checked_example :
    let o =
      process_vrrp_packet bytes_buffer rfc1071 numbers env
        (1 ∷ [])
        (IpAddr.v4 5)
        (IpAddr.v4 6)
        255
        (held_by the_master) in
    (Carries bytes_buffer rfc1071 bytes_buffer-IsBuffer numbers env
        (1 ∷ [])
        (IpAddr.v4 5)
        (IpAddr.v4 6)
        255
        the_master
      ⊎ ((o.router ≡ the_master) × All IsLog o.effects × (o.result ≡ ok tt)))
    × (o.result ≢ panic)
process_vrrp_packet-checked_example =
    process_vrrp_packet-checked bytes_buffer rfc1071 bytes_buffer-IsBuffer numbers env (1 ∷ [])
      (IpAddr.v4 5) (IpAddr.v4 6) 255 (held_by the_master)

abbrev pub the_sender : VirtualRouter
the_sender = router 200 (machine master adver)

pub the_sender-IsConfigured : IsConfigured the_sender
the_sender-IsConfigured = record {
  fits = record {
    vrid_fits = omega arith;
    priority_fits = omega arith;
    few = omega arith;
    addrs_fit = (omega arith, tt);
  };
  interval_fits = omega arith;
  interval_carried = λ e. omega arith;
}

pub the_sender-ArePeers : ArePeers the_sender the_master
the_sender-ArePeers = record { same_vrid = refl; same_interval = refl; same_addresses = refl }
