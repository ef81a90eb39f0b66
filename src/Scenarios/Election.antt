-- ===== src/Scenarios/Election.antt =====
-- The routers that hear each other, at concrete inputs (src/pkt/handlers.rs).
use failover.Base.{
  ℕ, ◌+◌, ◌*◌, ◌^◌, ◌<◌, ◌≡◌, inr, inl, refl, List, [], ◌∷◌, ◌++◌, some, arith, All,
}
use failover.Error.{ok}
use failover.Version.{v3, VrrpAddresses}
use failover.Net.{IpAddr}
use failover.StateMachine.{State, backup, master, TimerType, adver}
use failover.Packet.{VrrpPacket}
use failover.Router.{VirtualRouter, Effect, advert}
use failover.Handlers.{process_decoded, handle_incoming_vrrp_v6_pkt}
use failover.Handlers.Reaction.{IsAcceptable, IsLog, timer_at}
use failover.Handlers.Wired.{IsConfigured, ArePeers}
use failover.Handlers.Wired6.{
  IsConfigured6, ArePeers6, advert_bytes6, handle_incoming_vrrp_v6_pkt-advert,
}
use failover.Handlers.Election.{Hears, no_master}
use failover.Handlers.Asked.{asked, process_decoded-effects}
use failover.Scenarios.Crates.{
  bytes_buffer, bytes_buffer-IsBuffer, rfc1071, rfc1071-IsChecksum, numbers,
}
use failover.Scenarios.Routers.{virtual_ip, vlan, router, machine, env, held_by}

abbrev pub mastering : ℕ → VirtualRouter
mastering priority = router priority (machine master adver)

abbrev waiting : VirtualRouter
waiting = router 200 (machine backup TimerType.master_down)

mastering-IsConfigured : (priority : ℕ) → priority < 256 → IsConfigured (mastering priority)
mastering-IsConfigured priority small = record {
  fits = record {
    vrid_fits = omega arith;
    priority_fits = small;
    few = omega arith;
    addrs_fit = (omega arith, tt);
  };
  interval_fits = omega arith;
  interval_carried = λ e. omega arith;
}

pub high-IsConfigured : IsConfigured (mastering 200)
high-IsConfigured = mastering-IsConfigured 200 (omega arith)

pub low-IsConfigured : IsConfigured (mastering 101)
low-IsConfigured = mastering-IsConfigured 101 (omega arith)

pub between-IsConfigured : IsConfigured (mastering 150)
between-IsConfigured = mastering-IsConfigured 150 (omega arith)

high-low : ArePeers (mastering 200) (mastering 101)
high-low = record { same_vrid = refl; same_interval = refl; same_addresses = refl }

low-high : ArePeers (mastering 101) (mastering 200)
low-high = record { same_vrid = refl; same_interval = refl; same_addresses = refl }

same-same : ArePeers (mastering 200) (mastering 200)
same-same = record { same_vrid = refl; same_interval = refl; same_addresses = refl }

low-waiting : ArePeers (mastering 101) waiting
low-waiting = record { same_vrid = refl; same_interval = refl; same_addresses = refl }

abbrev pub somewhere : IpAddr
somewhere = IpAddr.v4 6

-- What a router of these tests hears.
abbrev HearsHere : VirtualRouter → VirtualRouter → State → Type 0
HearsHere =
    Hears bytes_buffer rfc1071 bytes_buffer-IsBuffer rfc1071-IsChecksum numbers env somewhere

no_master_example :
    HearsHere (mastering 200) (mastering 200) backup
    × HearsHere (mastering 200) (mastering 200) backup
no_master_example =
    no_master bytes_buffer rfc1071 bytes_buffer-IsBuffer rfc1071-IsChecksum numbers env somewhere
      (mastering 200) (mastering 200) high-IsConfigured high-IsConfigured same-same same-same refl
      refl (omega arith) refl

abbrev heard : VrrpPacket
heard = advert (mastering 200) (VrrpAddresses.v4 (virtual_ip ∷ []))

heard-IsAcceptable : IsAcceptable 255 heard (mastering 101)
heard-IsAcceptable = record {
  hop = refl;
  same_vrid = refl;
  same_interval = refl;
  addressed = inr (refl, (inl refl, tt));
  sided = tt;
}

process_decoded-effects_example :
    (logs : List Effect) × All IsLog logs
    × ((process_decoded numbers env 255 heard (mastering 101)).effects
        ≡ logs ++ asked master 200 (mastering 101) vlan ((virtual_ip ∷ 24 ∷ []) ∷ []))
process_decoded-effects_example =
    process_decoded-effects numbers env 255 heard (mastering 101) vlan ((virtual_ip ∷ 24 ∷ []) ∷ [])
      heard-IsAcceptable (refl, refl)

-- 2001:db8::64
abbrev virtual_ip6 : ℕ
virtual_ip6 = 0x20010db8 * 2 ^ 96 + 0x64

abbrev dual : ℕ → VirtualRouter
dual priority = record (mastering priority) {
  version = v3;
  ipv6_addresses = record { addr = virtual_ip6; prefix_len = 64 } ∷ [];
  mac_vlan_interface_v6 = some (119 ∷ []);
}

dual-IsConfigured6 : IsConfigured6 (dual 200)
dual-IsConfigured6 = record {
  version_3 = refl;
  fits = record {
    vrid_fits = omega arith;
    priority_fits = omega arith;
    few = omega arith;
    addrs_fit = (omega arith, tt);
  };
  capped = omega arith;
}

dual-ArePeers6 : ArePeers6 (dual 200) (dual 101)
dual-ArePeers6 = record {
  same_vrid = refl;
  same_interval = refl;
  same_addresses = refl;
  sided = λ e. cc;
}

handle_incoming_vrrp_v6_pkt-advert_example :
    (bytes : List ℕ) × (advert_bytes6 bytes_buffer rfc1071 bytes_buffer-IsBuffer rfc1071-IsChecksum
        numbers
        (dual 200)
        5
      ≡ ok bytes)
    × (let o =
          handle_incoming_vrrp_v6_pkt bytes_buffer rfc1071 numbers env bytes 5
            (held_by (dual 101)) in
        (o.router.fsm.state ≡ backup)
        × (o.router.fsm.timer ≡ timer_at 20 TimerType.master_down 923))
handle_incoming_vrrp_v6_pkt-advert_example =
    handle_incoming_vrrp_v6_pkt-advert bytes_buffer rfc1071 bytes_buffer-IsBuffer rfc1071-IsChecksum
      numbers (dual 200) 5 env (held_by (dual 101)) dual-IsConfigured6 dual-ArePeers6 refl refl
