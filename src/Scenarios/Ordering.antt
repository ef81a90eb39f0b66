-- ===== src/Scenarios/Ordering.antt =====
-- The order of addresses and of advertisements, at concrete inputs (src/pkt/handlers.rs).
use mathlib.Core.List.{Permᴰ}
use failover.Base.{ℕ, ◌≡◌, refl, All, List, [], ◌∷◌, arith}
use failover.Error.{ok}
use failover.Version.{VrrpAddresses}
use failover.StateMachine.{backup, master, adver}
use failover.Packet.{VrrpPacket}
use failover.Router.{VirtualRouter, advert}
use failover.Handlers.{process_decoded}
use failover.Handlers.Unordered.{SameListed, process_decoded-Perm}
use failover.Handlers.Wired.{advert_bytes}
use failover.Handlers.Latest.{after, last_heard_decides}
use failover.Handlers.Election.{Hears}
use failover.Handlers.Segment.{IsLowerMaster, after_all, one_of_many}
use failover.Scenarios.Crates.{
  bytes_buffer, bytes_buffer-IsBuffer, rfc1071, rfc1071-IsChecksum, numbers,
}
use failover.Scenarios.Election.{
  mastering, high-IsConfigured, low-IsConfigured, between-IsConfigured, somewhere,
}
use failover.Scenarios.Routers.{virtual_ip, router, machine, env}

-- A MASTER with two addresses.
abbrev two_addresses : VirtualRouter
two_addresses = record (router 101 (machine master adver)) {
  ipv4_addresses =
      record { addr = virtual_ip; prefix_len = 24 } ∷ record { addr = 7; prefix_len = 24 } ∷ [];
}

abbrev listed_so : VrrpAddresses
listed_so = VrrpAddresses.v4 (virtual_ip ∷ 7 ∷ [])

abbrev listed_otherwise : VrrpAddresses
listed_otherwise = VrrpAddresses.v4 (7 ∷ virtual_ip ∷ [])

abbrev two_heard : VrrpPacket
two_heard = record (advert two_addresses listed_so) { priority = 200 }

listed-SameListed : SameListed listed_so listed_otherwise
listed-SameListed = ∣ Permᴰ.swap refl refl ∣₁

two_heard-steps_down :
    (process_decoded numbers env 255 two_heard two_addresses).router.fsm.state ≡ backup
unfolding process_decoded
two_heard-steps_down = ground arith

process_decoded-Perm_example :
    process_decoded numbers env 255 two_heard two_addresses
    ≡ process_decoded numbers env 255
        (record two_heard { addresses = listed_otherwise })
        two_addresses
process_decoded-Perm_example =
    process_decoded-Perm numbers env two_heard two_addresses 255 listed_otherwise listed-SameListed

-- A MASTER between the other two, and their peer.
abbrev between : VirtualRouter
between = mastering 150

abbrev after_here : VirtualRouter → List ℕ → VirtualRouter → VirtualRouter
after_here =
    after bytes_buffer rfc1071 bytes_buffer-IsBuffer rfc1071-IsChecksum numbers env somewhere

last_heard_decides_example :
    (of_high of_low : List ℕ) × (advert_bytes bytes_buffer rfc1071 bytes_buffer-IsBuffer
        rfc1071-IsChecksum numbers
        (mastering 200)
      ≡ ok of_high)
    × (advert_bytes bytes_buffer rfc1071 bytes_buffer-IsBuffer rfc1071-IsChecksum numbers
          (mastering 101)
        ≡ ok of_low)
    × ((after_here (mastering 101) of_low (after_here (mastering 200) of_high between)).fsm.state
        ≡ master)
    × ((after_here (mastering 200) of_high (after_here (mastering 101) of_low between)).fsm.state
        ≡ backup)
last_heard_decides_example =
    last_heard_decides bytes_buffer rfc1071 bytes_buffer-IsBuffer rfc1071-IsChecksum numbers env
      somewhere (mastering 200) (mastering 101) between high-IsConfigured low-IsConfigured
      (record { same_vrid = refl; same_interval = refl; same_addresses = refl })
      (record { same_vrid = refl; same_interval = refl; same_addresses = refl }) refl refl
      (omega arith) (omega arith) (omega arith)

low-IsLowerMaster : IsLowerMaster (mastering 200) (mastering 101)
low-IsLowerMaster = record {
  configured = low-IsConfigured;
  peers = record { same_vrid = refl; same_interval = refl; same_addresses = refl };
  positive = omega arith;
  lower = omega arith;
  masters = refl;
}

between-IsLowerMaster : IsLowerMaster (mastering 200) between
between-IsLowerMaster = record {
  configured = between-IsConfigured;
  peers = record { same_vrid = refl; same_interval = refl; same_addresses = refl };
  positive = omega arith;
  lower = omega arith;
  masters = refl;
}

-- Two others, one of which is heard twice.
abbrev others : List VirtualRouter
others = between ∷ mastering 101 ∷ between ∷ []

abbrev all_here : List VirtualRouter → VirtualRouter → VirtualRouter
all_here =
    after_all bytes_buffer rfc1071 bytes_buffer-IsBuffer rfc1071-IsChecksum numbers env somewhere

one_of_many_example :
    ((all_here others (mastering 200)).fsm.state ≡ master)
    × All
        (λ low.
          Hears bytes_buffer rfc1071 bytes_buffer-IsBuffer rfc1071-IsChecksum numbers env somewhere
            low
            (mastering 200)
            backup)
        others
one_of_many_example =
    one_of_many bytes_buffer rfc1071 bytes_buffer-IsBuffer rfc1071-IsChecksum numbers env somewhere
      (mastering 200) others high-IsConfigured refl
      (between-IsLowerMaster, (low-IsLowerMaster, (between-IsLowerMaster, tt)))
