-- ===== src/Scenarios/Sockets.antt =====
-- The sockets at concrete inputs (src/network.rs).
use failover.Base.{◌≡◌, refl, none}
use failover.Error.{ok}
use failover.Version.{VrrpAddresses}
use failover.StateMachine.{backup, TimerType}
use failover.Router.{advert, ipv4_addrs}
use failover.Handlers.{handle_incoming_vrrp_v4_pkt}
use failover.Handlers.Reaction.{timer_at}
use failover.Network.{Socket, Datagram, send_vrrp_packet_v4}
use failover.Network.Delivery.{Works, arrives, send_vrrp_packet_v4-handled}
use failover.Scenarios.Crates.{
  bytes_buffer, bytes_buffer-IsBuffer, rfc1071, rfc1071-IsChecksum, numbers,
}
use failover.Scenarios.Routers.{
  vlan, env, held_by, the_master, the_sender, the_sender-IsConfigured, the_sender-ArePeers,
}

abbrev pub working : Socket
working = record {
  creation = none;
  bind_device = none;
  bind = none;
  unicast_hops = none;
  multicast_hops = none;
  sending = none;
}

working-Works : Works working
working-Works = record {
  creation = refl;
  bind_device = refl;
  bind = refl;
  unicast_hops = refl;
  multicast_hops = refl;
  sending = refl;
}

send_vrrp_packet_v4-handled_example :
    (d : Datagram) × (send_vrrp_packet_v4 bytes_buffer rfc1071 working vlan 3232261121
        (advert the_sender (VrrpAddresses.v4 (ipv4_addrs the_sender)))
      ≡ ok d)
    × (let o =
          handle_incoming_vrrp_v4_pkt bytes_buffer rfc1071 numbers env
            (arrives d 3232261121)
            (held_by the_master) in
        (o.router.fsm.state ≡ backup)
        × (o.router.fsm.timer ≡ timer_at 20 TimerType.master_down 923))
send_vrrp_packet_v4-handled_example =
    send_vrrp_packet_v4-handled bytes_buffer rfc1071 bytes_buffer-IsBuffer rfc1071-IsChecksum
      numbers working the_sender env (held_by the_master) working-Works the_sender-IsConfigured
      the_sender-ArePeers refl refl
