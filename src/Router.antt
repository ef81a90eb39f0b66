-- ===== src/Router.antt =====
-- `VirtualRouter` (src/router.rs). What a method sends or asks the kernel for is a list of effects.
pub mod Timing
use failover.Base.{ℕ, ◌*◌, ◌%◌, Bool, List, [], ◌∷◌, ◌++◌, map, Option, none, some, Str, as_u16}
use failover.Error.{PacketError}
use failover.Version.{VrrpVersion, v2, v3, VrrpAddresses, AddressAction}
use failover.Net.{IpNet4, IpNet6, octets4, unspecified, NetworkInterface}
use failover.Crates.Ipnet.{Ipnet}
use failover.Float.{F32, as_f32, f32_add, f32_sub, f32_mul, f32_div}
use failover.StateMachine.{VirtualRouterMachine, default}
use failover.Packet.{VrrpPacket}
use failover.Arp.{ArpFrame, EthernetFrame, ArpPacket, new_frame}
use failover.Ndp.{NdpNeighborAdvertisement}

pub record VirtualRouter : Type 0 where
  pub name : Str
  pub vrid : ℕ  -- u8
  pub version : VrrpVersion
  pub ipv4_addresses : List IpNet4
  pub ipv6_addresses : List IpNet6
  pub priority : ℕ  -- u8
  pub skew_time : F32
  pub advert_interval : ℕ  -- u8
  pub master_down_interval : F32
  pub preempt_mode : Bool
  pub network_interface : Str
  pub mac_vlan_interface_v4 : Str
  pub mac_vlan_interface_v6 : Option Str
  pub primary_ip : ℕ
  pub primary_ip_v6 : Option ℕ
  pub fsm : VirtualRouterMachine

pub record VirtualRouterParams : Type 0 where
  pub name : Str
  pub vrid : ℕ
  pub version : VrrpVersion
  pub ipv4_addresses : List IpNet4
  pub ipv6_addresses : List IpNet6
  pub priority : ℕ
  pub advert_interval : ℕ
  pub preempt_mode : Bool
  pub network_interface : Str

-- What the code asks of the network and the kernel, and the packets that it reports as dropped.
pub data Effect : Type 0 where
  send_vrrp_v4 : (ifname : Str) (src_ip : ℕ) (packet : VrrpPacket) → Effect
  send_vrrp_v6 : (ifname : Str) (src_ip : ℕ) (packet : VrrpPacket) → Effect
  send_arp : (ifname : Str) (frame : ArpFrame) → Effect
  send_advert_na : (ifname : Str) (target : ℕ) (na : NdpNeighborAdvertisement) → Effect
  address_action : (action : AddressAction) (addresses : List Str) (ifname : Str) → Effect
  remove_mac_vlan : (ifname : Str) → Effect
  log_drop : PacketError → Effect

-- What the code reads of its surroundings in one call: the interfaces of the host, when a packet
-- arrives and at the two look-ups by name after that, the time in nanoseconds, and the byte order
-- of the host.
pub record Env : Type 0 where
  pub interfaces_on_arrival : List NetworkInterface
  pub interfaces : List NetworkInterface
  pub interfaces_later : List NetworkInterface
  pub now : ℕ
  pub big_endian : Bool

abbrev pub ipv4_addrs : VirtualRouter → List ℕ
ipv4_addrs vr = map (λ net. net.addr) vr.ipv4_addresses

abbrev pub ipv6_addrs : VirtualRouter → List ℕ
ipv6_addrs vr = map (λ net. net.addr) vr.ipv6_addresses

abbrev pub str_ipv4_addresses : Ipnet → VirtualRouter → List Str
str_ipv4_addresses n vr = map n.to_string4 vr.ipv4_addresses

abbrev pub str_ipv6_addresses : Ipnet → VirtualRouter → List Str
str_ipv6_addresses n vr = map n.to_string6 vr.ipv6_addresses

unfoldable pub skew_time_of : VrrpVersion → ℕ → ℕ → F32
skew_time_of v2 priority advert_interval =
    f32_div (f32_sub (as_f32 256) (as_f32 priority)) (as_f32 256)
skew_time_of v3 priority advert_interval =
    f32_div (f32_mul (f32_sub (as_f32 256) (as_f32 priority)) (as_f32 advert_interval)) (as_f32 256)

abbrev initial_v6_interface : VrrpVersion → Option Str
initial_v6_interface v3 = some []
initial_v6_interface v2 = none

-- `VirtualRouter::new`
unfoldable pub new : VirtualRouterParams → VirtualRouter
unfolding skew_time_of default
new params =
    let skew_time = skew_time_of params.version params.priority params.advert_interval in
    record {
      name = params.name;
      vrid = params.vrid;
      version = params.version;
      ipv4_addresses = params.ipv4_addresses;
      ipv6_addresses = params.ipv6_addresses;
      priority = params.priority;
      skew_time = skew_time;
      advert_interval = params.advert_interval;
      master_down_interval = f32_add (f32_mul (as_f32 3) (as_f32 params.advert_interval)) skew_time;
      preempt_mode = params.preempt_mode;
      network_interface = params.network_interface;
      mac_vlan_interface_v4 = [];
      mac_vlan_interface_v6 = initial_v6_interface params.version;
      primary_ip = unspecified;
      primary_ip_v6 = none;
      fsm = default;
    }

-- The packet that `send_advertisement` builds; `advert_interval as u16 * 100` fits a u16.
abbrev pub advert : VirtualRouter → VrrpAddresses → VrrpPacket
advert vr addresses = record {
  version = vr.version;
  vrid = vr.vrid;
  priority = vr.priority;
  adver_int_cs = vr.advert_interval * 100;
  addresses = addresses;
}

send_advertisement_v6 : VirtualRouter → Option Str → Option ℕ → List Effect
send_advertisement_v6 vr (some v6_iface) (some src_v6) =
    send_vrrp_v6 v6_iface src_v6 (advert vr (VrrpAddresses.v6 (ipv6_addrs vr))) ∷ []
send_advertisement_v6 vr (some v6_iface) none = []
send_advertisement_v6 vr none src = []

unfoldable pub send_advertisement : VirtualRouter → List Effect
unfolding send_advertisement_v6
send_advertisement vr =
    send_vrrp_v4 vr.mac_vlan_interface_v4 vr.primary_ip
      (advert vr (VrrpAddresses.v4 (ipv4_addrs vr)))
    ∷ send_advertisement_v6 vr vr.mac_vlan_interface_v6 vr.primary_ip_v6

abbrev pub broadcast : List ℕ
broadcast = 0xff ∷ 0xff ∷ 0xff ∷ 0xff ∷ 0xff ∷ 0xff ∷ []

unfoldable pub gratuitous_arp : Bool → List ℕ → ℕ → ArpFrame
unfolding new_frame
gratuitous_arp big_endian interface_mac ip =
    new_frame big_endian
      (record { dst_mac = broadcast; src_mac = interface_mac; ethertype = 0x0806 })
      (record {
        hw_type = 1;
        proto_type = 0x0800;
        hw_length = 6;
        proto_length = 4;
        operation = 1;
        sender_hw_address = interface_mac;
        sender_proto_address = octets4 ip;
        target_hw_address = broadcast;
        target_proto_address = octets4 ip;
      })

unfoldable pub send_gratuitous_arps : Bool → VirtualRouter → List ℕ → List Effect
unfolding gratuitous_arp
send_gratuitous_arps big_endian vr interface_mac =
    map
      (λ net. send_arp vr.mac_vlan_interface_v4 (gratuitous_arp big_endian interface_mac net.addr))
      vr.ipv4_addresses

unfoldable pub neighbor_advertisements : Option Str → List IpNet6 → List ℕ → List Effect
neighbor_advertisements none nets interface_mac = []
neighbor_advertisements (some v6_iface) nets interface_mac =
    map
      (λ net. send_advert_na v6_iface net.addr (record {
        target_address = net.addr;
        target_link_addr = interface_mac;
        override_flag = Bool.true;
      }))
      nets

unfoldable pub send_neighbor_advertisements : VirtualRouter → List ℕ → List Effect
unfolding neighbor_advertisements
send_neighbor_advertisements vr interface_mac =
    neighbor_advertisements vr.mac_vlan_interface_v6 vr.ipv6_addresses interface_mac
