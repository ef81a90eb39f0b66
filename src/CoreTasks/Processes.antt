-- ===== src/CoreTasks/Processes.antt =====
-- How the tasks of src/core_tasks.rs begin, with the errors of their sockets, and what each of their
-- loops gets from its socket.
pub mod Loops
use failover.Base.{ℕ, Bool, true, false, List, [], ◌∷◌, Option, none, some, Str}
use failover.Error.{Result, ok, err, panic, Source, NetworkError, socket_bind}
use failover.Net.{IpAddr, EthernetPacket, Ipv4Packet, NetworkInterface, unspecified}
use failover.Network.{IfNames}
use failover.Network.Listeners.{
  Calls, Listener, bind_vrrp, bind_ndp, bind_arp, Turn, vrrp_turn, ndp_turn, arp_turn,
}
use failover.CoreTasks.{Received, failed, unreadable, packet}
use failover.CoreTasks.Steps.{Input, vrrp, vrrp_v6, arp, ndp, tick}

-- The answers to the calls with which each task binds its socket.
pub record Sockets : Type 0 where
  pub names : IfNames
  pub vrrp : Calls
  pub vrrp_v6 : Calls
  pub arp : Calls
  pub ndp : Calls

-- "socket4", "socket6", "ARP" and "NDP"
abbrev pub socket4 : Str
socket4 = 115 ∷ 111 ∷ 99 ∷ 107 ∷ 101 ∷ 116 ∷ 52 ∷ []

abbrev pub socket6 : Str
socket6 = 115 ∷ 111 ∷ 99 ∷ 107 ∷ 101 ∷ 116 ∷ 54 ∷ []

abbrev pub arp_kind : Str
arp_kind = 65 ∷ 82 ∷ 80 ∷ []

abbrev pub ndp_kind : Str
ndp_kind = 78 ∷ 68 ∷ 80 ∷ []

-- A task that goes on has a listener, or ends at once: without its interface, or on an error.
bound : (kind iface : Str) → Result Source Listener → Result NetworkError (Option Listener)
bound kind iface (ok listener) = ok (some listener)
bound kind iface (err source) = err (socket_bind kind iface source)
bound kind iface panic = panic

unfoldable pub start_vrrp : Sockets → NetworkInterface → Result NetworkError (Option Listener)
unfolding bind_vrrp bound
start_vrrp s parent_interface =
    bound socket4 parent_interface.name
      (bind_vrrp s.names s.vrrp parent_interface.name (IpAddr.v4 unspecified))

unfoldable pub start_vrrp_v6 :
    Sockets
    → (interface_v6 : Option NetworkInterface) (parent_interface : NetworkInterface)
    → Result NetworkError (Option Listener)
unfolding bind_vrrp bound
start_vrrp_v6 s none parent_interface = ok none
start_vrrp_v6 s (some interface_v6) parent_interface =
    bound socket6 parent_interface.name
      (bind_vrrp s.names s.vrrp_v6 parent_interface.name (IpAddr.v6 unspecified))

unfoldable pub start_arp : Bool → Sockets → NetworkInterface → Result NetworkError (Option Listener)
unfolding bind_arp bound
start_arp big_endian s interface =
    bound arp_kind interface.name (bind_arp s.names s.arp big_endian interface.name)

unfoldable pub start_ndp :
    Sockets → (interface_v6 : Option NetworkInterface) → Result NetworkError (Option Listener)
unfolding bind_ndp bound
start_ndp s none = ok none
start_ndp s (some interface_v6) =
    bound ndp_kind interface_v6.name (bind_ndp s.names s.ndp interface_v6.name)

-- pnet's `Ipv4Packet::new` and `EthernetPacket::new`, which are none for too few bytes.
pub record Views : Type 0 where
  pub ipv4 : List ℕ → Option Ipv4Packet
  pub ethernet : List ℕ → Option EthernetPacket

-- What happens to a running instance: a turn of one of the loops that wait for a socket, a tick of
-- the timer, or SIGINT or SIGTERM.
pub data Happening : Type 0 where
  on_vrrp : Turn (Option IpAddr) → Happening
  on_vrrp_v6 : Turn (Option IpAddr) → Happening
  on_arp : Turn ℕ → Happening
  on_ndp : Turn (Option IpAddr) → Happening
  ticks signal : Happening

viewed : {A : Type 0} → Option A → Received A
viewed none = unreadable
viewed (some a) = packet a

-- The first steps of each round on what `recv` gives; it does not panic.
received : {A B : Type 0} → (A → Option B) → Result Source A → Received B
unfolding viewed
received view (ok a) = viewed (view a)
received view (err source) = failed source
received view panic = unreadable

input : {A : Type 0} → (A → Input) → Option A → Option Input
input make none = none
input make (some a) = some (make a)

module _ (views : Views) where
  abbrev view_vrrp : Result Source (List ℕ × IpAddr) → Input
  unfolding received
  view_vrrp result = vrrp (received (λ (buf, _). views.ipv4 buf) result)

  abbrev view_vrrp_v6 : Result Source (List ℕ × IpAddr) → Input
  unfolding received
  view_vrrp_v6 result = vrrp_v6 (received (λ pair. some pair) result)

  abbrev view_arp : Result Source (List ℕ) → Input
  unfolding received
  view_arp result = arp (received views.ethernet result)

  abbrev view_ndp : Result Source (List ℕ × ℕ) → Input
  unfolding received
  view_ndp result = ndp (received (λ pair. some pair) result)

  -- The input that a turn of a loop brings, if `recv` returns on it.
  unfoldable pub input_of : Happening → Option Input
  unfolding input received vrrp_turn ndp_turn arp_turn
  input_of (on_vrrp turn) = input view_vrrp (vrrp_turn (IpAddr.v4 unspecified) turn)
  input_of (on_vrrp_v6 turn) = input view_vrrp_v6 (vrrp_turn (IpAddr.v6 unspecified) turn)
  input_of (on_arp turn) = input view_arp (arp_turn turn)
  input_of (on_ndp turn) = input view_ndp (ndp_turn turn)
  input_of ticks = some tick
  input_of signal = none
