-- ===== src/CoreTasks/Steps.antt =====
-- A virtual router as the tasks of src/core_tasks.rs and `run` (src/lib.rs) drive it: the inputs come
-- in any order, each handled under the lock, and a panic poisons it.
pub mod Cases
pub mod Invariants
pub mod DualStack
pub mod Diagram
use failover.Base.{ℕ, Bool, true, false, ◌&&◌, ◌||◌, List, [], ◌∷◌, ◌++◌, if◌then◌else◌}
use failover.Error.{Result, ok, err, panic, NetworkError}
use failover.Net.{IpAddr, EthernetPacket, Ipv4Packet}
use failover.Crates.Buffer.{Buffer}
use failover.Crates.Checksum.{Checksum}
use failover.Crates.Ipnet.{Ipnet}
use failover.StateMachine.{Event, startup, shutdown}
use failover.Router.{VirtualRouter, Effect, Env}
use failover.Observer.{Outcome, Mutex, notify}
use failover.Handlers.{unchanged}
use failover.CoreTasks.{Received, vrrp_round, vrrp_v6_round, arp_round, ndp_round, timer_tick}

-- What one of the tasks, or `run` itself at its start and end, does next.
pub data Input : Type 0 where
  vrrp : Received Ipv4Packet → Input
  vrrp_v6 : Received (List ℕ × IpAddr) → Input
  arp : Received EthernetPacket → Input
  ndp : Received (List ℕ × ℕ) → Input
  tick started stopped : Input

-- The lock, whether the timer's task still runs, and all that has been asked for.
pub record World : Type 0 where
  pub mutex : Mutex
  pub ticking : Bool
  pub history : List Effect

abbrev pub succeeded : Result NetworkError (Unit {0}) → Bool
succeeded (ok t) = true
succeeded (err e) = false
succeeded panic = false

abbrev pub panics : Result NetworkError (Unit {0}) → Bool
panics (ok t) = false
panics (err e) = false
panics panic = true

-- Only the timer's task ends on an error.
abbrev goes_on : Input → Result NetworkError (Unit {0}) → Bool
goes_on tick result = succeeded result
goes_on _ result = true

module _ (b : Buffer) (c : Checksum) (n : Ipnet) where
  unfoldable pub handle : Env → Input → World → Outcome
  unfolding vrrp_round vrrp_v6_round arp_round ndp_round timer_tick notify
  handle env (vrrp received) w = vrrp_round b c n env received w.mutex
  handle env (vrrp_v6 received) w = vrrp_v6_round b c n env received w.mutex
  handle env (arp received) w = arp_round b env received w.mutex
  handle env (ndp received) w = ndp_round env received w.mutex
  handle env tick w = if w.ticking then timer_tick n env w.mutex else unchanged w.mutex.router []
  handle env started w = notify n env startup w.mutex
  handle env stopped w = notify n env shutdown w.mutex

  unfoldable pub step : Env × Input → World → World
  unfolding handle
  step (env, input) w =
      let o = handle env input w in
      record {
        mutex = record { poisoned = w.mutex.poisoned || panics o.result; router = o.router };
        ticking = w.ticking && goes_on input o.result;
        history = w.history ++ o.effects;
      }

  unfoldable pub run : List (Env × Input) → World → World
  unfolding step
  run [] w = w
  run (input ∷ inputs) w = run inputs (step input w)

-- `run` (src/lib.rs) when the router has its interfaces.
abbrev pub at_start : VirtualRouter → World
at_start vr = record {
  mutex = record { poisoned = false; router = vr };
  ticking = true;
  history = [];
}
