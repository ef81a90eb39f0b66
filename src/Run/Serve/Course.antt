-- ===== src/Run/Serve/Course.antt =====
-- The whole course of `run` (src/lib.rs) after its setup, described independently: what each happening
-- is for the tasks (src/core_tasks.rs, src/network.rs), who gets it, and when all comes to its end.
pub mod Turns
pub mod Exact
use failover.Base.{ℕ, ◌≡◌, ◌≢◌, ◌⊎◌, Bool, true, false, List, [], ◌∷◌, Option, none, some, take}
use failover.Error.{panic, Source}
use failover.Net.{IpAddr}
use failover.Crates.Buffer.{Buffer}
use failover.Crates.Checksum.{Checksum}
use failover.Crates.Ipnet.{Ipnet}
use failover.Router.{Env}
use failover.Network.Listeners.{Turn, not_readable, would_block, datagram}
use failover.CoreTasks.{Received, packet, unreadable}
use failover.CoreTasks.Steps.{
  Input, vrrp, vrrp_v6, arp, ndp, tick, started, stopped, World, handle, step,
}
use failover.CoreTasks.Processes.{
  Views, Happening, on_vrrp, on_vrrp_v6, on_arp, on_ndp, ticks, signal,
}
use failover.Run.Serve.{Tasks}

-- The view of pnet on the bytes, if they are enough for it.
abbrev pub seen : {A : Type 0} → Option A → Received A
seen none = unreadable
seen (some a) = packet a

-- The address that the VRRP listener of a family gives for a sender: `::` or 0.0.0.0 without one.
abbrev pub source_of : IpAddr → Option IpAddr → IpAddr
source_of unspecified none = unspecified
source_of unspecified (some addr) = addr

-- The same for the NDP listener, which takes no IPv4 address.
abbrev pub source6_of : Option IpAddr → ℕ
source6_of (some (IpAddr.v6 addr)) = addr
source6_of (some (IpAddr.v4 addr)) = 0
source6_of none = 0

-- What a task gets from its socket: errors of the wait and of the read, and the first 512 bytes of a
-- VRRP packet, or 128 of the others; of the frames those that this host did not send (type 4).
pub data Brings (views : Views) : Happening → Input → Type 0 where
  vrrp_wait : (e : Source) → Brings views (on_vrrp (not_readable e)) (vrrp (Received.failed e))
  vrrp_read : (e : Source) → Brings views (on_vrrp (Turn.failed e)) (vrrp (Received.failed e))
  vrrp_comes :
      (bytes : List ℕ) (addr : Option IpAddr)
      → Brings views (on_vrrp (datagram bytes addr)) (vrrp (seen (views.ipv4 (take 512 bytes))))
  vrrp_v6_wait :
      (e : Source) → Brings views (on_vrrp_v6 (not_readable e)) (vrrp_v6 (Received.failed e))
  vrrp_v6_read :
      (e : Source) → Brings views (on_vrrp_v6 (Turn.failed e)) (vrrp_v6 (Received.failed e))
  vrrp_v6_comes :
      (bytes : List ℕ) (addr : Option IpAddr)
      → Brings views
          (on_vrrp_v6 (datagram bytes addr))
          (vrrp_v6 (packet (take 512 bytes, source_of (IpAddr.v6 0) addr)))
  arp_wait : (e : Source) → Brings views (on_arp (not_readable e)) (arp (Received.failed e))
  arp_read : (e : Source) → Brings views (on_arp (Turn.failed e)) (arp (Received.failed e))
  arp_comes :
      (bytes : List ℕ) (pkttype : ℕ)
      → pkttype ≢ 4
      → Brings views
          (on_arp (datagram bytes pkttype))
          (arp (seen (views.ethernet (take 128 bytes))))
  ndp_wait : (e : Source) → Brings views (on_ndp (not_readable e)) (ndp (Received.failed e))
  ndp_read : (e : Source) → Brings views (on_ndp (Turn.failed e)) (ndp (Received.failed e))
  ndp_comes :
      (bytes : List ℕ) (addr : Option IpAddr)
      → Brings views (on_ndp (datagram bytes addr)) (ndp (packet (take 128 bytes, source6_of addr)))
  tick_comes : Brings views ticks tick

-- A turn of a listener that gives its task nothing.
pub data Silent : Happening → Type 0 where
  vrrp_blocks : Silent (on_vrrp would_block)
  vrrp_v6_blocks : Silent (on_vrrp_v6 would_block)
  arp_blocks : Silent (on_arp would_block)
  ndp_blocks : Silent (on_ndp would_block)
  own_frame :
      (bytes : List ℕ) (pkttype : ℕ) → pkttype ≡ 4 → Silent (on_arp (datagram bytes pkttype))

-- Whether the task that the input is for is among those that run.
abbrev pub RunsFor : Tasks → World → Input → Bool → Type 0
RunsFor tasks w (vrrp received) runs = tasks.vrrp ≡ runs
RunsFor tasks w (vrrp_v6 received) runs = tasks.vrrp_v6 ≡ runs
RunsFor tasks w (arp received) runs = tasks.arp ≡ runs
RunsFor tasks w (ndp received) runs = tasks.ndp ≡ runs
RunsFor tasks w tick runs = w.ticking ≡ runs
RunsFor tasks w started runs = false ≡ runs
RunsFor tasks w stopped runs = false ≡ runs

-- The tasks without that of the input; the world has the timer's.
abbrev pub without : Input → Tasks → Tasks
without (vrrp received) tasks = record tasks { vrrp = false }
without (vrrp_v6 received) tasks = record tasks { vrrp_v6 = false }
without (arp received) tasks = record tasks { arp = false }
without (ndp received) tasks = record tasks { ndp = false }
without tick tasks = tasks
without started tasks = tasks
without stopped tasks = tasks

abbrev pub NoneRuns : Tasks → World → Type 0
NoneRuns tasks w =
    (tasks.vrrp ≡ false)
    × (tasks.vrrp_v6 ≡ false)
    × (tasks.arp ≡ false)
    × (tasks.ndp ≡ false)
    × (w.ticking ≡ false)

module _ (b : Buffer) (c : Checksum) (n : Ipnet) (views : Views) where
  -- From these tasks and this world, the run comes to its end on these happenings, and leaves the
  -- last world. A signal ends it, and so does whatever happens when no task runs: either way the
  -- router gets the shutdown. Else what happens is for one task, which handles it if it runs, and is
  -- gone after a panic.
  pub data Finishes : Tasks → World → List (Env × Happening) → World → Type 0 where
    signalled :
        (tasks : Tasks) (w : World) (env : Env) (later : List (Env × Happening))
        → Finishes tasks w ((env, signal) ∷ later) (step b c n (env, stopped) w)
    deserted :
        (tasks : Tasks) (w : World) (env : Env) (h : Happening) (later : List (Env × Happening))
        → NoneRuns tasks w
        → Finishes tasks w ((env, h) ∷ later) (step b c n (env, stopped) w)
    nothing :
        {tasks : Tasks} {w w' : World} {later : List (Env × Happening)} (env : Env) (h : Happening)
        → ¬ NoneRuns tasks w
        → Silent h
        → Finishes tasks w later w'
        → Finishes tasks w ((env, h) ∷ later) w'
    missed :
        {tasks : Tasks} {w w' : World} {later : List (Env × Happening)} (env : Env) (h : Happening)
        (input : Input)
        → ¬ NoneRuns tasks w
        → Brings views h input
        → RunsFor tasks w input false
        → Finishes tasks w later w'
        → Finishes tasks w ((env, h) ∷ later) w'
    handled :
        {tasks : Tasks} {w w' : World} {later : List (Env × Happening)} (env : Env) (h : Happening)
        (input : Input)
        → Brings views h input
        → RunsFor tasks w input true
        → (handle b c n env input w).result ≢ panic
        → Finishes tasks (step b c n (env, input) w) later w'
        → Finishes tasks w ((env, h) ∷ later) w'
    panicked :
        {tasks : Tasks} {w w' : World} {later : List (Env × Happening)} (env : Env) (h : Happening)
        (input : Input)
        → Brings views h input
        → RunsFor tasks w input true
        → (handle b c n env input w).result ≡ panic
        → Finishes (without input tasks) (step b c n (env, input) w) later w'
        → Finishes tasks w ((env, h) ∷ later) w'
