-- ===== src/CoreTasks/Timers.antt =====
-- What the ticks of `timer_process` (src/core_tasks.rs) do before and after the deadline.
use failover.Base.{ℕ, ◌≡◌, ◌≤◌, ◌<◌, true, false, List, [], ◌∷◌, ◌++◌, map, some, arith, All}
use failover.Error.{ok}
use failover.Net.{NetworkInterface}
use failover.Crates.Buffer.{Buffer}
use failover.Crates.Checksum.{Checksum}
use failover.Crates.Ipnet.{Ipnet}
use failover.Float.{as_f32}
use failover.StateMachine.{backup, master, adver}
use failover.Router.{VirtualRouter, Env, send_advertisement}
use failover.Observer.{Outcome, get_interface, announce_ownership, add_virtual_addresses}
use failover.Observer.Laws.{IsConsistent}
use failover.Handlers.{unchanged}
use failover.Handlers.Reaction.{timer_at}
use failover.CoreTasks.{timer_tick}
use failover.CoreTasks.Steps.{tick, World, step, run}

-- The router's IPv4 interface is there and has a MAC address.
pub record HasMac (env : Env) (vr : VirtualRouter) (mac : List ℕ) : Type 0 where
  pub interface : NetworkInterface
  pub found : get_interface env.interfaces vr.mac_vlan_interface_v4 ≡ ok interface
  pub has : interface.mac ≡ some mac

-- The deadline of the running timer.
abbrev pub Expires : VirtualRouter → ℕ → Type 0
Expires vr deadline = vr.fsm.timer.waiting_for ≡ some deadline

module _ (n : Ipnet) (env : Env) (vr : VirtualRouter) where
  abbrev pub ticked : Outcome
  ticked = timer_tick n env (record { poisoned = false; router = vr })

  -- Up to its deadline a timer does nothing.
  pub timer_tick_waits :
      (deadline : ℕ) → Expires vr deadline → env.now ≤ deadline → ticked ≡ unchanged vr []
  unfolding timer_tick
  timer_tick_waits deadline e early = ground arith

  -- At a tick after its deadline, a BACKUP whose timer is the one of its state and whose
  -- interface has a MAC address becomes MASTER: it advertises, announces its addresses, adds
  -- them, in this order, starts the advertisement timer, and the call succeeds.
  pub timer_tick_takes_over :
      (deadline : ℕ) (mac : List ℕ)
      → IsConsistent vr.fsm
      → vr.fsm.state ≡ backup
      → Expires vr deadline
      → deadline < env.now
      → HasMac env vr mac
      → (ticked.router.fsm.state ≡ master)
        × (ticked.router.fsm.timer ≡ timer_at env.now adver (as_f32 vr.advert_interval))
        × (ticked.effects
            ≡ send_advertisement vr ++ announce_ownership env vr mac ++ add_virtual_addresses n vr)
        × (ticked.result ≡ ok tt)
  unfolding timer_tick
  timer_tick_takes_over deadline mac consistent e expires late there =
      ground (arith, consistent.right_timer, there.found, there.has)

  -- At a tick after its deadline, a MASTER whose timer is the one of its state sends its
  -- advertisement and nothing else, restarts the advertisement timer, and the call succeeds.
  pub timer_tick_advertises :
      (deadline : ℕ)
      → IsConsistent vr.fsm
      → vr.fsm.state ≡ master
      → Expires vr deadline
      → deadline < env.now
      → (ticked.router.fsm.state ≡ master)
        × (ticked.router.fsm.timer ≡ timer_at env.now adver (as_f32 vr.advert_interval))
        × (ticked.effects ≡ send_advertisement vr)
        × (ticked.result ≡ ok tt)
  unfolding timer_tick
  timer_tick_advertises deadline consistent e expires late = ground (arith, consistent.right_timer)

module _ (b : Buffer) (c : Checksum) (n : Ipnet) (vr : VirtualRouter) (deadline : ℕ)
    (expires : Expires vr deadline) where
  abbrev pub Ready : World → Type 0
  Ready w = (w.mutex ≡ record { poisoned = false; router = vr }) × (w.ticking ≡ true)

  pub early_tick :
      (env : Env) (w : World) → env.now ≤ deadline → Ready w → Ready (step b c n (env, tick) w)
  unfolding step
  early_tick env w early h = ground (arith, timer_tick_waits n env vr deadline expires early)

  -- A BACKUP whose timer is the one of its state and which gets nothing but ticks becomes MASTER
  -- at the first tick after its deadline, however many ticks come before, if its lock is not
  -- poisoned, the timer's task runs, and its interface then has a MAC address.
  pub silent_backup_takes_over :
      (early : List Env) (late : Env) (mac : List ℕ) (w : World)
      → w.mutex ≡ record { poisoned = false; router = vr }
      → w.ticking ≡ true
      → IsConsistent vr.fsm
      → vr.fsm.state ≡ backup
      → All (λ env. env.now ≤ deadline) early
      → deadline < late.now
      → HasMac late vr mac
      → (run b c n (map (λ env. (env, tick)) early ++ (late, tick) ∷ []) w).mutex.router.fsm.state
        ≡ master
  unfolding run
  silent_backup_takes_over [] late mac w alive ticking consistent e waits passed there =
      ground (arith, timer_tick_takes_over n late vr deadline mac consistent e expires passed there)
  silent_backup_takes_over (env ∷ early) late mac w alive ticking consistent e waits passed there =
      let next = early_tick env w waits.0 (alive, ticking) in
      silent_backup_takes_over early late mac (step b c n (env, tick) w) next.0 next.1 consistent e
        waits.1 passed there
