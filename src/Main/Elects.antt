-- ===== src/Main/Elects.antt =====
-- Two hosts that the program (src/bin/failover.rs) makes MASTERs of one virtual router.
use failover.Base.{◌≡◌, ◌<◌, ap, ◌∙◌, sym, subst, List, ◌∷◌, ◌++◌, arith}
use failover.Error.{ok}
use failover.Net.{IpAddr}
use failover.Crates.Buffer.{Buffer, IsBuffer}
use failover.Crates.Checksum.{Checksum, IsChecksum}
use failover.Crates.Ipnet.{Ipnet, IsRanged}
use failover.StateMachine.{backup, master}
use failover.Router.{VirtualRouter, Env}
use failover.Observer.Laws.{SameConfig}
use failover.Handlers.Wired.{IsConfigured, ArePeers}
use failover.Handlers.Election.{Hears, one_master}
use failover.Config.Load.{Os, Mode, Files}
use failover.General.Configured.{FitsTypes, config_to_vr-IsConfigured}
use failover.CoreTasks.Steps.{Input, World, started, at_start, run}
use failover.CoreTasks.Steps.Invariants.{run-SameConfig}
use failover.Run.{Host, TaskItems, set_up, first_notify}
use failover.Run.Setup.{set_up_lem}
use failover.Run.Serve.Shutdown.{first_notify-step}
use failover.Main.{spawns, main}
use failover.Main.Started.{spawned_holds}

-- The same but for the state machine, the interfaces and the primary addresses.
abbrev IsLike : VirtualRouter → VirtualRouter → Type 0
IsLike vr vr' =
    record vr' {
      primary_ip = vr.primary_ip;
      primary_ip_v6 = vr.primary_ip_v6;
      mac_vlan_interface_v4 = vr.mac_vlan_interface_v4;
      mac_vlan_interface_v6 = vr.mac_vlan_interface_v6;
      fsm = vr.fsm;
    }
    ≡ vr

IsConfigured-IsLike : (vr vr' : VirtualRouter) → IsLike vr vr' → IsConfigured vr → IsConfigured vr'
IsConfigured-IsLike vr vr' like configured =
    let there = subst IsConfigured (sym like) configured in
    record {
      fits = there.fits;
      interval_fits = there.interval_fits;
      interval_carried = there.interval_carried;
    }

ArePeers-IsLike :
    (va vb va' vb' : VirtualRouter)
    → IsLike va va'
    → IsLike vb vb'
    → ArePeers va vb
    → ArePeers va' vb'
ArePeers-IsLike va vb va' vb' like like' peers =
    let one = subst (λ r. ArePeers r vb) (sym like) peers in
    let both =
      subst (λ r. ArePeers va' r) (sym like')
        (record {
          same_vrid = one.same_vrid;
          same_interval = one.same_interval;
          same_addresses = one.same_addresses;
        }) in
    record {
      same_vrid = both.same_vrid;
      same_interval = both.same_interval;
      same_addresses = both.same_addresses;
    }

module _ (b : Buffer) (c : Checksum) (n : Ipnet) where
  -- The program started the router, whose setup and first notification succeeded, and it has come,
  -- whatever happened since, to this world.
  pub record IsRunning (vr : VirtualRouter) (w : World) : Type 0 where
    pub os : Os
    pub mode : Mode
    pub files : Files
    pub before : List VirtualRouter
    pub after : List VirtualRouter
    pub spawned : main n os mode files ≡ spawns (before ++ vr ∷ after)
    pub host : Host
    pub items : TaskItems
    pub prepared : set_up host vr ≡ ok items
    pub begun : World
    pub begins : first_notify n host items ≡ ok begun
    pub inputs : List (Env × Input)
    pub comes_to : run b c n inputs begun ≡ w

  IsRunning-IsLike :
      (vr : VirtualRouter) (w : World) → IsBuffer b → IsRunning vr w → IsLike vr w.mutex.router
  unfolding run
  IsRunning-IsLike vr w lawful running =
      let items = running.items in
      let first = first_notify-step b c n running.host items running.begun running.begins in
      let since =
        run-SameConfig b c n lawful ((running.host.on_startup, started) ∷ running.inputs)
          (at_start items.vrouter) in
      let same : SameConfig items.vrouter w.mutex.router =
        subst (λ (x : World). SameConfig items.vrouter x.mutex.router)
          (ap (λ (x : World). run b c n running.inputs x) (sym first) ∙ running.comes_to) since in
      let (prepared, _, _) = set_up_lem running.host vr items running.prepared in
      ap
        (λ (r : VirtualRouter). record r {
          primary_ip = vr.primary_ip;
          primary_ip_v6 = vr.primary_ip_v6;
          mac_vlan_interface_v4 = vr.mac_vlan_interface_v4;
          mac_vlan_interface_v6 = vr.mac_vlan_interface_v6;
          fsm = vr.fsm;
        })
        same
      ∙ ap (λ (r : VirtualRouter). record r { fsm = vr.fsm }) prepared

  IsRunning-IsConfigured :
      (vr : VirtualRouter) (w : World)
      → IsBuffer b
      → IsRanged n
      → IsRunning vr w
      → FitsTypes vr
      → IsConfigured w.mutex.router
  IsRunning-IsConfigured vr w lawful ranged running = λ fits.
      IsConfigured-IsLike vr w.mutex.router (IsRunning-IsLike vr w lawful running) (
        spawned_holds n (λ r. FitsTypes r → IsConfigured r) running.os running.mode running.files
          running.before running.after vr (config_to_vr-IsConfigured n ranged) running.spawned fits)

  -- Two hosts on which the program started, from whatever configurations, one virtual router of
  -- the same VRID, interval and IPv4 addresses, whose numbers fit their types, with different
  -- priorities, the lower one not 0: if, after whatever happened on each, both are MASTER, and
  -- each receives the other's IPv4 advertisement with a TTL of 255 and a lock that is not
  -- poisoned, the one of the higher priority stays MASTER and the other becomes BACKUP. An IPv4
  -- network that ipnet reads is taken to hold an address of 32 bits.
  pub program_elects_one :
      (env : Env) (dst : IpAddr) (high low : VirtualRouter) (w w' : World) (lawful : IsBuffer b)
      (sums : IsChecksum c)
      → IsRanged n
      → IsRunning high w
      → IsRunning low w'
      → ArePeers high low
      → FitsTypes high
      → FitsTypes low
      → w.mutex.router.fsm.state ≡ master
      → w'.mutex.router.fsm.state ≡ master
      → 0 < low.priority
      → low.priority < high.priority
      → Hears b c lawful sums n env dst w.mutex.router w'.mutex.router master
        × Hears b c lawful sums n env dst w'.mutex.router w.mutex.router backup
  program_elects_one env dst high low w w' lawful sums ranged running running' peers fits fits'
        masters masters' positive higher =
      let like = IsRunning-IsLike high w lawful running in
      let like' = IsRunning-IsLike low w' lawful running' in
      let there = ArePeers-IsLike high low w.mutex.router w'.mutex.router like like' peers in
      let same = ap (λ (r : VirtualRouter). r.priority) like in
      let same' = ap (λ (r : VirtualRouter). r.priority) like' in
      one_master b c lawful sums n env dst w.mutex.router w'.mutex.router
        (IsRunning-IsConfigured high w lawful ranged running fits)
        (IsRunning-IsConfigured low w' lawful ranged running' fits') there
        (record {
          same_vrid = sym there.same_vrid;
          same_interval = sym there.same_interval;
          same_addresses = sym there.same_addresses;
        })
        masters masters' (omega (arith, positive, same')) (omega (arith, higher, same, same'))
