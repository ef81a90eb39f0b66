-- ===== src/Run/Serve/Removal.antt =====
-- `run` (src/lib.rs) of a router of version 3, from its setup to the end that a signal brings.
use failover.Base.{
  ◌≡◌, ◌⊎◌, refl, sym, ap, ◌∙◌, subst, true, false, List, [], ◌∷◌, ◌++◌, none, some, Str, All,
  Bool-cases, inl, inr,
}
use mathlib.Core.List.{append_assoc}
use failover.Error.{ok}
use failover.Version.{v3}
use failover.Crates.Buffer.{Buffer, IsBuffer}
use failover.Crates.Checksum.{Checksum}
use failover.Crates.Ipnet.{Ipnet}
use failover.StateMachine.{init}
use failover.Router.{VirtualRouter, Env, Effect, remove_mac_vlan}
use failover.Observer.Shutdown.{Finds, remove_mac_vlans-both}
use failover.General.{AddressFamily, mac_vlan_name}
use failover.CoreTasks.Steps.{Input, started, World, step, run, at_start}
use failover.CoreTasks.Steps.Invariants.{run-SameConfig}
use failover.CoreTasks.Processes.{Sockets, Views, Happening, signal}
use failover.Run.{Host, TaskItems, set_up, first_notify}
use failover.Run.Setup.{HasV6Side, set_up_lem}
use failover.Run.Serve.{finished, stop, spawn_all, or_network}
use failover.Run.Serve.Ends.{serve_ends, serve-Ended}
use failover.Run.Serve.Shutdown.{first_notify-step, stop-IsShutDown, stop-poisoned}

-- A router in INIT, whose last requests were the removals of its two mac-vlans.
pub record IsRemoved (v4_name v6_name : Str) (w : World) : Type 0 where
  pub state : w.mutex.router.fsm.state ≡ init
  pub earlier : List Effect
  pub removes : w.history ≡ earlier ++ remove_mac_vlan v4_name ∷ remove_mac_vlan v6_name ∷ []

module _ (b : Buffer) (c : Checksum) (n : Ipnet) (lawful : IsBuffer b) (host : Host)
    (vr : VirtualRouter) (items : TaskItems) (version : vr.version ≡ v3)
    (done : set_up host vr ≡ ok items) where
  abbrev name_of : AddressFamily → Str
  name_of family = mac_vlan_name vr.network_interface vr.vrid family

  -- After the start and some inputs.
  abbrev after_inputs : List (Env × Input) → World
  after_inputs inputs = run b c n ((host.on_startup, started) ∷ inputs) (at_start items.vrouter)

  after_inputs-interfaces :
      (inputs : List (Env × Input))
      → let r = (after_inputs inputs).mutex.router in
        (r.mac_vlan_interface_v4 ≡ name_of AddressFamily.v4)
        × (r.mac_vlan_interface_v6 ≡ some (name_of AddressFamily.v6))
  after_inputs-interfaces inputs =
      let same =
        run-SameConfig b c n lawful ((host.on_startup, started) ∷ inputs)
          (at_start items.vrouter) in
      let (prepared, name, side) = set_up_lem host vr items done in
      let (_, sided) =
        subst (λ v. HasV6Side v vr.network_interface vr.vrid vr.mac_vlan_interface_v6 items) version
          side in
      (
        ap (λ (r : VirtualRouter). r.mac_vlan_interface_v4) same ∙ name,
        ap (λ (r : VirtualRouter). r.mac_vlan_interface_v6) same ∙ sided,
      )

  stop-IsRemoved :
      (inputs : List (Env × Input)) (env : Env)
      → Finds (name_of AddressFamily.v4) env
      → (after_inputs inputs).mutex.poisoned ≡ false
      → IsRemoved
          (name_of AddressFamily.v4)
          (name_of AddressFamily.v6)
          (stop b c n env (after_inputs inputs))
  stop-IsRemoved inputs env finds usable =
      let w = after_inputs inputs in
      let (name, sided) = after_inputs-interfaces inputs in
      let (o, over, router, history) =
        stop-IsShutDown b c n env w usable (subst (λ i. Finds i env) (sym name) finds) in
      let v6 = remove_mac_vlan (name_of AddressFamily.v6) ∷ [] in
      record {
        state = ap (λ (r : VirtualRouter). r.fsm.state) router ∙ over.state;
        earlier = w.history ++ over.earlier;
        removes =
            history
            ∙ ap (λ (l : List Effect). w.history ++ l)
                (over.removes
                  ∙ ap (λ (l : List Effect). over.earlier ++ l)
                      (remove_mac_vlans-both w.mutex.router (name_of AddressFamily.v6) sided
                        ∙ ap (λ (i : Str). remove_mac_vlan i ∷ v6) name))
            ∙ sym (append_assoc w.history over.earlier _);
      }

  stop_removes :
      (inputs : List (Env × Input)) (env : Env) (w : World)
      → Finds (name_of AddressFamily.v4) env
      → w
        ≡ stop b c n env
            (run b c n inputs (step b c n (host.on_startup, started) (at_start items.vrouter)))
      → (w.mutex.poisoned ≡ true)
        ⊎ IsRemoved (name_of AddressFamily.v4) (name_of AddressFamily.v6) w
  unfolding run
  stop_removes inputs env w finds last = elim (Bool-cases (after_inputs inputs).mutex.poisoned) [
    | inl poisoned ↦ inl (
        ap (λ (x : World). x.mutex.poisoned) last
        ∙ stop-poisoned b c n env (after_inputs inputs) poisoned)
    | inr usable ↦ inr (
        subst (IsRemoved (name_of AddressFamily.v4) (name_of AddressFamily.v6)) (sym last)
          (stop-IsRemoved inputs env finds usable))
  ]

  -- A version 3 router: once it is set up, its first notification succeeds and the signal handler
  -- is registered, the run comes to its end if a signal comes, whatever happens before it, VRRP
  -- packets of both families included; if the router's IPv4 mac-vlan is found at each look-up,
  -- then, unless a panic has poisoned the lock, the router is in INIT and the last that was asked
  -- for are the removals of its IPv4 mac-vlan and of its IPv6 one.
  pub run_removes_both :
      (s : Sockets) (views : Views) (w : World) (before later : List (Env × Happening)) (env : Env)
      → first_notify n host items ≡ ok w
      → All (λ h. Finds (name_of AddressFamily.v4) h.0) (before ++ (env, signal) ∷ later)
      → (w' : World) × (failover.Run.Serve.run b c n views host s none
            (before ++ (env, signal) ∷ later)
            vr
          ≡ ok (finished w'))
        × ((w'.mutex.poisoned ≡ true)
            ⊎ IsRemoved (name_of AddressFamily.v4) (name_of AddressFamily.v6) w')
  unfolding failover.Run.Serve.run
  run_removes_both s views w before later env notified finds =
      let tasks = spawn_all host.on_startup.big_endian s items in
      let (w', ends) = serve_ends b c n views before later env tasks w in
      let e =
        serve-Ended b c n views (Finds (name_of AddressFamily.v4)) (before ++ (env, signal) ∷ later)
          tasks w w' finds ends in
      let last =
        e.last
        ∙ ap (λ (x : World). stop b c n e.env (run b c n e.inputs x))
            (first_notify-step b c n host items w notified) in
      (w', rw (done, notified, ends) refl, stop_removes e.inputs e.env w' e.at last)
