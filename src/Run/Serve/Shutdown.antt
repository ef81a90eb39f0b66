-- ===== src/Run/Serve/Shutdown.antt =====
-- `run` (src/lib.rs) from its setup to the end that a signal brings.
use failover.Base.{
  ◌≡◌, ◌⊎◌, refl, sym, ap, ◌∙◌, subst, true, false, List, [], ◌∷◌, ◌++◌, none, Str, str_eq, any,
  All, Bool-cases, inl, inr,
}
use mathlib.Core.List.{append_assoc}
use failover.Error.{Result, ok, err, panic, NetworkError}
use failover.Version.{v2}
use failover.Crates.Buffer.{Buffer, IsBuffer}
use failover.Crates.Checksum.{Checksum}
use failover.Crates.Ipnet.{Ipnet}
use failover.StateMachine.{init, Event, startup, shutdown}
use failover.Router.{VirtualRouter, Env, Effect, remove_mac_vlan, str_ipv4_addresses}
use failover.Observer.{Outcome, Mutex, notify, notify_mut}
use failover.Observer.Ownership.{assigned, is_master}
use failover.Observer.Shutdown.{Finds, IsShutDown, notify_mut-IsShutDown, remove_mac_vlans-alone}
use failover.General.{AddressFamily, mac_vlan_name}
use failover.CoreTasks.Steps.{Input, started, stopped, World, panics, handle, step, run, at_start}
use failover.CoreTasks.Steps.Invariants.{run-SameConfig}
use failover.CoreTasks.Processes.{Sockets, Views, Happening, signal}
use failover.Run.{Host, TaskItems, set_up, after_startup, first_notify}
use failover.Run.Setup.{HasV6Side, set_up_lem, set_up_owned}
use failover.Run.Serve.{Tasks, Progress, finished, stop, serve, spawn_all, or_network}
use failover.Run.Serve.Ends.{run-append, serve_ends, serve-Ended}

-- A router in INIT, with none of its addresses on its mac-vlan, whose removal was the last that was
-- asked for.
pub record IsReleased (name a : Str) (w : World) : Type 0 where
  pub state : w.mutex.router.fsm.state ≡ init
  pub released : assigned name a false w.history ≡ false
  pub earlier : List Effect
  pub removes : w.history ≡ earlier ++ remove_mac_vlan name ∷ []

after_startup-World :
    (router : VirtualRouter) (effects : List Effect) (result : Result NetworkError (Unit {0}))
    (w : World)
    → after_startup router effects result ≡ ok w
    → w ≡ record {
      mutex = record { poisoned = panics result; router = router };
      ticking = true;
      history = effects;
    }
unfolding after_startup
after_startup-World router effects (ok t) w h = cc
after_startup-World router effects (err e) w h = cc
after_startup-World router effects panic w h = cc

module _ (n : Ipnet) where
  notify-usable :
      (env : Env) (event : Event) (m : Mutex)
      → m.poisoned ≡ false
      → notify n env event m ≡ notify_mut n env event m.router
  unfolding notify
  notify-usable env event m usable = rw usable refl

module _ (b : Buffer) (c : Checksum) (n : Ipnet) where
  -- The first notification is the input at the start.
  pub first_notify-step :
      (host : Host) (items : TaskItems) (w : World)
      → first_notify n host items ≡ ok w
      → w ≡ step b c n (host.on_startup, started) (at_start items.vrouter)
  unfolding first_notify step
  first_notify-step host items w h =
      after_startup-World _ _
        (notify n host.on_startup startup
          (record { poisoned = false; router = items.vrouter })).result
        w h

  -- The shutdown of a router with a lock that is not poisoned.
  pub stop-IsShutDown :
      (env : Env) (w : World)
      → w.mutex.poisoned ≡ false
      → Finds w.mutex.router.mac_vlan_interface_v4 env
      → (o : Outcome) × IsShutDown w.mutex.router o
        × ((stop b c n env w).mutex.router ≡ o.router)
        × ((stop b c n env w).history ≡ w.history ++ o.effects)
  unfolding stop handle
  stop-IsShutDown env w usable finds =
      let same = notify-usable n env shutdown w.mutex usable in
      (
        notify_mut n env shutdown w.mutex.router,
        notify_mut-IsShutDown n env w.mutex.router finds,
        ap (λ (o : Outcome). o.router) same,
        ap (λ (o : Outcome). w.history ++ o.effects) same,
      )

  -- A poisoned lock stays so.
  pub stop-poisoned :
      (env : Env) (w : World) → w.mutex.poisoned ≡ true → (stop b c n env w).mutex.poisoned ≡ true
  unfolding stop
  stop-poisoned env w h = rw h refl

module _ (b : Buffer) (c : Checksum) (n : Ipnet) (lawful : IsBuffer b) (host : Host)
    (vr : VirtualRouter) (items : TaskItems) (a : Str) (version : vr.version ≡ v2)
    (v4_only : vr.mac_vlan_interface_v6 ≡ none) (start : vr.fsm.state ≡ init)
    (listed : any (λ x. str_eq x a) (str_ipv4_addresses n vr) ≡ true)
    (done : set_up host vr ≡ ok items) where
  abbrev interface_name : Str
  interface_name = mac_vlan_name vr.network_interface vr.vrid AddressFamily.v4

  -- After the start and some inputs.
  abbrev after_inputs : List (Env × Input) → World
  after_inputs inputs = run b c n ((host.on_startup, started) ∷ inputs) (at_start items.vrouter)

  stop-run :
      (inputs : List (Env × Input)) (env : Env)
      → run b c n
          (((host.on_startup, started) ∷ inputs) ++ (env, stopped) ∷ [])
          (at_start items.vrouter)
        ≡ stop b c n env (after_inputs inputs)
  unfolding stop run
  stop-run inputs env =
      run-append b c n inputs ((env, stopped) ∷ [])
        (step b c n (host.on_startup, started) (at_start items.vrouter))

  after_inputs-interfaces :
      (inputs : List (Env × Input))
      → ((after_inputs inputs).mutex.router.mac_vlan_interface_v6 ≡ none)
        × ((after_inputs inputs).mutex.router.mac_vlan_interface_v4 ≡ interface_name)
  after_inputs-interfaces inputs =
      let same =
        run-SameConfig b c n lawful ((host.on_startup, started) ∷ inputs)
          (at_start items.vrouter) in
      let (prepared, name, side) = set_up_lem host vr items done in
      let (none_v6, kept) =
        subst (λ v. HasV6Side v vr.network_interface vr.vrid vr.mac_vlan_interface_v6 items) version
          side in
      (
        ap (λ (r : VirtualRouter). r.mac_vlan_interface_v6) same ∙ kept ∙ v4_only,
        ap (λ (r : VirtualRouter). r.mac_vlan_interface_v4) same ∙ name,
      )

  stop-IsReleased :
      (inputs : List (Env × Input)) (env : Env)
      → Finds interface_name env
      → (after_inputs inputs).mutex.poisoned ≡ false
      → IsReleased interface_name a (stop b c n env (after_inputs inputs))
  stop-IsReleased inputs env finds usable =
      let w = after_inputs inputs in
      let (no_v6, name) = after_inputs-interfaces inputs in
      let (o, over, router, history) =
        stop-IsShutDown b c n env w usable (subst (λ i. Finds i env) (sym name) finds) in
      let in_init : (stop b c n env w).mutex.router.fsm.state ≡ init =
        ap (λ (r : VirtualRouter). r.fsm.state) router ∙ over.state in
      record {
        state = in_init;
        released =
            subst
              (λ (x : World).
                assigned interface_name a false x.history ≡ is_master x.mutex.router.fsm.state)
              (stop-run inputs env)
              (set_up_owned b c n host vr items a
                (((host.on_startup, started) ∷ inputs) ++ (env, stopped) ∷ []) lawful version
                v4_only start listed done)
            ∙ ap is_master in_init;
        earlier = w.history ++ over.earlier;
        removes =
            history
            ∙ ap (λ (l : List Effect). w.history ++ l)
                (over.removes
                  ∙ ap (λ (l : List Effect). over.earlier ++ l)
                      (remove_mac_vlans-alone w.mutex.router no_v6))
            ∙ ap (λ (i : Str). w.history ++ (over.earlier ++ remove_mac_vlan i ∷ [])) name
            ∙ sym (append_assoc w.history over.earlier _);
      }

  stop-ends :
      (inputs : List (Env × Input)) (env : Env) (w : World)
      → Finds interface_name env
      → w
        ≡ stop b c n env
            (run b c n inputs (step b c n (host.on_startup, started) (at_start items.vrouter)))
      → (w.mutex.poisoned ≡ true) ⊎ IsReleased interface_name a w
  unfolding run
  stop-ends inputs env w finds last = elim (Bool-cases (after_inputs inputs).mutex.poisoned) [
    | inl poisoned ↦ inl (
        ap (λ (x : World). x.mutex.poisoned) last
        ∙ stop-poisoned b c n env (after_inputs inputs) poisoned)
    | inr usable ↦
        inr
          (subst (IsReleased interface_name a) (sym last) (stop-IsReleased inputs env finds usable))
  ]

  -- A version 2 router with no IPv6 side, from INIT: once it is set up, its first notification
  -- succeeds and the signal handler is registered, the run comes to its end if a signal comes,
  -- whatever happens before it; if the router's mac-vlan is found at each look-up, then, unless a
  -- panic has poisoned the lock, the router is in INIT, the kernel has none of its IPv4 addresses
  -- on the mac-vlan, where it carries out every address action and had none before, and the last
  -- that was asked for is the removal of that mac-vlan.
  pub run_shuts_down :
      (s : Sockets) (views : Views) (w : World) (before later : List (Env × Happening)) (env : Env)
      → first_notify n host items ≡ ok w
      → All (λ h. Finds interface_name h.0) (before ++ (env, signal) ∷ later)
      → (w' : World) × (failover.Run.Serve.run b c n views host s none
            (before ++ (env, signal) ∷ later)
            vr
          ≡ ok (finished w'))
        × ((w'.mutex.poisoned ≡ true) ⊎ IsReleased interface_name a w')
  unfolding failover.Run.Serve.run
  run_shuts_down s views w before later env notified finds =
      let tasks = spawn_all host.on_startup.big_endian s items in
      let (w', ends) = serve_ends b c n views before later env tasks w in
      let e =
        serve-Ended b c n views (Finds interface_name) (before ++ (env, signal) ∷ later) tasks w w'
          finds ends in
      let last =
        e.last
        ∙ ap (λ (x : World). stop b c n e.env (run b c n e.inputs x))
            (first_notify-step b c n host items w notified) in
      (w', rw (done, notified, ends) refl, stop-ends e.inputs e.env w' e.at last)
