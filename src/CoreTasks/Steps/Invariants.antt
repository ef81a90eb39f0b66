-- ===== src/CoreTasks/Steps/Invariants.antt =====
-- What holds of a router after any inputs, in any order (src/core_tasks.rs, src/lib.rs).
use mathlib.Core.List.{append-nil}
use failover.Base.{
  ◌≡◌, refl, sym, ap, ◌∙◌, subst, Bool, true, false, ◌||◌, List, [], ◌∷◌, ◌++◌, arith, Str, any,
  str_eq,
}
use failover.Crates.Buffer.{Buffer, IsBuffer}
use failover.Crates.Checksum.{Checksum}
use failover.Crates.Ipnet.{Ipnet}
use failover.StateMachine.{init, set_advert_timer}
use failover.Router.{VirtualRouter, Effect, Env, send_advertisement, str_ipv4_addresses}
use failover.Observer.Laws.{
  IsConsistent, SameConfig, notify_mut-IsConsistent, notify_mut-SameConfig,
}
use failover.Observer.Ownership.{
  assigned, assigned-append, assigned_quiet, is_master, IsV4Address, send_advertisement-IsQuiet,
  notify_mut-IsOwned,
}
use failover.Handlers.Transition.{process_decoded-IsConsistent, process_decoded-SameConfig}
use failover.Handlers.Ownership.{process_decoded-IsOwned}
use failover.Net.{IpAddr}
use failover.CoreTasks.{Received, packet, vrrp_round, vrrp_v6_round}
use failover.CoreTasks.Steps.{
  Input, panics, vrrp, vrrp_v6, arp, ndp, tick, started, stopped, World, at_start, handle, step,
  run,
}
use failover.CoreTasks.Steps.Cases.{HoldsInAllWays, handle_holds}

module _ (b : Buffer) (c : Checksum) (n : Ipnet) (lawful : IsBuffer b) where
  -- The step keeps what `step` keeps of the router, so any run does.
  run_keeps {ℓ} :
      (P : World → Type ℓ)
      → ((input : Env × Input) (w : World) → P w → P (step b c n input w))
      → (inputs : List (Env × Input)) (w : World) → P w
      → P (run b c n inputs w)
  unfolding run
  run_keeps P keeps [] w h = h
  run_keeps P keeps (input ∷ inputs) w h =
      run_keeps P keeps inputs (step b c n input w) (keeps input w h)

  IsConsistent-ways :
      (env : Env) (vr : VirtualRouter)
      → IsConsistent vr.fsm
      → HoldsInAllWays n env vr (λ r effects. IsConsistent r.fsm)
  unfolding set_advert_timer
  IsConsistent-ways env vr h = record {
    processed = λ ttl pkt. process_decoded-IsConsistent n env ttl pkt vr h;
    unheard = record {
      alone = λ effects quiet. h;
      notified = λ event. notify_mut-IsConsistent n env event vr h;
      readvertised = λ e. ground arith;
    };
  }

  -- Whatever packets, ticks, starts and stops come, in whatever order, a timer that is the one of
  -- the router's state, with a deadline unless the state is INIT, stays so.
  pub run-IsConsistent :
      (inputs : List (Env × Input)) (w : World)
      → IsConsistent w.mutex.router.fsm
      → IsConsistent (run b c n inputs w).mutex.router.fsm
  unfolding step
  run-IsConsistent inputs w h =
      run_keeps (λ w. IsConsistent w.mutex.router.fsm)
        (λ (env, input) w h.
          handle_holds b c n env w (λ r effects. IsConsistent r.fsm) lawful
            (IsConsistent-ways env w.mutex.router h) input)
        inputs w h

  SameConfig-ways :
      (env : Env) (vr : VirtualRouter) → HoldsInAllWays n env vr (λ r effects. SameConfig vr r)
  SameConfig-ways env vr = record {
    processed = λ ttl pkt. process_decoded-SameConfig n env ttl pkt vr;
    unheard = record {
      alone = λ effects quiet. refl;
      notified = λ event. notify_mut-SameConfig n env event vr;
      readvertised = λ e. refl;
    };
  }

  pub handle-SameConfig :
      (env : Env) (input : Input) (w : World)
      → SameConfig w.mutex.router (handle b c n env input w).router
  handle-SameConfig env input w =
      handle_holds b c n env w (λ r effects. SameConfig w.mutex.router r) lawful
        (SameConfig-ways env w.mutex.router) input

  -- Whatever packets, ticks, starts and stops come, in whatever order, nothing of a router but
  -- its state machine changes.
  pub run-SameConfig :
      (inputs : List (Env × Input)) (w : World)
      → SameConfig w.mutex.router (run b c n inputs w).mutex.router
  unfolding step
  run-SameConfig inputs w =
      run_keeps (λ w'. SameConfig w.mutex.router w'.mutex.router)
        (λ (env, input) w' h.
          ap (λ (r : VirtualRouter). record r { fsm = w.mutex.router.fsm })
            (handle-SameConfig env input w')
          ∙ h)
        inputs w refl

  module _ (a iface : Str) where
    -- The address is one of the router's, and the kernel has it exactly if the router is MASTER.
    record IsTracked (w : World) : Type 0 where
      on : w.mutex.router.mac_vlan_interface_v4 ≡ iface
      address : IsV4Address n w.mutex.router a
      owned : assigned iface a false w.history ≡ is_master w.mutex.router.fsm.state

    owned_ways :
        (env : Env) (vr : VirtualRouter) (held : Bool)
        → IsV4Address n vr a
        → held ≡ is_master vr.fsm.state
        → HoldsInAllWays n env vr
            (λ r effects. assigned vr.mac_vlan_interface_v4 a held effects ≡ is_master r.fsm.state)
    unfolding set_advert_timer
    owned_ways env vr held address h = record {
      processed = λ ttl pkt. process_decoded-IsOwned n env pkt vr a address ttl held h;
      unheard = record {
        alone = λ effects quiet. assigned_quiet _ a held effects quiet ∙ h;
        notified = λ event. notify_mut-IsOwned n env vr a address event held h;
        readvertised = λ e.
            assigned_quiet _ a held (send_advertisement vr) (send_advertisement-IsQuiet vr) ∙ h;
      };
    }

    step-IsTracked :
        (input : Env × Input) (w : World) → IsTracked w → IsTracked (step b c n input w)
    unfolding step
    step-IsTracked (env, input) w h =
        let same = handle-SameConfig env input w in
        let held = assigned iface a false w.history in
        record {
          on = ap (λ (r : VirtualRouter). r.mac_vlan_interface_v4) same ∙ h.on;
          address = record {
            listed =
                ap (λ (r : VirtualRouter). any (λ x. str_eq x a) (str_ipv4_addresses n r)) same
                ∙ h.address.listed;
            v4_only = ap (λ (r : VirtualRouter). r.mac_vlan_interface_v6) same ∙ h.address.v4_only;
          };
          owned =
              assigned-append iface a false w.history _
              ∙ subst
                  (λ i.
                    assigned i a held (handle b c n env input w).effects
                    ≡ is_master (handle b c n env input w).router.fsm.state)
                  h.on
                  (handle_holds b c n env w
                    (λ r effects.
                      assigned w.mutex.router.mac_vlan_interface_v4 a held effects
                      ≡ is_master r.fsm.state)
                    lawful (owned_ways env w.mutex.router held h.address h.owned) input);
        }

  -- For a router with no IPv6 side that starts in INIT: after any inputs, in any order, the kernel
  -- has each of the router's addresses exactly if the router is MASTER, where every address action
  -- succeeds.
  pub run_owned :
      (a : Str) (vr : VirtualRouter) (inputs : List (Env × Input))
      → IsV4Address n vr a
      → vr.fsm.state ≡ init
      → let w = run b c n inputs (at_start vr) in
        assigned vr.mac_vlan_interface_v4 a false w.history ≡ is_master w.mutex.router.fsm.state
  run_owned a vr inputs address start =
      (run_keeps (IsTracked a vr.mac_vlan_interface_v4) (step-IsTracked a vr.mac_vlan_interface_v4)
        inputs (at_start vr)
        (record { on = refl; address = address; owned = sym (ap is_master start) })).owned

  -- Once a panic has poisoned the lock, no input changes the router any more.
  handle_poisoned :
      (env : Env) (input : Input) (w : World)
      → w.mutex.poisoned ≡ true
      → ((handle b c n env input w).router ≡ w.mutex.router)
        × ((handle b c n env input w).effects ≡ [])
  unfolding handle vrrp_round vrrp_v6_round
  handle_poisoned env (vrrp (packet p)) w h = ground arith
  handle_poisoned env (vrrp (Received.failed e)) w h = (refl, refl)
  handle_poisoned env (vrrp Received.unreadable) w h = (refl, refl)
  handle_poisoned env (vrrp_v6 (packet (payload, IpAddr.v6 src))) w h = ground arith
  handle_poisoned env (vrrp_v6 (packet (payload, IpAddr.v4 src))) w h = (refl, refl)
  handle_poisoned env (vrrp_v6 (Received.failed e)) w h = (refl, refl)
  handle_poisoned env (vrrp_v6 Received.unreadable) w h = (refl, refl)
  handle_poisoned env (arp (packet p)) w h = ground arith
  handle_poisoned env (arp (Received.failed e)) w h = (refl, refl)
  handle_poisoned env (arp Received.unreadable) w h = (refl, refl)
  handle_poisoned env (ndp (packet (payload, src))) w h = ground arith
  handle_poisoned env (ndp (Received.failed e)) w h = (refl, refl)
  handle_poisoned env (ndp Received.unreadable) w h = (refl, refl)
  handle_poisoned env tick w h = ground arith
  handle_poisoned env started w h = ground arith
  handle_poisoned env stopped w h = ground arith

  -- Once a panic has poisoned the lock, no packets, ticks, starts or stops change the router or
  -- ask for anything any more.
  pub run_poisoned :
      (inputs : List (Env × Input)) (w : World)
      → w.mutex.poisoned ≡ true
      → ((run b c n inputs w).mutex.router ≡ w.mutex.router)
        × ((run b c n inputs w).history ≡ w.history)
  unfolding step
  run_poisoned inputs w h =
      let all =
        run_keeps
          (λ w'.
            (w'.mutex.poisoned ≡ true)
            × (w'.mutex.router ≡ w.mutex.router)
            × (w'.history ≡ w.history))
          (λ (env, input) w' same.
            let idle = handle_poisoned env input w' same.0 in
            (
              ap (λ (p : Bool). p || panics (handle b c n env input w').result) same.0,
              idle.0 ∙ same.1,
              ap (λ (effects : List Effect). w'.history ++ effects) idle.1
                  ∙ append-nil w'.history
                  ∙ same.2,
            ))
          inputs w (h, refl, refl) in
      (all.1, all.2)
