-- ===== src/CoreTasks/Steps/DualStack.antt =====
-- Runs of a router with both families that hears no VRRP packet (src/core_tasks.rs and
-- src/observer.rs together).
use failover.Base.{◌≡◌, refl, sym, ap, ◌∙◌, subst, Bool, false, List, [], ◌∷◌, Str, All}
use failover.Crates.Buffer.{Buffer, IsBuffer}
use failover.Crates.Checksum.{Checksum}
use failover.Crates.Ipnet.{Ipnet}
use failover.StateMachine.{init, set_advert_timer}
use failover.Router.{VirtualRouter, Env, send_advertisement}
use failover.Observer.{add_virtual_addresses, delete_virtual_addresses}
use failover.Observer.Laws.{SameConfig}
use failover.Observer.Ownership.{
  assigned, assigned-append, assigned_quiet, is_master, send_advertisement-IsQuiet, IsControlled,
  notify_mut-IsOwnedOn,
}
use failover.Observer.DualStack.{IsDualStack, v4-IsControlled, v6-IsControlled}
use failover.CoreTasks.Steps.{Input, World, at_start, step, run}
use failover.CoreTasks.Steps.Cases.{HoldsUnheard, IsUnheard, handle_unheard}
use failover.CoreTasks.Steps.Invariants.{handle-SameConfig}

IsControlled-SameConfig :
    (n : Ipnet) (vr vr' : VirtualRouter) (iface a : Str)
    → SameConfig vr vr'
    → IsControlled n vr iface a
    → IsControlled n vr' iface a
unfolding add_virtual_addresses delete_virtual_addresses
IsControlled-SameConfig n vr vr' iface a same controlled =
    let there = subst (λ (r : VirtualRouter). IsControlled n r iface a) (sym same) controlled in
    record { added = there.added; deleted = there.deleted }

module _ (b : Buffer) (c : Checksum) (n : Ipnet) (lawful : IsBuffer b) where
  module _ (vr : VirtualRouter) (iface a : Str) (controlled : IsControlled n vr iface a) where
    -- The router is still this one, and the kernel has the address exactly if it is MASTER.
    record IsTracked (w : World) : Type 0 where
      same : SameConfig vr w.mutex.router
      owned : assigned iface a false w.history ≡ is_master w.mutex.router.fsm.state

    owned_unheard :
        (env : Env) (r : VirtualRouter) (held : Bool)
        → IsControlled n r iface a
        → held ≡ is_master r.fsm.state
        → HoldsUnheard n env r
            (λ r' effects. assigned iface a held effects ≡ is_master r'.fsm.state)
    unfolding set_advert_timer
    owned_unheard env r held there h = record {
      alone = λ effects quiet. assigned_quiet iface a held effects quiet ∙ h;
      notified = λ event. notify_mut-IsOwnedOn n env r iface a there event held h;
      readvertised = λ e.
          assigned_quiet iface a held (send_advertisement r) (send_advertisement-IsQuiet r) ∙ h;
    }

    step-IsTracked :
        (env : Env) (input : Input) (w : World)
        → IsUnheard input
        → IsTracked w
        → IsTracked (step b c n (env, input) w)
    unfolding step
    step-IsTracked env input w quiet h =
        let held = assigned iface a false w.history in
        record {
          same =
              ap (λ (r : VirtualRouter). record r { fsm = vr.fsm })
                (handle-SameConfig b c n lawful env input w)
              ∙ h.same;
          owned =
              assigned-append iface a false w.history _
              ∙ handle_unheard b c n env w
                  (λ r effects. assigned iface a held effects ≡ is_master r.fsm.state)
                  (owned_unheard env w.mutex.router held
                    (IsControlled-SameConfig n vr w.mutex.router iface a h.same controlled) h.owned)
                  input quiet;
        }

    run-IsTracked :
        (inputs : List (Env × Input)) (w : World)
        → All (λ (input : Env × Input). IsUnheard input.1) inputs
        → IsTracked w
        → IsTracked (run b c n inputs w)
    unfolding run
    run-IsTracked [] w quiet h = h
    run-IsTracked ((env, input) ∷ inputs) w quiet h =
        run-IsTracked inputs (step b c n (env, input) w) quiet.1
          (step-IsTracked env input w quiet.0 h)

    run_owned_on :
        (inputs : List (Env × Input))
        → vr.fsm.state ≡ init
        → All (λ (input : Env × Input). IsUnheard input.1) inputs
        → let w = run b c n inputs (at_start vr) in
          assigned iface a false w.history ≡ is_master w.mutex.router.fsm.state
    run_owned_on inputs start quiet =
        (run-IsTracked inputs (at_start vr) quiet
          (record { same = refl; owned = sym (ap is_master start) })).owned

  -- A router that has the state INIT and its IPv4 and IPv6 sides on two interfaces: whatever ticks,
  -- starts, stops, ARP frames and neighbor discovery messages come, in whatever order, but no VRRP
  -- packets, the kernel has each of its IPv4 addresses on the one and each of its IPv6 addresses on
  -- the other exactly if the router is MASTER, where it carries out every address action and has
  -- none of them at the start.
  pub run_owns_both :
      (vr : VirtualRouter) (v6_iface a4 a6 : Str) (inputs : List (Env × Input))
      → IsDualStack n vr v6_iface a4 a6
      → vr.fsm.state ≡ init
      → All (λ (input : Env × Input). IsUnheard input.1) inputs
      → let w = run b c n inputs (at_start vr) in
        (assigned vr.mac_vlan_interface_v4 a4 false w.history ≡ is_master w.mutex.router.fsm.state)
        × (assigned v6_iface a6 false w.history ≡ is_master w.mutex.router.fsm.state)
  run_owns_both vr v6_iface a4 a6 inputs dual start quiet = (
    run_owned_on vr vr.mac_vlan_interface_v4 a4 (v4-IsControlled n vr v6_iface a4 a6 dual) inputs
        start quiet,
    run_owned_on vr v6_iface a6 (v6-IsControlled n vr v6_iface a4 a6 dual) inputs start quiet,
  )
