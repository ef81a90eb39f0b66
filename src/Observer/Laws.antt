-- ===== src/Observer/Laws.antt =====
-- What `EventObserver::notify_mut` (src/observer.rs) keeps, and what each event does.
use mathlib.Core.List.{append-nil}
use failover.Base.{List, ℕ, ◌≡◌, Bool, true, false, [], Option, none, some, arith}
use failover.Crates.Ipnet.{Ipnet}
use failover.StateMachine.{
  State, init, backup, master, TimerType, adver, Event, VirtualRouterMachine,
}
use failover.Router.{VirtualRouter, Env, send_gratuitous_arps}
use failover.Observer.{notify_mut, announce_ownership, v6_interface_mac, mac_of_v6, announce_v6}

-- The timer that runs in each state.
abbrev pub timer_for : State → TimerType
timer_for init = TimerType.null
timer_for backup = TimerType.master_down
timer_for master = adver

abbrev pub is_armed : Option ℕ → Bool
is_armed none = false
is_armed (some deadline) = true

abbrev pub needs_deadline : State → Bool
needs_deadline init = false
needs_deadline backup = true
needs_deadline master = true

-- The timer is the one of the state, and has a deadline unless the state is INIT.
pub record IsConsistent (fsm : VirtualRouterMachine) : Type 0 where
  pub right_timer : fsm.timer.t_type ≡ timer_for fsm.state
  pub deadline : is_armed fsm.timer.waiting_for ≡ needs_deadline fsm.state

-- Only the state machine may have changed.
abbrev pub SameConfig : VirtualRouter → VirtualRouter → Type 0
SameConfig vr vr' = record vr' { fsm = vr.fsm } ≡ vr

module _ (n : Ipnet) (env : Env) where
  pub notify_mut-IsConsistent :
      (event : Event) (vr : VirtualRouter)
      → IsConsistent vr.fsm
      → IsConsistent (notify_mut n env event vr).router.fsm
  unfolding notify_mut
  notify_mut-IsConsistent event vr h = ground arith

  pub notify_mut-SameConfig :
      (event : Event) (vr : VirtualRouter) → SameConfig vr (notify_mut n env event vr).router
  unfolding notify_mut
  notify_mut-SameConfig event vr = ground arith

  -- The event `Null` does nothing but look the interface up.
  pub notify_mut_null :
      (vr : VirtualRouter)
      → ((notify_mut n env Event.null vr).router ≡ vr)
        × ((notify_mut n env Event.null vr).effects ≡ [])
  unfolding notify_mut
  notify_mut_null vr = ground arith

-- Without an IPv6 side, only gratuitous ARPs announce the addresses.
pub announce_ownership-v4_only :
    (env : Env) (vr : VirtualRouter) (mac : List ℕ)
    → vr.mac_vlan_interface_v6 ≡ none
    → announce_ownership env vr mac ≡ send_gratuitous_arps env.big_endian vr mac
unfolding announce_ownership v6_interface_mac mac_of_v6 announce_v6
announce_ownership-v4_only env vr mac v4_only = rw v4_only (append-nil _)
