-- ===== src/Run/Serve/Course/Turns.antt =====
-- The turns, the tasks and the panics of `run` (src/lib.rs), as the code and as the course have them.
use failover.Base.{
  ◌≡◌, ◌⊎◌, ◌↔◌, inl, inr, refl, true, false, ◌==◌, Bool, none, some, arith, Bool-cases, ==_iff,
}
use failover.Error.{Result, ok, err, panic, NetworkError}
use failover.Network.Listeners.{Turn, not_readable, would_block, datagram}
use failover.CoreTasks.Steps.{Input, vrrp, vrrp_v6, arp, ndp, tick, started, stopped, World, panics}
use failover.CoreTasks.Processes.{
  Views, Happening, on_vrrp, on_vrrp_v6, on_arp, on_ndp, ticks, signal, input_of,
}
use failover.Run.Serve.{Tasks, runs, end_if, is_signal, all_ended}
use failover.Run.Serve.Course.{
  Brings, Silent, RunsFor, without, NoneRuns, vrrp_wait, vrrp_read, vrrp_comes, vrrp_v6_wait,
  vrrp_v6_read, vrrp_v6_comes, arp_wait, arp_read, arp_comes, ndp_wait, ndp_read, ndp_comes,
  tick_comes, vrrp_blocks, vrrp_v6_blocks, arp_blocks, ndp_blocks, own_frame,
}

module _ (views : Views) where
  pub Brings-input_of :
      {h : Happening} {input : Input} → Brings views h input → input_of views h ≡ some input
  unfolding input_of
  Brings-input_of (vrrp_wait e) = refl
  Brings-input_of (vrrp_read e) = refl
  Brings-input_of (vrrp_comes bytes addr) = ground arith
  Brings-input_of (vrrp_v6_wait e) = refl
  Brings-input_of (vrrp_v6_read e) = refl
  Brings-input_of (vrrp_v6_comes bytes addr) = ground arith
  Brings-input_of (arp_wait e) = refl
  Brings-input_of (arp_read e) = refl
  Brings-input_of (arp_comes bytes pkttype other) = ground (arith, other)
  Brings-input_of (ndp_wait e) = refl
  Brings-input_of (ndp_read e) = refl
  Brings-input_of (ndp_comes bytes addr) = ground arith
  Brings-input_of tick_comes = refl

  pub Silent-input_of : {h : Happening} → Silent h → input_of views h ≡ none
  unfolding input_of
  Silent-input_of vrrp_blocks = refl
  Silent-input_of vrrp_v6_blocks = refl
  Silent-input_of arp_blocks = refl
  Silent-input_of ndp_blocks = refl
  Silent-input_of (own_frame bytes pkttype own) = ground (arith, own)

  pub Brings-is_signal :
      {h : Happening} {input : Input} → Brings views h input → is_signal h ≡ false
  Brings-is_signal (vrrp_wait e) = refl
  Brings-is_signal (vrrp_read e) = refl
  Brings-is_signal (vrrp_comes bytes addr) = refl
  Brings-is_signal (vrrp_v6_wait e) = refl
  Brings-is_signal (vrrp_v6_read e) = refl
  Brings-is_signal (vrrp_v6_comes bytes addr) = refl
  Brings-is_signal (arp_wait e) = refl
  Brings-is_signal (arp_read e) = refl
  Brings-is_signal (arp_comes bytes pkttype other) = refl
  Brings-is_signal (ndp_wait e) = refl
  Brings-is_signal (ndp_read e) = refl
  Brings-is_signal (ndp_comes bytes addr) = refl
  Brings-is_signal tick_comes = refl

  pub Silent-is_signal : {h : Happening} → Silent h → is_signal h ≡ false
  Silent-is_signal vrrp_blocks = refl
  Silent-is_signal vrrp_v6_blocks = refl
  Silent-is_signal arp_blocks = refl
  Silent-is_signal ndp_blocks = refl
  Silent-is_signal (own_frame bytes pkttype own) = refl

  -- Every happening is a signal, or silent, or brings an input.
  abbrev pub Read : Happening → Type 0
  Read h = (h ≡ signal) ⊎ (Silent h ⊎ ((input : Input) × Brings views h input))

  pub reads : (h : Happening) → Read h
  reads (on_vrrp (not_readable e)) = inr (inr (_, vrrp_wait e))
  reads (on_vrrp would_block) = inr (inl vrrp_blocks)
  reads (on_vrrp (Turn.failed e)) = inr (inr (_, vrrp_read e))
  reads (on_vrrp (datagram bytes addr)) = inr (inr (_, vrrp_comes bytes addr))
  reads (on_vrrp_v6 (not_readable e)) = inr (inr (_, vrrp_v6_wait e))
  reads (on_vrrp_v6 would_block) = inr (inl vrrp_v6_blocks)
  reads (on_vrrp_v6 (Turn.failed e)) = inr (inr (_, vrrp_v6_read e))
  reads (on_vrrp_v6 (datagram bytes addr)) = inr (inr (_, vrrp_v6_comes bytes addr))
  reads (on_arp (not_readable e)) = inr (inr (_, arp_wait e))
  reads (on_arp would_block) = inr (inl arp_blocks)
  reads (on_arp (Turn.failed e)) = inr (inr (_, arp_read e))
  reads (on_arp (datagram bytes pkttype)) = elim (Bool-cases (pkttype == 4)) [
    | inl own ↦ inr (inl (own_frame bytes pkttype ((==_iff pkttype 4).0 own)))
    | inr other ↦ inr (inr (_, arp_comes bytes pkttype (λ e. ground (arith, other, e))))
  ]
  reads (on_ndp (not_readable e)) = inr (inr (_, ndp_wait e))
  reads (on_ndp would_block) = inr (inl ndp_blocks)
  reads (on_ndp (Turn.failed e)) = inr (inr (_, ndp_read e))
  reads (on_ndp (datagram bytes addr)) = inr (inr (_, ndp_comes bytes addr))
  reads ticks = inr (inr (_, tick_comes))
  reads signal = inl refl

pub RunsFor-runs :
    (tasks : Tasks) (w : World) (input : Input) (r : Bool)
    → RunsFor tasks w input r
    → runs tasks w.ticking input ≡ r
RunsFor-runs tasks w (vrrp received) r h = h
RunsFor-runs tasks w (vrrp_v6 received) r h = h
RunsFor-runs tasks w (arp received) r h = h
RunsFor-runs tasks w (ndp received) r h = h
RunsFor-runs tasks w tick r h = h
RunsFor-runs tasks w started r h = h
RunsFor-runs tasks w stopped r h = h

pub runs-RunsFor :
    (tasks : Tasks) (w : World) (input : Input) (r : Bool)
    → runs tasks w.ticking input ≡ r
    → RunsFor tasks w input r
runs-RunsFor tasks w (vrrp received) r h = h
runs-RunsFor tasks w (vrrp_v6 received) r h = h
runs-RunsFor tasks w (arp received) r h = h
runs-RunsFor tasks w (ndp received) r h = h
runs-RunsFor tasks w tick r h = h
runs-RunsFor tasks w started r h = h
runs-RunsFor tasks w stopped r h = h

pub end_if-without : (input : Input) (tasks : Tasks) → end_if true input tasks ≡ without input tasks
end_if-without (vrrp received) tasks = refl
end_if-without (vrrp_v6 received) tasks = refl
end_if-without (arp received) tasks = refl
end_if-without (ndp received) tasks = refl
end_if-without tick tasks = refl
end_if-without started tasks = refl
end_if-without stopped tasks = refl

pub end_if_not : (input : Input) (tasks : Tasks) → end_if false input tasks ≡ tasks
end_if_not (vrrp received) tasks = refl
end_if_not (vrrp_v6 received) tasks = refl
end_if_not (arp received) tasks = refl
end_if_not (ndp received) tasks = refl
end_if_not tick tasks = refl
end_if_not started tasks = refl
end_if_not stopped tasks = refl

pub panics_iff : (r : Result NetworkError (Unit {0})) → (panics r ≡ true) ↔ (r ≡ panic)
panics_iff (ok t) = (λ h. cc, λ h. cc)
panics_iff (err e) = (λ h. cc, λ h. cc)
panics_iff panic = (λ h. refl, λ h. refl)

pub all_ended_iff : (tasks : Tasks) (w : World) → (all_ended tasks w ≡ true) ↔ NoneRuns tasks w
all_ended_iff tasks w = (λ h. ground arith, λ h. ground arith)

pub RunsFor-all_ended :
    (tasks : Tasks) (w : World) (input : Input) → RunsFor tasks w input true → ¬ NoneRuns tasks w
RunsFor-all_ended tasks w (vrrp received) runs none_runs = ground (arith, runs, none_runs.0)
RunsFor-all_ended tasks w (vrrp_v6 received) runs none_runs = ground (arith, runs, none_runs.1)
RunsFor-all_ended tasks w (arp received) runs none_runs = ground (arith, runs, none_runs.2)
RunsFor-all_ended tasks w (ndp received) runs none_runs = ground (arith, runs, none_runs.3)
RunsFor-all_ended tasks w tick runs none_runs = ground (arith, runs, none_runs.4)
RunsFor-all_ended tasks w started runs none_runs = ground (arith, runs)
RunsFor-all_ended tasks w stopped runs none_runs = ground (arith, runs)
