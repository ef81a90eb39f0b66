-- ===== src/Handlers/Reaction.antt =====
-- What the handler of src/pkt/handlers.rs does on an acceptable advertisement, as a table of its
-- transitions (Protocol compares it with RFC 3768 section 6.4), and what an acceptable one is, after
-- the checks of section 7.1.
use failover.Base.{
  ℕ, ◌+◌, ◌*◌, ◌≡◌, ◌≢◌, refl, ◌⊎◌, Bool, true, false, ◌&&◌, List, [], ◌∷◌, none, some, arith,
  length, All, all, ◌↔◌, ==_iff, &&_iff,
}
use failover.Version.{VrrpAddresses}
use failover.Float.{as_f32, from_secs_f32, F32}
use failover.StateMachine.{State, init, backup, master, Timer, TimerType, adver}
use failover.Packet.{VrrpPacket}
use failover.Router.{VirtualRouter, Effect, log_drop, ipv4_addrs, ipv6_addrs}
use failover.Handlers.{contains, count_check, addr_check}

-- What an acceptable advertisement makes the router do.
pub data Reaction : Type 0 where
  ignore restart_skew restart_down readvertise take_over step_down : Reaction

abbrev backup_reaction : Bool → Bool → Bool → Reaction
backup_reaction true _ _ = restart_skew
backup_reaction false true true = take_over
backup_reaction false _ _ = restart_down

abbrev master_reaction : Bool → Bool → Reaction
master_reaction true _ = readvertise
master_reaction false true = ignore
master_reaction false false = step_down

-- The handler's transitions. `lower`: the packet's priority is below the router's own.
abbrev pub react : State → (preempt lower resigned : Bool) → Reaction
react init preempt lower resigned = ignore
react backup preempt lower resigned = backup_reaction resigned preempt lower
react master preempt lower resigned = master_reaction resigned lower

abbrev pub state_after : Reaction → State → State
state_after take_over s = master
state_after step_down s = backup
state_after _ s = s

abbrev pub timer_at : ℕ → TimerType → F32 → Timer
timer_at now t_type duration = record {
  t_type = t_type;
  remaining_time = duration;
  waiting_for = some (now + from_secs_f32 duration);
}

abbrev pub timer_after : Reaction → ℕ → VirtualRouter → Timer
timer_after ignore now vr = vr.fsm.timer
timer_after restart_skew now vr = timer_at now TimerType.master_down vr.skew_time
timer_after restart_down now vr = timer_at now TimerType.master_down vr.master_down_interval
timer_after step_down now vr = timer_at now TimerType.master_down vr.master_down_interval
timer_after readvertise now vr = timer_at now adver (as_f32 vr.advert_interval)
timer_after take_over now vr = timer_at now adver (as_f32 vr.advert_interval)

-- The address is one of the list.
abbrev pub IsAmong : List ℕ → ℕ → Type 0
IsAmong [] a = ⊥
IsAmong (x ∷ xs) a = (x ≡ a) ⊎ IsAmong xs a

-- As many addresses as are configured, each of them configured, in the packet's family.
abbrev pub SameAddresses : VirtualRouter → VrrpAddresses → Type 0
SameAddresses vr (VrrpAddresses.v4 addrs) =
    (length addrs ≡ length vr.ipv4_addresses) × All (IsAmong (ipv4_addrs vr)) addrs
SameAddresses vr (VrrpAddresses.v6 addrs) =
    (length addrs ≡ length vr.ipv6_addresses) × All (IsAmong (ipv6_addrs vr)) addrs

-- The router has an interface for the packet's family.
abbrev pub HasSide : VirtualRouter → VrrpAddresses → Type 0
HasSide vr (VrrpAddresses.v4 addrs) = Unit {0}
HasSide vr (VrrpAddresses.v6 addrs) = vr.mac_vlan_interface_v6 ≢ none

-- The checks that a packet has to pass; the owner of the addresses need not list them right.
pub record IsAcceptable (ttl : ℕ) (pkt : VrrpPacket) (vr : VirtualRouter) : Type 0 where
  pub hop : ttl ≡ 255
  pub same_vrid : pkt.vrid ≡ vr.vrid
  pub same_interval : pkt.adver_int_cs ≡ vr.advert_interval * 100
  pub addressed : (pkt.priority ≡ 255) ⊎ SameAddresses vr pkt.addresses
  pub sided : HasSide vr pkt.addresses

contains_iff : (xs : List ℕ) (a : ℕ) → (contains xs a ≡ true) ↔ IsAmong xs a
contains_iff [] a = (λ h. cc, λ h. absurd h)
contains_iff (x ∷ xs) a =
    let ih = contains_iff xs a in (λ h. ground (arith, ih.0), λ h. ground (arith, ih.1))

all-contains_iff : (xs addrs : List ℕ) → (all (contains xs) addrs ≡ true) ↔ All (IsAmong xs) addrs
all-contains_iff xs [] = (λ h. tt, λ h. refl)
all-contains_iff xs (a ∷ addrs) =
    let ih = all-contains_iff xs addrs in
    let here = contains_iff xs a in
    (
      λ h. (here.0 (((&&_iff _ _).0 h).0), ih.0 (((&&_iff _ _).0 h).1)),
      λ h. (&&_iff _ _).1 (here.1 h.0, ih.1 h.1),
    )

pub checks_iff :
    (vr : VirtualRouter) (addresses : VrrpAddresses)
    → ((count_check vr addresses && addr_check vr addresses) ≡ true) ↔ SameAddresses vr addresses
unfolding count_check addr_check
checks_iff vr (VrrpAddresses.v4 addrs) =
    let iff = all-contains_iff (ipv4_addrs vr) addrs in
    (
      λ h. ((==_iff _ _).0 (((&&_iff _ _).0 h).0), iff.0 (((&&_iff _ _).0 h).1)),
      λ h. (&&_iff _ _).1 ((==_iff _ _).1 h.0, iff.1 h.1),
    )
checks_iff vr (VrrpAddresses.v6 addrs) =
    let iff = all-contains_iff (ipv6_addrs vr) addrs in
    (
      λ h. ((==_iff _ _).0 (((&&_iff _ _).0 h).0), iff.0 (((&&_iff _ _).0 h).1)),
      λ h. (&&_iff _ _).1 ((==_iff _ _).1 h.0, iff.1 h.1),
    )

-- Nothing but reports of dropped packets.
abbrev pub IsLog : Effect → Type 0
IsLog (log_drop reason) = Unit {0}
IsLog _ = ⊥
