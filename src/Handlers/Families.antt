-- ===== src/Handlers/Families.antt =====
-- A VRRP packet and the addresses of the other family (src/pkt/handlers.rs).
use mathlib.Core.List.{append-nil}
use failover.Base.{
  ℕ, ◌≡◌, sym, ap, ◌∙◌, ◌==◌, Bool, false, List, [], ◌∷◌, ◌++◌, Str, str_eq, arith, All, ltb,
  if_cases, subst,
}
use failover.Version.{VrrpAddresses, AddressAction, add, delete}
use failover.Crates.Ipnet.{Ipnet}
use failover.StateMachine.{State, init, backup, master, Event, VirtualRouterMachine}
use failover.Packet.{VrrpPacket}
use failover.Router.{
  VirtualRouter, Env, Effect, address_action, send_advertisement, str_ipv4_addresses,
}
use failover.Observer.{Outcome}
use failover.Observer.Laws.{notify_mut_null}
use failover.Observer.Ownership.{
  assigned, assigned-append, assigned_quiet, send_advertisement-IsQuiet,
}
use failover.Handlers.{
  process_decoded, family_side, on_side, in_state, in_backup, in_master, then_notify, to_backup,
}
use failover.Handlers.Reaction.{IsLog}
use failover.Handlers.Ownership.{IsLog-IsQuiet, process_decoded_cases}

module _ (n : Ipnet) (env : Env) (pkt : VrrpPacket) (vr : VirtualRouter) (iface a : Str)
    (held : Bool) (apart : str_eq vr.mac_vlan_interface_v4 iface ≡ false) where
  abbrev v4_side : Str × List Str
  v4_side = (vr.mac_vlan_interface_v4, str_ipv4_addresses n vr)

  -- The address on the other interface stays there, or stays away.
  abbrev pub IsKept : Outcome → Type 0
  IsKept o = assigned iface a held o.effects ≡ held

  logs_kept : (logs : List Effect) → All IsLog logs → assigned iface a held logs ≡ held
  logs_kept logs quiet = assigned_quiet iface a held logs (IsLog-IsQuiet logs quiet)

  action_kept :
      (action : AddressAction) (logs : List Effect)
      → All IsLog logs
      → assigned iface a held
          (logs ++ address_action action (str_ipv4_addresses n vr) vr.mac_vlan_interface_v4 ∷ [])
        ≡ held
  action_kept add logs quiet =
      assigned-append iface a held logs _ ∙ ground (arith, apart, logs_kept logs quiet)
  action_kept delete logs quiet =
      assigned-append iface a held logs _ ∙ ground (arith, apart, logs_kept logs quiet)

  in_backup-IsKept :
      (logs : List Effect) → All IsLog logs → IsKept (in_backup env pkt v4_side logs vr)
  unfolding in_backup
  in_backup-IsKept logs quiet = ground (arith, logs_kept logs quiet, action_kept add logs quiet)

  step_down-IsKept :
      (logs : List Effect) (fsm : VirtualRouterMachine)
      → All IsLog logs
      → IsKept (
          then_notify n env
            (logs ++ address_action delete (str_ipv4_addresses n vr) vr.mac_vlan_interface_v4 ∷ [])
            (to_backup env fsm vr))
  unfolding then_notify
  step_down-IsKept logs fsm quiet =
      let effects =
        logs ++ address_action delete (str_ipv4_addresses n vr) vr.mac_vlan_interface_v4 ∷ [] in
      ap (λ (e : List Effect). assigned iface a held e)
        (ap (λ (e : List Effect). effects ++ e) ((notify_mut_null n env (to_backup env fsm vr)).1)
          ∙ append-nil effects)
      ∙ action_kept delete logs quiet

  in_master-IsKept :
      (logs : List Effect) → All IsLog logs → IsKept (in_master n env pkt v4_side logs vr)
  unfolding in_master
  in_master-IsKept logs quiet =
      if_cases IsKept (pkt.priority == 0)
        (assigned-append iface a held logs (send_advertisement vr)
          ∙ assigned_quiet iface a _ (send_advertisement vr) (send_advertisement-IsQuiet vr)
          ∙ logs_kept logs quiet)
        (if_cases IsKept (ltb vr.priority pkt.priority) (step_down-IsKept logs vr.fsm quiet) (
          if_cases IsKept (pkt.priority == vr.priority)
            (step_down-IsKept logs (record vr.fsm { event = Event.null }) quiet)
            (logs_kept logs quiet)))

  in_state-IsKept :
      (state : State) (logs : List Effect)
      → All IsLog logs
      → IsKept (in_state state n env pkt v4_side logs vr)
  unfolding in_state
  in_state-IsKept init logs quiet = logs_kept logs quiet
  in_state-IsKept backup logs quiet = in_backup-IsKept logs quiet
  in_state-IsKept master logs quiet = in_master-IsKept logs quiet

  -- A packet that lists IPv4 addresses leaves the addresses on every interface but the router's
  -- IPv4 mac-vlan as they are, so on that of its IPv6 side too, even where it makes a MASTER step
  -- down or a BACKUP take over.
  pub process_decoded-IsKept :
      (ttl : ℕ) (addrs : List ℕ)
      → pkt.addresses ≡ VrrpAddresses.v4 addrs
      → IsKept (process_decoded n env ttl pkt vr)
  unfolding on_side family_side
  process_decoded-IsKept ttl addrs e =
      process_decoded_cases n env ttl pkt vr IsKept (λ logs quiet. logs_kept logs quiet)
        (λ logs quiet.
          subst (λ addresses. IsKept (on_side n env pkt (family_side n vr addresses) logs vr))
            (sym e) (in_state-IsKept vr.fsm.state logs quiet))
