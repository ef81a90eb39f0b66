-- ===== src/Handlers/Ownership.antt =====
-- Which virtual addresses the kernel has after a VRRP packet (src/pkt/handlers.rs).
use mathlib.Core.List.{append-nil}
use failover.Base.{
  ℕ, ◌≡◌, refl, ◌∙◌, ◌==◌, ◌*◌, ◌/◌, Bool, true, false, not, ◌&&◌, List, [], ◌∷◌, ◌++◌, Str,
  str_eq_refl, arith, All, as_u8, All-append, if_cases, ltb,
}
use failover.Error.{
  ip_count_mismatch, ip_list_mismatch, bad_ttl, vrid_mismatch, advert_interval_mismatch,
}
use failover.Version
use failover.Version.{VrrpAddresses, add, delete}
use failover.Crates.Ipnet.{Ipnet}
use failover.StateMachine.{State, init, backup, master, Event, VirtualRouterMachine}
use failover.Packet.{VrrpPacket}
use failover.Router.{
  VirtualRouter, Env, Effect, address_action, log_drop, send_advertisement, str_ipv4_addresses,
}
use failover.Observer.{Outcome}
use failover.Observer.Laws.{notify_mut_null}
use failover.Observer.Ownership.{
  assigned, assigned-append, assigned_quiet, IsQuiet, is_master, IsV4Address, IsOwned,
  send_advertisement-IsQuiet,
}
use failover.Handlers.{
  unchanged, addr_check, count_check, expected_count, process_decoded, family_side, on_side,
  in_state, in_backup, in_master, then_notify, to_backup,
}
use failover.Handlers.Reaction.{IsLog}

module _ (n : Ipnet) (env : Env) (ttl : ℕ) (pkt : VrrpPacket) (vr : VirtualRouter) where
  -- The handler either reports and stops, or goes on with the interface of the packet's family.
  pub process_decoded_cases {ℓ} :
      (P : Outcome → Type ℓ)
      → ((logs : List Effect) → All IsLog logs → P (unchanged vr logs))
      → ((logs : List Effect)
          → All IsLog logs
          → P (on_side n env pkt (family_side n vr pkt.addresses) logs vr))
      → P (process_decoded n env ttl pkt vr)
  unfolding process_decoded
  process_decoded_cases P stop go =
      let count_mismatch =
        log_drop (
          ip_count_mismatch (expected_count vr pkt.addresses)
            (as_u8 (Version.len pkt.addresses))) in
      let logged =
        if_cases (All IsLog) (count_check vr pkt.addresses) {x = []} {y = count_mismatch ∷ []} tt
          (tt, tt) in
      let mismatch : List Effect = log_drop ip_list_mismatch ∷ [] in
      if_cases P (not (ttl == 255)) (stop (log_drop (bad_ttl ttl) ∷ []) (tt, tt)) (
        if_cases P (not (pkt.vrid == vr.vrid))
          (stop (log_drop (vrid_mismatch vr.vrid pkt.vrid) ∷ []) (tt, tt))
          (if_cases P (not (pkt.adver_int_cs == vr.advert_interval * 100))
            (stop
              (log_drop
                  (advert_interval_mismatch vr.advert_interval (as_u8 (pkt.adver_int_cs / 100)))
                ∷ [])
              (tt, tt))
            (if_cases P (not (count_check vr pkt.addresses) && not (pkt.priority == 255))
              (stop _ logged)
              (if_cases P (not (addr_check vr pkt.addresses) && not (pkt.priority == 255))
                (stop _ (All-append IsLog _ mismatch logged (tt, tt))) (go _ logged)))))

pub IsLog-IsQuiet : (effects : List Effect) → All IsLog effects → All IsQuiet effects
IsLog-IsQuiet [] h = tt
IsLog-IsQuiet (e ∷ effects) h = (ground arith, IsLog-IsQuiet effects h.1)

module _ (n : Ipnet) (env : Env) (pkt : VrrpPacket) (vr : VirtualRouter) (a : Str)
    (address : IsV4Address n vr a) where
  abbrev v4_side : Str × List Str
  v4_side = (vr.mac_vlan_interface_v4, str_ipv4_addresses n vr)

  then_add :
      (held : Bool) (logs : List Effect)
      → assigned vr.mac_vlan_interface_v4 a held
          (logs ++ address_action add (str_ipv4_addresses n vr) vr.mac_vlan_interface_v4 ∷ [])
        ≡ true
  then_add held logs =
      assigned-append _ a held logs _
      ∙ ground (arith, address.listed, str_eq_refl vr.mac_vlan_interface_v4)

  then_delete :
      (held : Bool) (logs : List Effect)
      → assigned vr.mac_vlan_interface_v4 a held
          (logs ++ address_action delete (str_ipv4_addresses n vr) vr.mac_vlan_interface_v4 ∷ [])
        ≡ false
  then_delete held logs =
      assigned-append _ a held logs _
      ∙ ground (arith, address.listed, str_eq_refl vr.mac_vlan_interface_v4)

  in_backup-IsOwned :
      (held : Bool) (logs : List Effect)
      → held ≡ is_master vr.fsm.state
      → vr.fsm.state ≡ backup
      → All IsLog logs
      → IsOwned a vr held (in_backup env pkt v4_side logs vr)
  unfolding in_backup
  in_backup-IsOwned held logs h e quiet = ground (
    arith,
    assigned_quiet vr.mac_vlan_interface_v4 a held logs (IsLog-IsQuiet logs quiet),
    then_add held logs,
  )

  -- A MASTER that steps down deletes its addresses, whichever way.
  step_down-IsOwned :
      (held : Bool) (logs : List Effect) (fsm : VirtualRouterMachine)
      → IsOwned a vr held (
          then_notify n env
            (logs ++ address_action delete (str_ipv4_addresses n vr) vr.mac_vlan_interface_v4 ∷ [])
            (to_backup env fsm vr))
  unfolding then_notify to_backup
  step_down-IsOwned held logs fsm = ground (
    arith,
    then_delete held logs,
    notify_mut_null n env (to_backup env fsm vr),
    append-nil
        (logs ++ address_action delete (str_ipv4_addresses n vr) vr.mac_vlan_interface_v4 ∷ []),
  )

  in_master-IsOwned :
      (held : Bool) (logs : List Effect)
      → held ≡ is_master vr.fsm.state
      → vr.fsm.state ≡ master
      → All IsLog logs
      → IsOwned a vr held (in_master n env pkt v4_side logs vr)
  unfolding in_master
  in_master-IsOwned held logs h e quiet =
      let stays = assigned_quiet vr.mac_vlan_interface_v4 a held logs (IsLog-IsQuiet logs quiet) in
      if_cases (IsOwned a vr held) (pkt.priority == 0)
        (assigned-append _ a held logs (send_advertisement vr)
          ∙ assigned_quiet _ a _ (send_advertisement vr) (send_advertisement-IsQuiet vr)
          ∙ stays
          ∙ h)
        (if_cases (IsOwned a vr held) (ltb vr.priority pkt.priority)
          (step_down-IsOwned held logs vr.fsm)
          (if_cases (IsOwned a vr held) (pkt.priority == vr.priority)
            (step_down-IsOwned held logs (record vr.fsm { event = Event.null })) (stays ∙ h)))

  in_state-IsOwned :
      (state : State) (held : Bool) (logs : List Effect)
      → held ≡ is_master vr.fsm.state
      → vr.fsm.state ≡ state
      → All IsLog logs
      → IsOwned a vr held (in_state state n env pkt v4_side logs vr)
  unfolding in_state
  in_state-IsOwned init held logs h e quiet =
      assigned_quiet _ a held logs (IsLog-IsQuiet logs quiet) ∙ h
  in_state-IsOwned backup held logs h e quiet = in_backup-IsOwned held logs h e quiet
  in_state-IsOwned master held logs h e quiet = in_master-IsOwned held logs h e quiet

  on_side-IsOwned :
      (addresses : VrrpAddresses) (held : Bool) (logs : List Effect)
      → held ≡ is_master vr.fsm.state
      → All IsLog logs
      → IsOwned a vr held (on_side n env pkt (family_side n vr addresses) logs vr)
  unfolding on_side family_side
  on_side-IsOwned (VrrpAddresses.v4 addrs) held logs h quiet =
      in_state-IsOwned vr.fsm.state held logs h refl quiet
  on_side-IsOwned (VrrpAddresses.v6 addrs) held logs h quiet =
      rw (address.v4_only, family_side)
        (assigned_quiet _ a held logs (IsLog-IsQuiet logs quiet) ∙ h)

  -- For a router with no IPv6 side and one of its IPv4 addresses: if the kernel has the address
  -- exactly if the router is MASTER, then so it does after any decoded packet, where every
  -- address action succeeds.
  pub process_decoded-IsOwned :
      (ttl : ℕ) (held : Bool)
      → held ≡ is_master vr.fsm.state
      → IsOwned a vr held (process_decoded n env ttl pkt vr)
  process_decoded-IsOwned ttl held h =
      process_decoded_cases n env ttl pkt vr (IsOwned a vr held)
        (λ logs quiet. assigned_quiet _ a held logs (IsLog-IsQuiet logs quiet) ∙ h)
        (λ logs quiet. on_side-IsOwned pkt.addresses held logs h quiet)
