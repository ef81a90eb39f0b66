-- ===== src/Handlers/Asked.antt =====
-- What the handler of src/pkt/handlers.rs sends and asks of the kernel.
use mathlib.Core.List.{append-nil}
use failover.Base.{
  ℕ, ◌*◌, ◌≡◌, refl, sym, ap, ◌∙◌, ◌==◌, ltb, leb, not, ◌&&◌, List, [], ◌∷◌, ◌++◌, map, Option,
  none, some, Str, arith, if◌then◌else◌, All, if_cases, as_u8,
}
use failover.Error.{ip_count_mismatch}
use failover.Version
use failover.Version.{VrrpAddresses, add, delete}
use failover.Crates.Ipnet.{Ipnet}
use failover.StateMachine.{State, init, backup, master}
use failover.Packet.{VrrpPacket}
use failover.Router.{
  VirtualRouter, Effect, log_drop, address_action, send_vrrp_v4, send_vrrp_v6, send_advertisement,
  Env,
}
use failover.Observer.Laws.{notify_mut_null}
use failover.Handlers.{
  count_check, expected_count, family_side, process_decoded, in_state, in_backup, in_master,
  then_notify, to_backup, on_side,
}
use failover.Handlers.Reaction.{IsAcceptable, IsLog, checks_iff}

-- The router's advertisement in one family, field by field; the interval is in centiseconds.
abbrev message : VirtualRouter → VrrpAddresses → VrrpPacket
message vr addresses = record {
  version = vr.version;
  vrid = vr.vrid;
  priority = vr.priority;
  adver_int_cs = vr.advert_interval * 100;
  addresses = addresses;
}

-- The IPv6 one is sent where there are an IPv6 interface and an IPv6 source address.
abbrev messages6 : VirtualRouter → (iface : Option Str) → (source : Option ℕ) → List Effect
messages6 vr (some iface) (some source) =
    send_vrrp_v6 iface source
      (message vr (VrrpAddresses.v6 (map (λ net. net.addr) vr.ipv6_addresses)))
    ∷ []
messages6 vr none source = []
messages6 vr (some iface) none = []

abbrev messages : VirtualRouter → List Effect
messages vr =
    send_vrrp_v4 vr.mac_vlan_interface_v4 vr.primary_ip
      (message vr (VrrpAddresses.v4 (map (λ net. net.addr) vr.ipv4_addresses)))
    ∷ messages6 vr vr.mac_vlan_interface_v6 vr.primary_ip_v6

-- The interface and the printed addresses of the family that the packet lists.
abbrev pub IsSide : Ipnet → VirtualRouter → VrrpAddresses → Str → List Str → Type 0
IsSide n vr (VrrpAddresses.v4 addrs) iface printed =
    (iface ≡ vr.mac_vlan_interface_v4) × (printed ≡ map n.to_string4 vr.ipv4_addresses)
IsSide n vr (VrrpAddresses.v6 addrs) iface printed =
    (vr.mac_vlan_interface_v6 ≡ some iface) × (printed ≡ map n.to_string6 vr.ipv6_addresses)

-- What a router of the given state asks for on a packet of the priority `heard`.
abbrev pub asked : State → (heard : ℕ) → VirtualRouter → Str → List Str → List Effect
asked init heard vr iface printed = []
asked backup heard vr iface printed =
    if not (heard == 0) && (vr.preempt_mode && ltb heard vr.priority)
    then address_action add printed iface ∷ []
    else []
asked master heard vr iface printed =
    if heard == 0
    then messages vr
    else if leb vr.priority heard
    then address_action delete printed iface ∷ []
    else []

family_side-IsSide :
    (n : Ipnet) (vr : VirtualRouter) (addresses : VrrpAddresses) (iface : Str) (printed : List Str)
    → IsSide n vr addresses iface printed
    → family_side n vr addresses ≡ some (iface, printed)
unfolding family_side
family_side-IsSide n vr (VrrpAddresses.v4 addrs) iface printed h = rw (h.0, h.1) refl
family_side-IsSide n vr (VrrpAddresses.v6 addrs) iface printed h = rw (h.0, h.1) refl

send_advertisement-messages : (vr : VirtualRouter) → send_advertisement vr ≡ messages vr
unfolding send_advertisement
send_advertisement-messages vr = go vr.mac_vlan_interface_v6 vr.primary_ip_v6
  where
    go :
        (iface : Option Str) (source : Option ℕ)
        → send_advertisement (record vr { mac_vlan_interface_v6 = iface; primary_ip_v6 = source })
          ≡ messages (record vr { mac_vlan_interface_v6 = iface; primary_ip_v6 = source })
    go none none = refl
    go none (some source) = refl
    go (some iface) none = refl
    go (some iface) (some source) = refl

module _ (n : Ipnet) (env : Env) (pkt : VrrpPacket) (side : Str × List Str)
    (vr : VirtualRouter) where
  then_notify-effects :
      (effects : List Effect) (vr' : VirtualRouter)
      → (then_notify n env effects vr').effects ≡ effects
  unfolding then_notify
  then_notify-effects effects vr' =
      ap (λ (e : List Effect). effects ++ e) (notify_mut_null n env vr').1 ∙ append-nil effects

  in_state-effects :
      (logs : List Effect) (state : State)
      → (in_state state n env pkt side logs vr).effects
        ≡ logs ++ asked state pkt.priority vr side.0 side.1
  unfolding in_state in_backup in_master
  in_state-effects logs init = sym (append-nil logs)
  in_state-effects logs backup = ground (arith, append-nil logs)
  in_state-effects logs master =
      let effects = logs ++ address_action delete side.1 side.0 ∷ [] in
      ground (
        arith,
        append-nil logs,
        send_advertisement-messages vr,
        then_notify-effects effects (to_backup env vr.fsm vr),
        then_notify-effects effects
            (to_backup env (record vr.fsm { event = failover.StateMachine.null }) vr),
      )

module _ (n : Ipnet) (env : Env) (ttl : ℕ) (pkt : VrrpPacket) (vr : VirtualRouter) where
  -- On an acceptable packet of a family that the router has an interface for, what the router
  -- asks for is, after reports of dropped packets at most, exactly this: as a MASTER that hears
  -- the priority 0, its IPv4 advertisement and, with an IPv6 interface and source address, its
  -- IPv6 one, from those interfaces and addresses and with all its fields; as a MASTER that hears
  -- another priority which is not below its own, the deletion of its addresses of the packet's
  -- family, as ipnet prints them, from the interface of that family; as a BACKUP that preempts
  -- and hears a lower priority, not 0, their addition there, with neither an advertisement nor an
  -- announcement; and otherwise nothing.
  pub process_decoded-effects :
      (iface : Str) (printed : List Str)
      → IsAcceptable ttl pkt vr
      → IsSide n vr pkt.addresses iface printed
      → (logs : List Effect) × All IsLog logs
        × ((process_decoded n env ttl pkt vr).effects
            ≡ logs ++ asked vr.fsm.state pkt.priority vr iface printed)
  unfolding process_decoded on_side
  process_decoded-effects iface printed acceptable sided =
      let count_mismatch =
        log_drop (
          ip_count_mismatch (expected_count vr pkt.addresses)
            (as_u8 (Version.len pkt.addresses))) in
      let logs : List Effect = if count_check vr pkt.addresses then [] else count_mismatch ∷ [] in
      (
        logs,
        if_cases (All IsLog) (count_check vr pkt.addresses) {x = []} {y = count_mismatch ∷ []} tt
            (tt, tt),
        ground (
          arith,
          checks_iff vr pkt.addresses,
          family_side-IsSide n vr pkt.addresses iface printed sided,
          in_state-effects n env pkt (iface, printed) vr logs vr.fsm.state,
        ),
      )
