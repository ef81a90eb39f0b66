-- ===== src/Handlers/Neighbors/Solicited.antt =====
-- Who answers a neighbor solicitation, and with what (src/pkt/handlers.rs and src/packet.rs together).
use failover.Base.{
  ℕ, ◌≡◌, ◌<◌, ◌⊎◌, refl, inl, inr, true, false, List, [], ◌∷◌, ◌++◌, Option, none, some, Str,
  length, be_bytes, size, Bool-cases,
}
use failover.Error.{Result, ok, err, panic, NetworkError}
use failover.Net.{NetworkInterface}
use failover.StateMachine.{State, init, backup, master}
use failover.Ndp.{NdpNeighborSolicitation, decode_solicitation}
use failover.Ndp.Checked.{decode_solicitation_target}
use failover.Router.{VirtualRouter, Env, Effect, send_advert_na}
use failover.Observer.{Outcome, Mutex, get_interface}
use failover.Handlers.Neighbors.{
  handle_incoming_ndp_pkt, ndp_on_side, ndp_in_state, ndp_solicited, ndp_on_interface, na_with_mac,
  owns_v6,
}

-- The advertisement that claims `target` for the MAC address.
abbrev pub claim : Str → ℕ → List ℕ → Effect
claim v6_iface target mac =
    send_advert_na v6_iface target
      (record { target_address = target; target_link_addr = mac; override_flag = true })

-- A MASTER that has an IPv6 side claims one of its addresses, for which it was solicited.
pub record IsAnswer (payload : List ℕ) (vr : VirtualRouter) (effects : List Effect) : Type 0 where
  pub master : vr.fsm.state ≡ State.master
  pub v6_iface : Str
  pub side : vr.mac_vlan_interface_v6 ≡ some v6_iface
  pub target : ℕ
  pub solicited : decode_solicitation payload ≡ some (record { target_address = target })
  pub owned : owns_v6 vr target ≡ true
  pub mac : List ℕ
  pub claimed : effects ≡ claim v6_iface target mac ∷ []

abbrev IsQuietOr : List ℕ → VirtualRouter → Outcome → Type 0
IsQuietOr payload vr o = (o.router ≡ vr) × ((o.effects ≡ []) ⊎ IsAnswer payload vr o.effects)

module _ (env : Env) (payload : List ℕ) (vr : VirtualRouter) (v6_iface : Str)
    (side : vr.mac_vlan_interface_v6 ≡ some v6_iface) (state : vr.fsm.state ≡ master) where
  on_interface-Quiet :
      (ns : NdpNeighborSolicitation)
      → decode_solicitation payload ≡ some ns
      → owns_v6 vr ns.target_address ≡ true
      → (r : Result NetworkError NetworkInterface)
      → IsQuietOr payload vr (ndp_on_interface v6_iface ns r vr)
  unfolding ndp_on_interface
  on_interface-Quiet ns read owned (err e) = (refl, inl refl)
  on_interface-Quiet ns read owned panic = (refl, inl refl)
  on_interface-Quiet ns read owned (ok i) = (refl, with_mac i.mac)
    where
      with_mac :
          (mac : Option (List ℕ))
          → (na_with_mac v6_iface ns mac ≡ []) ⊎ IsAnswer payload vr (na_with_mac v6_iface ns mac)
      with_mac none = inl refl
      with_mac (some mac) = inr (record {
        master = state;
        v6_iface = v6_iface;
        side = side;
        target = ns.target_address;
        solicited = read;
        owned = owned;
        mac = mac;
        claimed = refl;
      })

  solicited-Quiet :
      (o : Option NdpNeighborSolicitation)
      → decode_solicitation payload ≡ o
      → IsQuietOr payload vr (ndp_solicited env v6_iface o vr)
  unfolding ndp_solicited
  solicited-Quiet none read = (refl, inl refl)
  solicited-Quiet (some ns) read = elim (Bool-cases (owns_v6 vr ns.target_address)) [
    | inl owned ↦
        rw owned (on_interface-Quiet ns read owned (get_interface env.interfaces v6_iface))
    | inr other ↦ rw other (refl, inl refl)
  ]

module _ (env : Env) (payload : List ℕ) where
  in_state-Quiet :
      (vr : VirtualRouter) (v6_iface : Str) (state : State)
      → vr.mac_vlan_interface_v6 ≡ some v6_iface
      → vr.fsm.state ≡ state
      → IsQuietOr payload vr (ndp_in_state env payload v6_iface state vr)
  unfolding ndp_in_state
  in_state-Quiet vr v6_iface init side e = (refl, inl refl)
  in_state-Quiet vr v6_iface backup side e = (refl, inl refl)
  in_state-Quiet vr v6_iface master side e =
      solicited-Quiet env payload vr v6_iface side e (decode_solicitation payload) refl

  on_side-Quiet :
      (vr : VirtualRouter) (side : Option Str)
      → vr.mac_vlan_interface_v6 ≡ side
      → IsQuietOr payload vr (ndp_on_side env payload side vr)
  unfolding ndp_on_side
  on_side-Quiet vr none e = (refl, inl refl)
  on_side-Quiet vr (some v6_iface) e = in_state-Quiet vr v6_iface vr.fsm.state e refl

  -- A neighbor discovery message never changes the router; it is answered only by a MASTER that
  -- has an IPv6 side, only if it is a solicitation for one of the router's IPv6 addresses, and
  -- then with one advertisement that claims just that address.
  pub ndp_answered_by_master :
      (src_ip : ℕ) (m : Mutex)
      → let o = handle_incoming_ndp_pkt env payload src_ip m in
        (o.router ≡ m.router) × ((o.effects ≡ []) ⊎ IsAnswer payload m.router o.effects)
  unfolding handle_incoming_ndp_pkt
  ndp_answered_by_master src_ip m = elim (Bool-cases m.poisoned) [
    | inl bad ↦ rw bad (refl, inl refl)
    | inr usable ↦ rw usable (on_side-Quiet m.router m.router.mac_vlan_interface_v6 refl)
  ]

-- A MASTER with a lock that is not poisoned and an IPv6 interface that is there and has a MAC
-- address answers every solicitation, that is, the byte 135, any seven bytes, the target and any
-- options, for one of its IPv6 addresses, from whatever source: with one advertisement on that
-- interface that claims the address for the MAC address.
pub ndp_master_answers :
    (env : Env) (head options : List ℕ) (target src_ip : ℕ) (m : Mutex) (v6_iface : Str)
    (i : NetworkInterface) (mac : List ℕ)
    → length head ≡ 7
    → target < size 16
    → m.poisoned ≡ false
    → m.router.fsm.state ≡ master
    → m.router.mac_vlan_interface_v6 ≡ some v6_iface
    → get_interface env.interfaces v6_iface ≡ ok i
    → i.mac ≡ some mac
    → owns_v6 m.router target ≡ true
    → let payload = 135 ∷ (head ++ (be_bytes 16 target ++ options)) in
      let o = handle_incoming_ndp_pkt env payload src_ip m in
      (o.effects ≡ claim v6_iface target mac ∷ []) × (o.result ≡ ok tt)
unfolding handle_incoming_ndp_pkt ndp_on_side ndp_in_state ndp_solicited ndp_on_interface
    na_with_mac
ndp_master_answers env head options target src_ip m v6_iface i mac seven fits usable state side
      found has owned =
    rw
      (
        usable,
        side,
        state,
        decode_solicitation_target head options target seven fits,
        owned,
        found,
        has,
      )
      (refl, refl)
