-- ===== src/Run/DualStack.antt =====
-- A router of version 3 from its setup on (src/lib.rs), while it hears no VRRP packet.
use failover.Base.{
  ℕ, ◌≡◌, ◌≢◌, ◌<◌, sym, ap, ◌∙◌, subst, true, false, List, Str, str_eq, str_eq_iff, any, All,
  Bool-cases, inl, inr,
}
use failover.Error.{ok}
use failover.Version.{v3}
use failover.Crates.Buffer.{Buffer, IsBuffer}
use failover.Crates.Checksum.{Checksum}
use failover.Crates.Ipnet.{Ipnet}
use failover.StateMachine.{init}
use failover.Router.{VirtualRouter, Env, str_ipv4_addresses, str_ipv6_addresses}
use failover.Observer.Ownership.{assigned, is_master}
use failover.General.{AddressFamily, mac_vlan_name}
use failover.General.Names.{mac_vlan_name-inj}
use failover.CoreTasks.Steps.{Input, at_start, run}
use failover.CoreTasks.Steps.Cases.{IsUnheard}
use failover.CoreTasks.Steps.DualStack.{run_owns_both}
use failover.Run.{Host, TaskItems, set_up}
use failover.Run.Setup.{HasV6Side, set_up_lem}

str_eq_apart : (s t : Str) → s ≢ t → str_eq s t ≡ false
str_eq_apart s t apart = elim (Bool-cases (str_eq s t)) [
  | inl same ↦ absurd (apart ((str_eq_iff s t).0 same))
  | inr other ↦ other
]

-- The two mac-vlans of one router have different names.
families_apart :
    (parent : Str) (vrid : ℕ)
    → vrid < 256
    → mac_vlan_name parent vrid AddressFamily.v4 ≢ mac_vlan_name parent vrid AddressFamily.v6
families_apart parent vrid fits same =
    let crossed : AddressFamily.v4 ≡ AddressFamily.v6 =
      (mac_vlan_name-inj parent vrid vrid AddressFamily.v4 AddressFamily.v6 fits fits same).1 in
    cc

module _ (b : Buffer) (c : Checksum) (n : Ipnet) where
  -- From the setup on: a version 3 router that has the state INIT and a VRID that fits its type,
  -- once its setup succeeds, whatever ticks, starts, stops, ARP frames and neighbor discovery
  -- messages come and in whatever order, but no VRRP packets: the kernel has each of its IPv4
  -- addresses on its IPv4 mac-vlan and each of its IPv6 addresses on its IPv6 one exactly if the
  -- router is MASTER, where the kernel carries out every address action and has none of the
  -- addresses at the start.
  pub set_up_owns_both :
      (host : Host) (vr : VirtualRouter) (items : TaskItems) (a4 a6 : Str)
      (inputs : List (Env × Input))
      → IsBuffer b
      → vr.version ≡ v3
      → vr.fsm.state ≡ init
      → vr.vrid < 256
      → any (λ x. str_eq x a4) (str_ipv4_addresses n vr) ≡ true
      → any (λ x. str_eq x a6) (str_ipv6_addresses n vr) ≡ true
      → set_up host vr ≡ ok items
      → All (λ (input : Env × Input). IsUnheard input.1) inputs
      → let w = run b c n inputs (at_start items.vrouter) in
        (assigned (mac_vlan_name vr.network_interface vr.vrid AddressFamily.v4) a4 false w.history
          ≡ is_master w.mutex.router.fsm.state)
        × (assigned (mac_vlan_name vr.network_interface vr.vrid AddressFamily.v6) a6 false w.history
            ≡ is_master w.mutex.router.fsm.state)
  set_up_owns_both host vr items a4 a6 inputs lawful version start fits listed4 listed6 done quiet =
      let (same, name, side) = set_up_lem host vr items done in
      let (_, sided) =
        subst (λ v. HasV6Side v vr.network_interface vr.vrid vr.mac_vlan_interface_v6 items) version
          side in
      let v6_name = mac_vlan_name vr.network_interface vr.vrid AddressFamily.v6 in
      let apart : items.vrouter.mac_vlan_interface_v4 ≢ v6_name =
        λ e. families_apart vr.network_interface vr.vrid fits (sym name ∙ e) in
      let both =
        run_owns_both b c n lawful items.vrouter v6_name a4 a6 inputs
          (record {
            sided = sided;
            apart = str_eq_apart _ _ apart;
            apart' = str_eq_apart _ _ (λ e. apart (sym e));
            listed4 =
                ap (λ (r : VirtualRouter). any (λ x. str_eq x a4) (str_ipv4_addresses n r)) same
                ∙ listed4;
            listed6 =
                ap (λ (r : VirtualRouter). any (λ x. str_eq x a6) (str_ipv6_addresses n r)) same
                ∙ listed6;
          })
          (ap (λ (r : VirtualRouter). r.fsm.state) same ∙ start) quiet in
      (
        subst
            (λ i.
              let w = run b c n inputs (at_start items.vrouter) in
              assigned i a4 false w.history ≡ is_master w.mutex.router.fsm.state)
            name both.0,
        both.1,
      )
