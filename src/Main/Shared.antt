-- ===== src/Main/Shared.antt =====
-- Two instances that share a mac-vlan, one of each version (src/general.rs, src/core_tasks.rs and
-- src/bin/failover.rs together): what the end of one does to the other.
use failover.Base.{
  ℕ, ◌≡◌, ◌<◌, refl, sym, ap, ◌∙◌, subst, false, List, [], ◌∷◌, ◌++◌, none, Str, arith, All,
}
use failover.Error.{ok}
use failover.Crates.Buffer.{Buffer}
use failover.Crates.Checksum.{Checksum}
use failover.Crates.Ipnet.{Ipnet}
use failover.StateMachine.{backup}
use failover.Net.{NetworkInterface}
use failover.Router.{VirtualRouter, Env, Effect, remove_mac_vlan}
use failover.Observer.{find_interface, notify}
use failover.Observer.Shutdown.{Finds, notify_mut-IsShutDown, remove_mac_vlans-first}
use failover.Observer.Laws.{IsConsistent, SameConfig}
use failover.General.{AddressFamily, mac_vlan_name}
use failover.General.MacVlan.{LinkMessage, found, delete_link}
use failover.General.Addresses.{AddressMessage}
use failover.General.Kernel.{Netlink, requests_of_all, delete_mac_vlan}
use failover.General.Addresses.Laws.{IsLinkLocal, apply_delete_mac_vlan_iff}
use failover.CoreTasks.{timer_tick}
use failover.CoreTasks.Timers.{Expires}
use failover.CoreTasks.Steps.{tick, stopped, World, handle, step}
use failover.Run.{Host, TaskItems, set_up}
use failover.Run.Setup.{set_up_lem}
use failover.Main.Links.{Links, interfaces_of, carry_out, IsIndexed, IsGone, removal-IsGone}

-- Once their setups succeed, two routers of one VRID on one parent are on one IPv4 mac-vlan.
pub set_up-shares :
    (host_a host_b : Host) (va vb : VirtualRouter) (ia ib : TaskItems)
    → vb.network_interface ≡ va.network_interface
    → vb.vrid ≡ va.vrid
    → set_up host_a va ≡ ok ia
    → set_up host_b vb ≡ ok ib
    → ib.vrouter.mac_vlan_interface_v4 ≡ ia.vrouter.mac_vlan_interface_v4
set_up-shares host_a host_b va vb ia ib parent vrid up_a up_b =
    (set_up_lem host_b vb ib up_b).1
    ∙ ap (λ (p : Str). mac_vlan_name p vb.vrid AddressFamily.v4) parent
    ∙ ap (λ (v : ℕ). mac_vlan_name va.network_interface v AddressFamily.v4) vrid
    ∙ sym (set_up_lem host_a va ia up_a).1

module _ (b : Buffer) (c : Checksum) (n : Ipnet) where
  -- A BACKUP whose mac-vlan is gone: at the tick after its deadline the timer's task ends.
  stranded_tick :
      (env : Env) (w : World) (deadline : ℕ)
      → w.mutex.poisoned ≡ false
      → IsConsistent w.mutex.router.fsm
      → w.mutex.router.fsm.state ≡ backup
      → Expires w.mutex.router deadline
      → deadline < env.now
      → find_interface env.interfaces w.mutex.router.mac_vlan_interface_v4 ≡ none
      → let w' = step b c n (env, tick) w in
        (w'.ticking ≡ false) × (w'.mutex.router ≡ w.mutex.router)
  unfolding step handle timer_tick
  stranded_tick env w deadline usable consistent state expires late gone =
      ground (arith, consistent.right_timer)

  -- The end of an instance asks, among the rest, for the removal of its IPv4 mac-vlan.
  end_removes :
      (env : Env) (w : World)
      → w.mutex.poisoned ≡ false
      → Finds w.mutex.router.mac_vlan_interface_v4 env
      → (earlier rest : List Effect) × ((handle b c n env stopped w).effects
          ≡ earlier ++ (remove_mac_vlan w.mutex.router.mac_vlan_interface_v4 ∷ rest))
  unfolding handle notify
  end_removes env w usable finds =
      let over = notify_mut-IsShutDown n env w.mutex.router finds in
      let (rest, first) = remove_mac_vlans-first w.mutex.router in
      (
        over.earlier,
        rest,
        rw usable (over.removes ∙ ap (λ (l : List Effect). over.earlier ++ l) first),
      )

  -- Two instances that are set up with one VRID on one parent interface, and so with one IPv4
  -- mac-vlan. The first comes to its end, with a lock that is not poisoned and its interface
  -- found; netlink can be asked, has the link of the mac-vlan, and lists no address on it but
  -- link-local ones; and the kernel carries out what the first asks, by the index that every link
  -- of that name has. If the second is a BACKUP whose lock is not poisoned and whose timer is the
  -- one of its state, then at a tick after its deadline, with the links that are left, it does
  -- not become MASTER, but stays as it is, and the task of its timer ends.
  pub shared_mac_vlan_lost :
      (host_a host_b : Host) (va vb : VirtualRouter) (ia ib : TaskItems) (env_a env : Env)
      (wa w : World) (netlink : Netlink) (link : LinkMessage) (messages : List AddressMessage)
      (links : Links) (deadline : ℕ)
      → vb.network_interface ≡ va.network_interface
      → vb.vrid ≡ va.vrid
      → set_up host_a va ≡ ok ia
      → set_up host_b vb ≡ ok ib
      → SameConfig ia.vrouter wa.mutex.router
      → wa.mutex.poisoned ≡ false
      → Finds ia.vrouter.mac_vlan_interface_v4 env_a
      → netlink.connection ≡ none
      → netlink.link ia.vrouter.mac_vlan_interface_v4 ≡ found link
      → netlink.addresses ia.vrouter.mac_vlan_interface_v4 ≡ (messages, none)
      → All IsLinkLocal messages
      → IsIndexed ia.vrouter.mac_vlan_interface_v4 link.index links
      → env.interfaces
        ≡ interfaces_of
            (carry_out (requests_of_all n netlink (handle b c n env_a stopped wa).effects) links)
      → SameConfig ib.vrouter w.mutex.router
      → w.mutex.poisoned ≡ false
      → IsConsistent w.mutex.router.fsm
      → w.mutex.router.fsm.state ≡ backup
      → Expires w.mutex.router deadline
      → deadline < env.now
      → let w' = step b c n (env, tick) w in
        (w'.ticking ≡ false) × (w'.mutex.router ≡ w.mutex.router)
  unfolding delete_mac_vlan
  shared_mac_vlan_lost host_a host_b va vb ia ib env_a env wa w netlink link messages links deadline
        parent vrid up_a up_b ran usable_a finds asked known listed unused indexed left same usable
        consistent state expires late =
      let name = ia.vrouter.mac_vlan_interface_v4 in
      let name_a = ap (λ (r : VirtualRouter). r.mac_vlan_interface_v4) ran in
      let (earlier, rest, ends) =
        end_removes env_a wa usable_a (subst (λ i. Finds i env_a) (sym name_a) finds) in
      let ends' = ends ∙ ap (λ (i : Str). earlier ++ (remove_mac_vlan i ∷ rest)) name_a in
      let deletes : delete_mac_vlan n netlink name ≡ delete_link link.index ∷ [] =
        rw (asked, known, listed)
          ((apply_delete_mac_vlan_iff link messages none).1 (refl, unused)) in
      let gone =
        subst (λ effects. IsGone name (carry_out (requests_of_all n netlink effects) links))
          (sym ends')
          (removal-IsGone n netlink name link.index earlier rest links deletes indexed) in
      stranded_tick env w deadline usable consistent state expires late (
        subst (λ (i : Str). find_interface env.interfaces i ≡ none)
          (sym (
            ap (λ (r : VirtualRouter). r.mac_vlan_interface_v4) same
            ∙ set_up-shares host_a host_b va vb ia ib parent vrid up_a up_b))
          (ap (λ (interfaces : List NetworkInterface). find_interface interfaces name) left ∙ gone))
