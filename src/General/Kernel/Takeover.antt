-- ===== src/General/Kernel/Takeover.antt =====
-- What the kernel is asked for when a router takes over and when it shuts down (src/observer.rs,
-- src/router.rs, src/core_tasks.rs and src/general.rs together).
use mathlib.Core.List.{append_assoc, append-nil}
use failover.Base.{
  ℕ, ◌≡◌, ◌<◌, false, refl, sym, ap, ◌∙◌, List, [], ◌∷◌, ◌++◌, map, none, Str, arith, All,
}
use failover.Version.{add, delete}
use failover.Net.{IpNet}
use failover.Crates.Ipnet.{Ipnet, IsIpnet}
use failover.StateMachine.{backup, master, shutdown}
use failover.Router.{
  VirtualRouter, Env, Effect, remove_mac_vlan, send_advertisement, send_gratuitous_arps,
}
use failover.Observer.{
  announce_ownership, add_virtual_addresses, delete_virtual_addresses, notify_mut,
}
use failover.Observer.Laws.{IsConsistent, announce_ownership-v4_only}
use failover.Observer.Shutdown.{Finds, notify_mut-shutdown_master}
use failover.CoreTasks.{timer_tick}
use failover.CoreTasks.Timers.{HasMac, Expires, timer_tick_takes_over}
use failover.General.MacVlan.{LinkMessage, found, Request, add_address, delete_address, delete_link}
use failover.General.Addresses.{AddressMessage}
use failover.General.Addresses.Laws.{
  IsLinkLocal, IsNet4, apply_address_action-to_string4, apply_delete_mac_vlan_iff,
}
use failover.General.Kernel.{
  Netlink, virtual_address_action, delete_mac_vlan, requests_of, requests_of_all,
}

-- Netlink can be asked, and has the router's mac-vlan.
pub record HasLink (netlink : Netlink) (name : Str) (link : LinkMessage) : Type 0 where
  pub connected : netlink.connection ≡ none
  pub there : netlink.link name ≡ found link

module _ (n : Ipnet) (netlink : Netlink) where
  pub requests-append :
      (xs ys : List Effect)
      → requests_of_all n netlink (xs ++ ys)
        ≡ requests_of_all n netlink xs ++ requests_of_all n netlink ys
  unfolding requests_of_all
  requests-append [] ys = refl
  requests-append (e ∷ xs) ys =
      ap (λ (l : List Request). requests_of n netlink e ++ l) (requests-append xs ys)
      ∙ sym (append_assoc (requests_of n netlink e) _ _)

  requests-map {ℓ} :
      {A : Type ℓ} (f : A → Effect) (xs : List A)
      → ((x : A) → requests_of n netlink (f x) ≡ [])
      → requests_of_all n netlink (map f xs) ≡ []
  unfolding requests_of_all
  requests-map f [] h = refl
  requests-map f (x ∷ xs) h =
      ap (λ (l : List Request). l ++ requests_of_all n netlink (map f xs)) (h x)
      ∙ requests-map f xs h

  requests-send_advertisement :
      (vr : VirtualRouter) → requests_of_all n netlink (send_advertisement vr) ≡ []
  unfolding send_advertisement requests_of_all
  requests-send_advertisement vr = ground arith

  module _ (vr : VirtualRouter) (v4_only : vr.mac_vlan_interface_v6 ≡ none) where
    requests-announce_ownership :
        (env : Env) (mac : List ℕ) → requests_of_all n netlink (announce_ownership env vr mac) ≡ []
    unfolding requests_of send_gratuitous_arps
    requests-announce_ownership env mac =
        ap (requests_of_all n netlink) (announce_ownership-v4_only env vr mac v4_only)
        ∙ requests-map _ vr.ipv4_addresses (λ net. refl)

    module _ (link : LinkMessage) (lawful : IsIpnet n) (nets : All IsNet4 vr.ipv4_addresses)
        (has : HasLink netlink vr.mac_vlan_interface_v4 link) where
      requests-add_virtual_addresses :
          requests_of_all n netlink (add_virtual_addresses n vr)
          ≡ map (λ net. add_address link.index (IpNet.v4 net)) vr.ipv4_addresses
      unfolding requests_of_all virtual_address_action add_virtual_addresses
      requests-add_virtual_addresses =
          rw (v4_only, virtual_address_action, has.connected, has.there)
            (append-nil _
              ∙ apply_address_action-to_string4 n add vr.ipv4_addresses link lawful nets)

      requests-delete_virtual_addresses :
          requests_of_all n netlink (delete_virtual_addresses n vr)
          ≡ map (λ net. delete_address link.index (IpNet.v4 net)) vr.ipv4_addresses
      unfolding requests_of_all virtual_address_action delete_virtual_addresses
      requests-delete_virtual_addresses =
          rw (v4_only, virtual_address_action, has.connected, has.there)
            (append-nil _
              ∙ apply_address_action-to_string4 n delete vr.ipv4_addresses link lawful nets)

      -- At a tick after its deadline, a BACKUP with no IPv6 side, whose timer is the one of its
      -- state and whose interface has a MAC address, asks the kernel over netlink for just its
      -- IPv4 addresses: each with its prefix length, in order, on the link of its mac-vlan, where
      -- netlink can be asked and has that link, the addresses fit their types, and what ipnet
      -- prints reads back.
      pub timer_tick-requests :
          (env : Env) (deadline : ℕ) (mac : List ℕ)
          → IsConsistent vr.fsm
          → vr.fsm.state ≡ backup
          → Expires vr deadline
          → deadline < env.now
          → HasMac env vr mac
          → requests_of_all n netlink
              (timer_tick n env (record { poisoned = false; router = vr })).effects
            ≡ map (λ net. add_address link.index (IpNet.v4 net)) vr.ipv4_addresses
      timer_tick-requests env deadline mac consistent waits expires late there =
          let over =
            timer_tick_takes_over n env vr deadline mac consistent waits expires late there in
          ap (requests_of_all n netlink) over.2
          ∙ ap (requests_of_all n netlink)
              (append_assoc (send_advertisement vr) (announce_ownership env vr mac) _)
          ∙ requests-append (send_advertisement vr) _
          ∙ ap
              (λ (l : List Request).
                l
                ++ requests_of_all n netlink
                    (announce_ownership env vr mac ++ add_virtual_addresses n vr))
              (requests-send_advertisement vr)
          ∙ requests-append (announce_ownership env vr mac) _
          ∙ ap (λ (l : List Request). l ++ requests_of_all n netlink (add_virtual_addresses n vr))
              (requests-announce_ownership env mac)
          ∙ requests-add_virtual_addresses

      deletes_link :
          (messages : List AddressMessage)
          → netlink.addresses vr.mac_vlan_interface_v4 ≡ (messages, none)
          → All IsLinkLocal messages
          → requests_of_all n netlink (remove_mac_vlan vr.mac_vlan_interface_v4 ∷ [])
            ≡ delete_link link.index ∷ []
      unfolding requests_of_all delete_mac_vlan
      deletes_link messages lists empty =
          rw (delete_mac_vlan, has.connected, has.there, lists)
            (append-nil _ ∙ (apply_delete_mac_vlan_iff link messages none).1 (refl, empty))

      -- A MASTER with no IPv6 side whose interface is found when it shuts down, where netlink can
      -- be asked and has the link of its mac-vlan, its addresses fit their types and what ipnet
      -- prints reads back, asks the kernel over netlink to delete each of its IPv4 addresses on
      -- that link, in order, and then, if the kernel lists no address on it but link-local ones,
      -- to delete the link.
      pub shutdown-requests :
          (env : Env) (messages : List AddressMessage)
          → vr.fsm.state ≡ master
          → Finds vr.mac_vlan_interface_v4 env
          → netlink.addresses vr.mac_vlan_interface_v4 ≡ (messages, none)
          → All IsLinkLocal messages
          → requests_of_all n netlink (notify_mut n env shutdown vr).effects
            ≡ map (λ net. delete_address link.index (IpNet.v4 net)) vr.ipv4_addresses
              ++ delete_link link.index ∷ []
      shutdown-requests env messages state finds lists empty =
          ap (requests_of_all n netlink) (
            notify_mut-shutdown_master n env vr v4_only state finds
            ∙ append_assoc (send_advertisement vr) (delete_virtual_addresses n vr) _)
          ∙ requests-append (send_advertisement vr) _
          ∙ ap (λ (l : List Request). l ++ rest) (requests-send_advertisement vr)
          ∙ requests-append (delete_virtual_addresses n vr) _
          ∙ ap (λ (l : List Request). l ++ removal) requests-delete_virtual_addresses
          ∙ ap
              (λ (l : List Request).
                map (λ net. delete_address link.index (IpNet.v4 net)) vr.ipv4_addresses ++ l)
              (deletes_link messages lists empty)
        where
          removal : List Request
          removal = requests_of_all n netlink (remove_mac_vlan vr.mac_vlan_interface_v4 ∷ [])

          rest : List Request
          rest =
              requests_of_all n netlink
                (delete_virtual_addresses n vr ++ remove_mac_vlan vr.mac_vlan_interface_v4 ∷ [])
