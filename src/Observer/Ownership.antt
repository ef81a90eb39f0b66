-- ===== src/Observer/Ownership.antt =====
-- Which virtual addresses the kernel has on an interface after the effects of a call
-- (src/observer.rs), where every address action that is asked for succeeds.
use failover.Base.{
  ℕ, ◌≡◌, refl, sym, ap, ◌∙◌, ◌==◌, Bool, true, false, ◌&&◌, List, [], ◌∷◌, ◌++◌, map, Option, none,
  some, Str, str_eq, str_eq_refl, arith, if◌then◌else◌, any, All, All-append, Bool-cases, inl, inr,
}
use failover.Error.{Result, ok, err, panic, NetworkError}
use failover.Version.{add, delete}
use failover.Net.{NetworkInterface, IpNet6}
use failover.Crates.Ipnet.{Ipnet}
use failover.StateMachine.{State, init, backup, master, Event, startup, shutdown}
use failover.Router.{
  VirtualRouter, Env, Effect, address_action, send_advertisement, send_gratuitous_arps,
  send_neighbor_advertisements, neighbor_advertisements, str_ipv4_addresses,
}
use failover.Observer.{
  Outcome, get_interface, notify_mut, add_virtual_addresses, delete_virtual_addresses,
  announce_ownership, announce_v6, v6_interface_mac, become_master, remove_mac_vlans, remove_v6,
  shut_down, on_event, on_interface,
}

-- The effect is no address action.
abbrev pub IsQuiet : Effect → Type 0
IsQuiet (address_action action addresses ifname) = ⊥
IsQuiet _ = Unit {0}

abbrev applies : Str → Str → List Str → Str → Bool
applies iface a addresses ifname = str_eq ifname iface && any (λ x. str_eq x a) addresses

abbrev pub after_effect : Str → Str → Bool → Effect → Bool
after_effect iface a held (address_action add addresses ifname) =
    if applies iface a addresses ifname then true else held
after_effect iface a held (address_action delete addresses ifname) =
    if applies iface a addresses ifname then false else held
after_effect iface a held _ = held

-- Whether the address `a` is on the interface after the effects, if `held` says so before them.
abbrev pub assigned : Str → Str → Bool → List Effect → Bool
assigned iface a held [] = held
assigned iface a held (e ∷ effects) = assigned iface a (after_effect iface a held e) effects

pub assigned-append :
    (iface a : Str) (held : Bool) (xs ys : List Effect)
    → assigned iface a held (xs ++ ys) ≡ assigned iface a (assigned iface a held xs) ys
assigned-append iface a held [] ys = refl
assigned-append iface a held (e ∷ xs) ys =
    assigned-append iface a (after_effect iface a held e) xs ys

after_effect_quiet :
    (iface a : Str) (held : Bool) (e : Effect) → IsQuiet e → after_effect iface a held e ≡ held
after_effect_quiet iface a held e q = ground arith

pub assigned_quiet :
    (iface a : Str) (held : Bool) (effects : List Effect)
    → All IsQuiet effects
    → assigned iface a held effects ≡ held
assigned_quiet iface a held [] q = refl
assigned_quiet iface a held (e ∷ effects) q =
    ap (λ (h : Bool). assigned iface a h effects) (after_effect_quiet iface a held e q.0)
    ∙ assigned_quiet iface a held effects q.1

abbrev pub is_master : State → Bool
is_master init = false
is_master backup = false
is_master master = true

All-map {ℓ} :
    {A : Type ℓ} (f : A → Effect) (xs : List A) → ((x : A) → IsQuiet (f x)) → All IsQuiet (map f xs)
All-map f [] h = tt
All-map f (x ∷ xs) h = (h x, All-map f xs h)

pub send_advertisement-IsQuiet : (vr : VirtualRouter) → All IsQuiet (send_advertisement vr)
unfolding send_advertisement
send_advertisement-IsQuiet vr = ground arith

neighbor_advertisements-IsQuiet :
    (side : Option Str) (nets : List IpNet6) (mac : List ℕ)
    → All IsQuiet (neighbor_advertisements side nets mac)
unfolding neighbor_advertisements
neighbor_advertisements-IsQuiet none nets mac = tt
neighbor_advertisements-IsQuiet (some iface) nets mac = All-map _ nets (λ net. tt)

announce_v6-IsQuiet :
    (vr : VirtualRouter) (mac : Option (List ℕ)) → All IsQuiet (announce_v6 vr mac)
unfolding announce_v6 send_neighbor_advertisements
announce_v6-IsQuiet vr none = tt
announce_v6-IsQuiet vr (some mac) =
    neighbor_advertisements-IsQuiet vr.mac_vlan_interface_v6 vr.ipv6_addresses mac

announce_ownership-IsQuiet :
    (env : Env) (vr : VirtualRouter) (mac : List ℕ) → All IsQuiet (announce_ownership env vr mac)
unfolding announce_ownership send_gratuitous_arps
announce_ownership-IsQuiet env vr mac =
    All-append IsQuiet (send_gratuitous_arps env.big_endian vr mac)
      (announce_v6 vr (v6_interface_mac env vr)) (All-map _ vr.ipv4_addresses (λ net. tt))
      (announce_v6-IsQuiet vr (v6_interface_mac env vr))

pub remove_mac_vlans-IsQuiet : (vr : VirtualRouter) → All IsQuiet (remove_mac_vlans vr)
unfolding remove_v6
remove_mac_vlans-IsQuiet vr = ground arith

-- `a` is one of the router's printed IPv4 addresses, and the router has no IPv6 side.
pub record IsV4Address (n : Ipnet) (vr : VirtualRouter) (a : Str) : Type 0 where
  pub listed : any (λ x. str_eq x a) (str_ipv4_addresses n vr) ≡ true
  pub v4_only : vr.mac_vlan_interface_v6 ≡ none

-- The kernel has the address on the interface after the outcome exactly if the router is MASTER.
abbrev pub IsOwnedOn : (iface a : Str) → Bool → Outcome → Type 0
IsOwnedOn iface a held o = assigned iface a held o.effects ≡ is_master o.router.fsm.state

abbrev pub IsOwned : Str → VirtualRouter → Bool → Outcome → Type 0
IsOwned a vr held o = IsOwnedOn vr.mac_vlan_interface_v4 a held o

-- Adding the router's addresses puts the address on the interface, and deleting them takes it away.
pub record IsControlled (n : Ipnet) (vr : VirtualRouter) (iface a : Str) : Type 0 where
  pub added : (held : Bool) → assigned iface a held (add_virtual_addresses n vr) ≡ true
  pub deleted : (held : Bool) → assigned iface a held (delete_virtual_addresses n vr) ≡ false

pub IsV4Address-IsControlled :
    (n : Ipnet) (vr : VirtualRouter) (a : Str)
    → IsV4Address n vr a
    → IsControlled n vr vr.mac_vlan_interface_v4 a
unfolding add_virtual_addresses delete_virtual_addresses
IsV4Address-IsControlled n vr a address = record {
  added =
      λ held. ground (arith, str_eq_refl vr.mac_vlan_interface_v4, address.listed, address.v4_only);
  deleted =
      λ held. ground (arith, str_eq_refl vr.mac_vlan_interface_v4, address.listed, address.v4_only);
}

module _ (n : Ipnet) (env : Env) (vr : VirtualRouter) (iface a : Str)
    (controlled : IsControlled n vr iface a) where
  become_master-IsOwnedOn :
      (held : Bool) (mac : Option (List ℕ))
      → held ≡ is_master vr.fsm.state
      → IsOwnedOn iface a held (become_master n env vr mac)
  unfolding become_master
  become_master-IsOwnedOn held none h =
      assigned_quiet _ a held (send_advertisement vr) (send_advertisement-IsQuiet vr) ∙ h
  become_master-IsOwnedOn held (some mac) h =
      assigned-append _ a held (send_advertisement vr ++ announce_ownership env vr mac) _
      ∙ controlled.added _

  shut_down-IsOwnedOn :
      (state : State) (held : Bool)
      → held ≡ is_master state
      → vr.fsm.state ≡ state
      → IsOwnedOn iface a held (shut_down n state vr)
  unfolding shut_down
  shut_down-IsOwnedOn init held h e =
      assigned_quiet _ a held (remove_mac_vlans vr) (remove_mac_vlans-IsQuiet vr)
      ∙ h
      ∙ ap is_master (sym e)
  shut_down-IsOwnedOn backup held h e =
      assigned_quiet _ a held (remove_mac_vlans vr) (remove_mac_vlans-IsQuiet vr) ∙ h
  shut_down-IsOwnedOn master held h e =
      assigned-append _ a held (send_advertisement vr ++ delete_virtual_addresses n vr) _
      ∙ assigned_quiet _ a _ (remove_mac_vlans vr) (remove_mac_vlans-IsQuiet vr)
      ∙ assigned-append _ a held (send_advertisement vr) (delete_virtual_addresses n vr)
      ∙ controlled.deleted _

  on_event-IsOwnedOn :
      (event : Event) (state : State) (held : Bool) (mac : Option (List ℕ))
      → held ≡ is_master state
      → vr.fsm.state ≡ state
      → IsOwnedOn iface a held (on_event n env event state vr mac)
  unfolding on_event
  on_event-IsOwnedOn startup init held mac h e = elim (Bool-cases (vr.priority == 255)) [
    | inl owner ↦ rw owner (become_master-IsOwnedOn held mac (h ∙ ap is_master (sym e)))
    | inr other ↦ rw other (controlled.deleted held)
  ]
  on_event-IsOwnedOn startup backup held mac h e = h ∙ ap is_master (sym e)
  on_event-IsOwnedOn startup master held mac h e = h ∙ ap is_master (sym e)
  on_event-IsOwnedOn Event.null state held mac h e = h ∙ ap is_master (sym e)
  on_event-IsOwnedOn shutdown state held mac h e = shut_down-IsOwnedOn state held h e
  on_event-IsOwnedOn Event.master_down init held mac h e = h ∙ ap is_master (sym e)
  on_event-IsOwnedOn Event.master_down backup held mac h e =
      become_master-IsOwnedOn held mac (h ∙ ap is_master (sym e))
  on_event-IsOwnedOn Event.master_down master held mac h e = h ∙ ap is_master (sym e)

  -- If the kernel has the address exactly if the router is MASTER, then so it does after any event,
  -- whatever interfaces the host has, where every address action succeeds.
  pub notify_mut-IsOwnedOn :
      (event : Event) (held : Bool)
      → held ≡ is_master vr.fsm.state
      → IsOwnedOn iface a held (notify_mut n env event vr)
  unfolding notify_mut
  notify_mut-IsOwnedOn event held h = go (get_interface env.interfaces vr.mac_vlan_interface_v4)
    where
      go :
          (r : Result NetworkError NetworkInterface)
          → IsOwnedOn iface a held (on_interface n env event vr r)
      go (ok i) = on_event-IsOwnedOn event vr.fsm.state held i.mac h refl
      go (err e) = h
      go panic = h

pub notify_mut-IsOwned :
    (n : Ipnet) (env : Env) (vr : VirtualRouter) (a : Str)
    → IsV4Address n vr a
    → (event : Event) (held : Bool) → held ≡ is_master vr.fsm.state
    → IsOwned a vr held (notify_mut n env event vr)
notify_mut-IsOwned n env vr a address =
    notify_mut-IsOwnedOn n env vr vr.mac_vlan_interface_v4 a
      (IsV4Address-IsControlled n vr a address)
