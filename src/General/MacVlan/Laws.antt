-- ===== src/General/MacVlan/Laws.antt =====
-- When the mac-vlan interfaces are reused and created (src/general.rs).
use failover.Base.{
  ℕ, ◌≡◌, refl, ◌↔◌, ◌⊎◌, inl, true, List, [], ◌∷◌, Option, none, some, Str, str_eq_iff, arith,
}
use failover.Error.{Result, ok, err, panic, Source}
use failover.General.{AddressFamily, virtual_mac, mac_vlan_name}
use failover.General.MacVlan.{
  LinkInfo, kind_mac_vlan, other_info, LinkAttribute, link_info, address, link, other_attribute,
  LinkMessage, found, has_mac_vlan, link_is_mac_vlan, link_mac_address, link_parent_index, Request,
  Answers, reuse, is_mac, is_index, create_mac_vlan,
}

-- Some information of the list says mac-vlan.
abbrev pub SaysMacVlan : List LinkInfo → Type 0
SaysMacVlan [] = ⊥
SaysMacVlan (info ∷ infos) = (info ≡ kind_mac_vlan) ⊎ SaysMacVlan infos

abbrev pub IsMacVlan : List LinkAttribute → Type 0
IsMacVlan [] = ⊥
IsMacVlan (link_info infos ∷ attributes) = SaysMacVlan infos ⊎ IsMacVlan attributes
IsMacVlan (_ ∷ attributes) = IsMacVlan attributes

-- The link is a mac-vlan of the given MAC address and parent.
pub record IsOurs (mac : List ℕ) (parent_index : ℕ) (l : LinkMessage) : Type 0 where
  pub kind : IsMacVlan l.attributes
  pub same_mac : link_mac_address l.attributes ≡ some mac
  pub same_parent : link_parent_index l.attributes ≡ some parent_index

has_mac_vlan_iff : (infos : List LinkInfo) → (has_mac_vlan infos ≡ true) ↔ SaysMacVlan infos
unfolding has_mac_vlan
has_mac_vlan_iff [] = (λ h. cc, λ h. absurd h)
has_mac_vlan_iff (kind_mac_vlan ∷ infos) = (λ h. inl refl, λ h. refl)
has_mac_vlan_iff (other_info ∷ infos) = ground (arith, has_mac_vlan_iff infos)

link_is_mac_vlan_iff :
    (attributes : List LinkAttribute) → (link_is_mac_vlan attributes ≡ true) ↔ IsMacVlan attributes
unfolding link_is_mac_vlan
link_is_mac_vlan_iff [] = (λ h. cc, λ h. absurd h)
link_is_mac_vlan_iff (link_info infos ∷ attributes) =
    ground (arith, has_mac_vlan_iff infos, link_is_mac_vlan_iff attributes)
link_is_mac_vlan_iff (address mac ∷ attributes) = link_is_mac_vlan_iff attributes
link_is_mac_vlan_iff (link idx ∷ attributes) = link_is_mac_vlan_iff attributes
link_is_mac_vlan_iff (other_attribute ∷ attributes) = link_is_mac_vlan_iff attributes

is_mac_iff : (m : Option (List ℕ)) (mac : List ℕ) → (is_mac m mac ≡ true) ↔ (m ≡ some mac)
unfolding is_mac
is_mac_iff none mac = ground arith
is_mac_iff (some m) mac = ground (arith, str_eq_iff m mac)

is_index_iff : (i : Option ℕ) (index : ℕ) → (is_index i index ≡ true) ↔ (i ≡ some index)
unfolding is_index
is_index_iff none index = ground arith
is_index_iff (some i) index = ground arith

reuse_iff :
    (parent_ifname name : Str) (mac : List ℕ) (parent_index : ℕ) (l : LinkMessage)
    → (reuse parent_ifname name mac parent_index l ≡ ok name) ↔ IsOurs mac parent_index l
unfolding reuse
reuse_iff parent_ifname name mac parent_index l =
    let kind = link_is_mac_vlan_iff l.attributes in
    let same_mac = is_mac_iff (link_mac_address l.attributes) mac in
    let same_parent = is_index_iff (link_parent_index l.attributes) parent_index in
    (
      λ h. record {
        kind = ground (arith, kind.0);
        same_mac = ground (arith, same_mac.0);
        same_parent = ground (arith, same_parent.0);
      },
      λ h. ground (arith, kind.1 h.kind, same_mac.1 h.same_mac, same_parent.1 h.same_parent),
    )

module _ (parent_ifname : Str) (vrid : ℕ) (family : AddressFamily) (answers : Answers) where
  abbrev pub created : List Request × Result failover.Error.NetworkError Str
  created = create_mac_vlan parent_ifname vrid family answers

  -- Where the kernel has the parent and a link of the mac-vlan's name, nothing is asked of it,
  -- and the link is used exactly if it is a mac-vlan whose first MAC address and parent index are
  -- the virtual router's.
  pub create_mac_vlan_existing :
      (parent existing : LinkMessage)
      → answers.connection ≡ none
      → answers.parent ≡ found parent
      → answers.existing ≡ found existing
      → (created.0 ≡ [])
        × ((created.1 ≡ ok (mac_vlan_name parent_ifname vrid family))
            ↔ IsOurs (virtual_mac family vrid) parent.index existing)
  unfolding create_mac_vlan
  create_mac_vlan_existing parent existing connection known there = ground (
    arith,
    reuse_iff parent_ifname (mac_vlan_name parent_ifname vrid family) (virtual_mac family vrid)
        parent.index existing,
  )

  -- A success always gives the name of the virtual router's mac-vlan.
  pub create_mac_vlan-name :
      (name : Str) → created.1 ≡ ok name → name ≡ mac_vlan_name parent_ifname vrid family
  unfolding create_mac_vlan
  create_mac_vlan-name name h = ground arith
