-- ===== src/General/MacVlan.antt =====
-- The creation of the mac-vlan interfaces (src/general.rs), over what the kernel answers on
-- a netlink socket: the answers are arguments, and what is asked of the kernel is a list of requests.
pub mod Laws
use failover.Base.{
  ℕ, ◌==◌, Bool, true, false, not, List, [], ◌∷◌, Option, none, some, Str, str_eq, if◌then◌else◌,
}
use failover.Error.{
  Result, ok, err, Source, NetworkError, interface_not_found, netlink_connect, interface_lookup,
  not_mac_vlan, mac_vlan_mismatch, mac_vlan_create,
}
use failover.Net.{IpNet}
use failover.General.{AddressFamily, virtual_mac, mac_vlan_name}

-- What the source reads of netlink's `LinkMessage`.
pub data LinkInfo : Type 0 where
  kind_mac_vlan : LinkInfo
  other_info : LinkInfo

pub data LinkAttribute : Type 0 where
  link_info : List LinkInfo → LinkAttribute
  address : List ℕ → LinkAttribute
  link : ℕ → LinkAttribute
  other_attribute : LinkAttribute

pub record LinkMessage : Type 0 where
  pub index : ℕ
  pub attributes : List LinkAttribute

-- The first message of a look-up by name: a link, the end of the list, or an error, of which the
-- source asks whether its code is ENODEV.
pub data Lookup : Type 0 where
  found : LinkMessage → Lookup
  absent : Lookup
  failed : (no_such_device : Bool) (source : Source) → Lookup

has_mac_vlan : List LinkInfo → Bool
has_mac_vlan [] = false
has_mac_vlan (kind_mac_vlan ∷ infos) = true
has_mac_vlan (other_info ∷ infos) = has_mac_vlan infos

link_is_mac_vlan : List LinkAttribute → Bool
unfolding has_mac_vlan
link_is_mac_vlan [] = false
link_is_mac_vlan (link_info infos ∷ attributes) =
    let rest = link_is_mac_vlan attributes in if has_mac_vlan infos then true else rest
link_is_mac_vlan (address mac ∷ attributes) = link_is_mac_vlan attributes
link_is_mac_vlan (link idx ∷ attributes) = link_is_mac_vlan attributes
link_is_mac_vlan (other_attribute ∷ attributes) = link_is_mac_vlan attributes

pub link_mac_address : List LinkAttribute → Option (List ℕ)
link_mac_address [] = none
link_mac_address (address mac ∷ attributes) = some mac
link_mac_address (link_info infos ∷ attributes) = link_mac_address attributes
link_mac_address (link idx ∷ attributes) = link_mac_address attributes
link_mac_address (other_attribute ∷ attributes) = link_mac_address attributes

pub link_parent_index : List LinkAttribute → Option ℕ
link_parent_index [] = none
link_parent_index (link idx ∷ attributes) = some idx
link_parent_index (link_info infos ∷ attributes) = link_parent_index attributes
link_parent_index (address mac ∷ attributes) = link_parent_index attributes
link_parent_index (other_attribute ∷ attributes) = link_parent_index attributes

-- What is asked of the kernel.
pub data Request : Type 0 where
  add_mac_vlan : (name : Str) (parent_index : ℕ) (mac : List ℕ) → Request
  write_arp_ignore : (name : Str) → Request
  add_address : (index : ℕ) (net : IpNet) → Request
  delete_address : (index : ℕ) (net : IpNet) → Request
  delete_link : (index : ℕ) → Request

-- The kernel's answers to `create_mac_vlan`: an error to connect, the two look-ups, and an error to add.
pub record Answers : Type 0 where
  pub connection : Option Source
  pub parent : Lookup
  pub existing : Lookup
  pub creation : Option Source

is_mac : Option (List ℕ) → List ℕ → Bool
is_mac none mac = false
is_mac (some m) mac = str_eq m mac

is_index : Option ℕ → ℕ → Bool
is_index none index = false
is_index (some i) index = i == index

-- "its MAC address doesn't match this instance's virtual MAC"
abbrev wrong_mac_reason : Str
wrong_mac_reason =
    105 ∷ 116 ∷ 115 ∷ 32 ∷ 77 ∷ 65 ∷ 67 ∷ 32 ∷ 97 ∷ 100 ∷ 100 ∷ 114 ∷ 101 ∷ 115 ∷ 115 ∷ 32 ∷ 100
    ∷ 111 ∷ 101 ∷ 115 ∷ 110 ∷ 39 ∷ 116 ∷ 32 ∷ 109 ∷ 97 ∷ 116 ∷ 99 ∷ 104 ∷ 32 ∷ 116 ∷ 104 ∷ 105 ∷ 115
    ∷ 32 ∷ 105 ∷ 110 ∷ 115 ∷ 116 ∷ 97 ∷ 110 ∷ 99 ∷ 101 ∷ 39 ∷ 115 ∷ 32 ∷ 118 ∷ 105 ∷ 114 ∷ 116 ∷ 117
    ∷ 97 ∷ 108 ∷ 32 ∷ 77 ∷ 65 ∷ 67 ∷ []

-- "it belongs to a different parent interface than {parent_ifname}"
abbrev wrong_parent_reason : Str → Str
wrong_parent_reason parent_ifname =
    105 ∷ 116 ∷ 32 ∷ 98 ∷ 101 ∷ 108 ∷ 111 ∷ 110 ∷ 103 ∷ 115 ∷ 32 ∷ 116 ∷ 111 ∷ 32 ∷ 97 ∷ 32 ∷ 100
    ∷ 105 ∷ 102 ∷ 102 ∷ 101 ∷ 114 ∷ 101 ∷ 110 ∷ 116 ∷ 32 ∷ 112 ∷ 97 ∷ 114 ∷ 101 ∷ 110 ∷ 116 ∷ 32
    ∷ 105 ∷ 110 ∷ 116 ∷ 101 ∷ 114 ∷ 102 ∷ 97 ∷ 99 ∷ 101 ∷ 32 ∷ 116 ∷ 104 ∷ 97 ∷ 110 ∷ 32
    ∷ parent_ifname

-- A link of that name is there: it is reused, if it is this instance's.
unfoldable pub reuse :
    (parent_ifname name : Str) (mac : List ℕ) (parent_index : ℕ)
    → LinkMessage
    → Result NetworkError Str
unfolding link_is_mac_vlan link_mac_address link_parent_index is_mac is_index
reuse parent_ifname name mac parent_index existing =
    if not (link_is_mac_vlan existing.attributes)
    then err (not_mac_vlan name)
    else if not (is_mac (link_mac_address existing.attributes) mac)
    then err (mac_vlan_mismatch name wrong_mac_reason)
    else if not (is_index (link_parent_index existing.attributes) parent_index)
    then err (mac_vlan_mismatch name (wrong_parent_reason parent_ifname))
    else ok name

arp_ignore : AddressFamily → Str → List Request
arp_ignore AddressFamily.v4 name = write_arp_ignore name ∷ []
arp_ignore AddressFamily.v6 name = []

create : Str → ℕ → AddressFamily → ℕ → Option Source → List Request × Result NetworkError Str
unfolding arp_ignore
create name vrid family parent_index none =
    (add_mac_vlan name parent_index (virtual_mac family vrid) ∷ arp_ignore family name, ok name)
create name vrid family parent_index (some source) = (
  add_mac_vlan name parent_index (virtual_mac family vrid) ∷ [],
  err (mac_vlan_create name source),
)

reuse_or_create :
    (parent_ifname name : Str)
    → ℕ
    → AddressFamily
    → ℕ
    → Option Source
    → Lookup
    → List Request × Result NetworkError Str
unfolding reuse create
reuse_or_create parent_ifname name vrid family parent_index creation (found existing) =
    ([], reuse parent_ifname name (virtual_mac family vrid) parent_index existing)
reuse_or_create parent_ifname name vrid family parent_index creation absent =
    create name vrid family parent_index creation
reuse_or_create parent_ifname name vrid family parent_index creation (failed true source) =
    create name vrid family parent_index creation
reuse_or_create parent_ifname name vrid family parent_index creation (failed false source) =
    ([], err (interface_lookup name source))

under_parent : Str → ℕ → AddressFamily → Answers → Lookup → List Request × Result NetworkError Str
unfolding reuse_or_create
under_parent parent_ifname vrid family answers (found parent) =
    reuse_or_create parent_ifname (mac_vlan_name parent_ifname vrid family) vrid family parent.index
      answers.creation answers.existing
under_parent parent_ifname vrid family answers absent =
    ([], err (interface_not_found parent_ifname))
under_parent parent_ifname vrid family answers (failed no_such_device source) =
    ([], err (interface_lookup parent_ifname source))

connected :
    Str → ℕ → AddressFamily → Answers → Option Source → List Request × Result NetworkError Str
unfolding under_parent
connected parent_ifname vrid family answers (some source) = ([], err (netlink_connect source))
connected parent_ifname vrid family answers none =
    under_parent parent_ifname vrid family answers answers.parent

unfoldable pub create_mac_vlan :
    Str → ℕ → AddressFamily → Answers → List Request × Result NetworkError Str
unfolding connected
create_mac_vlan parent_ifname vrid family answers =
    connected parent_ifname vrid family answers answers.connection
