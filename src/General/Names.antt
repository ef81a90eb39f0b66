-- ===== src/General/Names.antt =====
-- The names of the mac-vlan interfaces (src/general.rs): their length, and those of one parent.
use failover.Base.{
  ℕ, ◌/◌, ◌%◌, ◌^◌, ◌≡◌, ◌≤◌, ◌<◌, ◌⊎◌, inl, refl, Str, length, All, All-append, low_bits, arith,
}
use failover.General.{
  AddressFamily, v4, v6, name_prefix, decimal, hex_digit, hex4, fnv1a_hash, mac_vlan_name,
}

-- The name of the mac-vlan of a VRID below 256 has at most 15 characters, for any parent and
-- family.
pub length-mac_vlan_name :
    (parent : Str) (vrid : ℕ) (family : AddressFamily)
    → vrid < 256
    → length (mac_vlan_name parent vrid family) ≤ 15
unfolding mac_vlan_name
length-mac_vlan_name parent vrid v4 h = ground arith
length-mac_vlan_name parent vrid v6 h = ground arith

-- On one parent interface, the names of the mac-vlans of two VRIDs below 256 or of two families
-- differ.
pub mac_vlan_name-inj :
    (parent : Str) (vrid vrid' : ℕ) (family family' : AddressFamily)
    → vrid < 256
    → vrid' < 256
    → mac_vlan_name parent vrid family ≡ mac_vlan_name parent vrid' family'
    → (vrid ≡ vrid') × (family ≡ family')
unfolding mac_vlan_name
mac_vlan_name-inj parent vrid vrid' v4 v4 h h' e = ground arith
mac_vlan_name-inj parent vrid vrid' v6 v6 h h' e = ground arith
mac_vlan_name-inj parent vrid vrid' v4 v6 h h' e = ground arith
mac_vlan_name-inj parent vrid vrid' v6 v4 h h' e = ground arith

-- A digit, a lower-case letter or a dash.
abbrev pub IsNameByte : ℕ → Type 0
IsNameByte x = (x ≡ 45) ⊎ (((48 ≤ x) × (x ≤ 57)) ⊎ ((97 ≤ x) × (x ≤ 122)))

prefix-IsName : (family : AddressFamily) → All IsNameByte (name_prefix family)
prefix-IsName v4 = ground arith
prefix-IsName v6 = ground arith

decimal-IsName : (n : ℕ) → n < 256 → All IsNameByte (decimal n)
decimal-IsName n h = ground arith

hex_digit-IsName : (d : ℕ) → d < 16 → IsNameByte (hex_digit d)
hex_digit-IsName d h = ground arith

hex4-IsName : (h : ℕ) → h < 2 ^ 16 → All IsNameByte (hex4 h)
hex4-IsName h fits =
    let digit1 = hex_digit-IsName (h / 4096) (omega arith) in
    let digit2 = hex_digit-IsName (h / 256 % 16) (omega arith) in
    let digit3 = hex_digit-IsName (h / 16 % 16) (omega arith) in
    let digit4 = hex_digit-IsName (h % 16) (omega arith) in
    (digit1, (digit2, (digit3, (digit4, tt))))

-- The name of the mac-vlan of a VRID below 256 is one that Linux takes, for any parent and family: at
-- most 15 bytes, each a digit, a lower-case letter or a dash, so that none is NUL or a slash.
pub mac_vlan_name-IsName :
    (parent : Str) (vrid : ℕ) (family : AddressFamily)
    → vrid < 256
    → (length (mac_vlan_name parent vrid family) ≤ 15)
      × All IsNameByte (mac_vlan_name parent vrid family)
unfolding mac_vlan_name
mac_vlan_name-IsName parent vrid family h = (
  length-mac_vlan_name parent vrid family h,
  All-append IsNameByte (name_prefix family) _ (prefix-IsName family) (
    inl refl,
    All-append IsNameByte (decimal vrid) _ (decimal-IsName vrid h)
        (inl refl, hex4-IsName (low_bits (fnv1a_hash parent) 16) (omega arith)),
  ),
)
