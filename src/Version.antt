-- ===== src/Version.antt =====
-- `VrrpVersion`, `VrrpAddresses` and `AddressAction` of src/lib.rs.
use failover.Base.{
  ℕ, ◌+◌, ◌≡◌, ◌↔◌, refl, Bool, true, false, List, [], ◌∷◌, Str, ◌==◌, if◌then◌else◌, length, arith,
}
use failover.Error.{Result, ok, err, panic, ◌>>=◌, Source, PacketError, unsupported_version}

pub data VrrpVersion : Type 0 where
  v2 v3 : VrrpVersion

unfoldable pub as_u8 : VrrpVersion → ℕ
as_u8 v2 = 2
as_u8 v3 = 3

-- `#[derive(PartialEq)]`
abbrev pub version_eq : VrrpVersion → VrrpVersion → Bool
version_eq v2 v2 = true
version_eq v2 v3 = false
version_eq v3 v2 = false
version_eq v3 v3 = true

unfoldable pub try_from : ℕ → Result PacketError VrrpVersion
try_from value =
    if value == 2 then ok v2 else if value == 3 then ok v3 else err (unsupported_version value)

-- Addresses are their bits: 32 for IPv4, 128 for IPv6.
pub data VrrpAddresses : Type 0 where
  v4 : List ℕ → VrrpAddresses
  v6 : List ℕ → VrrpAddresses

unfoldable pub len : VrrpAddresses → ℕ
len (v4 addrs) = length addrs
len (v6 addrs) = length addrs

pub data AddressAction : Type 0 where
  add delete : AddressAction

-- `Display`: "VRRP v2", "VRRP v3", "add" and "delete".
abbrev pub fmt_version : VrrpVersion → Str
fmt_version v = 86 ∷ 82 ∷ 82 ∷ 80 ∷ 32 ∷ 118 ∷ (48 + as_u8 v) ∷ []

abbrev pub fmt_action : AddressAction → Str
fmt_action add = 97 ∷ 100 ∷ 100 ∷ []
fmt_action delete = 100 ∷ 101 ∷ 108 ∷ 101 ∷ 116 ∷ 101 ∷ []

-- The serde instances: what is given to a serializer, and what is made of what a deserializer gives,
-- which `custom` turns into its own error.
unfoldable pub serialize : VrrpVersion → ℕ
unfolding as_u8
serialize v = as_u8 v

abbrev or_custom : Source → Result PacketError VrrpVersion → Result Source VrrpVersion
or_custom source (ok v) = ok v
or_custom source (err e) = err source
or_custom source panic = panic

unfoldable pub deserialize : (custom : ℕ → Source) → Result Source ℕ → Result Source VrrpVersion
unfolding try_from
deserialize custom given = do value ← given; or_custom (custom value) (try_from value)

-- A version survives its number.
pub try_from-as_u8 : (v : VrrpVersion) → try_from (as_u8 v) ≡ ok v
unfolding try_from as_u8
try_from-as_u8 v2 = refl
try_from-as_u8 v3 = refl

-- Only the numbers of the two versions are read.
pub try_from-eq-ok : (n : ℕ) (v : VrrpVersion) → try_from n ≡ ok v → n ≡ as_u8 v
unfolding try_from as_u8
try_from-eq-ok n v h = ground arith

-- What is deserialized to a version is just what that version is serialized to.
pub deserialize_iff :
    (custom : ℕ → Source) (given : Result Source ℕ) (v : VrrpVersion)
    → (deserialize custom given ≡ ok v) ↔ (given ≡ ok (serialize v))
unfolding deserialize serialize try_from as_u8
deserialize_iff custom (ok value) v2 = ground arith
deserialize_iff custom (ok value) v3 = ground arith
deserialize_iff custom (err e) v = ground arith
deserialize_iff custom panic v = ground arith
