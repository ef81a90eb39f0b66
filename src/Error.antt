-- ===== src/Error.antt =====
-- The error types of src/error.rs. A `source` that wraps an error of another crate is an opaque
-- code (a number); texts are bytes.
use failover.Base.{ℕ, ◌≡◌, refl, subst, Bool, true, false, Str}

-- The code of an error of std::io, serde_json, log4rs or rtnetlink.
abbrev pub Source : Type 0
Source = ℕ

pub data PacketError : Type 0 where
  unsupported_version : ℕ → PacketError
  malformed : PacketError
  bad_ttl : ℕ → PacketError
  bad_checksum : PacketError
  vrid_mismatch : (expected received : ℕ) → PacketError
  advert_interval_mismatch : (expected received : ℕ) → PacketError
  ip_count_mismatch : (expected received : ℕ) → PacketError
  ip_list_mismatch : PacketError

pub data NetworkError : Type 0 where
  interface_not_found : Str → NetworkError
  no_ipv4_address : Str → NetworkError
  netlink_connect : Source → NetworkError
  interface_lookup : (name : Str) (source : Source) → NetworkError
  not_mac_vlan : Str → NetworkError
  mac_vlan_mismatch : (name reason : Str) → NetworkError
  stale_mac_vlan_removal : (name : Str) (source : Source) → NetworkError
  mac_vlan_create : (name : Str) (source : Source) → NetworkError
  socket_bind : (kind iface : Str) (source : Source) → NetworkError
  signal_handler : Source → NetworkError
  lock_poisoned : NetworkError

pub data ConfigError : Type 0 where
  file_open : (path : Str) (source : Source) → ConfigError
  file_create : (path : Str) (source : Source) → ConfigError
  no_parent_directory : Str → ConfigError
  parse : (path : Str) (source : Source) → ConfigError
  log_file_open : (path : Str) (source : Source) → ConfigError
  logging_setup : Source → ConfigError
  invalid_version : ℕ → ConfigError
  ip_formatting : Str → ConfigError
  duplicate_name : (name : Str) (version : ℕ) → ConfigError
  duplicate_vrid : (vrid version : ℕ) → ConfigError
  advert_interval_too_large : (name : Str) (interval : ℕ) → ConfigError
  ipv6_not_supported_in_v2 : (name address : Str) → ConfigError

pub data FailoverError : Type 0 where
  config : ConfigError → FailoverError
  network : NetworkError → FailoverError

-- `Result<T, E>`, with a third case for code that panics.
pub data Result {ℓ κ} (E : Type κ) (A : Type ℓ) : Type (ℓ ⊔ κ) where
  ok : A → Result E A
  err : E → Result E A
  panic : Result E A

-- `if test { return Err(e); }`
abbrev pub reject_if {ν} : {E : Type ν} → Bool → E → Result E (Unit {0})
reject_if false e = ok tt
reject_if true e = err e

-- `?`, and its use for the effect alone.
infixl 5 ◌>>◌ ◌>>=◌
abbrev pub ◌>>=◌ {ν ℓ κ} :
    {E : Type ν} {A : Type ℓ} {B : Type κ} (m : Result E A) (next : A → Result E B) → Result E B
panic >>= next = panic
err e >>= next = err e
ok a >>= next = next a

abbrev pub ◌>>◌ {ν ℓ} :
    {E : Type ν} {B : Type ℓ} (m : Result E (Unit {0})) (next : Result E B) → Result E B
m >> next = m >>= λ _. next

-- A chain that succeeds has a first step that succeeds, and goes on from what that gives.
pub >>=-eq-ok {ℓ κ ν} :
    {E : Type ν} {A : Type ℓ} {B : Type κ} (m : Result E A) (next : A → Result E B) {result : B}
    → (m >>= next) ≡ ok result
    → (x : A) × (m ≡ ok x) × (next x ≡ ok result)
>>=-eq-ok panic next chain = cc
>>=-eq-ok (err e) next chain = cc
>>=-eq-ok (ok x) next chain = (x, refl, chain)

-- If the code returns, what it returns has the property.
abbrev pub Ensures {ν ℓ κ} :
    {E : Type ν} {A : Type ℓ} → (A → Type κ) → Result E A → Type (ν ⊔ ℓ ⊔ κ)
Ensures {A = A} P m = (a : A) → m ≡ ok a → P a

module _ {ν ℓ κ} {E : Type ν} {A : Type ℓ} (P : A → Type κ) where
  pub Ensures-ok : (a : A) → P a → Ensures {E = E} P (ok a)
  Ensures-ok a p x same = let e : a ≡ x = cc in subst P e p

  pub Ensures->>= {μ} :
      {B : Type μ} (m : Result E B) (next : B → Result E A)
      → ((x : B) → m ≡ ok x → Ensures P (next x))
      → Ensures P (m >>= next)
  Ensures->>= panic next h = λ a same. cc
  Ensures->>= (err e) next h = λ a same. cc
  Ensures->>= (ok x) next h = h x refl
