-- ===== src/Packet/Totals.antt =====
-- The reads of `decode` (src/packet.rs) where the buffer is long enough, and what an answer of
-- the decoder says of the bytes.
use failover.Base.{
  ℕ, zero, suc, ◌+◌, ◌-◌, ◌*◌, ◌/◌, ◌≤◌, ◌≡◌, ◌⊎◌, inl, inr, refl, subst, ap, Bool, true, List, [],
  ◌∷◌, length, arith, length-drop, take, drop, from_be_bytes, Bool-cases, ◌==◌, ◌%◌,
}
use failover.Error.{ok, err, PacketError, Result, unsupported_version}
use failover.Version
use failover.Version.{VrrpVersion, v2, v3, VrrpAddresses, try_from-eq-ok}
use failover.Crates.Buffer.{Buffer, IsBuffer, read, get_u8-cons, get_u16-cons}
use failover.Crates.Checksum.{Checksum}
use failover.Packet.{VrrpPacket}
use failover.Packet.Decode.{get_interval, get_addrs4, get_addrs6, get_auth, trailing_auth_len}

-- The message is whole: its first four bytes are the version, the VRID, the priority and the
-- address count, its length is the one that they announce, and there are at most 16 addresses.
pub record IsWhole (size trailer : ℕ) (bytes : List ℕ) (p : VrrpPacket) : Type 0 where
  pub first : ℕ
  pub rest : List ℕ
  pub layout : bytes ≡ first ∷ p.vrid ∷ p.priority ∷ Version.len p.addresses ∷ rest
  pub version_nibble : first / 16 ≡ Version.as_u8 p.version
  pub exact : length bytes ≡ 8 + trailer + Version.len p.addresses * size
  pub few : Version.len p.addresses ≤ 16

pub try_from-cases :
    (n : ℕ)
    → ((v : VrrpVersion) × (Version.try_from n ≡ ok v))
      ⊎ ((e : PacketError) × (Version.try_from n ≡ err e))
unfolding Version.try_from
try_from-cases n = elim (Bool-cases (n == 2)) [
  | inl two ↦ inl (v2, rw two)
  | inr other ↦ elim (Bool-cases (n == 3)) [
    | inl three ↦ inl (v3, rw (other, three))
    | inr neither ↦ inr (unsupported_version n, rw (other, neither))
  ]
]

-- What a decoder answers: an error, or a packet that the bytes hold whole, with a good checksum.
abbrev pub Answers :
    (size : ℕ) (trailer : VrrpVersion → ℕ) (good : Bool)
    → List ℕ
    → Result PacketError VrrpPacket
    → Type 0
Answers size trailer good bytes r =
    ((e : PacketError) × (r ≡ err e))
    ⊎ ((p : VrrpPacket) × (r ≡ ok p) × IsWhole size (trailer p.version) bytes p × (good ≡ true))

pub Answers-ok :
    (size : ℕ) (trailer : VrrpVersion → ℕ) (good : Bool) (bytes : List ℕ)
    → {r : Result PacketError VrrpPacket} → Answers size trailer good bytes r
    → (p : VrrpPacket) → r ≡ ok p
    → IsWhole size (trailer p.version) bytes p × (good ≡ true)
Answers-ok size trailer good bytes (inl (e, failed)) p h = cc
Answers-ok size trailer good bytes (inr (q, read, whole, sum)) p h =
    let same : q ≡ p = cc in (subst (λ x. IsWhole size (trailer x.version) bytes x) same whole, sum)

module _ (b : Buffer) (c : Checksum) (lawful : IsBuffer b) where
  open lawful use {get_u32_lem, get_u128_lem}

  pub get_addrs4-total :
      (n : ℕ) (buf : List ℕ)
      → n * 4 ≤ length buf
      → (addrs : List ℕ) × (rest : List ℕ) × (get_addrs4 b c n buf ≡ ok (addrs, rest))
        × (length addrs ≡ n)
        × (length rest ≡ length buf - n * 4)
  unfolding get_addrs4
  get_addrs4-total zero buf h = ([], buf, refl, refl, omega arith)
  get_addrs4-total (suc n) buf h =
      let r = get_addrs4-total n (drop 4 buf) (omega (arith, length-drop 4 buf)) in
      (
        from_be_bytes (take 4 buf) ∷ r.0,
        r.1,
        ground (arith, get_u32_lem buf, r.2),
        ap suc r.3,
        omega (arith, r.4, length-drop 4 buf),
      )

  pub get_addrs6-total :
      (n : ℕ) (buf : List ℕ)
      → n * 16 ≤ length buf
      → (addrs : List ℕ) × (rest : List ℕ) × (get_addrs6 b c n buf ≡ ok (addrs, rest))
        × (length addrs ≡ n)
        × (length rest ≡ length buf - n * 16)
  unfolding get_addrs6
  get_addrs6-total zero buf h = ([], buf, refl, refl, omega arith)
  get_addrs6-total (suc n) buf h =
      let r = get_addrs6-total n (drop 16 buf) (omega (arith, length-drop 16 buf)) in
      (
        from_be_bytes (take 16 buf) ∷ r.0,
        r.1,
        ground (arith, get_u128_lem buf, r.2),
        ap suc r.3,
        omega (arith, r.4, length-drop 16 buf),
      )

  pub get_auth-total :
      (v : VrrpVersion) (buf : List ℕ)
      → trailing_auth_len v ≤ length buf
      → (rest : List ℕ) × (get_auth b c v buf ≡ ok rest)
  unfolding get_auth
  get_auth-total v2 buf h = (
    drop 4 (drop 4 buf),
    ground (arith, get_u32_lem buf, get_u32_lem (drop 4 buf), length-drop 4 buf),
  )
  get_auth-total v3 buf h = (buf, refl)

  pub get_interval-total :
      (v : VrrpVersion) (x y : ℕ) (rest : List ℕ)
      → (cs : ℕ) × (get_interval b c v (x ∷ y ∷ rest) ≡ ok (cs, rest))
  unfolding get_interval
  get_interval-total v2 x y rest = (y * 100, simp (get_u8-cons b lawful))
  get_interval-total v3 x y rest = ((x * 256 + y) % 4096, simp (get_u16-cons b lawful))
