-- ===== src/Crates/Checksum.antt =====
-- The crate `internet-checksum`: `Checksum::new`, `add_bytes` and `checksum` (RFC 1071).
use failover.Base.{ℕ, ◌<◌, ◌%◌, ◌≡◌, List, ◌∷◌, ◌++◌, length}

pub record Checksum : Type 1 where
  pub State : Type 0
  pub new : State
  pub add_bytes : State → List ℕ → State
  pub checksum : State → ℕ × ℕ

-- A running checksum that has been fed whole 16-bit words only.
pub data Aligned (c : Checksum) : c.State → Type 0 where
  fresh : Aligned c c.new
  more :
      {s : c.State} (bytes : List ℕ)
      → length bytes % 2 ≡ 0
      → Aligned c s
      → Aligned c (c.add_bytes s bytes)

-- What the documentation states: the result is two bytes, and a message whose two checksum bytes
-- (at an even offset, zero while the checksum is taken) hold the result sums to zero.
pub record IsChecksum (c : Checksum) : Type 0 where
  pub is_bytes : (s : c.State) → ((c.checksum s).0 < 256) × ((c.checksum s).1 < 256)
  pub verifies :
      (s : c.State) (before after : List ℕ)
      → Aligned c s
      → length before % 2 ≡ 0
      → let k = c.checksum (c.add_bytes s (before ++ 0 ∷ 0 ∷ after)) in
        c.checksum (c.add_bytes s (before ++ k.0 ∷ k.1 ∷ after)) ≡ (0, 0)
