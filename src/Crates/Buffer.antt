-- ===== src/Crates/Buffer.antt =====
-- The crate `bytes`: big-endian writes at the end of a `BytesMut`, and reads off the front of a `Bytes`.
-- A buffer is the list of its bytes. A read past the end panics, which is `none` here.
use failover.Base.{
  ℕ, ◌+◌, ◌*◌, ◌≡◌, ◌∙◌, List, ◌∷◌, ◌++◌, arith, Option, none, some, be_bytes, from_be_bytes,
  length, take, drop, ltb, if◌then◌else◌,
}

-- What a read of `k` bytes is documented to give.
abbrev pub read : ℕ → List ℕ → Option (ℕ × List ℕ)
read k buf = if ltb (length buf) k then none else some (from_be_bytes (take k buf), drop k buf)

pub record Buffer : Type 0 where
  pub put_u8 : List ℕ → ℕ → List ℕ
  pub put_u16 : List ℕ → ℕ → List ℕ
  pub put_u32 : List ℕ → ℕ → List ℕ
  pub put_u128 : List ℕ → ℕ → List ℕ
  pub put_slice : List ℕ → List ℕ → List ℕ
  pub get_u8 : List ℕ → Option (ℕ × List ℕ)
  pub get_u16 : List ℕ → Option (ℕ × List ℕ)
  pub get_u32 : List ℕ → Option (ℕ × List ℕ)
  pub get_u128 : List ℕ → Option (ℕ × List ℕ)

pub record IsBuffer (b : Buffer) : Type 0 where
  pub put_u8_lem : (buf : List ℕ) (n : ℕ) → b.put_u8 buf n ≡ buf ++ be_bytes 1 n
  pub put_u16_lem : (buf : List ℕ) (n : ℕ) → b.put_u16 buf n ≡ buf ++ be_bytes 2 n
  pub put_u32_lem : (buf : List ℕ) (n : ℕ) → b.put_u32 buf n ≡ buf ++ be_bytes 4 n
  pub put_u128_lem : (buf : List ℕ) (n : ℕ) → b.put_u128 buf n ≡ buf ++ be_bytes 16 n
  pub put_slice_lem : (buf src : List ℕ) → b.put_slice buf src ≡ buf ++ src
  pub get_u8_lem : (buf : List ℕ) → b.get_u8 buf ≡ read 1 buf
  pub get_u16_lem : (buf : List ℕ) → b.get_u16 buf ≡ read 2 buf
  pub get_u32_lem : (buf : List ℕ) → b.get_u32 buf ≡ read 4 buf
  pub get_u128_lem : (buf : List ℕ) → b.get_u128 buf ≡ read 16 buf

module _ (b : Buffer) (lawful : IsBuffer b) where
  open lawful use {get_u8_lem, get_u16_lem}

  pub get_u8-cons : (x : ℕ) (rest : List ℕ) → b.get_u8 (x ∷ rest) ≡ some (x, rest)
  unfolding from_be_bytes
  get_u8-cons x rest = get_u8_lem (x ∷ rest) ∙ ground arith

  pub get_u16-cons : (x y : ℕ) (rest : List ℕ) → b.get_u16 (x ∷ y ∷ rest) ≡ some (x * 256 + y, rest)
  unfolding from_be_bytes
  get_u16-cons x y rest = get_u16_lem (x ∷ y ∷ rest) ∙ ground arith
