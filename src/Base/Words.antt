-- ===== src/Base/Words.antt =====
-- Machine words as native numbers, and their big-endian bytes (std: `to_be_bytes`, `from_be_bytes`).
use Prim.Native.Nat.{ℕ, zero, suc, ◌+◌, ◌*◌, ◌/◌, ◌%◌, ◌^◌, ◌<◌}
use mathlib.Core.Path.{◌≡◌, refl}
use mathlib.Core.List.{List, [], ◌∷◌, ◌++◌}
use native.Mathlib.Omega.{arith}
use failover.Base.Lists.{length, length-append, All, All-append}

-- `x as u8`, `x as u16`.
abbrev pub as_u8 : ℕ → ℕ
as_u8 n = n % 256

abbrev pub as_u16 : ℕ → ℕ
as_u16 n = n % 65536

-- `x >> k`, and `x & (2 ^ k - 1)`.
abbrev pub shr : ℕ → ℕ → ℕ
shr x k = x / 2 ^ k

abbrev pub low_bits : ℕ → ℕ → ℕ
low_bits x k = x % 2 ^ k

-- The values of a word of `k` bytes lie below `size k`.
abbrev pub size : ℕ → ℕ
size zero = 1
size (suc k) = 256 * size k

-- The `k` bytes of `n`, the most significant first.
unfoldable pub be_bytes : ℕ → ℕ → List ℕ
be_bytes zero n = []
be_bytes (suc k) n = be_bytes k (n / 256) ++ (n % 256) ∷ []

from_be_bytes_from : ℕ → List ℕ → ℕ
from_be_bytes_from acc [] = acc
from_be_bytes_from acc (b ∷ bs) = from_be_bytes_from (acc * 256 + b) bs

unfoldable pub from_be_bytes : List ℕ → ℕ
unfolding from_be_bytes_from
from_be_bytes bs = from_be_bytes_from 0 bs

abbrev pub IsByte : ℕ → Type 0
IsByte b = b < 256

abbrev pub Bytes : List ℕ → Type 0
Bytes = All IsByte

pub length-be_bytes : (k n : ℕ) → length (be_bytes k n) ≡ k
unfolding be_bytes
length-be_bytes zero n = refl
length-be_bytes (suc k) n =
    omega
      (arith, length-append (be_bytes k (n / 256)) ((n % 256) ∷ []), length-be_bytes k (n / 256))

pub be_bytes-Bytes : (k n : ℕ) → Bytes (be_bytes k n)
unfolding be_bytes
be_bytes-Bytes zero n = tt
be_bytes-Bytes (suc k) n =
    All-append IsByte (be_bytes k (n / 256)) _ (be_bytes-Bytes k (n / 256)) (omega arith, tt)

from_be_bytes_from-append :
    (acc : ℕ) (xs : List ℕ) (b : ℕ)
    → from_be_bytes_from acc (xs ++ b ∷ []) ≡ from_be_bytes_from acc xs * 256 + b
unfolding from_be_bytes_from
from_be_bytes_from-append acc [] b = refl
from_be_bytes_from-append acc (x ∷ xs) b = from_be_bytes_from-append (acc * 256 + x) xs b

from_be_bytes_from-be_bytes : (k n : ℕ) → n < size k → from_be_bytes_from 0 (be_bytes k n) ≡ n
unfolding be_bytes from_be_bytes_from
from_be_bytes_from-be_bytes zero n h = omega arith
from_be_bytes_from-be_bytes (suc k) n h = omega (
  arith,
  from_be_bytes_from-append 0 (be_bytes k (n / 256)) (n % 256),
  from_be_bytes_from-be_bytes k (n / 256) (omega arith),
)

-- Reading the bytes of a word that fits gives the word back.
pub from_be_bytes-be_bytes : (k n : ℕ) → n < size k → from_be_bytes (be_bytes k n) ≡ n
unfolding from_be_bytes
from_be_bytes-be_bytes k n h = from_be_bytes_from-be_bytes k n h

pub be_bytes_one : (n : ℕ) → be_bytes 1 n ≡ (n % 256) ∷ []
unfolding be_bytes
be_bytes_one n = refl

pub be_bytes_two : (n : ℕ) → be_bytes 2 n ≡ (n / 256 % 256) ∷ (n % 256) ∷ []
unfolding be_bytes
be_bytes_two n = refl
