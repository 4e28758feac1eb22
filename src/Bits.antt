-- ===== src/Bits.antt =====
-- Bits of byte strings, and td::BitPtr as the sources use it.
-- `get_uint` and `store_uint` of include/crypto/common/bitstring.h belong to the TON library and
-- are implemented outside the repository: they are the parameter `BitOps`, and `BitLaws` is what
-- the sources rely on. A byte string is the list of its bytes, and a bit of it is found as
-- everywhere in the sources: bit i is bit 7 - i % 8 of byte i / 8.
pub mod Stream
pub mod Bytes
pub mod Equal
use mara_ton_contest_solutio.Common.{
  ℕ, zero, suc, ◌+◌, ◌-◌, ◌*◌, ◌/◌, ◌%◌, ◌≤◌, ◌<◌, ◌≡◌, ◌⊎◌, List, [], ◌∷◌, ◌++◌, length, get_or,
  All,
}

-- x >> k
abbrev pub shr : ℕ → ℕ → ℕ
shr x zero = x
shr x (suc k) = shr (x / 2) k

-- (bytes[i / 8] >> (7 - i % 8)) & 1
unfoldable pub bit_at : List ℕ → ℕ → ℕ
bit_at bytes i = shr (get_or bytes (i / 8) 0) (7 - i % 8) % 2

-- The n bits from position o on.
abbrev pub bits_at : List ℕ → ℕ → ℕ → List ℕ
bits_at bytes o zero = []
bits_at bytes o (suc n) = bit_at bytes o ∷ bits_at bytes (o + 1) n

-- The low n bits of v, the highest first.
abbrev pub uint_bits : ℕ → ℕ → List ℕ
uint_bits zero v = []
uint_bits (suc n) v = uint_bits n (v / 2) ++ (v % 2 ∷ [])

-- The number that a string of bits stands for, the highest first.
abbrev pub of_bits : ℕ → List ℕ → ℕ
of_bits acc [] = acc
of_bits acc (b ∷ bs) = of_bits (acc * 2 + b) bs

abbrev pub IsByte : ℕ → Type 0
IsByte b = b < 256

abbrev pub IsBit : ℕ → Type 0
IsBit b = b < 2

-- BitPtr(bytes, o).get_uint(n) and BitPtr(bytes, o).store_uint(v, n), with the bytes after the call.
pub record BitOps : Type 0 where
  pub get_uint : List ℕ → ℕ → ℕ → ℕ
  pub store_uint : List ℕ → ℕ → ℕ → ℕ → List ℕ

-- Both are for at most 64 bits that lie within the string; a store changes no other bit, and it
-- drops the bits of v above its n lowest.
pub record BitLaws (ops : BitOps) : Type 0 where
  pub get_law :
      (m : List ℕ) (o n : ℕ)
      → n ≤ 64
      → o + n ≤ 8 * length m
      → ops.get_uint m o n ≡ of_bits 0 (bits_at m o n)
  pub store_length :
      (m : List ℕ) (o v n : ℕ)
      → n ≤ 64
      → o + n ≤ 8 * length m
      → length (ops.store_uint m o v n) ≡ length m
  pub store_same :
      (m : List ℕ) (o v n : ℕ)
      → n ≤ 64
      → o + n ≤ 8 * length m
      → bits_at (ops.store_uint m o v n) o n ≡ uint_bits n v
  pub store_other :
      (m : List ℕ) (o v n j : ℕ)
      → n ≤ 64
      → o + n ≤ 8 * length m
      → (j < o) ⊎ (o + n ≤ j)
      → bit_at (ops.store_uint m o v n) j ≡ bit_at m j
  pub store_bytes :
      (m : List ℕ) (o v n : ℕ)
      → n ≤ 64
      → o + n ≤ 8 * length m
      → All IsByte m
      → All IsByte (ops.store_uint m o v n)

-- td::BitPtr: `ptr` is the string that it points into.
pub record BitPtr : Type 0 where
  pub ptr : List ℕ
  pub offs : ℕ

module _ (ops : BitOps) where
  -- p.store_uint(v, n); p.offs += n;
  unfoldable pub write : BitPtr → ℕ → ℕ → BitPtr
  write p v n = record { ptr = ops.store_uint p.ptr p.offs v n; offs = p.offs + n }

  -- p.get_uint(n); p.offs += n;
  unfoldable pub read : BitPtr → ℕ → ℕ × BitPtr
  read p n = (ops.get_uint p.ptr p.offs n, record p { offs = p.offs + n })
