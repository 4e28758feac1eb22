-- ===== src/Bits/Bytes.antt =====
-- The bit operations on the list of bytes, one bit at a time: an implementation that meets the
-- laws, so that what is proved from them applies.
use mara_ton_contest_solutio.Common.{
  ℕ, zero, suc, ◌+◌, ◌-◌, ◌*◌, ◌/◌, ◌%◌, ◌^◌, ◌≤◌, ◌<◌, ◌≡◌, ◌≢◌, ◌⊎◌, refl, ap, ◌∙◌, List, [], ◌∷◌,
  ◌++◌, length, get_or, set, length-set, get_or-set_self, get_or-set_ne, All, arith,
}
use mara_ton_contest_solutio.Bits.{
  shr, bit_at, bits_at, uint_bits, of_bits, IsByte, BitOps, BitLaws,
}
use mara_ton_contest_solutio.Bits.Stream.{bits_at-add, bits_at-ext}
use native.Mathlib.Nat.{pow-suc}
use native.Mathlib.Decide.{ℕ_discrete}

-- The number b with its bit k replaced by v.
abbrev set_bit : ℕ → ℕ → ℕ → ℕ
set_bit zero b v = b / 2 * 2 + v
set_bit (suc k) b v = set_bit k (b / 2) v * 2 + b % 2

shr-set_bit_self : (k b v : ℕ) → v < 2 → shr (set_bit k b v) k % 2 ≡ v
shr-set_bit_self zero b v h = omega arith
shr-set_bit_self (suc k) b v h =
    ap (λ (x : ℕ). shr x k % 2) {y = set_bit k (b / 2) v} (omega arith)
    ∙ shr-set_bit_self k (b / 2) v h

shr-set_bit_ne : (k j b v : ℕ) → v < 2 → k ≢ j → shr (set_bit k b v) j % 2 ≡ shr b j % 2
shr-set_bit_ne zero zero b v h ne = absurd (ne refl)
shr-set_bit_ne zero (suc j) b v h ne = ap (λ (x : ℕ). shr x j % 2) (omega arith)
shr-set_bit_ne (suc k) zero b v h ne = omega arith
shr-set_bit_ne (suc k) (suc j) b v h ne =
    ap (λ (x : ℕ). shr x j % 2) {y = set_bit k (b / 2) v} (omega arith)
    ∙ shr-set_bit_ne k j (b / 2) v h (λ e. ne (ap suc e))

set_bit-lt : (n k b v : ℕ) → v < 2 → k < n → b < 2 ^ n → set_bit k b v < 2 ^ n
set_bit-lt zero k b v h kn bn = absurd (omega arith)
set_bit-lt (suc n) zero b v h kn bn = omega (arith, pow-suc 2 n)
set_bit-lt (suc n) (suc k) b v h kn bn =
    omega
      (arith, pow-suc 2 n, set_bit-lt n k (b / 2) v h (omega arith) (omega (arith, pow-suc 2 n)))

store_bit : List ℕ → ℕ → ℕ → List ℕ
store_bit m i v = set m (i / 8) (set_bit (7 - i % 8) (get_or m (i / 8) 0) v)

length-store_bit : (m : List ℕ) (i v : ℕ) → length (store_bit m i v) ≡ length m
unfolding store_bit
length-store_bit m i v = length-set m (i / 8) _

bit_at-store_bit_self :
    (m : List ℕ) (i v : ℕ) → v < 2 → i < 8 * length m → bit_at (store_bit m i v) i ≡ v
unfolding bit_at store_bit
bit_at-store_bit_self m i v h hi =
    rw (get_or-set_self m (i / 8) (set_bit (7 - i % 8) (get_or m (i / 8) 0) v) 0 (omega arith))
      (shr-set_bit_self (7 - i % 8) (get_or m (i / 8) 0) v h)

bit_at-store_bit_ne :
    (m : List ℕ) (i j v : ℕ)
    → v < 2
    → i < 8 * length m
    → i ≢ j
    → bit_at (store_bit m i v) j ≡ bit_at m j
unfolding bit_at store_bit
bit_at-store_bit_ne m i j v h hi ne = elim (ℕ_discrete (i / 8) (j / 8)) [
  | yes e ↦ rw (← e) (
      rw (get_or-set_self m (i / 8) (set_bit (7 - i % 8) (get_or m (i / 8) 0) v) 0 (omega arith))
        (shr-set_bit_ne (7 - i % 8) (7 - j % 8) (get_or m (i / 8) 0) v h (omega arith)))
  | no d ↦ rw (get_or-set_ne m (i / 8) (j / 8) (set_bit (7 - i % 8) (get_or m (i / 8) 0) v) 0 d)
]

All-set : (m : List ℕ) (i v : ℕ) → IsByte v → All IsByte m → All IsByte (set m i v)
All-set [] i v h a = a
All-set (x ∷ m) zero v h (hx, a) = (h, a)
All-set (x ∷ m) (suc i) v h (hx, a) = (hx, All-set m i v h a)

All-get_or : (m : List ℕ) (i : ℕ) → All IsByte m → IsByte (get_or m i 0)
All-get_or [] i a = omega arith
All-get_or (x ∷ m) zero (hx, a) = hx
All-get_or (x ∷ m) (suc i) (hx, a) = All-get_or m i a

store_bit-IsByte : (m : List ℕ) (i v : ℕ) → v < 2 → All IsByte m → All IsByte (store_bit m i v)
unfolding store_bit
store_bit-IsByte m i v h a =
    All-set m (i / 8) _
      (set_bit-lt 8 (7 - i % 8) (get_or m (i / 8) 0) v h (omega arith) (All-get_or m (i / 8) a)) a

-- The highest bit first, as `uint_bits` lists them.
store : List ℕ → ℕ → ℕ → ℕ → List ℕ
store m o v zero = m
store m o v (suc n) = store_bit (store m o (v / 2) n) (o + n) (v % 2)

length-store : (m : List ℕ) (o v n : ℕ) → length (store m o v n) ≡ length m
unfolding store
length-store m o v zero = refl
length-store m o v (suc n) =
    length-store_bit (store m o (v / 2) n) (o + n) (v % 2) ∙ length-store m o (v / 2) n

bit_at-store_other :
    (m : List ℕ) (o v n j : ℕ)
    → o + n ≤ 8 * length m
    → (j < o) ⊎ (o + n ≤ j)
    → bit_at (store m o v n) j ≡ bit_at m j
unfolding store
bit_at-store_other m o v zero j h out = refl
bit_at-store_other m o v (suc n) j h out =
    bit_at-store_bit_ne (store m o (v / 2) n) (o + n) j (v % 2) (omega arith)
      (omega (arith, length-store m o (v / 2) n)) (omega arith)
    ∙ bit_at-store_other m o (v / 2) n j (omega arith) (omega arith)

bits_at-store_same :
    (m : List ℕ) (o v n : ℕ) → o + n ≤ 8 * length m → bits_at (store m o v n) o n ≡ uint_bits n v
unfolding store
bits_at-store_same m o v zero h = refl
bits_at-store_same m o v (suc n) h =
    let before = store m o (v / 2) n in
    let after = store_bit before (o + n) (v % 2) in
    let room : o + n < 8 * length before = omega (arith, length-store m o (v / 2) n) in
    ap (bits_at after o) {x = suc n} {y = n + 1} (omega arith)
    ∙ bits_at-add after o n 1
    ∙ ap (λ (l : List ℕ). l ++ bits_at after (o + n) 1)
        (bits_at-ext after before o n (λ j _ below.
            bit_at-store_bit_ne before (o + n) j (v % 2) (omega arith) room (omega arith))
          ∙ bits_at-store_same m o (v / 2) n (omega arith))
    ∙ ap (λ (b : ℕ). uint_bits n (v / 2) ++ (b ∷ []))
        (bit_at-store_bit_self before (o + n) (v % 2) (omega arith) room)

store-IsByte : (m : List ℕ) (o v n : ℕ) → All IsByte m → All IsByte (store m o v n)
unfolding store
store-IsByte m o v zero a = a
store-IsByte m o v (suc n) a =
    store_bit-IsByte (store m o (v / 2) n) (o + n) (v % 2) (omega arith)
      (store-IsByte m o (v / 2) n a)

unfoldable pub byte_ops : BitOps
unfolding store store_bit
byte_ops = record { get_uint = λ m o n. of_bits 0 (bits_at m o n); store_uint = store }

pub byte_laws : BitLaws byte_ops
unfolding byte_ops
byte_laws = record {
  get_law = λ m o n _ _. refl;
  store_length = λ m o v n _ _. length-store m o v n;
  store_same = λ m o v n _ h. bits_at-store_same m o v n h;
  store_other = λ m o v n j _ h out. bit_at-store_other m o v n j h out;
  store_bytes = λ m o v n _ _ a. store-IsByte m o v n a;
}
