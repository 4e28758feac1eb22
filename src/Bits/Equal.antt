-- ===== src/Bits/Equal.antt =====
-- Byte strings of one length with the same bits are equal.
use mara_ton_contest_solutio.Common.{
  ℕ, zero, suc, ◌+◌, ◌-◌, ◌/◌, ◌%◌, ◌≤◌, ◌<◌, ◌≡◌, refl, sym, ap, ◌∙◌, List, [], ◌∷◌, length,
  get_or, replicate, All, arith,
}
use mara_ton_contest_solutio.Bits.{shr, bit_at, bits_at, IsByte}
use native.Mathlib.Decide.{dec_lt}

cons_eq : {a b : ℕ} {l r : List ℕ} → a ∷ l ≡ b ∷ r → (a ≡ b) × (l ≡ r)
cons_eq p = (cc, cc)

pub bit_at-eq :
    (a b : List ℕ) (o n j : ℕ)
    → bits_at a o n ≡ bits_at b o n
    → o ≤ j
    → j < o + n
    → bit_at a j ≡ bit_at b j
bit_at-eq a b o zero j e low high = absurd (omega arith)
bit_at-eq a b o (suc n) j e low high =
    let (here, rest) = cons_eq e in
    elim (dec_lt o j) [
      | yes later ↦ bit_at-eq a b (o + 1) n j rest (omega arith) (omega arith)
      | no now ↦
          let same : j ≡ o = omega arith in ap (bit_at a) same ∙ here ∙ ap (bit_at b) (sym same)
    ]

byte_eq :
    (x y : ℕ)
    → x < 256
    → y < 256
    → ((j : ℕ) → j < 8 → shr x (7 - j) % 2 ≡ shr y (7 - j) % 2)
    → x ≡ y
byte_eq x y hx hy e = omega (
  arith,
  e 0 (omega arith),
  e 1 (omega arith),
  e 2 (omega arith),
  e 3 (omega arith),
  e 4 (omega arith),
  e 5 (omega arith),
  e 6 (omega arith),
  e 7 (omega arith),
)

pub bytes_eq :
    (a b : List ℕ)
    → length a ≡ length b
    → All IsByte a
    → All IsByte b
    → ((j : ℕ) → bit_at a j ≡ bit_at b j)
    → a ≡ b
unfolding bit_at
bytes_eq [] [] l ha hb e = refl
bytes_eq [] (y ∷ b) l ha hb e = absurd (omega arith)
bytes_eq (x ∷ a) [] l ha hb e = absurd (omega arith)
bytes_eq (x ∷ a) (y ∷ b) l (hx, ha) (hy, hb) e =
    let head : x ≡ y = byte_eq x y hx hy first in
    ap (λ (z : ℕ). z ∷ a) head
    ∙ ap (λ (t : List ℕ). y ∷ t) (bytes_eq a b (omega arith) ha hb behind)
  where
    first : (j : ℕ) → j < 8 → shr x (7 - j) % 2 ≡ shr y (7 - j) % 2
    first j h =
        let place : j / 8 ≡ 0 = omega arith in
        let bit : j % 8 ≡ j = omega arith in rw (place, bit) at (e j)

    behind :
        (j : ℕ)
        → shr (get_or a (j / 8) 0) (7 - j % 8) % 2 ≡ shr (get_or b (j / 8) 0) (7 - j % 8) % 2
    behind j =
        let place : (8 + j) / 8 ≡ suc (j / 8) = omega arith in
        let bit : (8 + j) % 8 ≡ j % 8 = omega arith in rw (place, bit) at (e (8 + j))

pub All-zeroes : (k : ℕ) → All IsByte (replicate k 0)
All-zeroes zero = tt
All-zeroes (suc k) = (omega arith, All-zeroes k)

get_or-zeroes : (k i : ℕ) → get_or {A = ℕ} (replicate k 0) i 0 ≡ 0
get_or-zeroes zero i = refl
get_or-zeroes (suc k) zero = refl
get_or-zeroes (suc k) (suc i) = get_or-zeroes k i

pub shr-zero : (k : ℕ) → shr 0 k ≡ 0
shr-zero zero = refl
shr-zero (suc k) = shr-zero k

pub bit_at-zeroes : (k j : ℕ) → bit_at (replicate k 0) j ≡ 0
unfolding bit_at
bit_at-zeroes k j = rw (get_or-zeroes k (j / 8)) (ap (λ (x : ℕ). x % 2) (shr-zero (7 - j % 8)))
