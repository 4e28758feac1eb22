-- ===== src/Utils/Marks.antt =====
-- Byte strings that end with a marker: the last bit of the content is followed by a 1 and by zeroes
-- up to the end of the byte.
use mara_ton_contest_solutio.Common.{
  ℕ, zero, suc, ◌+◌, ◌-◌, ◌*◌, ◌/◌, ◌%◌, ◌^◌, ◌≤◌, ◌<◌, ◌≡◌, refl, sym, ap, ◌∙◌, List, [], ◌∷◌,
  length, take, get_or, All, some, true, not, ◌==◌, le→leb, u32, arith,
}
use mara_ton_contest_solutio.Bits.{shr, bit_at, bits_at, IsByte}
use mara_ton_contest_solutio.Bits.Stream.{bits_at-ext}
use mara_ton_contest_solutio.Utils.{ZeroCounts, ZeroLaws, back, expand_bits, bytes_str_to_bit_str}
use native.Mathlib.Decide.{dec_lt}

-- n bits of content.
pub record EndsMarked (bytes : List ℕ) (n : ℕ) : Type 0 where
  pub within : n < 8 * length bytes
  pub close : 8 * length bytes ≤ n + 8
  pub one : bit_at bytes n ≡ 1
  pub zeroes : (j : ℕ) → n < j → j < 8 * length bytes → bit_at bytes j ≡ 0
  pub all_bytes : All IsByte bytes

All-get_or : (m : List ℕ) (i : ℕ) → All IsByte m → get_or m i 0 < 256
All-get_or [] i a = omega arith
All-get_or (x ∷ m) zero (hx, a) = hx
All-get_or (x ∷ m) (suc i) (hx, a) = All-get_or m i a

pub shr-zero : (k : ℕ) → shr 0 k ≡ 0
shr-zero zero = refl
shr-zero (suc k) = shr-zero k

-- The bits of the last byte.
bit_at-back :
    (bytes : List ℕ) (k : ℕ)
    → 0 < length bytes
    → k < 8
    → bit_at bytes (8 * length bytes - 1 - k) ≡ shr (back bytes) k % 2
unfolding bit_at
bit_at-back bytes k pos h =
    let place : (8 * length bytes - 1 - k) / 8 ≡ length bytes - 1 = omega arith in
    let bit : 7 - (8 * length bytes - 1 - k) % 8 ≡ k = omega arith in rw (place, bit) refl

pub back-pos : (bytes : List ℕ) (n : ℕ) → EndsMarked bytes n → 0 < back bytes
back-pos bytes n m = elim (dec_lt 0 (back bytes)) [
  | yes h ↦ h
  | no h ↦
      let empty : back bytes ≡ 0 = omega arith in
      let k : ℕ = 8 * length bytes - 1 - n in
      absurd (
        omega (
          arith,
          m.one,
          m.within,
          m.close,
          ap (bit_at bytes) {x = n} {y = 8 * length bytes - 1 - k} (omega (arith, m.within)),
          bit_at-back bytes k (omega (arith, m.within)) (omega (arith, m.within, m.close)),
          ap (λ (b : ℕ). shr b k % 2) empty,
          shr-zero k,
        ))
]

expand_bits-eq : (bytes : List ℕ) (i n : ℕ) → expand_bits bytes i n ≡ bits_at bytes i n
unfolding expand_bits bit_at
expand_bits-eq bytes i zero = refl
expand_bits-eq bytes i (suc n) = rw (expand_bits-eq bytes (i + 1) n) refl

-- The bit that marks the end, and those behind it, in the last byte.
pub back-bits :
    (bytes : List ℕ) (n : ℕ)
    → EndsMarked bytes n
    → (shr (back bytes) (8 * length bytes - 1 - n) % 2 ≡ 1)
      × ((k : ℕ) → k < 8 * length bytes - 1 - n → shr (back bytes) k % 2 ≡ 0)
back-bits bytes n m = (
  sym (
        bit_at-back bytes (8 * length bytes - 1 - n) (omega (arith, m.within))
          (omega (arith, m.within, m.close)))
      ∙ ap (bit_at bytes) {x = 8 * length bytes - 1 - (8 * length bytes - 1 - n)} {y = n}
          (omega (arith, m.within))
      ∙ m.one,
  λ k h.
      sym (bit_at-back bytes k (omega (arith, m.within)) (omega (arith, m.close)))
      ∙ m.zeroes (8 * length bytes - 1 - k) (omega arith) (omega (arith, m.within)),
)

module _ (zc : ZeroCounts) (laws : ZeroLaws zc) where
  -- The marker is found by counting the zeroes at the end of the last byte.
  pub trailing-EndsMarked :
      (bytes : List ℕ) (n : ℕ)
      → EndsMarked bytes n
      → zc.count_trailing_zeroes64 (back bytes) ≡ 8 * length bytes - 1 - n
  trailing-EndsMarked bytes n m =
      let b : ℕ = back bytes in
      let pos = back-pos bytes n m in
      let fits : b < 2 ^ 64 = omega (arith, All-get_or bytes (length bytes - 1) m.all_bytes) in
      let (one, zeroes) = back-bits bytes n m in
      let t : ℕ = zc.count_trailing_zeroes64 b in
      let k : ℕ = 8 * length bytes - 1 - n in
      elim (dec_lt t k) [
        | yes below ↦ absurd (omega (arith, zeroes t below, laws.trailing_one b pos fits))
        | no above ↦ elim (dec_lt k t) [
          | yes far ↦ absurd (omega (arith, one, laws.trailing_none b k pos fits far))
          | no near ↦ omega arith
        ]
      ]

  -- For a string of fewer than 2^29 bytes that ends with a marker at bit n: bytes_str_to_bit_str with
  -- marked_end passes its CHECKs and returns the n bits before the marker.
  pub bytes_str_to_bit_str-EndsMarked :
      (bytes : List ℕ) (n : ℕ)
      → EndsMarked bytes n
      → length bytes * 8 < 2 ^ 32
      → bytes_str_to_bit_str zc bytes true ≡ some (bits_at bytes 0 n)
  unfolding bytes_str_to_bit_str
  bytes_str_to_bit_str-EndsMarked bytes n m small =
      let t = trailing-EndsMarked bytes n m in
      let pos = back-pos bytes n m in
      let count : u32 (length bytes * 8) - (8 * length bytes - 1 - n + 1) ≡ n =
        omega (arith, m.within) in
      rw
        (
          t,
          nonzero (back bytes) pos,
          le→leb (8 * length bytes - 1 - n) 7 (omega (arith, m.close)),
          count,
        )
        (ap some (expand_bits-eq bytes 0 n))
    where
      nonzero : (b : ℕ) → 0 < b → not (b == 0) ≡ true
      nonzero b h = ground arith

-- The first k bytes have the bits of the string.
pub bit_at-take : (m : List ℕ) (k j : ℕ) → j < 8 * k → bit_at (take k m) j ≡ bit_at m j
unfolding bit_at
bit_at-take m k j h = rw (get_or-take m k (j / 8) (omega arith)) refl
  where
    get_or-take : (m : List ℕ) (k i : ℕ) → i < k → get_or (take k m) i 0 ≡ get_or m i 0
    get_or-take m zero i h = elim h [ ]
    get_or-take [] (suc k) i h = refl
    get_or-take (x ∷ m) (suc k) zero h = refl
    get_or-take (x ∷ m) (suc k) (suc i) h = get_or-take m k i (omega arith)

All-take : (m : List ℕ) (k : ℕ) → All IsByte m → All IsByte (take k m)
All-take m zero a = tt
All-take [] (suc k) a = a
All-take (x ∷ m) (suc k) (hx, a) = (hx, All-take m k a)

pub length-take_le : (m : List ℕ) (k : ℕ) → k ≤ length m → length (take k m) ≡ k
length-take_le m zero h = refl
length-take_le [] (suc k) h = absurd (omega arith)
length-take_le (x ∷ m) (suc k) h = ap suc (length-take_le m k (omega arith))

-- Cutting a string behind its marker: `n` bits, the marker at n, and nothing behind it.
pub EndsMarked-take :
    (m : List ℕ) (n : ℕ)
    → n < 8 * length m
    → bit_at m n ≡ 1
    → ((j : ℕ) → n < j → bit_at m j ≡ 0)
    → All IsByte m
    → EndsMarked (take ((n + 1 + 7) / 8) m) n
      × (bits_at (take ((n + 1 + 7) / 8) m) 0 n ≡ bits_at m 0 n)
EndsMarked-take m n within one zeroes a =
    let k : ℕ = (n + 1 + 7) / 8 in
    let size : length (take k m) ≡ k = length-take_le m k (omega arith) in
    (
      record {
        within = omega arith;
        close = omega arith;
        one = bit_at-take m k n (omega arith) ∙ one;
        zeroes = λ j h lt. bit_at-take m k j (omega arith) ∙ zeroes j h;
        all_bytes = All-take m k a;
      },
      bits_at-ext (take k m) m 0 n (λ j _ lt. bit_at-take m k j (omega arith)),
    )
