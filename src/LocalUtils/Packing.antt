-- ===== src/LocalUtils/Packing.antt =====
-- Packed bits are unpacked again.
use Prim.Native.Nat.{bit_xor}
use mara_ton_contest_solutio.Common.{
  ℕ, zero, suc, ◌+◌, ◌-◌, ◌*◌, ◌/◌, ◌%◌, ◌^◌, ◌≤◌, ◌<◌, ◌≡◌, ◌≢◌, refl, sym, ap, subst, ◌⊎◌, inl,
  inr, Bool-cases, ◌∙◌, Bool, true, false, ◌&&◌, some, List, [], ◌∷◌, ltb, ◌==◌, if◌then◌else◌,
  ◌>>=◌, length, get_or, set, length-set, get_or-set_self, get_or-set_ne, length-replicate,
  replicate, All, le→leb, arith,
}
use mara_ton_contest_solutio.Bits.{shr, bit_at, bits_at, IsBit, IsByte}
use mara_ton_contest_solutio.Bits.Stream.{bits_at-ext}
use mara_ton_contest_solutio.Utils.{ZeroCounts, ZeroLaws, bytes_str_to_bit_str}
use mara_ton_contest_solutio.Utils.Marks.{shr-zero, EndsMarked, bytes_str_to_bit_str-EndsMarked}
use mara_ton_contest_solutio.LocalUtils.{flip, pack_loop, pack_expanded_bits_to_bytes}

-- What an xor with one bit does to each bit of a byte, checked for every byte and bit.
xor_row : (b k j : ℕ) → Bool
xor_row b k j =
    (shr (bit_xor b (2 ^ k)) j % 2 == (if k == j then 1 - shr b k % 2 else shr b j % 2))
    && ltb (bit_xor b (2 ^ k)) 256

all_below : ℕ → (ℕ → Bool) → Bool
all_below zero p = true
all_below (suc n) p = p n && all_below n p

all_below-apply : (n : ℕ) (p : ℕ → Bool) (i : ℕ) → all_below n p ≡ true → i < n → p i ≡ true
unfolding all_below
all_below-apply zero p i h lt = absurd (omega arith)
all_below-apply (suc n) p i h lt = ground (arith, all_below-apply n p i)

xor_table : all_below 16384 (λ n. xor_row (n / 64) (n / 8 % 8) (n % 8)) ≡ true
unfolding all_below xor_row
xor_table = refl

-- Two tests that hold, read as an equation and an order.
and_tests : (p q x y : ℕ) → ((p == q) && ltb x y) ≡ true → (p ≡ q) × (x < y)
and_tests p q x y h = ground arith

read_row :
    (b k j : ℕ)
    → xor_row b k j ≡ true
    → (shr (bit_xor b (2 ^ k)) j % 2 ≡ (if k == j then 1 - shr b k % 2 else shr b j % 2))
      × (bit_xor b (2 ^ k) < 256)
unfolding xor_row
read_row b k j h =
    and_tests (shr (bit_xor b (2 ^ k)) j % 2) (if k == j then 1 - shr b k % 2 else shr b j % 2)
      (bit_xor b (2 ^ k)) 256 h

-- Every bit of a byte after an xor with 2^k.
xor_bits :
    (b k j : ℕ)
    → b < 256
    → k < 8
    → j < 8
    → (shr (bit_xor b (2 ^ k)) j % 2 ≡ (if k == j then 1 - shr b k % 2 else shr b j % 2))
      × (bit_xor b (2 ^ k) < 256)
xor_bits b k j hb hk hj =
    let n : ℕ = b * 64 + k * 8 + j in
    let row =
      all_below-apply 16384 (λ n. xor_row (n / 64) (n / 8 % 8) (n % 8)) n xor_table (omega arith) in
    let eb : n / 64 ≡ b = omega arith in
    let ek : n / 8 % 8 ≡ k = omega arith in
    let ej : n % 8 ≡ j = omega arith in
    read_row b k j (
      subst (λ x. xor_row x k j ≡ true) eb
        (subst (λ x. xor_row (n / 64) x j ≡ true) ek
          (subst (λ x. xor_row (n / 64) (n / 8 % 8) x ≡ true) ej row)))

All-byte : (m : List ℕ) (i : ℕ) → All IsByte m → get_or m i 0 < 256
All-byte [] i a = omega arith
All-byte (x ∷ m) zero (hx, a) = hx
All-byte (x ∷ m) (suc i) (hx, a) = All-byte m i a

All-set : (m : List ℕ) (i v : ℕ) → All IsByte m → v < 256 → All IsByte (set m i v)
All-set [] i v a h = a
All-set (x ∷ m) zero v (hx, a) h = (h, a)
All-set (x ∷ m) (suc i) v (hx, a) h = (hx, All-set m i v a h)

flip-All : (m : List ℕ) (i : ℕ) → All IsByte m → All IsByte (flip m i)
unfolding flip
flip-All m i a =
    All-set m (i / 8) (bit_xor (get_or m (i / 8) 0) (2 ^ (7 - i % 8))) a
      (xor_bits (get_or m (i / 8) 0) (7 - i % 8) 0 (All-byte m (i / 8) a) (omega arith)
        (omega arith)).1

length-flip : (m : List ℕ) (i : ℕ) → length (flip m i) ≡ length m
unfolding flip
length-flip m i = length-set m (i / 8) (bit_xor (get_or m (i / 8) 0) (2 ^ (7 - i % 8)))

eq_or_ne : (a b : ℕ) → (a ≡ b) ⊎ (a ≢ b)
eq_or_ne a b = elim (Bool-cases (a == b)) [
  | inl h ↦ inl (ground (arith, h))
  | inr h ↦ inr (λ e. ground (arith, h, e))
]

-- flip turns bit i over and leaves the other bits alone.
bit_at-flip :
    (m : List ℕ) (i j : ℕ)
    → All IsByte m
    → i < 8 * length m
    → bit_at (flip m i) j ≡ (if i == j then 1 - bit_at m i else bit_at m j)
unfolding flip bit_at
bit_at-flip m i j a within = elim (eq_or_ne (i / 8) (j / 8)) [
  | inl same ↦
      let v : ℕ = bit_xor (get_or m (i / 8) 0) (2 ^ (7 - i % 8)) in
      let hit : get_or (set m (i / 8) v) (j / 8) 0 ≡ v =
        subst (λ (x : ℕ). get_or (set m (i / 8) v) x 0 ≡ v) same
          (get_or-set_self m (i / 8) v 0 (omega arith)) in
      let (bits, _) =
        xor_bits (get_or m (i / 8) 0) (7 - i % 8) (7 - j % 8) (All-byte m (i / 8) a) (omega arith)
          (omega arith) in
      let places : ((7 - i % 8) == (7 - j % 8)) ≡ (i == j) = ground arith in
      let byte : get_or m (j / 8) 0 ≡ get_or m (i / 8) 0 = ap (λ x. get_or m x 0) (sym same) in
      rw (hit, bits, places, byte) refl
  | inr other ↦
      let apart : (i == j) ≡ false = ground arith in
      rw
        (
          get_or-set_ne m (i / 8) (j / 8) (bit_xor (get_or m (i / 8) 0) (2 ^ (7 - i % 8))) 0 other,
          apart,
        )
        refl
]

pick_self : (i x y : ℕ) → (if i == i then x else y) ≡ x
pick_self i x y = ground arith

pick_ne : (i j x y : ℕ) → i ≢ j → (if i == j then x else y) ≡ y
pick_ne i j x y h = ground arith

-- The loop writes its bits from position i on into a string that has none there.
pack_loop_lem :
    (bits : List ℕ) (i : ℕ) (m : List ℕ)
    → All IsBit bits
    → All IsByte m
    → i + length bits ≤ 8 * length m
    → ((j : ℕ) → i ≤ j → bit_at m j ≡ 0)
    → (out : List ℕ) × (pack_loop bits i m ≡ some out)
      × ((length out ≡ length m) × All IsByte out)
      × ((j : ℕ) → j < i → bit_at out j ≡ bit_at m j)
      × (bits_at out i (length bits) ≡ bits)
      × ((j : ℕ) → i + length bits ≤ j → bit_at out j ≡ 0)
unfolding pack_loop
pack_loop_lem [] i m binary a room clear =
    (m, refl, (refl, a), (λ j h. refl), refl, λ j h. clear j (omega arith))
pack_loop_lem (b ∷ bits) i m (hb, binary) a room clear =
    let (m', step, len, a', before, here, behind) = one_bit b i m hb a (omega arith) clear in
    let (out, e, (len', all), kept, content, rest) =
      pack_loop_lem bits (i + 1) m' binary a' (omega arith) (λ j h. behind j (omega arith)) in
    (
      out,
      rw (le→leb b 1 (omega arith), step) e,
      (len' ∙ len, all),
      (λ j h. kept j (omega arith) ∙ before j h),
      ap (λ x. x ∷ bits_at out (i + 1) (length bits)) (kept i (omega arith) ∙ here)
          ∙ ap (λ xs. b ∷ xs) content,
      λ j h. rest j (omega arith),
    )
  where
    one_bit :
        (b i : ℕ) (m : List ℕ)
        → b < 2
        → All IsByte m
        → i < 8 * length m
        → ((j : ℕ) → i ≤ j → bit_at m j ≡ 0)
        → (m' : List ℕ) × ((if b == 0 then m else flip m i) ≡ m')
          × (length m' ≡ length m)
          × All IsByte m'
          × ((j : ℕ) → j < i → bit_at m' j ≡ bit_at m j)
          × (bit_at m' i ≡ b)
          × ((j : ℕ) → i < j → bit_at m' j ≡ 0)
    one_bit zero i m hb a within clear =
        (m, refl, refl, a, (λ j h. refl), clear i (omega arith), λ j h. clear j (omega arith))
    one_bit (suc zero) i m hb a within clear =
        let at = λ (j : ℕ). bit_at-flip m i j a within in
        (
          flip m i,
          refl,
          length-flip m i,
          flip-All m i a,
          (λ j h. at j ∙ pick_ne i j (1 - bit_at m i) (bit_at m j) (omega arith)),
          at i ∙ pick_self i (1 - bit_at m i) (bit_at m i) ∙ omega (arith, clear i),
          λ j h.
              at j
              ∙ pick_ne i j (1 - bit_at m i) (bit_at m j) (omega arith)
              ∙ clear j (omega arith),
        )
    one_bit (suc (suc b)) i m hb a within clear = absurd (omega arith)

All-zeroes : (k : ℕ) → All IsByte (replicate k 0)
All-zeroes zero = tt
All-zeroes (suc k) = (omega arith, All-zeroes k)

get_or-zeroes : (k i : ℕ) → get_or {A = ℕ} (replicate k 0) i 0 ≡ 0
get_or-zeroes zero i = refl
get_or-zeroes (suc k) zero = refl
get_or-zeroes (suc k) (suc i) = get_or-zeroes k i

bit_at-zeroes : (k j : ℕ) → bit_at (replicate k 0) j ≡ 0
unfolding bit_at
bit_at-zeroes k j = rw (get_or-zeroes k (j / 8)) (ap (λ x. x % 2) (shr-zero (7 - j % 8)))

module _ (zc : ZeroCounts) (laws : ZeroLaws zc) where
  -- Packing a string of bits (fewer than 2^29 - 8 of them) into bytes with a marker behind the last bit
  -- passes every CHECK, and bytes_str_to_bit_str with marked_end unpacks the bytes to the same bits.
  pub bytes_str_to_bit_str-pack_expanded_bits_to_bytes :
      (bits : List ℕ)
      → All IsBit bits
      → length bits < 2 ^ 29 - 8
      → (pack_expanded_bits_to_bytes bits >>= λ bytes. bytes_str_to_bit_str zc bytes true)
        ≡ some bits
  unfolding pack_expanded_bits_to_bytes
  bytes_str_to_bit_str-pack_expanded_bits_to_bytes bits binary small =
      let n : ℕ = length bits in
      let m : List ℕ = replicate (n / 8 + 1) 0 in
      let size : length m ≡ n / 8 + 1 = length-replicate (n / 8 + 1) 0 in
      let (out, e, (len, a), _, content, clear) =
        pack_loop_lem bits 0 m binary (All-zeroes (n / 8 + 1)) (omega arith)
          (λ j _. bit_at-zeroes (n / 8 + 1) j) in
      let within : n < 8 * length out = omega arith in
      let flipped = λ (j : ℕ). bit_at-flip out n j a within in
      let size' = length-flip out n in
      let marked : EndsMarked (flip out n) n = record {
        within = omega arith;
        close = omega arith;
        one =
            flipped n
            ∙ pick_self n (1 - bit_at out n) (bit_at out n)
            ∙ omega (arith, clear n (omega arith));
        zeroes = λ j h _.
            flipped j
            ∙ pick_ne n j (1 - bit_at out n) (bit_at out j) (omega arith)
            ∙ clear j (omega arith);
        all_bytes = flip-All out n a;
      } in
      rw e (
        bytes_str_to_bit_str-EndsMarked zc laws (flip out n) n marked (omega arith)
        ∙ ap some (
            bits_at-ext (flip out n) out 0 n
              (λ j _ lt. flipped j ∙ pick_ne n j (1 - bit_at out n) (bit_at out j) (omega arith))
            ∙ content))
