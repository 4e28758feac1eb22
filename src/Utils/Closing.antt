-- ===== src/Utils/Closing.antt =====
-- A writer that starts at the front of a string of zeroes and ends with a marker.
use mara_ton_contest_solutio.Common.{
  ℕ, zero, suc, ◌+◌, ◌-◌, ◌*◌, ◌/◌, ◌%◌, ◌<◌, ◌≡◌, refl, ap, ◌∙◌, List, [], ◌∷◌, ◌++◌, length,
  length-append, take, replicate, length-replicate, get_or, All, arith,
}
use mara_ton_contest_solutio.Bits.{bit_at, bits_at, IsByte, BitPtr}
use mara_ton_contest_solutio.Bits.Stream.{Appends, bits_at-split}
use mara_ton_contest_solutio.Utils.Marks.{EndsMarked, EndsMarked-take, shr-zero}

abbrev pub zeroes : ℕ → List ℕ
zeroes size = replicate size 0

-- BitPtr(std::basic_string<uint8_t>(size, 0), 0)
abbrev pub fresh : ℕ → BitPtr
fresh size = record { ptr = zeroes size; offs = 0 }

bit_at-replicate : (size j : ℕ) → bit_at (zeroes size) j ≡ 0
unfolding bit_at
bit_at-replicate size j = rw (zero_at size (j / 8), shr-zero (7 - j % 8)) refl
  where
    zero_at : (n i : ℕ) → get_or (zeroes n) i 0 ≡ 0
    zero_at zero i = refl
    zero_at (suc n) zero = refl
    zero_at (suc n) (suc i) = zero_at n i

All-replicate : (size : ℕ) → All IsByte (zeroes size)
All-replicate zero = tt
All-replicate (suc n) = (omega arith, All-replicate n)

-- The first (p.offs + 7) / 8 bytes.
abbrev pub closed : BitPtr → List ℕ
closed p = take ((p.offs + 7) / 8) p.ptr

-- The content is what was written before the marker, and the marker ends it.
pub closed-EndsMarked :
    (size : ℕ) (q : BitPtr) (bits : List ℕ)
    → Appends (fresh size) (bits ++ (1 ∷ [])) q
    → length bits < 8 * size
    → EndsMarked (closed q) (length bits) × (bits_at (closed q) 0 (length bits) ≡ bits)
closed-EndsMarked size q bits a room =
    let start : length (zeroes size) ≡ size = length-replicate size 0 in
    let n : ℕ = length bits in
    let at : q.offs ≡ n + 1 = omega (arith, a.moved, length-append bits (1 ∷ [])) in
    let content : bits_at q.ptr 0 (length (bits ++ (1 ∷ []))) ≡ bits ++ (1 ∷ []) =
      ap (bits_at q.ptr 0) {y = q.offs} (omega (arith, length-append bits (1 ∷ []))) ∙ a.content in
    let (front, end) = bits_at-split q.ptr 0 bits (1 ∷ []) content in
    let marker : bit_at q.ptr n ≡ 1 =
      ap (bit_at q.ptr) {x = n} {y = 0 + n} (omega arith) ∙ cc end in
    let (marked, same) =
      EndsMarked-take q.ptr n (omega (arith, a.size)) marker
        (λ j h. a.kept j (omega arith) ∙ bit_at-replicate size j) (a.bytes (All-replicate size)) in
    rw at (marked, same ∙ front)
