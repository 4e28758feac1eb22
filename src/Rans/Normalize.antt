-- ===== src/Rans/Normalize.antt =====
-- normalize_freq makes the frequencies add up to 2^12.
use mara_ton_contest_solutio.Common.{
  ℕ, zero, suc, ◌+◌, ◌*◌, ◌/◌, ◌^◌, ◌≤◌, ◌<◌, max, ◌≡◌, refl, ap, ◌∙◌, true, not, some, List, [],
  ◌∷◌, ltb, leb, ◌==◌, length, length-map, map, u32, le→leb, le→ltb, Bool-cases, ltb→lt, ltb→le,
  inl, inr, arith,
}
use mara_ton_contest_solutio.Rans.{
  total_freq, sum, at_least_one, scale, raise, raise_loop, normalize_freq,
}
use native.Mathlib.Nat.{div-mul-le_self, le_of_mul-le-mul_right}

-- Rounding down loses, so the scaled frequencies add up to 2^12 at most.
scaled-le : (total : ℕ) (fs : List ℕ) → sum (map (scale total) fs) * total ≤ sum fs * total_freq
unfolding sum
scaled-le total [] = omega arith
scaled-le total (f ∷ fs) = ground (
  arith,
  scaled-le total fs,
  div-mul-le_self (f * total_freq) total,
  wrap_le (f * total_freq / total) total,
)
  where
    wrap_le : (n k : ℕ) → u32 n * k ≤ n * k
    wrap_le n k = grind arith

-- A pass adds as much to the frequencies as to the total, and no more than is missing.
raise_lem :
    (fs : List ℕ) (total : ℕ)
    → ((sum (raise fs total).0 + total ≡ sum fs + (raise fs total).1)
        × (length (raise fs total).0 ≡ length fs))
      × ((total ≤ (raise fs total).1) × ((raise fs total).1 ≤ max total total_freq))
      × (0 < length fs → total < total_freq → total < (raise fs total).1)
unfolding sum raise
raise_lem [] total = ((omega arith, refl), (omega arith, omega arith), λ h _. elim h [ ])
raise_lem (f ∷ fs) total = elim (Bool-cases (ltb total total_freq)) [
  | inl more ↦
      let ((add, len), (up, top), _) = raise_lem fs (total + 1) in
      let room = ltb→lt total total_freq more in
      rw more ((omega arith, ap suc len), (omega arith, omega arith), λ _ _. omega arith)
  | inr full ↦
      let ((add, len), (up, top), _) = raise_lem fs total in
      let room = ltb→le total total_freq full in
      rw full
        ((omega arith, ap suc len), (omega arith, omega arith), λ _ less. absurd (omega arith))
]

raise_loop_lem :
    (fuel : ℕ) (fs : List ℕ) (total : ℕ)
    → 0 < length fs
    → total ≤ total_freq
    → total_freq ≤ total + fuel
    → (out : List ℕ) × (raise_loop fuel fs total ≡ some out)
      × (sum out + total ≡ sum fs + total_freq)
      × (length out ≡ length fs)
unfolding raise_loop
raise_loop_lem zero fs total pos low enough =
    (fs, rw (le→ltb total total_freq (omega arith)) refl, omega arith, refl)
raise_loop_lem (suc fuel) fs total pos low enough = elim (Bool-cases (ltb total total_freq)) [
  | inr full ↦ (fs, rw full refl, omega (arith, ltb→le total total_freq full), refl)
  | inl more ↦
      let room = ltb→lt total total_freq more in
      let ((add, len), (up, top), progress) = raise_lem fs total in
      let further = progress pos room in
      let (out, e, s, l) =
        raise_loop_lem fuel (raise fs total).0 (raise fs total).1 (omega arith) (omega arith)
          (omega arith) in
      (out, rw more e, omega arith, l ∙ len)
]

sum-pos : (fs : List ℕ) → length fs ≤ sum (map at_least_one fs)
unfolding sum
sum-pos [] = omega arith
sum-pos (f ∷ fs) = ground (arith, sum-pos fs)

-- The CHECKs of normalize_freq pass, up to its loop.
normalize_freq-passes :
    (freq : List ℕ) (total : ℕ) (out : List ℕ)
    → u32 (sum (map at_least_one freq)) ≡ total
    → not (total == 0) ≡ true
    → u32 (sum (map (scale total) (map at_least_one freq)))
      ≡ sum (map (scale total) (map at_least_one freq))
    → leb (sum (map (scale total) (map at_least_one freq))) total_freq ≡ true
    → raise_loop total_freq
        (map (scale total) (map at_least_one freq))
        (sum (map (scale total) (map at_least_one freq)))
      ≡ some out
    → normalize_freq freq ≡ some out
unfolding normalize_freq
normalize_freq-passes freq total out plain nonzero kept low e = rw (plain, nonzero, kept, low) e

-- For a non-empty table whose frequencies, 0 counted as 1, add up to less than 2^32, normalize_freq
-- passes its CHECK and its loop ends with as many frequencies that add up to 2^12 exactly.
pub normalize_freq_lem :
    (freq : List ℕ)
    → 0 < length freq
    → sum (map at_least_one freq) < 2 ^ 32
    → (out : List ℕ) × (normalize_freq freq ≡ some out)
      × (sum out ≡ total_freq)
      × (length out ≡ length freq)
unfolding normalize_freq
normalize_freq_lem freq pos fits =
    let ones : List ℕ = map at_least_one freq in
    let total : ℕ = sum ones in
    let some_left = sum-pos freq in
    let plain : u32 total ≡ total = omega arith in
    let scaled : List ℕ = map (scale total) ones in
    let small : sum scaled ≤ total_freq =
      le_of_mul-le-mul_right {m = sum scaled} {n = total_freq} {k = total}
        (omega (arith, scaled-le total ones)) (omega arith) in
    let size : length scaled ≡ length freq =
      length-map (scale total) ones ∙ length-map at_least_one freq in
    let kept : u32 (sum scaled) ≡ sum scaled = omega arith in
    let (out, e, s, l) =
      raise_loop_lem total_freq scaled (sum scaled) (omega arith) small (omega arith) in
    (
      out,
      normalize_freq-passes freq total out plain (nonzero total (omega arith)) kept
          (le→leb (sum scaled) total_freq small) e,
      omega arith,
      l ∙ size,
    )
  where
    nonzero : (b : ℕ) → 0 < b → not (b == 0) ≡ true
    nonzero b h = ground arith
