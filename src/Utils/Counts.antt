-- ===== src/Utils/Counts.antt =====
-- Counts of zero bits that satisfy the laws of `ZeroLaws`: digit by digit, for 64-bit numbers.
use mara_ton_contest_solutio.Common.{
  ℕ, zero, suc, ◌-◌, ◌/◌, ◌%◌, ◌^◌, ◌≤◌, ◌<◌, ◌≡◌, refl, sym, subst, inl, inr, Bool-cases, false,
  ◌==◌, if◌then◌else◌, arith,
}
use mara_ton_contest_solutio.Bits.{shr}
use mara_ton_contest_solutio.Utils.{ZeroCounts, ZeroLaws}

-- The number of binary digits of x, at most `fuel`.
unfoldable pub width : (fuel x : ℕ) → ℕ
width zero x = 0
width (suc fuel) x = if x == 0 then 0 else suc (width fuel (x / 2))

unfoldable pub trailing : (fuel x : ℕ) → ℕ
trailing zero x = 0
trailing (suc fuel) x = if x % 2 == 0 then suc (trailing fuel (x / 2)) else 0

width_lem :
    (fuel x : ℕ)
    → 0 < x
    → x < 2 ^ fuel
    → (k : ℕ) × (width fuel x ≡ suc k) × (k < fuel) × (2 ^ k ≤ x) × (x < 2 ^ suc k)
unfolding width
width_lem zero x pos fits = absurd (omega arith)
width_lem (suc fuel) x pos fits = elim (Bool-cases (x / 2 == 0)) [
  | inl one ↦
      let e : x ≡ 1 = ground arith in
      (0, rw e (no_digits fuel), omega arith, omega arith, omega arith)
  | inr more ↦
      let (k, e, low, lo, hi) = width_lem fuel (x / 2) (ground arith) (omega arith) in
      let some_bit : (x == 0) ≡ false = ground arith in
      (suc k, rw (some_bit, e) refl, omega arith, omega arith, omega arith)
]
  where
    no_digits : (fuel : ℕ) → suc (width fuel (1 / 2)) ≡ 1
    no_digits zero = refl
    no_digits (suc fuel) = refl

trailing_lem :
    (fuel x : ℕ)
    → 0 < x
    → x < 2 ^ fuel
    → (shr x (trailing fuel x) % 2 ≡ 1) × ((k : ℕ) → k < trailing fuel x → shr x k % 2 ≡ 0)
unfolding trailing
trailing_lem zero x pos fits = absurd (omega arith)
trailing_lem (suc fuel) x pos fits = elim (Bool-cases (x % 2 == 0)) [
  | inl even ↦
      let (one, zeroes) = trailing_lem fuel (x / 2) (ground arith) (omega arith) in
      rw even (one, λ k h. below k (trailing fuel (x / 2)) h (ground arith) zeroes)
  | inr odd ↦ rw odd (ground arith, λ k h. absurd (omega arith))
]
  where
    below :
        (k t : ℕ)
        → k < suc t
        → x % 2 ≡ 0
        → ((j : ℕ) → j < t → shr (x / 2) j % 2 ≡ 0)
        → shr x k % 2 ≡ 0
    below zero t h even zeroes = even
    below (suc k) t h even zeroes = zeroes k (omega arith)

abbrev pub digit_counts : ZeroCounts
digit_counts = record {
  count_leading_zeroes64 = λ x. 64 - width 64 x;
  count_trailing_zeroes64 = λ x. trailing 64 x;
  count_trailing_zeroes32 = λ x. if x == 0 then 32 else trailing 64 x;
}

pub digit_laws : ZeroLaws digit_counts
unfolding width
digit_laws = record {
  leading_zero = refl;
  leading_le = λ x pos fits. let (k, e, low, _, _) = width_lem 64 x pos fits in omega arith;
  leading_low = λ x pos fits.
      let (k, e, low, lo, hi) = width_lem 64 x pos fits in
      let exponent : 63 - (64 - width 64 x) ≡ k = omega arith in
      subst (λ n. 2 ^ n ≤ x) (sym exponent) lo;
  leading_high = λ x pos fits.
      let (k, e, low, lo, hi) = width_lem 64 x pos fits in
      let exponent : 64 - (64 - width 64 x) ≡ suc k = omega arith in
      subst (λ n. x < 2 ^ n) (sym exponent) hi;
  trailing_one = λ x pos fits. (trailing_lem 64 x pos fits).0;
  trailing_none = λ x k pos fits h. (trailing_lem 64 x pos fits).1 k h;
}
