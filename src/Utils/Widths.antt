-- ===== src/Utils/Widths.antt =====
-- len_in_bits is the number of binary digits, and 1 for 0.
use mara_ton_contest_solutio.Common.{
  ℕ, zero, suc, ◌+◌, ◌-◌, ◌*◌, ◌^◌, ◌≤◌, ◌<◌, max, ◌≡◌, sym, subst, arith,
}
use mara_ton_contest_solutio.Utils.{ZeroCounts, ZeroLaws, len_in_bits, len_in_bytes}
use native.Mathlib.Nat.{pow-le-pow_right}
use native.Mathlib.Decide.{dec_lt}

module _ (zc : ZeroCounts) (laws : ZeroLaws zc) where
  -- len_in_bits of a 64-bit number is between 1 and 64, and the number has no more binary digits.
  pub len_in_bits_lem :
      (x : ℕ)
      → x < 2 ^ 64
      → (1 ≤ len_in_bits zc x) × (len_in_bits zc x ≤ 64) × (x < 2 ^ len_in_bits zc x)
  unfolding len_in_bits
  len_in_bits_lem zero fits =
      let e : max 1 (64 - zc.count_leading_zeroes64 0) ≡ 1 = omega (arith, laws.leading_zero) in
      rw e (omega arith, omega arith, omega arith)
  len_in_bits_lem (suc y) fits =
      let c : ℕ = zc.count_leading_zeroes64 (suc y) in
      let le = laws.leading_le (suc y) (omega arith) fits in
      let e : max 1 (64 - c) ≡ 64 - c = omega arith in
      (
        omega arith,
        omega arith,
        subst (λ k. suc y < 2 ^ k) (sym e) (laws.leading_high (suc y) (omega arith) fits),
      )

  -- Every width, 1 at least, that a 64-bit number fits in is len_in_bits of it or more.
  pub len_in_bits-least : (x n : ℕ) → x < 2 ^ 64 → 0 < n → x < 2 ^ n → len_in_bits zc x ≤ n
  unfolding len_in_bits
  len_in_bits-least zero n fits pos below = omega (arith, laws.leading_zero)
  len_in_bits-least (suc y) n fits pos below =
      let c : ℕ = zc.count_leading_zeroes64 (suc y) in
      let le = laws.leading_le (suc y) (omega arith) fits in
      let low = laws.leading_low (suc y) (omega arith) fits in
      elim (dec_lt n (64 - c)) [
        | no enough ↦ omega arith
        | yes short ↦ absurd (
            omega
              (arith, pow-le-pow_right {n = 2} (omega arith) {i = n} {j = 63 - c} (omega arith)))
      ]

  -- len_in_bytes of a 64-bit number is the least number of bytes, between 1 and 8, that holds its
  -- len_in_bits binary digits.
  pub len_in_bytes_lem :
      (x : ℕ)
      → x < 2 ^ 64
      → (1 ≤ len_in_bytes zc x)
        × (len_in_bytes zc x ≤ 8)
        × (len_in_bits zc x ≤ 8 * len_in_bytes zc x)
        × (8 * len_in_bytes zc x < len_in_bits zc x + 8)
  unfolding len_in_bytes
  len_in_bytes_lem x fits =
      let (lo, hi, _) = len_in_bits_lem x fits in
      (omega arith, omega arith, omega arith, omega arith)
