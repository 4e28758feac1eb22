-- ===== src/LocalUtils/Examples.antt =====
-- Packing on a small input.
use mara_ton_contest_solutio.Common.{
  ◌≡◌, true, some, [], ◌∷◌, ◌>>=◌, arith, ℕ, zero, suc, ◌<◌, refl, List, ◌⊎◌, ◌||◌, ◌==◌,
  if◌then◌else◌,
}
use mara_ton_contest_solutio.LocalUtils.{Entry, size, unite}
use mara_ton_contest_solutio.LocalUtils.Sets.{Root, here, parents, IsForest}
use mara_ton_contest_solutio.LocalUtils.Unite.{unite_lem}
use mara_ton_contest_solutio.LocalUtils.{cnt_occurrences}
use mara_ton_contest_solutio.LocalUtils.ZFunction.{occurrences}
use mara_ton_contest_solutio.LocalUtils.Occurrences.{cnt_occurrences-eq}
use mara_ton_contest_solutio.Utils.{bytes_str_to_bit_str}
use mara_ton_contest_solutio.Utils.Counts.{digit_counts, digit_laws}
use mara_ton_contest_solutio.LocalUtils.{pack_expanded_bits_to_bytes}
use mara_ton_contest_solutio.LocalUtils.Packing.{bytes_str_to_bit_str-pack_expanded_bits_to_bytes}

bytes_str_to_bit_str-pack_expanded_bits_to_bytes_example :
    (pack_expanded_bits_to_bytes (1 ∷ 0 ∷ 1 ∷ []) >>= λ bytes.
    bytes_str_to_bit_str digit_counts bytes true)
    ≡ some (1 ∷ 0 ∷ 1 ∷ [])
bytes_str_to_bit_str-pack_expanded_bits_to_bytes_example =
    bytes_str_to_bit_str-pack_expanded_bits_to_bytes digit_counts digit_laws (1 ∷ 0 ∷ 1 ∷ [])
      (omega arith, (omega arith, (omega arith, tt))) (omega arith)

abbrev three : List Entry
three = size 1 ∷ size 1 ∷ size 1 ∷ []

three-IsForest : IsForest 3 three
three-IsForest = record { wide = refl; rooted = rooted }
  where
    rooted : (x : ℕ) → x < 3 → (r : ℕ) × Root three 0 x r
    rooted zero h = (0, here refl)
    rooted (suc zero) h = (1, here refl)
    rooted (suc (suc zero)) h = (2, here refl)
    rooted (suc (suc (suc x))) h = absurd (omega arith)

unite_lem_example :
    (par' : List Entry) × (unite three 0 2 ≡ some (true, par'))
    × IsForest 3 par'
    × (c : ℕ) × ((c ≡ 0) ⊎ (c ≡ 2))
    × ((z r : ℕ)
        → Root three 0 z r
        → Root par' (parents par') z (if (r == 0) || (r == 2) then c else r))
unite_lem_example = unite_lem 3 three 0 2 0 2 three-IsForest (here refl) (here refl)

cnt_occurrences-eq_example :
    cnt_occurrences (1 ∷ 0 ∷ 1 ∷ []) (1 ∷ 0 ∷ 1 ∷ 0 ∷ 1 ∷ [])
    ≡ occurrences (1 ∷ 0 ∷ 1 ∷ []) (1 ∷ 0 ∷ 1 ∷ 0 ∷ 1 ∷ [])
cnt_occurrences-eq_example =
    cnt_occurrences-eq (1 ∷ 0 ∷ 1 ∷ []) (1 ∷ 0 ∷ 1 ∷ 0 ∷ 1 ∷ []) (omega arith)
