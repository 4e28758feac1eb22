-- ===== src/Utils/Examples.antt =====
-- The helpers of utils.h on small inputs.
use mara_ton_contest_solutio.Common.{
  ℕ, ◌+◌, ◌*◌, ◌/◌, ◌^◌, ◌≤◌, ◌<◌, ◌≡◌, refl, true, ◌⊎◌, inl, inr, subst, some, [], ◌∷◌, ◌++◌,
  length, arith,
}
use mara_ton_contest_solutio.Bits.{BitPtr, bit_at, bits_at, uint_bits}
use mara_ton_contest_solutio.Bits.Stream.{written}
use mara_ton_contest_solutio.Bits.Bytes.{byte_ops, byte_laws}
use mara_ton_contest_solutio.Utils.{
  len_in_bits, len_in_bytes, bytes_str_to_bit_str, push_bit_range, insert_bits_to_beginning,
}
use mara_ton_contest_solutio.Utils.Counts.{digit_counts, digit_laws}
use mara_ton_contest_solutio.Utils.Widths.{len_in_bits_lem, len_in_bits-least, len_in_bytes_lem}
use mara_ton_contest_solutio.Utils.Ranges.{push_bit_range_lem, insert_bits_to_beginning_lem}
use mara_ton_contest_solutio.Utils.Marks.{EndsMarked, bytes_str_to_bit_str-EndsMarked}

abbrev source : BitPtr
source = record { ptr = 181 ∷ 15 ∷ []; offs = 0 }

abbrev target : BitPtr
target = record { ptr = 192 ∷ 0 ∷ 0 ∷ []; offs = 3 }

len_in_bits_lem_example :
    (1 ≤ len_in_bits digit_counts 300)
    × (len_in_bits digit_counts 300 ≤ 64)
    × (300 < 2 ^ len_in_bits digit_counts 300)
len_in_bits_lem_example = len_in_bits_lem digit_counts digit_laws 300 (omega arith)

len_in_bits-least_example : len_in_bits digit_counts 300 ≤ 9
len_in_bits-least_example =
    len_in_bits-least digit_counts digit_laws 300 9 (omega arith) (omega arith) (omega arith)

len_in_bytes_lem_example :
    (1 ≤ len_in_bytes digit_counts 300)
    × (len_in_bytes digit_counts 300 ≤ 8)
    × (len_in_bits digit_counts 300 ≤ 8 * len_in_bytes digit_counts 300)
    × (8 * len_in_bytes digit_counts 300 < len_in_bits digit_counts 300 + 8)
len_in_bytes_lem_example = len_in_bytes_lem digit_counts digit_laws 300 (omega arith)

push_bit_range_lem_example :
    ((push_bit_range byte_ops target source 2 9).offs ≡ 3 + 9)
    × (length (push_bit_range byte_ops target source 2 9).ptr ≡ 3)
    × (written (push_bit_range byte_ops target source 2 9)
        ≡ written target ++ bits_at (181 ∷ 15 ∷ []) 2 9)
    × (bit_at (push_bit_range byte_ops target source 2 9).ptr 20 ≡ bit_at (192 ∷ 0 ∷ 0 ∷ []) 20)
push_bit_range_lem_example =
    push_bit_range_lem byte_ops byte_laws target source 2 9 20 (omega arith) (omega arith)
      (omega arith)

insert_bits_to_beginning_lem_example :
    ((insert_bits_to_beginning byte_ops (181 ∷ 15 ∷ []) 11 5 4).1 ≡ 11 + 4)
    × (length (insert_bits_to_beginning byte_ops (181 ∷ 15 ∷ []) 11 5 4).0 ≡ (11 + 4 + 7) / 8)
    × (bits_at (insert_bits_to_beginning byte_ops (181 ∷ 15 ∷ []) 11 5 4).0 0 (11 + 4)
        ≡ uint_bits 4 5 ++ bits_at (181 ∷ 15 ∷ []) 0 11)
insert_bits_to_beginning_lem_example =
    insert_bits_to_beginning_lem byte_ops byte_laws (181 ∷ 15 ∷ []) 11 5 4 (omega arith)
      (omega arith) (omega arith)

-- 1011 0101 with the marker at the last bit but two would be 1011 0100.
marked : EndsMarked (180 ∷ []) 5
unfolding bit_at
marked = record {
  within = omega arith;
  close = omega arith;
  one = refl;
  zeroes = last;
  all_bytes = (omega arith, tt);
}
  where
    six_or_seven : (j : ℕ) → 5 < j → j < 8 → (6 ≡ j) ⊎ (7 ≡ j)
    six_or_seven j h k = ground arith

    last : (j : ℕ) → 5 < j → j < 8 → bit_at (180 ∷ []) j ≡ 0
    last j h k = elim (six_or_seven j h k) [
      | inl e ↦ subst (λ i. bit_at (180 ∷ []) i ≡ 0) e refl
      | inr e ↦ subst (λ i. bit_at (180 ∷ []) i ≡ 0) e refl
    ]

bytes_str_to_bit_str-EndsMarked_example :
    bytes_str_to_bit_str digit_counts (180 ∷ []) true ≡ some (bits_at (180 ∷ []) 0 5)
bytes_str_to_bit_str-EndsMarked_example =
    bytes_str_to_bit_str-EndsMarked digit_counts digit_laws (180 ∷ []) 5 marked (omega arith)
