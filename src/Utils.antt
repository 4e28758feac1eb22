-- ===== src/Utils.antt =====
-- utils.h: widths of numbers, copying ranges of bits, and unpacking a byte string into bits.
-- The counts of zero bits belong to the TON library (include/tdutils/td/utils/bits.h): they are the
-- parameter `ZeroCounts`, and `ZeroLaws` is what the sources rely on.
pub mod Examples
pub mod Counts
pub mod Widths
pub mod Ranges
pub mod Marks
pub mod Closing
use mara_ton_contest_solutio.Common.{
  ℕ, zero, suc, ◌+◌, ◌-◌, ◌*◌, ◌/◌, ◌%◌, ◌^◌, ◌≤◌, ◌<◌, min, max, ◌≡◌, ◌≢◌, Bool, true, false, not,
  Option, none, some, List, [], ◌∷◌, ltb, leb, ◌==◌, if◌then◌else◌, ◌>>=◌, ◌>>◌, check, length,
  get_or, replicate, u32,
}
use mara_ton_contest_solutio.Bits.{shr, bit_at, BitOps, BitPtr, write, read}

pub record ZeroCounts : Type 0 where
  pub count_leading_zeroes64 : ℕ → ℕ
  pub count_trailing_zeroes64 : ℕ → ℕ
  pub count_trailing_zeroes32 : ℕ → ℕ

-- What the counts mean for 64-bit numbers other than 0; at 0 the leading zeroes are 64.
pub record ZeroLaws (zc : ZeroCounts) : Type 0 where
  pub leading_zero : zc.count_leading_zeroes64 0 ≡ 64
  pub leading_le : (x : ℕ) → 0 < x → x < 2 ^ 64 → zc.count_leading_zeroes64 x ≤ 63
  pub leading_low : (x : ℕ) → 0 < x → x < 2 ^ 64 → 2 ^ (63 - zc.count_leading_zeroes64 x) ≤ x
  pub leading_high : (x : ℕ) → 0 < x → x < 2 ^ 64 → x < 2 ^ (64 - zc.count_leading_zeroes64 x)
  pub trailing_one : (x : ℕ) → 0 < x → x < 2 ^ 64 → shr x (zc.count_trailing_zeroes64 x) % 2 ≡ 1
  pub trailing_none :
      (x k : ℕ) → 0 < x → x < 2 ^ 64 → k < zc.count_trailing_zeroes64 x → shr x k % 2 ≡ 0

-- bytes.back(); the strings that it is called on are not empty.
abbrev pub back : List ℕ → ℕ
back bytes = get_or bytes (length bytes - 1) 0

-- The bits i, i + 1, … of the string that is returned; `n` are left.
unfoldable pub expand_bits : List ℕ → ℕ → ℕ → List ℕ
expand_bits bytes i zero = []
expand_bits bytes i (suc n) =
    (shr (get_or bytes (i / 8) 0) (7 - i % 8) % 2) ∷ expand_bits bytes (i + 1) n

module _ (zc : ZeroCounts) where
  unfoldable pub len_in_bits : ℕ → ℕ
  len_in_bits num = max 1 (64 - zc.count_leading_zeroes64 num)

  unfoldable pub len_in_bytes : ℕ → ℕ
  len_in_bytes num = (len_in_bits num + 7) / 8

  unfoldable pub bytes_str_to_bit_str : List ℕ → Bool → Option (List ℕ)
  bytes_str_to_bit_str bytes true =
      let trailing = zc.count_trailing_zeroes64 (back bytes) in
      do
        check (not (back bytes == 0))
        check (leb trailing 7)
        some (expand_bits bytes 0 (u32 (length bytes * 8) - (trailing + 1)))
  bytes_str_to_bit_str bytes false = some (expand_bits bytes 0 (u32 (length bytes * 8)))

module _ (ops : BitOps) where
  -- The loops that copy `cnt` bits, at most `chunk` of them in a round. A round takes one bit at
  -- least, so `cnt` rounds suffice.
  unfoldable pub copy_chunks : ℕ → ℕ → BitPtr → BitPtr → ℕ → BitPtr
  copy_chunks chunk zero dst src cnt = dst
  copy_chunks chunk (suc fuel) dst src cnt =
      let cur_cnt = min cnt chunk in
      let (value, src') = read ops src cur_cnt in
      let rest = copy_chunks chunk fuel (write ops dst value cur_cnt) src' (cnt - cur_cnt) in
      if ltb 0 cnt then rest else dst

  -- push_bit_range(td::BitPtr& data, td::BitPtr bit_ptr, from, cnt)
  unfoldable pub push_bit_range : BitPtr → BitPtr → (from cnt : ℕ) → BitPtr
  push_bit_range dst bit_ptr from cnt = copy_chunks 64 cnt dst (record bit_ptr { offs = from }) cnt

  -- The overload on a string of `data_cnt_bits` bits.
  unfoldable pub push_bit_range_str :
      List ℕ → (data_cnt_bits : ℕ) → BitPtr → (from cnt : ℕ) → List ℕ × ℕ
  push_bit_range_str bytes data_cnt_bits bit_ptr from cnt =
      let p = push_bit_range (record { ptr = bytes; offs = data_cnt_bits }) bit_ptr from cnt in
      (p.ptr, p.offs)

  -- The string and its number of bits after the call.
  unfoldable pub insert_bits_to_beginning : List ℕ → (data_cnt_bits num num_bits : ℕ) → List ℕ × ℕ
  insert_bits_to_beginning bytes data_cnt_bits num num_bits =
      let new_cnt_bits = u32 (data_cnt_bits + num_bits) in
      let new_data = replicate (u32 (new_cnt_bits + 7) / 8) 0 in
      let head = write ops (record { ptr = new_data; offs = 0 }) num num_bits in
      let p = copy_chunks 32 data_cnt_bits head (record { ptr = bytes; offs = 0 }) data_cnt_bits in
      (p.ptr, new_cnt_bits)
