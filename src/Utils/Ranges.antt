-- ===== src/Utils/Ranges.antt =====
-- Copying bits in chunks is copying them one by one.
use mara_ton_contest_solutio.Common.{
  ℕ, zero, suc, ◌+◌, ◌-◌, ◌*◌, ◌/◌, ◌^◌, ◌≤◌, ◌<◌, min, ◌≡◌, sym, ap, ◌∙◌, inl, inr, List, ◌++◌,
  ltb, length, replicate, length-replicate, subst, Bool-cases, ltb→lt, ltb→le, u32, arith,
}
use mara_ton_contest_solutio.Bits.{
  bit_at, bits_at, uint_bits, of_bits, BitOps, BitLaws, BitPtr, write, read,
}
use mara_ton_contest_solutio.Bits.Stream.{
  Fits, Appends, Appends-none, Appends-trans, written, write-Appends, length-bits_at, bits_at-add,
  uint_bits-of_bits, length-uint_bits, bits_at-IsBit,
}
use mara_ton_contest_solutio.Utils.{copy_chunks, push_bit_range, insert_bits_to_beginning}

module _ (ops : BitOps) (laws : BitLaws ops) where
  -- Writing what was read appends the bits that were read.
  pub copy-Appends :
      (dst src : BitPtr) (n : ℕ)
      → n ≤ 64
      → Fits dst n
      → Fits src n
      → Appends dst (bits_at src.ptr src.offs n) (write ops dst (read ops src n).0 n)
  unfolding read
  copy-Appends dst src n h room there =
      let bits : List ℕ = bits_at src.ptr src.offs n in
      let same : uint_bits n (ops.get_uint src.ptr src.offs n) ≡ bits =
        ap (uint_bits n) (laws.get_law src.ptr src.offs n h there)
        ∙ ap (λ (k : ℕ). uint_bits k (of_bits 0 bits)) (sym (length-bits_at src.ptr src.offs n))
        ∙ uint_bits-of_bits bits (bits_at-IsBit src.ptr src.offs n) in
      subst (λ l. Appends dst l (write ops dst (ops.get_uint src.ptr src.offs n) n)) same
        (write-Appends ops laws dst (ops.get_uint src.ptr src.offs n) n h room)

  copy_chunks-Appends :
      (chunk fuel : ℕ) (dst src : BitPtr) (cnt : ℕ)
      → 0 < chunk
      → chunk ≤ 64
      → cnt ≤ fuel
      → Fits dst cnt
      → Fits src cnt
      → Appends dst (bits_at src.ptr src.offs cnt) (copy_chunks ops chunk fuel dst src cnt)
  unfolding copy_chunks read
  copy_chunks-Appends chunk zero dst src cnt pos small enough room there =
      subst (λ k. Appends dst (bits_at src.ptr src.offs k) dst) {x = 0} (omega arith)
        (Appends-none dst)
  copy_chunks-Appends chunk (suc fuel) dst src cnt pos small enough room there =
      elim (Bool-cases (ltb 0 cnt)) [
        | inr done ↦ rw done (
            subst (λ k. Appends dst (bits_at src.ptr src.offs k) dst) {x = 0}
              (omega (arith, ltb→le 0 cnt done)) (Appends-none dst))
        | inl more ↦
            let cur : ℕ = min cnt chunk in
            let left : ℕ = cnt - cur in
            let first = copy-Appends dst src cur (omega arith) (omega arith) (omega arith) in
            let next : BitPtr = write ops dst (read ops src cur).0 cur in
            let size = length-bits_at src.ptr src.offs cur in
            rw more (
              subst (λ l. Appends dst l (copy_chunks ops chunk fuel next (read ops src cur).1 left))
                (sym (bits_at-add src.ptr src.offs cur left)
                  ∙ ap (bits_at src.ptr src.offs) {x = cur + left} {y = cnt} (omega arith))
                (Appends-trans first (
                  copy_chunks-Appends chunk fuel next (read ops src cur).1 left pos small
                    (omega (arith, ltb→lt 0 cnt more)) (omega (arith, first.moved, first.size))
                    (omega arith))))
      ]

  -- push_bit_range appends the bits from .. from + cnt - 1 of the source, in chunks of 64, and
  -- changes no bit behind them.
  pub push_bit_range-Appends :
      (dst bit_ptr : BitPtr) (from cnt : ℕ)
      → Fits dst cnt
      → from + cnt ≤ 8 * length bit_ptr.ptr
      → Appends dst (bits_at bit_ptr.ptr from cnt) (push_bit_range ops dst bit_ptr from cnt)
  unfolding push_bit_range
  push_bit_range-Appends dst bit_ptr from cnt room there =
      copy_chunks-Appends 64 cnt dst (record bit_ptr { offs = from }) cnt (omega arith)
        (omega arith) (omega arith) room there

  -- Where cnt bits fit behind the target's position and the bits from .. from + cnt - 1 lie within
  -- the source, push_bit_range moves the target's pointer by cnt, appends just these bits to what
  -- lies before it, keeps the number of bytes, and leaves every bit j from the new position on.
  pub push_bit_range_lem :
      (dst bit_ptr : BitPtr) (from cnt j : ℕ)
      → Fits dst cnt
      → from + cnt ≤ 8 * length bit_ptr.ptr
      → dst.offs + cnt ≤ j
      → ((push_bit_range ops dst bit_ptr from cnt).offs ≡ dst.offs + cnt)
        × (length (push_bit_range ops dst bit_ptr from cnt).ptr ≡ length dst.ptr)
        × (written (push_bit_range ops dst bit_ptr from cnt)
            ≡ written dst ++ bits_at bit_ptr.ptr from cnt)
        × (bit_at (push_bit_range ops dst bit_ptr from cnt).ptr j ≡ bit_at dst.ptr j)
  push_bit_range_lem dst bit_ptr from cnt j room there behind =
      let a = push_bit_range-Appends dst bit_ptr from cnt room there in
      let moved = a.moved ∙ ap (λ (n : ℕ). dst.offs + n) (length-bits_at bit_ptr.ptr from cnt) in
      (moved, a.size, a.content, a.kept j (omega arith))

  -- For data bits that lie within the bytes, a number of at most 64 bits and fewer than 2^31 - 7 bits
  -- in all: insert_bits_to_beginning returns a string of just enough bytes that holds the low bits of
  -- the number and then the old bits, and the number of bits in it.
  pub insert_bits_to_beginning_lem :
      (bytes : List ℕ) (data_cnt_bits num num_bits : ℕ)
      → data_cnt_bits ≤ 8 * length bytes
      → num_bits ≤ 64
      → data_cnt_bits + num_bits + 7 < 2 ^ 31
      → ((insert_bits_to_beginning ops bytes data_cnt_bits num num_bits).1
          ≡ data_cnt_bits + num_bits)
        × (length (insert_bits_to_beginning ops bytes data_cnt_bits num num_bits).0
            ≡ (data_cnt_bits + num_bits + 7) / 8)
        × (bits_at
              (insert_bits_to_beginning ops bytes data_cnt_bits num num_bits).0
              0
              (data_cnt_bits + num_bits)
            ≡ uint_bits num_bits num ++ bits_at bytes 0 data_cnt_bits)
  unfolding insert_bits_to_beginning write
  insert_bits_to_beginning_lem bytes data_cnt_bits num num_bits there small fits =
      let new_data : List ℕ = replicate (u32 (u32 (data_cnt_bits + num_bits) + 7) / 8) 0 in
      let start : BitPtr = record { ptr = new_data; offs = 0 } in
      let size : length new_data ≡ (data_cnt_bits + num_bits + 7) / 8 =
        length-replicate (u32 (u32 (data_cnt_bits + num_bits) + 7) / 8) 0 ∙ omega arith in
      let first = write-Appends ops laws start num num_bits small (omega arith) in
      let next : BitPtr = write ops start num num_bits in
      let second =
        copy_chunks-Appends 32 data_cnt_bits next (record { ptr = bytes; offs = 0 }) data_cnt_bits
          (omega arith) (omega arith) (omega arith) (omega (arith, first.size)) (omega arith) in
      let both = Appends-trans first second in
      let p : BitPtr =
        copy_chunks ops 32 data_cnt_bits next (record { ptr = bytes; offs = 0 }) data_cnt_bits in
      let moved : p.offs ≡ data_cnt_bits + num_bits = omega (
        arith,
        first.moved,
        second.moved,
        length-uint_bits num_bits num,
        length-bits_at bytes 0 data_cnt_bits,
      ) in
      (omega arith, both.size ∙ size, ap (bits_at p.ptr 0) (sym moved) ∙ both.content)
