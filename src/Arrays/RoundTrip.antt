-- ===== src/Arrays/RoundTrip.antt =====
-- A table of numbers that was written as text is read back.
use mara_ton_contest_solutio.Common.{
  ℕ, ◌+◌, ◌*◌, ◌/◌, ◌^◌, ◌≤◌, ◌<◌, max, ◌≡◌, refl, sym, ap, ◌∙◌, some, List, [], ◌∷◌, ◌++◌, le→leb,
  length, length-append, take, replicate, length-replicate, All, subst, arith,
}
use mara_ton_contest_solutio.Bits.{bits_at, uint_bits, BitOps, BitLaws, BitPtr, write}
use mara_ton_contest_solutio.Bits.Stream.{
  Fits, Appends, Appends-none, Appends-trans, Ahead, Ahead-advance, advance, write-Appends,
  read-Ahead, length-uint_bits, bits_at-ext,
}
use mara_ton_contest_solutio.Utils.{ZeroCounts, ZeroLaws, len_in_bits}
use mara_ton_contest_solutio.Utils.Widths.{len_in_bits_lem, len_in_bits-least}
use mara_ton_contest_solutio.Utils.Marks.{bit_at-take, length-take_le}
use mara_ton_contest_solutio.Arrays.{
  max_bits, store_numbers, load_numbers, pack_numbers, unpack_numbers, TextCodec, encode,
  decode_vector,
}
use native.Mathlib.Nat.{pow-le-pow_right, mul-le-mul_right}

-- The bits of the numbers.
abbrev number_bits : ℕ → List ℕ → List ℕ
number_bits width [] = []
number_bits width (num ∷ numbers) = uint_bits width num ++ number_bits width numbers

length-number_bits :
    (width : ℕ) (numbers : List ℕ) → length (number_bits width numbers) ≡ width * length numbers
length-number_bits width [] = omega arith
length-number_bits width (num ∷ numbers) =
    length-append (uint_bits width num) (number_bits width numbers)
    ∙ omega (arith, length-uint_bits width num, length-number_bits width numbers)

module _ (zc : ZeroCounts) (zlaws : ZeroLaws zc) where
  max_bits_lem :
      (widest : ℕ) (numbers : List ℕ)
      → widest ≤ 31
      → All (λ num. num < 2 ^ 31) numbers
      → (widest ≤ max_bits zc widest numbers)
        × (max_bits zc widest numbers ≤ 31)
        × All (λ num. num < 2 ^ max_bits zc widest numbers) numbers
  unfolding max_bits
  max_bits_lem widest [] low small = (omega arith, low, tt)
  max_bits_lem widest (num ∷ numbers) low (h, small) =
      let least = len_in_bits-least zc zlaws num 31 (omega arith) (omega arith) h in
      let (_, _, fits) = len_in_bits_lem zc zlaws num (omega arith) in
      let (up, down, all) =
        max_bits_lem (max widest (len_in_bits zc num)) numbers (omega arith) small in
      (
        omega arith,
        down,
        (
          omega (
            arith,
            fits,
            pow-le-pow_right {n = 2} (omega arith) {i = len_in_bits zc num}
                {j = max_bits zc (max widest (len_in_bits zc num)) numbers} (omega arith),
          ),
          all,
        ),
      )

module _ (ops : BitOps) (laws : BitLaws ops) where
  store_numbers-Appends :
      (width : ℕ) (numbers : List ℕ) (p : BitPtr)
      → width ≤ 64
      → Fits p (width * length numbers)
      → Appends p (number_bits width numbers) (store_numbers ops width numbers p)
  unfolding store_numbers
  store_numbers-Appends width [] p h room = Appends-none p
  store_numbers-Appends width (num ∷ numbers) p h room =
      let first = write-Appends ops laws p num width h (omega arith) in
      Appends-trans first (
        store_numbers-Appends width numbers (write ops p num width) h
          (omega (arith, first.moved, first.size, length-uint_bits width num)))

  load_numbers-Ahead :
      (width : ℕ) (numbers : List ℕ) (p : BitPtr)
      → width ≤ 64
      → All (λ num. num < 2 ^ width) numbers
      → Ahead p (number_bits width numbers)
      → load_numbers ops (length numbers) width p ≡ numbers
  unfolding load_numbers
  load_numbers-Ahead width [] p h small a = refl
  load_numbers-Ahead width (num ∷ numbers) p h (low, small) a =
      let got = read-Ahead ops laws p num width (number_bits width numbers) h low a in
      let rest = Ahead-advance p (uint_bits width num) (number_bits width numbers) a in
      rw got (
        ap (λ (l : List ℕ). num ∷ l)
          (load_numbers-Ahead width numbers (advance p width) h small (
            subst (λ k. Ahead (advance p k) (number_bits width numbers))
              (length-uint_bits width num) rest)))

module _ (ops : BitOps) (laws : BitLaws ops) (zc : ZeroCounts) (zlaws : ZeroLaws zc) where
  unpack_numbers-Ahead :
      (width : ℕ) (numbers bytes : List ℕ)
      → width ≤ 31
      → length numbers < 2 ^ 32
      → All (λ num. num < 2 ^ width) numbers
      → Ahead
          (record { ptr = bytes; offs = 0 })
          (uint_bits 32 (length numbers) ++ (uint_bits 5 width ++ number_bits width numbers))
      → unpack_numbers ops bytes ≡ numbers
  unfolding unpack_numbers
  unpack_numbers-Ahead width numbers bytes narrow few small a =
      let start : BitPtr = record { ptr = bytes; offs = 0 } in
      let n : ℕ = length numbers in
      let got =
        read-Ahead ops laws start n 32 (uint_bits 5 width ++ number_bits width numbers)
          (omega arith) few a in
      let a1 : Ahead (advance start 32) (uint_bits 5 width ++ number_bits width numbers) =
        subst (λ k. Ahead (advance start k) (uint_bits 5 width ++ number_bits width numbers))
          (length-uint_bits 32 n)
          (Ahead-advance start (uint_bits 32 n) (uint_bits 5 width ++ number_bits width numbers)
            a) in
      let got1 =
        read-Ahead ops laws (advance start 32) width 5 (number_bits width numbers) (omega arith)
          (omega arith) a1 in
      let a2 : Ahead (advance (advance start 32) 5) (number_bits width numbers) =
        subst (λ k. Ahead (advance (advance start 32) k) (number_bits width numbers))
          (length-uint_bits 5 width)
          (Ahead-advance (advance start 32) (uint_bits 5 width) (number_bits width numbers) a1) in
      rw (got, got1)
        (load_numbers-Ahead ops laws width numbers (advance (advance start 32) 5) (omega arith)
          small a2)

  unpack_numbers-pack_numbers :
      (numbers : List ℕ)
      → All (λ num. num < 2 ^ 31) numbers
      → length numbers < 2 ^ 19
      → (bytes : List ℕ) × (pack_numbers ops zc numbers ≡ some bytes)
        × (unpack_numbers ops bytes ≡ numbers)
        × (length bytes ≤ 2 ^ 21)
  unfolding pack_numbers
  unpack_numbers-pack_numbers numbers small few =
      let (_, narrow, fits) = max_bits_lem zc zlaws 0 numbers (omega arith) small in
      let w : ℕ = max_bits zc 0 numbers in
      let n : ℕ = length numbers in
      let buff : List ℕ = replicate (4 + (w * n + 7) / 8 + 10) 0 in
      let room : length buff ≡ 4 + (w * n + 7) / 8 + 10 =
        length-replicate (4 + (w * n + 7) / 8 + 10) 0 in
      let start : BitPtr = record { ptr = buff; offs = 0 } in
      let p1 : BitPtr = write ops start n 32 in
      let a1 : Appends start (uint_bits 32 n) p1 =
        write-Appends ops laws start n 32 (omega arith) (omega arith) in
      let s1 = length-uint_bits 32 n in
      let p2 : BitPtr = write ops p1 w 5 in
      let a2 : Appends p1 (uint_bits 5 w) p2 =
        write-Appends ops laws p1 w 5 (omega arith) (omega (arith, a1.moved, a1.size)) in
      let s2 = length-uint_bits 5 w in
      let p : BitPtr = store_numbers ops w numbers p2 in
      let a3 : Appends p2 (number_bits w numbers) p =
        store_numbers-Appends ops laws w numbers p2 (omega arith)
          (omega (arith, a1.moved, a1.size, a2.moved, a2.size)) in
      let s3 = length-number_bits w numbers in
      let bits : List ℕ = uint_bits 32 n ++ (uint_bits 5 w ++ number_bits w numbers) in
      let a = Appends-trans a1 (Appends-trans a2 a3) in
      let total : p.offs ≡ 37 + w * n = omega (arith, a1.moved, a2.moved, a3.moved) in
      let moved : p.offs ≡ length bits = omega (arith, a.moved) in
      let k : ℕ = (p.offs + 7) / 8 in
      let cut : length (take k p.ptr) ≡ k = length-take_le p.ptr k (omega (arith, a.size)) in
      let few_bits : w * n ≤ 31 * n = mul-le-mul_right {m = w} {n = 31} n narrow in
      (
        take k p.ptr,
        rw (le→leb w 32 (omega arith)) refl,
        unpack_numbers-Ahead w numbers (take k p.ptr) narrow (omega arith) fits (record {
          content =
              ap (bits_at (take k p.ptr) 0) (sym moved)
              ∙ bits_at-ext (take k p.ptr) p.ptr 0 p.offs
                  (λ j _ below. bit_at-take p.ptr k j (omega arith))
              ∙ a.content;
          within = omega (arith, moved);
        }),
        omega arith,
      )

  -- Where LZ4 gives back strings of up to 2^21 bytes and base64 gives back every string: a table of
  -- fewer than 2^19 numbers below 2^31 is encoded, and decode_vector returns it from the text.
  pub decode_vector-encode :
      (codec : TextCodec) (numbers : List ℕ)
      → ((bytes : List ℕ)
          → length bytes ≤ 2 ^ 21
          → codec.lz4_decompress (codec.lz4_compress bytes) ≡ some bytes)
      → ((bytes : List ℕ) → codec.base64_decode (codec.base64_encode bytes) ≡ some bytes)
      → All (λ num. num < 2 ^ 31) numbers
      → length numbers < 2 ^ 19
      → (text : List ℕ) × (encode ops zc codec numbers ≡ some text)
        × (decode_vector ops codec text ≡ some numbers)
  unfolding encode decode_vector
  decode_vector-encode codec numbers lz4 base64 small few =
      let (bytes, packed, back, short) = unpack_numbers-pack_numbers numbers small few in
      (
        codec.base64_encode (codec.lz4_compress bytes),
        rw packed refl,
        rw (base64 (codec.lz4_compress bytes), lz4 bytes short) (ap some back),
      )
