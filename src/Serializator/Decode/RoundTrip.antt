-- ===== src/Serializator/Decode/RoundTrip.antt =====
-- my_cells_to_bit_str, whose buffer is large enough, and the cells that advance_cells_read makes of
-- its bits.
use mara_ton_contest_solutio.Common.{
  ℕ, ◌+◌, ◌-◌, ◌*◌, ◌/◌, ◌^◌, ◌≤◌, ◌<◌, ◌≡◌, refl, sym, ap, ◌∙◌, true, some, List, [], ◌∷◌, ◌++◌,
  length, length-append, length-replicate, take, replicate, subst, none_u32, arith,
}
use mara_ton_contest_solutio.Bits.{bit_at, bits_at, BitOps, BitLaws, BitPtr}
use mara_ton_contest_solutio.Bits.Stream.{Appends, Ahead, advance, length-bits_at, bits_at-split}
use mara_ton_contest_solutio.Bits.Equal.{bit_at-zeroes, All-zeroes}
use mara_ton_contest_solutio.Utils.{ZeroCounts, ZeroLaws, bytes_str_to_bit_str}
use mara_ton_contest_solutio.Utils.Marks.{
  EndsMarked-take, bytes_str_to_bit_str-EndsMarked, length-take_le,
}
use mara_ton_contest_solutio.Huffman.{HuffmanEncoderDecoder, new}
use mara_ton_contest_solutio.Huffman.Codes.{length-path_to}
use mara_ton_contest_solutio.Huffman.Tables.{d1_freq}
use mara_ton_contest_solutio.Huffman.Walk.{new-IsCoderOf}
use mara_ton_contest_solutio.Serializator.Cell.{MyCell, blank_cell, d1}
use mara_ton_contest_solutio.Serializator.Layout.{
  FieldType, d1_field, data_size_field, refs_field, data_field, SerializeMetaData,
  my_cells_to_bit_str,
}
use mara_ton_contest_solutio.Serializator.Lz.{no_meta}
use mara_ton_contest_solutio.Serializator.Decode.Fields.{State, advance_cells_read}
use mara_ton_contest_solutio.Serializator.Decode.Refs.{ref_width, length-ref_bits}
use mara_ton_contest_solutio.Serializator.Decode.Written.{
  AreCells, AreCoders, field_bits, section_bits, stream_bits, push_all-Appends,
}
use mara_ton_contest_solutio.Serializator.Decode.AllSections.{advance_cells_read-stream}
use mara_ton_contest_solutio.Utils.Widths.{len_in_bits_lem}
use native.Mathlib.Nat.{mul-le-mul}

new-AreCoders :
    (data_size_freq : List ℕ) (d1_coder data_size_coder : HuffmanEncoderDecoder)
    → 1 < length data_size_freq
    → length data_size_freq ≤ none_u32
    → new d1_freq ≡ some d1_coder
    → new data_size_freq ≡ some data_size_coder
    → AreCoders d1_coder data_size_coder data_size_freq
unfolding d1_freq
new-AreCoders data_size_freq d1_coder data_size_coder two fits e e' = record {
  d1_coded = new-IsCoderOf d1_freq (omega arith) (omega arith) e;
  sizes_coded = new-IsCoderOf data_size_freq (omega arith) fits e';
  two = two;
}

module _ (ops : BitOps) (laws : BitLaws ops) (zc : ZeroCounts) (zlaws : ZeroLaws zc)
    (d1_coder data_size_coder : HuffmanEncoderDecoder) (data_size_freq : List ℕ) where
  module _ (coded : AreCoders d1_coder data_size_coder data_size_freq)
      (few_sizes : length data_size_freq ≤ 1769) (n_cells : ℕ) (small : n_cells < 2 ^ 31) where
    -- No cell takes more than 2152 bits.
    length-sections :
        (i : ℕ) (cells : List MyCell)
        → AreCells n_cells (length data_size_freq) i cells
        → i + length cells ≤ n_cells
        → length (section_bits zc d1_coder data_size_coder n_cells d1_field i cells)
            + length (section_bits zc d1_coder data_size_coder n_cells data_size_field i cells)
            + length (section_bits zc d1_coder data_size_coder n_cells refs_field i cells)
            + length (section_bits zc d1_coder data_size_coder n_cells data_field i cells)
          ≤ 2152 * length cells
    length-sections i [] own here = omega arith
    length-sections i (c ∷ cells) (first, own) here =
        let part = λ (f : FieldType).
          length-append (field_bits zc d1_coder data_size_coder n_cells f i c)
            (section_bits zc d1_coder data_size_coder n_cells f (i + 1) cells) in
        let refs =
          length-ref_bits ops laws zc zlaws n_cells i small (omega arith)
            (take c.cnt_refs c.refs) in
        let narrow = (len_in_bits_lem zc zlaws (n_cells - 1) (omega arith)).1 in
        let few =
          slots_width (length (take c.cnt_refs c.refs)) (ref_width zc n_cells)
            (omega (arith, first.listed, first.few)) narrow in
        omega (
          arith,
          part d1_field,
          part data_size_field,
          part refs_field,
          part data_field,
          refs,
          few,
          length-path_to (d1 c) d1_coder.root,
          coded.d1_coded.low,
          length-path_to c.cnt_bits data_size_coder.root,
          coded.sizes_coded.low,
          length-bits_at c.bytes 0 c.cnt_bits,
          first.sized,
          length-sections (i + 1) cells own (omega arith),
        )
      where
        slots_width : (k w : ℕ) → k ≤ 4 → w ≤ 64 → k * w ≤ 256
        slots_width k w h h' = mul-le-mul h h'

    length-stream_bits :
        (cells : List MyCell)
        → AreCells n_cells (length data_size_freq) 0 cells
        → length cells ≤ n_cells
        → length (stream_bits zc d1_coder data_size_coder n_cells cells) ≤ 2152 * length cells
    length-stream_bits cells own here =
        let b1 : List ℕ = section_bits zc d1_coder data_size_coder n_cells d1_field 0 cells in
        let b2 : List ℕ =
          section_bits zc d1_coder data_size_coder n_cells data_size_field 0 cells in
        let b3 : List ℕ = section_bits zc d1_coder data_size_coder n_cells refs_field 0 cells in
        let b4 : List ℕ = section_bits zc d1_coder data_size_coder n_cells data_field 0 cells in
        omega (
          arith,
          length-append b1 (b2 ++ (b3 ++ b4)),
          length-append b2 (b3 ++ b4),
          length-append b3 b4,
          length-sections 0 cells own (omega arith),
        )

  -- The bits before the marker, unpacked.
  unpacked :
      (size : ℕ) (bits : List ℕ) (q : BitPtr)
      → 8 * size < 2 ^ 32
      → length bits + 1 ≤ 8 * size
      → Appends (record { ptr = replicate size 0; offs = 0 }) (bits ++ (1 ∷ [])) q
      → (bytes_str_to_bit_str zc (take ((q.offs + 7) / 8) q.ptr) true ≡ some bits)
        × Ahead (record { ptr = take ((q.offs + 7) / 8) q.ptr; offs = 0 }) bits
        × (length (take ((q.offs + 7) / 8) q.ptr) ≡ (length bits + 8) / 8)
  unpacked size bits q below room a =
      let n : ℕ = length bits in
      let total : q.offs ≡ n + 1 = omega (arith, a.moved, length-append bits (1 ∷ [])) in
      let full : length q.ptr ≡ size = a.size ∙ length-replicate size 0 in
      let whole : bits_at q.ptr 0 (length (bits ++ (1 ∷ []))) ≡ bits ++ (1 ∷ []) =
        ap (bits_at q.ptr 0) {x = length (bits ++ (1 ∷ []))} {y = q.offs} (omega (arith, a.moved))
        ∙ a.content in
      let (front, mark) = bits_at-split q.ptr 0 bits (1 ∷ []) whole in
      let (marked, same) =
        EndsMarked-take q.ptr n (omega arith)
          (ap (bit_at q.ptr) {x = n} {y = 0 + n} (omega arith) ∙ heads mark)
          (λ j h. a.kept j (omega arith) ∙ bit_at-zeroes size j) (a.bytes (All-zeroes size)) in
      let cut : take ((q.offs + 7) / 8) q.ptr ≡ take ((n + 1 + 7) / 8) q.ptr =
        ap (λ (k : ℕ). take ((k + 7) / 8) q.ptr) total in
      let cut_size = length-take_le q.ptr ((n + 1 + 7) / 8) (omega arith) in
      (
        ap (λ l. bytes_str_to_bit_str zc l true) cut
            ∙ bytes_str_to_bit_str-EndsMarked zc zlaws (take ((n + 1 + 7) / 8) q.ptr) n marked
                (omega arith)
            ∙ ap some (same ∙ front),
        subst (λ l. Ahead (record { ptr = l; offs = 0 }) bits) (sym cut)
            (record { content = same ∙ front; within = omega arith }),
        ap length cut ∙ cut_size ∙ ap (λ (k : ℕ). k / 8) (omega arith),
      )
    where
      heads : {x y : ℕ} {l m : List ℕ} → x ∷ l ≡ y ∷ m → x ≡ y
      heads e = cc

  -- For fewer than 2^20 cells that the stream can hold, the coder of d1_freq and the coder of a table
  -- of 2 to 1769 sizes: my_cells_to_bit_str succeeds, its buffer being large enough, with just enough
  -- bytes for the bits of the sections one after the other and the marker, and with a note for each
  -- bit; the bytes start with the bits, and bytes_str_to_bit_str with marked_end returns them.
  pub my_cells_to_bit_str_lem :
      (cells : List MyCell)
      → 1 < length data_size_freq
      → length data_size_freq ≤ 1769
      → new d1_freq ≡ some d1_coder
      → new data_size_freq ≡ some data_size_coder
      → length cells < 2 ^ 20
      → AreCells (length cells) (length data_size_freq) 0 cells
      → (bytes : List ℕ) × (meta : List SerializeMetaData) × (my_cells_to_bit_str ops zc d1_coder
            data_size_coder cells
          ≡ some (bytes, meta))
        × (bytes_str_to_bit_str zc bytes true
            ≡ some (stream_bits zc d1_coder data_size_coder (length cells) cells))
        × (length meta ≡ length (stream_bits zc d1_coder data_size_coder (length cells) cells))
        × Ahead
            (record { ptr = bytes; offs = 0 })
            (stream_bits zc d1_coder data_size_coder (length cells) cells)
        × (length bytes ≡ (length meta + 8) / 8)
  unfolding my_cells_to_bit_str
  my_cells_to_bit_str_lem cells two few d1_made sizes_made small own =
      let n : ℕ = length cells in
      let size : ℕ = 50 + n + n * 4 * 3 + n * 256 in
      let coded =
        new-AreCoders data_size_freq d1_coder data_size_coder two (omega arith) d1_made
          sizes_made in
      let bound = length-stream_bits coded few n (omega arith) cells own (omega arith) in
      let (q, meta, sent, noted, a) =
        push_all-Appends ops laws zc zlaws d1_coder data_size_coder data_size_freq coded n
          (omega arith) cells (record { ptr = replicate size 0; offs = 0 }) own (omega arith)
          (omega (arith, length-replicate {A = ℕ} size 0)) in
      let (unpack, ahead, enough) =
        unpacked size (stream_bits zc d1_coder data_size_coder n cells) q (omega arith)
          (omega arith) a in
      (
        take ((q.offs + 7) / 8) q.ptr,
        meta,
        rw sent refl,
        unpack,
        noted,
        ahead,
        enough ∙ ap (λ (k : ℕ). (k + 8) / 8) (sym noted),
      )

  -- For 1 to 2^20 - 1 cells that the stream can hold, the coder of d1_freq and the coder of a table
  -- of 2 to 1769 sizes: where the output of the decoder ends with the bits that my_cells_to_bit_str
  -- wrote before the marker, and none of them was read and nothing is known of a cell,
  -- advance_cells_read ends with exactly these cells, all bits read.
  pub advance_cells_read-my_cells_to_bit_str :
      (cells : List MyCell) (bytes bits : List ℕ) (meta : List SerializeMetaData) (s : State)
      → 1 < length data_size_freq
      → length data_size_freq ≤ 1769
      → new d1_freq ≡ some d1_coder
      → new data_size_freq ≡ some data_size_coder
      → 0 < length cells
      → length cells < 2 ^ 20
      → AreCells (length cells) (length data_size_freq) 0 cells
      → my_cells_to_bit_str ops zc d1_coder data_size_coder cells ≡ some (bytes, meta)
      → bytes_str_to_bit_str zc bytes true ≡ some bits
      → s.my_cells ≡ replicate (length cells) blank_cell
      → s.last_read_meta ≡ no_meta
      → Ahead s.out_bits bits
      → s.out_bits.offs + length bits ≡ s.write_ptr
      → (t : State) × (advance_cells_read ops zc d1_coder data_size_coder (length cells) s ≡ some t)
        × (t.my_cells ≡ cells)
        × (t.out_bits ≡ advance s.out_bits (length bits))
  advance_cells_read-my_cells_to_bit_str [] bytes bits meta s two few d1_made sizes_made pos small
        own sent unpack blank last a room =
      absurd (omega arith)
  advance_cells_read-my_cells_to_bit_str (c ∷ cells) bytes bits meta s two few d1_made sizes_made
        pos small own sent unpack blank last a room =
      let coded =
        new-AreCoders data_size_freq d1_coder data_size_coder two (omega arith) d1_made
          sizes_made in
      let (bytes', meta', sent', unpack', _, _, _) =
        my_cells_to_bit_str_lem (c ∷ cells) two few d1_made sizes_made small own in
      let same : bytes ≡ bytes' = firsts (sym sent ∙ sent') in
      let stream : bits ≡ stream_bits zc d1_coder data_size_coder (length (c ∷ cells)) (c ∷ cells) =
        contents (sym unpack ∙ ap (λ l. bytes_str_to_bit_str zc l true) same ∙ unpack') in
      let (t, got, known, moved) =
        advance_cells_read-stream ops laws zc zlaws d1_coder data_size_coder data_size_freq coded c
          cells (omega arith) own s blank last (subst (Ahead s.out_bits) stream a)
          (subst (λ b. s.out_bits.offs + length b ≡ s.write_ptr) stream room) in
      (t, got, known, moved ∙ ap (λ b. advance s.out_bits (length b)) (sym stream))
    where
      firsts : {x y : List ℕ × List SerializeMetaData} → some x ≡ some y → x.0 ≡ y.0
      firsts e = cc

      contents : {x y : List ℕ} → some x ≡ some y → x ≡ y
      contents e = cc
