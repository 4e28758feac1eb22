-- ===== src/Serializator/Decode/Written.antt =====
-- The bits that my_cells_to_bit_str writes: section by section, cell by cell.
use mara_ton_contest_solutio.Common.{
  ℕ, ◌+◌, ◌-◌, ◌/◌, ◌^◌, ◌≤◌, ◌<◌, ◌≡◌, refl, ap, ◌∙◌, Option, some, List, [], ◌∷◌, ◌++◌, length,
  length-append, take, replicate, All, subst, arith,
}
use mara_ton_contest_solutio.Bits.{bit_at, bits_at, IsByte, BitOps, BitLaws, BitPtr, write}
use mara_ton_contest_solutio.Bits.Stream.{
  Fits, Appends, Appends-none, Appends-trans, write-Appends, length-bits_at,
}
use mara_ton_contest_solutio.Utils.{ZeroCounts, ZeroLaws}
use mara_ton_contest_solutio.Huffman.{HuffmanEncoderDecoder}
use mara_ton_contest_solutio.Huffman.Tables.{d1_freq}
use mara_ton_contest_solutio.Huffman.Walk.{code_bits, IsCoderOf, encode_symbol-Appends}
use mara_ton_contest_solutio.Serializator.Cell.{MyCell, d1}
use mara_ton_contest_solutio.Serializator.Layout.{
  FieldType, field_none, d1_field, data_size_field, refs_field, data_field, SerializeMetaData, Out,
  note, for_cells, push_ref_list, push_bits, push_d1, push_data_size, push_refs, push_data,
  push_all,
}
use mara_ton_contest_solutio.Serializator.Decode.Refs.{
  IsRefOf, ref_bits, length-ref_bits, length-note, push_ref_list-Appends,
}
use mara_ton_contest_solutio.Serializator.Decode.Content.{push_bits-Appends}
use mara_ton_contest_solutio.Serializator.Decode.Symbols.{d1_parts}

-- What the stream can hold of cell i of n_cells: its references are to other cells of the list, with
-- 0 in the slots behind them, its size has a code, and its bytes are just enough for its bits, with
-- 0 behind them.
pub record IsCell (n_cells cnt_sizes i : ℕ) (c : MyCell) : Type 0 where
  pub few : c.cnt_refs ≤ 4
  pub slots : c.refs ≡ take c.cnt_refs c.refs ++ replicate (4 - c.cnt_refs) 0
  pub listed : length (take c.cnt_refs c.refs) ≡ c.cnt_refs
  pub valid : All (IsRefOf n_cells i) (take c.cnt_refs c.refs)
  pub sized : c.cnt_bits < cnt_sizes
  pub enough : length c.bytes ≡ (c.cnt_bits + 7) / 8
  pub all_bytes : All IsByte c.bytes
  pub padded : (j : ℕ) → c.cnt_bits ≤ j → bit_at c.bytes j ≡ 0

-- The cells from number i on.
abbrev pub AreCells : (n_cells cnt_sizes i : ℕ) → List MyCell → Type 0
AreCells n_cells cnt_sizes i [] = Unit
AreCells n_cells cnt_sizes i (c ∷ cells) =
    IsCell n_cells cnt_sizes i c × AreCells n_cells cnt_sizes (i + 1) cells

module _ (zc : ZeroCounts) (d1_coder data_size_coder : HuffmanEncoderDecoder) (n_cells : ℕ) where
  -- The bits of a field of cell i.
  abbrev pub field_bits : FieldType → ℕ → MyCell → List ℕ
  field_bits field_none i c = []
  field_bits d1_field i c = code_bits d1_coder (d1 c)
  field_bits data_size_field i c = code_bits data_size_coder c.cnt_bits
  field_bits refs_field i c = ref_bits zc n_cells i (take c.cnt_refs c.refs)
  field_bits data_field i c = bits_at c.bytes 0 c.cnt_bits

  -- The bits of a section, from cell i on.
  abbrev pub section_bits : FieldType → ℕ → List MyCell → List ℕ
  section_bits f i [] = []
  section_bits f i (c ∷ cells) = field_bits f i c ++ section_bits f (i + 1) cells

  -- All sections, and the marker.
  abbrev pub stream_bits : List MyCell → List ℕ
  stream_bits cells =
      section_bits d1_field 0 cells
      ++ (section_bits data_size_field 0 cells
          ++ (section_bits refs_field 0 cells ++ section_bits data_field 0 cells))

-- What the coders and counts have to satisfy.
pub record AreCoders (d1_coder data_size_coder : HuffmanEncoderDecoder) (data_size_freq : List ℕ)
    : Type 0 where
  pub d1_coded : IsCoderOf d1_freq d1_coder
  pub sizes_coded : IsCoderOf data_size_freq data_size_coder
  pub two : 1 < length data_size_freq

module _ (ops : BitOps) (laws : BitLaws ops) (zc : ZeroCounts) (zlaws : ZeroLaws zc)
    (d1_coder data_size_coder : HuffmanEncoderDecoder) (data_size_freq : List ℕ)
    (coded : AreCoders d1_coder data_size_coder data_size_freq) (n_cells : ℕ)
    (small : n_cells < 2 ^ 31) where
  abbrev push_field : FieldType → ℕ → MyCell → Out → Option Out
  push_field field_none i c out = some out
  push_field d1_field i c out = push_d1 ops zc d1_coder data_size_coder n_cells i c out
  push_field data_size_field i c out =
      push_data_size ops zc d1_coder data_size_coder n_cells i c out
  push_field refs_field i c out = push_refs ops zc d1_coder data_size_coder n_cells i c out
  push_field data_field i c out = push_data ops zc d1_coder data_size_coder n_cells i c out

  push_field-Appends :
      (f : FieldType) (i : ℕ) (c : MyCell) (p : BitPtr) (meta : List SerializeMetaData)
      → IsCell n_cells (length data_size_freq) i c
      → i < n_cells
      → Fits p (length (field_bits zc d1_coder data_size_coder n_cells f i c))
      → (q : BitPtr) × (meta' : List SerializeMetaData) × (push_field f i c (p, meta)
          ≡ some (q, meta'))
        × (length meta'
            ≡ length meta + length (field_bits zc d1_coder data_size_coder n_cells f i c))
        × Appends p (field_bits zc d1_coder data_size_coder n_cells f i c) q
  unfolding push_d1 push_data_size push_refs push_data d1_freq
  push_field-Appends field_none i c p meta own here room =
      (p, meta, refl, omega arith, Appends-none p)
  push_field-Appends d1_field i c p meta own here room =
      let (_, _, low) = d1_parts c own.few in
      let (q, sent, a) =
        encode_symbol-Appends ops laws d1_freq d1_coder p (d1 c) coded.d1_coded (omega arith)
          (omega arith) room in
      let n : ℕ = length (code_bits d1_coder (d1 c)) in
      (q, note n i d1_field meta, rw sent refl, length-note n i d1_field meta, a)
  push_field-Appends data_size_field i c p meta own here room =
      let (q, sent, a) =
        encode_symbol-Appends ops laws data_size_freq data_size_coder p c.cnt_bits coded.sizes_coded
          coded.two own.sized room in
      let n : ℕ = length (code_bits data_size_coder c.cnt_bits) in
      (q, note n i data_size_field meta, rw sent refl, length-note n i data_size_field meta, a)
  push_field-Appends refs_field i c p meta own here room =
      let refs : List ℕ = take c.cnt_refs c.refs in
      let size = length-ref_bits ops laws zc zlaws n_cells i small here refs in
      let (q, meta', sent, noted, a) =
        push_ref_list-Appends ops laws zc zlaws n_cells i small here d1_coder data_size_coder refs
          (replicate (4 - c.cnt_refs) 0) p meta own.valid (omega arith) in
      (
        q,
        meta',
        ap (λ l. push_ref_list ops zc d1_coder data_size_coder n_cells c.cnt_refs i l (p, meta))
              own.slots
            ∙ subst
                (λ k.
                  push_ref_list ops zc d1_coder data_size_coder n_cells k i
                    (refs ++ replicate (4 - c.cnt_refs) 0) (p, meta)
                  ≡ some (q, meta'))
                own.listed sent,
        noted ∙ omega arith,
        a,
      )
  push_field-Appends data_field i c p meta own here room =
      let size = length-bits_at c.bytes 0 c.cnt_bits in
      (
        push_bits ops zc d1_coder data_size_coder n_cells c.cnt_bits
            (record { ptr = c.bytes; offs = 0 }) p,
        note c.cnt_bits i data_field meta,
        refl,
        length-note c.cnt_bits i data_field meta ∙ omega arith,
        push_bits-Appends ops laws zc d1_coder data_size_coder n_cells c.cnt_bits
            (record { ptr = c.bytes; offs = 0 }) p (omega (arith, own.enough)) (omega arith),
      )

  section-Appends :
      (f : FieldType) (i : ℕ) (cells : List MyCell) (p : BitPtr) (meta : List SerializeMetaData)
      → AreCells n_cells (length data_size_freq) i cells
      → i + length cells ≤ n_cells
      → Fits p (length (section_bits zc d1_coder data_size_coder n_cells f i cells))
      → (q : BitPtr) × (meta' : List SerializeMetaData) × (for_cells
            (push_field f)
            i
            cells
            (p, meta)
          ≡ some (q, meta'))
        × (length meta'
            ≡ length meta + length (section_bits zc d1_coder data_size_coder n_cells f i cells))
        × Appends p (section_bits zc d1_coder data_size_coder n_cells f i cells) q
  unfolding for_cells
  section-Appends f i [] p meta own here room = (p, meta, refl, omega arith, Appends-none p)
  section-Appends f i (c ∷ cells) p meta (first, own) here room =
      let bits : List ℕ = field_bits zc d1_coder data_size_coder n_cells f i c in
      let rest : List ℕ = section_bits zc d1_coder data_size_coder n_cells f (i + 1) cells in
      let size = length-append bits rest in
      let (p', meta', sent, noted, a) =
        push_field-Appends f i c p meta first (omega arith) (omega arith) in
      let (q, meta'', sent', noted', a') =
        section-Appends f (i + 1) cells p' meta' own (omega arith)
          (omega (arith, a.moved, a.size)) in
      (q, meta'', rw sent sent', noted' ∙ omega arith, Appends-trans a a')

  push_all-steps :
      (cells : List MyCell) (out out1 out2 out3 : Out) (p : BitPtr) (meta : List SerializeMetaData)
      → for_cells (push_field d1_field) 0 cells out ≡ some out1
      → for_cells (push_field data_size_field) 0 cells out1 ≡ some out2
      → for_cells (push_field refs_field) 0 cells out2 ≡ some out3
      → for_cells (push_field data_field) 0 cells out3 ≡ some (p, meta)
      → push_all ops zc d1_coder data_size_coder n_cells cells out ≡ some (write ops p 1 1, meta)
  unfolding push_all
  push_all-steps cells out out1 out2 out3 p meta e1 e2 e3 e4 = rw (e1, e2, e3, e4) refl

  -- push_all writes the sections in their order, a note for each bit of them, and the marker.
  pub push_all-Appends :
      (cells : List MyCell) (p : BitPtr)
      → AreCells n_cells (length data_size_freq) 0 cells
      → length cells ≤ n_cells
      → Fits p (length (stream_bits zc d1_coder data_size_coder n_cells cells) + 1)
      → (q : BitPtr) × (meta : List SerializeMetaData) × (push_all ops zc d1_coder data_size_coder
            n_cells cells
            (p, [])
          ≡ some (q, meta))
        × (length meta ≡ length (stream_bits zc d1_coder data_size_coder n_cells cells))
        × Appends p (stream_bits zc d1_coder data_size_coder n_cells cells ++ (1 ∷ [])) q
  push_all-Appends cells p own here room =
      let b1 : List ℕ = section_bits zc d1_coder data_size_coder n_cells d1_field 0 cells in
      let b2 : List ℕ = section_bits zc d1_coder data_size_coder n_cells data_size_field 0 cells in
      let b3 : List ℕ = section_bits zc d1_coder data_size_coder n_cells refs_field 0 cells in
      let b4 : List ℕ = section_bits zc d1_coder data_size_coder n_cells data_field 0 cells in
      let s1 = length-append b1 (b2 ++ (b3 ++ b4)) in
      let s2 = length-append b2 (b3 ++ b4) in
      let s3 = length-append b3 b4 in
      let (p1, m1, e1, n1, a1) =
        section-Appends d1_field 0 cells p [] own (omega arith) (omega arith) in
      let (p2, m2, e2, n2, a2) =
        section-Appends data_size_field 0 cells p1 m1 own (omega arith)
          (omega (arith, a1.moved, a1.size)) in
      let (p3, m3, e3, n3, a3) =
        section-Appends refs_field 0 cells p2 m2 own (omega arith)
          (omega (arith, a1.moved, a1.size, a2.moved, a2.size)) in
      let (p4, m4, e4, n4, a4) =
        section-Appends data_field 0 cells p3 m3 own (omega arith)
          (omega (arith, a1.moved, a1.size, a2.moved, a2.size, a3.moved, a3.size)) in
      let a5 = write-Appends ops laws p4 1 1 (omega arith) (
        omega
          (arith, a1.moved, a1.size, a2.moved, a2.size, a3.moved, a3.size, a4.moved, a4.size)) in
      (
        write ops p4 1 1,
        m4,
        push_all-steps cells (p, []) (p1, m1) (p2, m2) (p3, m3) p4 m4 e1 e2 e3 e4,
        omega arith,
        Appends-trans (Appends-trans a1 (Appends-trans a2 (Appends-trans a3 a4))) a5,
      )
