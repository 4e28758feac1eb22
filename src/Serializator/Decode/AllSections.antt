-- ===== src/Serializator/Decode/AllSections.antt =====
-- advance_cells_read makes all the cells from the bits of their sections.
use mara_ton_contest_solutio.Common.{
  ℕ, zero, suc, ◌+◌, ◌-◌, ◌*◌, ◌^◌, ◌≤◌, ◌<◌, ◌≡◌, refl, sym, ap, ◌∙◌, false, some, List, [], ◌∷◌,
  ◌++◌, map, append-nil, length, length-append, replicate, subst, ltb, none_u32, arith,
}
use mara_ton_contest_solutio.Bits.{BitOps, BitLaws, BitPtr}
use mara_ton_contest_solutio.Bits.Stream.{
  Ahead, Ahead-advance, advance, advance_zero, advance-advance,
}
use mara_ton_contest_solutio.Utils.{ZeroCounts, ZeroLaws}
use mara_ton_contest_solutio.Huffman.{HuffmanEncoderDecoder}
use mara_ton_contest_solutio.Serializator.Cell.{MyCell, blank_cell}
use mara_ton_contest_solutio.Serializator.Layout.{
  FieldType, field_none, d1_field, data_size_field, refs_field, data_field,
}
use mara_ton_contest_solutio.Serializator.Lz.{no_meta}
use mara_ton_contest_solutio.Serializator.Decode.Meta.{
  next_field, wrapped, is_present, predict_next_meta,
}
use mara_ton_contest_solutio.Serializator.Decode.Fields.{
  State, is_end, read_fields, advance_cells_read,
}
use mara_ton_contest_solutio.Serializator.Decode.Cursor.{place, Looks}
use mara_ton_contest_solutio.Serializator.Decode.Written.{
  AreCells, AreCoders, section_bits, stream_bits,
}
use mara_ton_contest_solutio.Serializator.Decode.Readers.{before}
use mara_ton_contest_solutio.Serializator.Decode.Sections.{
  Reads, Reads-trans, section-Reads, advance-offs,
}

Ahead-next :
    (p : BitPtr) (size : ℕ) (bits rest : List ℕ)
    → Ahead (advance p size) (bits ++ rest)
    → Ahead (advance p (size + length bits)) rest
Ahead-next p size bits rest a =
    subst (λ q. Ahead q rest) (advance-advance p size (length bits))
      (Ahead-advance (advance p size) bits rest a)

-- Before the first section nothing is known, and behind the last one all.
before-first :
    (cells : List MyCell) → map (before d1_field) cells ≡ replicate (length cells) blank_cell
before-first [] = refl
before-first (c ∷ cells) = ap (λ l. blank_cell ∷ l) (before-first cells)

before-end : (cells : List MyCell) → map (before field_none) cells ≡ cells
before-end [] = refl
before-end (c ∷ cells) = ap (λ l. c ∷ l) (before-end cells)

module _ (ops : BitOps) (laws : BitLaws ops) (zc : ZeroCounts) (zlaws : ZeroLaws zc)
    (d1_coder data_size_coder : HuffmanEncoderDecoder) (data_size_freq : List ℕ)
    (coded : AreCoders d1_coder data_size_coder data_size_freq) where
  module _ (c : MyCell) (cells : List MyCell) (small : length (c ∷ cells) < 2 ^ 31)
      (own : AreCells (length (c ∷ cells)) (length data_size_freq) 0 (c ∷ cells)) where
    -- The bits of a section.
    abbrev bits_of : FieldType → List ℕ
    bits_of f = section_bits zc d1_coder data_size_coder (length (c ∷ cells)) f 0 (c ∷ cells)

    next_section :
        (f : FieldType) (k size : ℕ) (rest : List ℕ) (s : State)
        → is_end f ≡ false
        → Ahead (advance s.out_bits size) (bits_of f ++ rest)
        → s.out_bits.offs + size + length (bits_of f) ≤ s.write_ptr
        → Reads ops laws zc zlaws d1_coder data_size_coder data_size_freq coded
            (length (c ∷ cells))
            small
            k
            s
            (map (before f) (c ∷ cells))
            size
            (place f 0)
        → Reads ops laws zc zlaws d1_coder data_size_coder data_size_freq coded
            (length (c ∷ cells))
            small
            (k + length (c ∷ cells))
            s
            (map (before (next_field f)) (c ∷ cells))
            (size + length (bits_of f))
            (place (next_field f) (wrapped f))
    next_section f k size rest s end a room r =
        Reads-trans ops laws zc zlaws d1_coder data_size_coder data_size_freq coded
          (length (c ∷ cells)) small r
          (section-Reads ops laws zc zlaws d1_coder data_size_coder data_size_freq coded
            (length (c ∷ cells)) small f 0 c cells [] rest r.after end own refl (omega arith)
            r.content (subst (λ p. Ahead p (bits_of f ++ rest)) (sym r.moved) a)
            (omega
              (arith, ap (λ (p : BitPtr). p.offs) r.moved, advance-offs s.out_bits size, r.kept))
            r.looks)

    first_look :
        (s : State) → s.last_read_meta ≡ no_meta → Looks (length (c ∷ cells)) s (place d1_field 0)
    unfolding predict_next_meta is_present
    first_look s last = record {
      fuel = 4 * length (c ∷ cells);
      found = rw last refl;
      enough = omega arith;
    }

    -- All sections, from cells of which nothing is known.
    all_sections :
        (s : State)
        → s.my_cells ≡ replicate (length (c ∷ cells)) blank_cell
        → s.last_read_meta ≡ no_meta
        → Ahead s.out_bits
            (stream_bits zc d1_coder data_size_coder (length (c ∷ cells)) (c ∷ cells))
        → s.out_bits.offs
            + length (stream_bits zc d1_coder data_size_coder (length (c ∷ cells)) (c ∷ cells))
          ≡ s.write_ptr
        → (k : ℕ) × (size : ℕ) × (k ≡ 4 * length (c ∷ cells))
          × (size
              ≡ length (stream_bits zc d1_coder data_size_coder (length (c ∷ cells)) (c ∷ cells)))
          × Reads ops laws zc zlaws d1_coder data_size_coder data_size_freq coded
              (length (c ∷ cells))
              small
              k
              s
              (map (before field_none) (c ∷ cells))
              size
              (place field_none none_u32)
    all_sections s blank last a room =
        let b1 : List ℕ = bits_of d1_field in
        let b2 : List ℕ = bits_of data_size_field in
        let b3 : List ℕ = bits_of refs_field in
        let b4 : List ℕ = bits_of data_field in
        let s1 = length-append b1 (b2 ++ (b3 ++ b4)) in
        let s2 = length-append b2 (b3 ++ b4) in
        let s3 = length-append b3 b4 in
        let a1 =
          subst (λ p. Ahead p (b1 ++ (b2 ++ (b3 ++ b4)))) (sym (advance_zero s.out_bits)) a in
        let a2 = Ahead-next s.out_bits 0 b1 (b2 ++ (b3 ++ b4)) a1 in
        let a3 = Ahead-next s.out_bits (0 + length b1) b2 (b3 ++ b4) a2 in
        let a4 = Ahead-next s.out_bits (0 + length b1 + length b2) b3 b4 a3 in
        let start : Reads ops laws zc zlaws d1_coder data_size_coder data_size_freq coded
            (length (c ∷ cells)) small 0 s (map (before d1_field) (c ∷ cells)) 0
            (place d1_field 0) =
          record {
            rounds = 0;
            few = omega arith;
            after = s;
            reached = λ x y e.
                ap (λ (k : ℕ). read_fields ops zc d1_coder data_size_coder (length (c ∷ cells)) k s)
                  {x = x} {y = y} (omega arith);
            content = blank ∙ sym (before-first (c ∷ cells));
            moved = sym (advance_zero s.out_bits);
            kept = refl;
            looks = first_look s last;
          } in
        let r1 = next_section d1_field 0 0 (b2 ++ (b3 ++ b4)) s refl a1 (omega arith) start in
        let r2 =
          next_section data_size_field _ (0 + length b1) (b3 ++ b4) s refl a2 (omega arith) r1 in
        let r3 =
          next_section refs_field _ (0 + length b1 + length b2) b4 s refl a3 (omega arith) r2 in
        let r4 =
          next_section data_field _ (0 + length b1 + length b2 + length b3) [] s refl
            (subst (Ahead _) (sym (append-nil b4)) a4) (omega arith) r3 in
        (_, _, omega arith, omega arith, r4)

    -- The loop ends behind the last section.
    read_end :
        (fuel : ℕ) (t : State)
        → 0 < fuel
        → Looks (length (c ∷ cells)) t (place field_none none_u32)
        → read_fields ops zc d1_coder data_size_coder (length (c ∷ cells)) fuel t ≡ some t
    unfolding read_fields is_present
    read_end zero t pos l = absurd (omega arith)
    read_end (suc fuel) t pos l = rw l.found refl

    pub advance_cells_read-stream :
        (s : State)
        → s.my_cells ≡ replicate (length (c ∷ cells)) blank_cell
        → s.last_read_meta ≡ no_meta
        → Ahead s.out_bits
            (stream_bits zc d1_coder data_size_coder (length (c ∷ cells)) (c ∷ cells))
        → s.out_bits.offs
            + length (stream_bits zc d1_coder data_size_coder (length (c ∷ cells)) (c ∷ cells))
          ≡ s.write_ptr
        → (t : State) × (advance_cells_read ops zc d1_coder data_size_coder (length (c ∷ cells)) s
            ≡ some t)
          × (t.my_cells ≡ c ∷ cells)
          × (t.out_bits
              ≡ advance s.out_bits (
                  length
                    (stream_bits zc d1_coder data_size_coder (length (c ∷ cells)) (c ∷ cells))))
    unfolding advance_cells_read
    advance_cells_read-stream s blank last a room =
        let (k, size, count, sized, r) = all_sections s blank last a room in
        let t : State = r.after in
        let got =
          r.reached (4 * length (c ∷ cells) + 1) (4 * length (c ∷ cells) + 1 - r.rounds)
            (omega (arith, r.few))
          ∙ read_end (4 * length (c ∷ cells) + 1 - r.rounds) t (omega (arith, r.few)) r.looks in
        let done : ltb t.out_bits.offs t.write_ptr ≡ false = ge_test t.out_bits.offs t.write_ptr (
          omega
            (arith, ap (λ (p : BitPtr). p.offs) r.moved, advance-offs s.out_bits size, r.kept)) in
        (
          t,
          rw (got, done) refl,
          r.content ∙ before-end (c ∷ cells),
          r.moved ∙ ap (advance s.out_bits) sized,
        )
      where
        ge_test : (x y : ℕ) → y ≤ x → ltb x y ≡ false
        ge_test x y h = ground arith
