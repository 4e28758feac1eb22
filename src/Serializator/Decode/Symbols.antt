-- ===== src/Serializator/Decode/Symbols.antt =====
-- The two Huffman-coded fields of a cell: d1 and the data size.
use mara_ton_contest_solutio.Common.{
  ℕ, ◌+◌, ◌*◌, ◌%◌, ◌≤◌, ◌<◌, ◌≡◌, refl, ap, ◌∙◌, Bool, true, false, not, none, some, List, [],
  append-nil, ◌==◌, le→leb, if◌then◌else◌, length, none_u32, arith,
}
use mara_ton_contest_solutio.Bits.{shr, BitOps, BitLaws, BitPtr}
use mara_ton_contest_solutio.Bits.Stream.{Fits, Ahead-seek, advance-seek, seek}
use mara_ton_contest_solutio.Utils.{ZeroCounts}
use mara_ton_contest_solutio.Huffman.{HuffmanEncoderDecoder, new, encode_symbol, decode_symbol}
use mara_ton_contest_solutio.Huffman.Tables.{d1_freq}
use mara_ton_contest_solutio.Huffman.Codes.{length-path_to}
use mara_ton_contest_solutio.Huffman.RoundTrip.{decode_cut}
use mara_ton_contest_solutio.Huffman.Walk.{
  code_bits, new-IsCoderOf, encode_symbol-Appends, decode_symbol-Ahead,
}
use mara_ton_contest_solutio.Serializator.Cell.{MyCell, d1}
use mara_ton_contest_solutio.Serializator.Layout.{
  SerializeMetaData, d1_field, data_size_field, note, push_d1, push_data_size,
}
use mara_ton_contest_solutio.Serializator.Decode.Fields.{
  State, cell_at, set_cell, try_read_d1, try_read_data_size,
}

-- What d1 is made of.
pub d1_parts :
    (c : MyCell)
    → c.cnt_refs ≤ 4
    → (d1 c % 8 ≡ c.cnt_refs) × (not (shr (d1 c) 3 % 2 == 0) ≡ c.is_special) × (d1 c < 13)
unfolding d1
d1_parts c few = parts c.cnt_refs c.is_special few
  where
    parts :
        (n : ℕ) (b : Bool)
        → n ≤ 4
        → ((n + 8 * (if b then 1 else 0)) % 256 % 8 ≡ n)
          × (not (shr ((n + 8 * (if b then 1 else 0)) % 256) 3 % 2 == 0) ≡ b)
          × ((n + 8 * (if b then 1 else 0)) % 256 < 13)
    parts n true h = (omega arith, ground arith, omega arith)
    parts n false h = (omega arith, ground arith, omega arith)

module _ (ops : BitOps) (laws : BitLaws ops) where
  -- A symbol that was written is read where the bits end behind it.
  symbol_round_trip :
      (freqs : List ℕ) (coder : HuffmanEncoderDecoder) (p : BitPtr) (s : ℕ)
      → 1 < length freqs
      → length freqs ≤ none_u32
      → new freqs ≡ some coder
      → s < length freqs
      → Fits p 64
      → (q : BitPtr) × (encode_symbol ops coder p s ≡ some (q, length (code_bits coder s)))
        × (q.offs ≡ p.offs + length (code_bits coder s))
        × (decode_symbol ops coder (seek q p.offs) q.offs ≡ some (some s, q))
  symbol_round_trip freqs coder p s two fits e h room =
      let c = new-IsCoderOf freqs (omega arith) fits e in
      let bits : List ℕ = code_bits coder s in
      let short : length bits ≤ 64 = omega (arith, length-path_to s coder.root, c.low) in
      let (q, sent, a) = encode_symbol-Appends ops laws freqs coder p s c two h (omega arith) in
      (
        q,
        sent,
        a.moved,
        decode_symbol-Ahead ops laws freqs coder (seek q p.offs) s q.offs [] c h
              (rw (append-nil bits) (Ahead-seek p q bits (omega arith) a))
              (unfold seek in omega (arith, a.moved))
            ∙ ap (λ (r : BitPtr). some (some s, r)) (advance-seek p q bits a),
      )

  module _ (zc : ZeroCounts) (d1_coder data_size_coder : HuffmanEncoderDecoder) (n_cells : ℕ) where
    pub try_read_d1-some :
        (s : State) (i x : ℕ) (q : BitPtr)
        → decode_symbol ops d1_coder s.out_bits s.write_ptr ≡ some (some x, q)
        → x % 8 ≤ 4
        → try_read_d1 ops zc d1_coder data_size_coder n_cells s i
          ≡ some (
              some (
                set_cell s i
                  (record (cell_at s i) { cnt_refs = x % 8; is_special = not (shr x 3 % 2 == 0) })
                  q))
    unfolding try_read_d1
    try_read_d1-some s i x q e few = rw (e, le→leb (x % 8) 4 few) refl

    -- For the coder of d1_freq and a cell with 4 references at most: where 64 bits fit, push_d1
    -- succeeds, and try_read_d1 from the old position, with the output ending at the new one, sets
    -- the same number of references and the same mark of a special cell, and stops at the new
    -- position.
    pub try_read_d1-push_d1 :
        (i : ℕ) (c : MyCell) (p : BitPtr) (meta : List SerializeMetaData) (s : State)
        → new d1_freq ≡ some d1_coder
        → c.cnt_refs ≤ 4
        → Fits p 64
        → (q : BitPtr) × (meta' : List SerializeMetaData) × (push_d1 ops zc d1_coder data_size_coder
              n_cells i c
              (p, meta)
            ≡ some (q, meta'))
          × (try_read_d1 ops zc d1_coder data_size_coder n_cells
                (record s { out_bits = seek q p.offs; write_ptr = q.offs })
                i
              ≡ some (
                  some (
                    set_cell
                      (record s { out_bits = seek q p.offs; write_ptr = q.offs })
                      i
                      (record (cell_at s i) { cnt_refs = c.cnt_refs; is_special = c.is_special })
                      q)))
    unfolding push_d1 d1_freq
    try_read_d1-push_d1 i c p meta s made few room =
        let (low, high, small) = d1_parts c few in
        let (q, sent, _, got) =
          symbol_round_trip d1_freq d1_coder p (d1 c) (omega arith) (omega arith) made (omega arith)
            room in
        let t : State = record s { out_bits = seek q p.offs; write_ptr = q.offs } in
        (
          q,
          note (length (code_bits d1_coder (d1 c))) i d1_field meta,
          rw sent refl,
          try_read_d1-some t i (d1 c) q got (omega arith)
              ∙ ap
                  (λ (k : ℕ). some (
                    some (
                      set_cell t i
                        (record (cell_at s i) {
                          cnt_refs = k;
                          is_special = not (shr (d1 c) 3 % 2 == 0);
                        })
                        q)))
                  low
              ∙ ap
                  (λ (b : Bool). some (
                    some (
                      set_cell t i (record (cell_at s i) { cnt_refs = c.cnt_refs; is_special = b })
                        q)))
                  high,
        )

    pub try_read_data_size-some :
        (s : State) (i x : ℕ) (q : BitPtr)
        → decode_symbol ops data_size_coder s.out_bits s.write_ptr ≡ some (some x, q)
        → try_read_data_size ops zc d1_coder data_size_coder n_cells s i
          ≡ some (some (set_cell s i (record (cell_at s i) { cnt_bits = x }) q))
    unfolding try_read_data_size
    try_read_data_size-some s i x q e = rw e refl

    try_read_data_size-none :
        (s : State) (i : ℕ) (q : BitPtr)
        → decode_symbol ops data_size_coder s.out_bits s.write_ptr ≡ some (none, q)
        → try_read_data_size ops zc d1_coder data_size_coder n_cells s i ≡ some none
    unfolding try_read_data_size
    try_read_data_size-none s i q e = rw e refl

    -- For the coder of a table of 2 to 2^32 - 1 data sizes that has the cell's cnt_bits: where 64 bits fit,
    -- push_data_size succeeds, and try_read_data_size from the old position, with the output ending
    -- at the new one, sets the same cnt_bits and stops at the new position. The new position is
    -- behind the code of cnt_bits, and while only a part of the code, k of its bits, is there,
    -- try_read_data_size answers false.
    pub try_read_data_size-push_data_size :
        (data_size_freq : List ℕ) (i : ℕ) (c : MyCell) (p : BitPtr) (meta : List SerializeMetaData)
        (s : State) (k : ℕ)
        → 1 < length data_size_freq
        → length data_size_freq ≤ none_u32
        → new data_size_freq ≡ some data_size_coder
        → c.cnt_bits < length data_size_freq
        → Fits p 64
        → k < length (code_bits data_size_coder c.cnt_bits)
        → (q : BitPtr) × (meta' : List SerializeMetaData) × (push_data_size ops zc d1_coder
              data_size_coder n_cells i c
              (p, meta)
            ≡ some (q, meta'))
          × (try_read_data_size ops zc d1_coder data_size_coder n_cells
                (record s { out_bits = seek q p.offs; write_ptr = q.offs })
                i
              ≡ some (
                  some (
                    set_cell
                      (record s { out_bits = seek q p.offs; write_ptr = q.offs })
                      i
                      (record (cell_at s i) { cnt_bits = c.cnt_bits })
                      q)))
          × (q.offs ≡ p.offs + length (code_bits data_size_coder c.cnt_bits))
          × (try_read_data_size ops zc d1_coder data_size_coder n_cells
                (record s { out_bits = seek q p.offs; write_ptr = p.offs + k })
                i
              ≡ some none)
    unfolding push_data_size
    try_read_data_size-push_data_size data_size_freq i c p meta s k two fits made h room cut =
        let (q, sent, moved, got) =
          symbol_round_trip data_size_freq data_size_coder p c.cnt_bits two fits made h room in
        (
          q,
          note (length (code_bits data_size_coder c.cnt_bits)) i data_size_field meta,
          rw sent refl,
          try_read_data_size-some (record s { out_bits = seek q p.offs; write_ptr = q.offs }) i
              c.cnt_bits q got,
          moved,
          try_read_data_size-none (record s { out_bits = seek q p.offs; write_ptr = p.offs + k }) i
              (seek q p.offs)
              (decode_cut ops laws data_size_freq data_size_coder p c.cnt_bits q
                (length (code_bits data_size_coder c.cnt_bits)) k two fits made h room sent cut),
        )
