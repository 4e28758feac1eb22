-- ===== src/Serializator/Decode/Stream.antt =====
-- advance_lz_decoder and deserialise of serializator.hpp, up to the list of cells.
use mara_ton_contest_solutio.Common.{
  ℕ, zero, suc, ◌+◌, ◌-◌, ◌*◌, ◌%◌, ◌^◌, Option, none, some, List, ltb, leb, ◌==◌, if◌then◌else◌,
  ◌>>=◌, ◌>>◌, check, length, get_elem?, replicate, none_u32, u32,
}
use mara_ton_contest_solutio.Bits.{BitOps, BitPtr, write, read}
use mara_ton_contest_solutio.Utils.{ZeroCounts, len_in_bits, back}
use mara_ton_contest_solutio.Huffman.{HuffmanEncoderDecoder, new, decode_symbol}
use mara_ton_contest_solutio.Huffman.Tables.{d1_freq}
use mara_ton_contest_solutio.Serializator.{
  bits_for_n_cells, bits_to_dump_literal_len, bits_to_dump_match_len,
  bits_for_within_cell_offset_curplus, literal_len_th, cell_id_offset_th, match_len_th,
  offset_within_cell_th,
}
use mara_ton_contest_solutio.Serializator.Numbers.{read_dumped_num}
use mara_ton_contest_solutio.Serializator.Cell.{MyCell, blank_cell}
use mara_ton_contest_solutio.Serializator.Lz.{LzCoders, new_coders, no_meta}
use mara_ton_contest_solutio.Serializator.Decode.Meta.{get_pos, predict_next_meta, blank_meta}
use mara_ton_contest_solutio.Serializator.Decode.Fields.{State, advance_cells_read}

-- The unsigned that decode_symbol returns.
abbrev pub symbol_value : Option ℕ → ℕ
symbol_value none = none_u32
symbol_value (some s) = s

module _ (ops : BitOps) (zc : ZeroCounts) (d1_decoder data_size_decoder : HuffmanEncoderDecoder)
    (coders : LzCoders) (n_cells lz_cnt_bits : ℕ) where
  -- store_out_uint(bit, 1)
  unfoldable pub store_out_uint : ℕ → State → State
  store_out_uint bit s =
      let p = write ops (record s.out_bits { offs = s.write_ptr }) bit 1 in
      record s { out_bits = record { ptr = p.ptr; offs = s.out_bits.offs }; write_ptr = p.offs }

  -- The literal: n bits of the input.
  unfoldable pub copy_literal : (n : ℕ) → BitPtr → State → BitPtr × State
  copy_literal zero lz_bits s = (lz_bits, s)
  copy_literal (suc n) lz_bits s =
      let (bit, next) = read ops lz_bits 1 in copy_literal n next (store_out_uint bit s)

  -- The match: n bits of the output from `start` on, each read after the one before was written.
  unfoldable pub copy_match : (n start : ℕ) → State → State
  copy_match zero start s = s
  copy_match (suc n) start s =
      let (bit, _) = read ops (record s.out_bits { offs = start }) 1 in
      copy_match n (start + 1) (store_out_uint bit s)

  -- A symbol, and at the threshold the rest of the number behind it.
  unfoldable pub read_capped : HuffmanEncoderDecoder → (th blen : ℕ) → BitPtr → Option (ℕ × BitPtr)
  read_capped coder th blen p = do
    (symbol, q) ← decode_symbol ops coder p none_u32
    let more = read_dumped_num ops q blen >>= λ got. some (u32 (symbol_value symbol + got.0), got.1)
    if symbol_value symbol == th then more else some (symbol_value symbol, q)

  unfoldable pub read_cell_id_offset : BitPtr → Option (ℕ × BitPtr)
  read_cell_id_offset p = do
    (symbol, q) ← decode_symbol ops coders.cell_id_offset p none_u32
    let blen = len_in_bits zc (u32 (n_cells - 1 + 2 ^ 32 - cell_id_offset_th))
    let (more, r) = read ops q blen
    if symbol_value symbol == cell_id_offset_th
        then some (u32 (symbol_value symbol + more), r)
        else some (symbol_value symbol, q)

  -- The match behind a literal; a match length of 0 has nothing behind it.
  unfoldable pub read_match : BitPtr → State → Option (BitPtr × State)
  read_match lz_bits s = do
    (match_len, p1) ← read_capped coders.match_len match_len_th bits_to_dump_match_len lz_bits
    let found = do
      (cell_id_offset, p2) ← read_cell_id_offset p1
      cur ← predict_next_meta n_cells s.my_cells s.last_read_meta
      let ref_cell_id = u32 (n_cells + cur.cell_id + 2 ^ 32 - cell_id_offset) % n_cells
      (offset, p3) ←
          read_capped coders.offset_within_cell offset_within_cell_th
            bits_for_within_cell_offset_curplus p2
      meta ← get_elem? s.cell_metas ref_cell_id
      start ← get_pos meta offset
      t ←
          advance_cells_read ops zc d1_decoder data_size_decoder n_cells
            (copy_match match_len start s)
      some (p3, t)
    if match_len == 0 then some (p1, s) else found

  unfoldable pub advance_lz_decoder : BitPtr → State → Option (BitPtr × State)
  advance_lz_decoder lz_bits s = do
    check (ltb lz_bits.offs lz_cnt_bits)
    (literal_len, p) ←
        read_capped coders.literal_len literal_len_th bits_to_dump_literal_len lz_bits
    let (q, t) = copy_literal literal_len p s
    u ← advance_cells_read ops zc d1_decoder data_size_decoder n_cells t
    let last = check (q.offs == lz_cnt_bits) >> some (q, u)
    let more = read_match q u
    if leb lz_cnt_bits q.offs then last else more

  -- while (lz_bits.offs < lz_cnt_bits): a round reads a bit at least.
  unfoldable pub decode_stream : ℕ → BitPtr → State → Option State
  decode_stream zero lz_bits s = if ltb lz_bits.offs lz_cnt_bits then none else some s
  decode_stream (suc fuel) lz_bits s =
      let round = advance_lz_decoder lz_bits s >>= λ got. decode_stream fuel got.0 got.1 in
      if ltb lz_bits.offs lz_cnt_bits then round else some s

-- deserialise(lz_bytes), before the cells are made again. The tables that are decoded from text are
-- parameters; `lz_cnt_bits` is an unsigned, with its wrap at 2^32.
unfoldable pub deserialise_cells :
    BitOps
    → ZeroCounts
    → (data_size_freq offset_within_cell_freq : List ℕ) → List ℕ
    → Option (List MyCell)
deserialise_cells ops zc data_size_freq offset_within_cell_freq lz_bytes =
    let lz_cnt_bits =
      u32 (length lz_bytes * 8 + 2 ^ 32 - (zc.count_trailing_zeroes32 (back lz_bytes) + 1)) in
    let (n_cells, lz_bits) = read ops (record { ptr = lz_bytes; offs = 0 }) bits_for_n_cells in
    do
      d1_decoder ← new d1_freq
      data_size_decoder ← new data_size_freq
      coders ← new_coders offset_within_cell_freq
      s ←
          decode_stream ops zc d1_decoder data_size_decoder coders n_cells lz_cnt_bits lz_cnt_bits
            lz_bits
            (record {
              out_bits = record { ptr = replicate (length lz_bytes * 2) 0; offs = 0 };
              write_ptr = 0;
              my_cells = replicate n_cells blank_cell;
              cell_metas = replicate n_cells blank_meta;
              last_read_meta = no_meta;
            })
      some s.my_cells
