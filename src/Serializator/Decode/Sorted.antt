-- ===== src/Serializator/Decode/Sorted.antt =====
-- serialize up to the string of bits, and deserialise from the whole string of bits.
use mara_ton_contest_solutio.Common.{
  ℕ, ◌^◌, ◌≤◌, ◌<◌, ◌≡◌, refl, true, some, List, length, replicate, subst, arith,
}
use mara_ton_contest_solutio.Bits.{BitOps, BitLaws}
use mara_ton_contest_solutio.Utils.{ZeroCounts, ZeroLaws, bytes_str_to_bit_str}
use mara_ton_contest_solutio.Huffman.{HuffmanEncoderDecoder, new}
use mara_ton_contest_solutio.Huffman.Tables.{d1_freq}
use mara_ton_contest_solutio.Serializator.Cell.{MyCell, blank_cell}
use mara_ton_contest_solutio.Serializator.Order.{initial_cell_order, apply_order}
use mara_ton_contest_solutio.Serializator.Order.Rounds.{IsAcyclic}
use mara_ton_contest_solutio.Serializator.Layout.{SerializeMetaData, my_cells_to_bit_str}
use mara_ton_contest_solutio.Serializator.Lz.{no_meta}
use mara_ton_contest_solutio.Serializator.Decode.Meta.{blank_meta}
use mara_ton_contest_solutio.Serializator.Decode.Fields.{State, advance_cells_read}
use mara_ton_contest_solutio.Serializator.Decode.Written.{AreCells, stream_bits}
use mara_ton_contest_solutio.Serializator.Decode.RoundTrip.{
  my_cells_to_bit_str_lem, advance_cells_read-my_cells_to_bit_str,
}
use mara_ton_contest_solutio.Serializator.Decode.Ordered.{apply_order-AreCells}

-- The state of deserialise when the output has all the bits and none was read.
abbrev pub received : (n_cells : ℕ) → (bytes : List ℕ) → (cnt_bits : ℕ) → State
received n_cells bytes cnt_bits = record {
  out_bits = record { ptr = bytes; offs = 0 };
  write_ptr = cnt_bits;
  my_cells = replicate n_cells blank_cell;
  cell_metas = replicate n_cells blank_meta;
  last_read_meta = no_meta;
}

-- For 1 to 2^20 - 1 cells that the stream can hold, without cycles, the coder of d1_freq and the coder
-- of a table of 2 to 1769 sizes: the cells are put in order and written, bytes_str_to_bit_str unpacks
-- as many bits as there are notes, and from the bytes, with the output ending behind these bits,
-- advance_cells_read makes the ordered cells again.
pub advance_cells_read-apply_order :
    (ops : BitOps) (laws : BitLaws ops) (zc : ZeroCounts) (zlaws : ZeroLaws zc)
    (d1_coder data_size_coder : HuffmanEncoderDecoder) (data_size_freq : List ℕ)
    (cells : List MyCell)
    → 1 < length data_size_freq
    → length data_size_freq ≤ 1769
    → new d1_freq ≡ some d1_coder
    → new data_size_freq ≡ some data_size_coder
    → 0 < length cells
    → length cells < 2 ^ 20
    → AreCells (length cells) (length data_size_freq) 0 cells
    → IsAcyclic cells
    → (order : List ℕ) × (cells' : List MyCell) × (bytes bits : List ℕ) × (meta : List
        SerializeMetaData)
      × (t : State) × (initial_cell_order cells ≡ some order)
      × (apply_order cells order ≡ some cells')
      × (my_cells_to_bit_str ops zc d1_coder data_size_coder cells' ≡ some (bytes, meta))
      × (bytes_str_to_bit_str zc bytes true ≡ some bits)
      × (length meta ≡ length bits)
      × (advance_cells_read ops zc d1_coder data_size_coder
            (length cells)
            (received (length cells) bytes (length bits))
          ≡ some t)
      × (t.my_cells ≡ cells')
advance_cells_read-apply_order ops laws zc zlaws d1_coder data_size_coder data_size_freq cells two
      few d1_made sizes_made pos small own acyclic =
    let (order, cells', ordered, applied, size, own') =
      apply_order-AreCells (length data_size_freq) cells own acyclic in
    let (bytes, meta, sent, unpacked, noted, ahead, _) =
      my_cells_to_bit_str_lem ops laws zc zlaws d1_coder data_size_coder data_size_freq cells' two
        few d1_made sizes_made (omega arith) own' in
    let bits : List ℕ = stream_bits zc d1_coder data_size_coder (length cells') cells' in
    let (t, got, known, _) =
      advance_cells_read-my_cells_to_bit_str ops laws zc zlaws d1_coder data_size_coder
        data_size_freq cells' bytes bits meta (received (length cells') bytes (length bits)) two few
        d1_made sizes_made (omega arith) (omega arith) own' sent unpacked refl refl ahead
        (omega arith) in
    (
      order,
      cells',
      bytes,
      bits,
      meta,
      t,
      ordered,
      applied,
      sent,
      unpacked,
      noted,
      subst
          (λ n.
            advance_cells_read ops zc d1_coder data_size_coder n (received n bytes (length bits))
            ≡ some t)
          size got,
      known,
    )
