-- ===== src/Serializator/Layout.antt =====
-- my_cells_to_bit_str and build_offsets_within_cells of serializator.hpp: all d1, all data sizes,
-- all refs and all data, with a note for each bit of the cell and the field that it belongs to.
-- The table data_size_freq is decoded from text by the TON library: its coder is a parameter.
use mara_ton_contest_solutio.Common.{
  ℕ, zero, suc, ◌+◌, ◌-◌, ◌*◌, ◌/◌, ◌%◌, ◌^◌, not, Option, none, some, List, [], ◌∷◌, ◌++◌, ltb,
  ◌==◌, if◌then◌else◌, ◌>>=◌, ◌>>◌, check, length, take, replicate, none_u32, u32,
}
use mara_ton_contest_solutio.Bits.{BitOps, BitPtr, write, read}
use mara_ton_contest_solutio.Utils.{ZeroCounts, len_in_bits}
use mara_ton_contest_solutio.Huffman.{HuffmanEncoderDecoder, encode_symbol}
use mara_ton_contest_solutio.Serializator.Cell.{MyCell, d1}

-- `field_none` is FieldType::none.
pub data FieldType : Type 0 where
  field_none d1_field data_size_field refs_field data_field : FieldType

pub record SerializeMetaData : Type 0 where
  pub cell_id : ℕ
  pub field_type : FieldType

-- The pointer and the notes.
abbrev pub Out : Type 0
Out = BitPtr × List SerializeMetaData

-- n times meta.push_back({i, f})
unfoldable pub note : (n i : ℕ) → FieldType → List SerializeMetaData → List SerializeMetaData
note n i f meta = meta ++ replicate n (record { cell_id = i; field_type = f })

-- for (i = 0; i < n_cells; ++i): `push` on the cells from number i on.
unfoldable pub for_cells : (ℕ → MyCell → Out → Option Out) → ℕ → List MyCell → Out → Option Out
for_cells push i [] out = some out
for_cells push i (c ∷ cells) out = do out' ← push i c out; for_cells push (i + 1) cells out'

module _ (ops : BitOps) (zc : ZeroCounts) (d1_encoder data_size_encoder : HuffmanEncoderDecoder)
    (n_cells : ℕ) where
  unfoldable pub push_d1 : ℕ → MyCell → Out → Option Out
  push_d1 i c (p, meta) = do
    (q, spent_bits) ← encode_symbol ops d1_encoder p (d1 c)
    some (q, note spent_bits i d1_field meta)

  unfoldable pub push_data_size : ℕ → MyCell → Out → Option Out
  push_data_size i c (p, meta) = do
    (q, spent_bits) ← encode_symbol ops data_size_encoder p c.cnt_bits
    some (q, note spent_bits i data_size_field meta)

  -- (n_cells + i - ref) % n_cells, in unsigned arithmetic.
  abbrev pub ref_distance : ℕ → ℕ → ℕ
  ref_distance i ref = u32 (n_cells + i + 2 ^ 32 - ref) % n_cells

  -- The first n references.
  unfoldable pub push_ref_list : (n i : ℕ) → List ℕ → Out → Option Out
  push_ref_list zero i refs out = some out
  push_ref_list (suc n) i [] out = none
  push_ref_list (suc n) i (ref ∷ refs) (p, meta) =
      let bit_len = len_in_bits zc (n_cells - 1) in
      do
        check (not (ref == i))
        check (ltb 0 (ref_distance i ref))
        push_ref_list n i refs
            (write ops p (ref_distance i ref - 1) bit_len, note bit_len i refs_field meta)

  unfoldable pub push_refs : ℕ → MyCell → Out → Option Out
  push_refs i c out = push_ref_list c.cnt_refs i c.refs out

  unfoldable pub push_bits : (n : ℕ) → (from to : BitPtr) → BitPtr
  push_bits zero from to = to
  push_bits (suc n) from to =
      let (bit, from') = read ops from 1 in push_bits n from' (write ops to bit 1)

  unfoldable pub push_data : ℕ → MyCell → Out → Option Out
  push_data i c (p, meta) = some (
    push_bits c.cnt_bits (record { ptr = c.bytes; offs = 0 }) p,
    note c.cnt_bits i data_field meta,
  )

  -- The sections in their order, and the marker.
  unfoldable pub push_all : List MyCell → Out → Option Out
  push_all my_cells out = do
    out1 ← for_cells push_d1 0 my_cells out
    out2 ← for_cells push_data_size 0 my_cells out1
    out3 ← for_cells push_refs 0 my_cells out2
    (p, meta) ← for_cells push_data 0 my_cells out3
    some (write ops p 1 1, meta)

unfoldable pub my_cells_to_bit_str :
    BitOps
    → ZeroCounts
    → (d1_encoder data_size_encoder : HuffmanEncoderDecoder) → List MyCell
    → Option (List ℕ × List SerializeMetaData)
my_cells_to_bit_str ops zc d1_encoder data_size_encoder my_cells =
    let n_cells = length my_cells in
    let size = 50 + n_cells + n_cells * 4 * 3 + n_cells * 256 in
    do
      (p, meta) ←
          push_all ops zc d1_encoder data_size_encoder n_cells my_cells
            (record { ptr = replicate size 0; offs = 0 }, [])
      some (take ((p.offs + 7) / 8) p.ptr, meta)

-- `seen` are the entries of seen_bits_for_cell.
unfoldable pub seen_bits : ℕ → List (ℕ × ℕ) → ℕ
seen_bits cell_id [] = 0
seen_bits cell_id ((id, n) ∷ seen) = if id == cell_id then n else seen_bits cell_id seen

-- The offsets are stored as uint16_t, and -1 is 65535.
unfoldable pub offsets_from : List (ℕ × ℕ) → List SerializeMetaData → List ℕ
offsets_from seen [] = []
offsets_from seen (m ∷ meta) =
    let n = seen_bits m.cell_id seen in
    let skipped = 65535 ∷ offsets_from seen meta in
    let counted = n % 65536 ∷ offsets_from ((m.cell_id, n + 1) ∷ seen) meta in
    if m.cell_id == none_u32 then skipped else counted

unfoldable pub build_offsets_within_cells : List SerializeMetaData → List ℕ
build_offsets_within_cells meta = offsets_from [] meta
