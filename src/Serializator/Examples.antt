-- ===== src/Serializator/Examples.antt =====
-- The serializer's routines on small inputs.
use mara_ton_contest_solutio.Common.{
  ℕ, ◌+◌, ◌-◌, ◌*◌, ◌/◌, ◌≤◌, ◌<◌, ◌≡◌, refl, false, none, some, List, [], ◌∷◌, length, get_or,
  none_u32, arith,
}
use mara_ton_contest_solutio.Bits.{BitPtr, bits_at}
use mara_ton_contest_solutio.Bits.Stream.{seek}
use mara_ton_contest_solutio.Bits.Bytes.{byte_ops, byte_laws}
use mara_ton_contest_solutio.Utils.{len_in_bits}
use mara_ton_contest_solutio.Utils.Counts.{width, digit_counts, digit_laws}
use mara_ton_contest_solutio.Huffman.{HuffmanEncoderDecoder, leaf, new}
use mara_ton_contest_solutio.Huffman.Walk.{code_bits, code_bits-pos, new-IsCoderOf}
use mara_ton_contest_solutio.Serializator.Numbers.{mx, dump_num, read_dumped_num}
use mara_ton_contest_solutio.Serializator.Numbers.RoundTrip.{read_dumped_num-dump_num}
use mara_ton_contest_solutio.Serializator.Cell.{MyCell, blank_cell}
use mara_ton_contest_solutio.Serializator.Layout.{
  push_d1, push_data_size, field_none, data_size_field, refs_field, SerializeMetaData, push_refs,
  push_data,
}
use mara_ton_contest_solutio.Serializator.Decode.Meta.{blank_meta, predict_next_meta}
use mara_ton_contest_solutio.Serializator.Decode.Fields.{
  try_read_d1, try_read_data_size, State, cell_at, set_cell, try_read_refs, try_read_data,
}
use mara_ton_contest_solutio.Serializator.Decode.Refs.{try_read_refs-push_refs}
use mara_ton_contest_solutio.Serializator.Decode.Content.{try_read_data-push_data}
use mara_ton_contest_solutio.Serializator.Decode.Symbols.{
  try_read_d1-push_d1, try_read_data_size-push_data_size,
}
use mara_ton_contest_solutio.Huffman.Tables.{d1_freq}
use mara_ton_contest_solutio.Huffman.RoundTrip.{new-eq_some}
use mara_ton_contest_solutio.Serializator.Decode.Places.{HasBits, InRange, rank}
use mara_ton_contest_solutio.Serializator.Decode.Predict.{predict_next_meta_lem}

abbrev target : BitPtr
target = record { ptr = 128 ∷ 0 ∷ 0 ∷ []; offs = 5 }

read_dumped_num-dump_num_example :
    (q : BitPtr) × (dump_num byte_ops target 16 3 ≡ some q)
    × (q.offs ≡ 5 + 3 * (16 / mx 3 + 1))
    × (read_dumped_num byte_ops (seek q 5) 3 ≡ some (16, q))
read_dumped_num-dump_num_example =
    read_dumped_num-dump_num byte_ops byte_laws 3 (omega arith) (omega arith) target 16
      (omega arith) (omega arith)

abbrev coder : HuffmanEncoderDecoder
coder = record { codes = []; root = leaf 0 0 }

abbrev with_refs : List ℕ → MyCell
with_refs refs = record { cnt_refs = 2; refs = refs; is_special = false; bytes = []; cnt_bits = 0 }

abbrev output : BitPtr
output = record { ptr = 0 ∷ 0 ∷ []; offs = 5 }

-- Three cells; the first has two references and no bits.
abbrev reading : State
reading = record {
  out_bits = output;
  write_ptr = 5;
  my_cells = with_refs (0 ∷ 0 ∷ 0 ∷ 0 ∷ []) ∷ blank_cell ∷ blank_cell ∷ [];
  cell_metas = blank_meta ∷ blank_meta ∷ blank_meta ∷ [];
  last_read_meta = record { cell_id = none_u32; field_type = field_none };
}

two_bits : len_in_bits digit_counts (3 - 1) ≡ 2
unfolding len_in_bits width
two_bits = refl

try_read_refs-push_refs_example :
    (q : BitPtr) × (meta' : List SerializeMetaData) × (push_refs byte_ops digit_counts coder coder 3
        0
        (with_refs (2 ∷ 1 ∷ 0 ∷ 0 ∷ []))
        (output, [])
      ≡ some (q, meta'))
    × (try_read_refs byte_ops digit_counts coder coder 3
          (record reading { out_bits = seek q 5; write_ptr = q.offs })
          0
        ≡ some (
            some (
              set_cell
                (record reading { out_bits = seek q 5; write_ptr = q.offs })
                0
                (record (cell_at reading 0) { refs = 2 ∷ 1 ∷ 0 ∷ 0 ∷ [] })
                q)))
try_read_refs-push_refs_example =
    try_read_refs-push_refs byte_ops byte_laws digit_counts digit_laws 3 0 (omega arith)
      (omega arith) coder coder (with_refs (2 ∷ 1 ∷ 0 ∷ 0 ∷ [])) (2 ∷ 1 ∷ []) output [] reading
      (omega arith) (omega arith)
      (((λ e. omega arith), omega arith), (((λ e. omega arith), omega arith), tt)) refl refl refl
      (omega (arith, two_bits))

-- Behind the data sizes come the references of the first cell.
predict_next_meta_lem_example :
    (m' : SerializeMetaData) × (predict_next_meta 3 reading.my_cells
        (record { cell_id = 2; field_type = data_size_field })
      ≡ some m')
    × HasBits m'.field_type (get_or reading.my_cells m'.cell_id blank_cell)
    × InRange 3 m'.field_type m'.cell_id
    × (rank 3 data_size_field 2 < rank 3 m'.field_type m'.cell_id)
    × (rank 3 m'.field_type m'.cell_id ≤ rank 3 refs_field 0)
predict_next_meta_lem_example =
    predict_next_meta_lem 3 reading.my_cells (record { cell_id = 2; field_type = data_size_field })
      (record { cell_id = 0; field_type = refs_field }) (omega arith) (omega arith) (omega arith)
      (λ e. absurd cc) (omega arith) (omega arith) (omega arith)

abbrev with_bits : List ℕ → MyCell
with_bits bytes = record {
  cnt_refs = 0;
  refs = 0 ∷ 0 ∷ 0 ∷ 0 ∷ [];
  is_special = false;
  bytes = bytes;
  cnt_bits = 9;
}

abbrev filling : State
filling = record reading { my_cells = with_bits [] ∷ [] }

try_read_data-push_data_example :
    (q : BitPtr) × (meta' : List SerializeMetaData) × (bytes' : List ℕ) × (push_data byte_ops
        digit_counts coder coder 1 0
        (with_bits (181 ∷ 128 ∷ []))
        (output, [])
      ≡ some (q, meta'))
    × (try_read_data byte_ops digit_counts coder coder 1
          (record filling { out_bits = seek q 5; write_ptr = q.offs })
          0
        ≡ some (
            some (
              set_cell
                (record filling { out_bits = seek q 5; write_ptr = q.offs })
                0
                (record (cell_at filling 0) { bytes = bytes' })
                q)))
    × (length bytes' ≡ (9 + 7) / 8)
    × (bits_at bytes' 0 9 ≡ bits_at (181 ∷ 128 ∷ []) 0 9)
try_read_data-push_data_example =
    try_read_data-push_data byte_ops byte_laws digit_counts coder coder 1 0
      (with_bits (181 ∷ 128 ∷ [])) output [] filling (omega arith) (omega arith) refl refl
      (omega arith)

d1_made : (c : HuffmanEncoderDecoder) × (new d1_freq ≡ some c)
unfolding d1_freq
d1_made = let (c, made, _, _, _) = new-eq_some d1_freq 0 (omega arith) (omega arith) in (c, made)

abbrev wide : BitPtr
wide = record { ptr = 0 ∷ 0 ∷ 0 ∷ 0 ∷ 0 ∷ 0 ∷ 0 ∷ 0 ∷ 0 ∷ []; offs = 5 }

try_read_d1-push_d1_example :
    (q : BitPtr) × (meta' : List SerializeMetaData) × (push_d1 byte_ops digit_counts d1_made.0 coder
        3 0
        (with_refs [])
        (wide, [])
      ≡ some (q, meta'))
    × (try_read_d1 byte_ops digit_counts d1_made.0 coder 3
          (record reading { out_bits = seek q 5; write_ptr = q.offs })
          0
        ≡ some (
            some (
              set_cell
                (record reading { out_bits = seek q 5; write_ptr = q.offs })
                0
                (record (cell_at reading 0) { cnt_refs = 2; is_special = false })
                q)))
try_read_d1-push_d1_example =
    try_read_d1-push_d1 byte_ops byte_laws digit_counts d1_made.0 coder 3 0 (with_refs []) wide []
      reading d1_made.1 (omega arith) (omega arith)

abbrev sizes : List ℕ
sizes = 4 ∷ 1 ∷ 9 ∷ []

sizes_made : (c : HuffmanEncoderDecoder) × (new sizes ≡ some c)
sizes_made = let (c, made, _, _, _) = new-eq_some sizes 0 (omega arith) (omega arith) in (c, made)

try_read_data_size-push_data_size_example :
    (q : BitPtr) × (meta' : List SerializeMetaData) × (push_data_size byte_ops digit_counts coder
        sizes_made.0 3 0
        (with_refs [])
        (wide, [])
      ≡ some (q, meta'))
    × (try_read_data_size byte_ops digit_counts coder sizes_made.0 3
          (record reading { out_bits = seek q 5; write_ptr = q.offs })
          0
        ≡ some (
            some (
              set_cell
                (record reading { out_bits = seek q 5; write_ptr = q.offs })
                0
                (record (cell_at reading 0) { cnt_bits = 0 })
                q)))
    × (q.offs ≡ wide.offs + length (code_bits sizes_made.0 0))
    × (try_read_data_size byte_ops digit_counts coder sizes_made.0 3
          (record reading { out_bits = seek q 5; write_ptr = 5 })
          0
        ≡ some none)
try_read_data_size-push_data_size_example =
    try_read_data_size-push_data_size byte_ops byte_laws digit_counts coder sizes_made.0 3 sizes 0
      (with_refs []) wide [] reading 0 (omega arith) (omega arith) sizes_made.1 (omega arith)
      (omega arith)
      (code_bits-pos sizes sizes_made.0 0
        (new-IsCoderOf sizes (omega arith) (omega arith) sizes_made.1) (omega arith))
