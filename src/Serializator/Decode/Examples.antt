-- ===== src/Serializator/Decode/Examples.antt =====
-- Two cells written and read again.
use mara_ton_contest_solutio.Common.{
  length-append, replicate, ℕ, zero, suc, ◌+◌, ◌-◌, ◌/◌, ◌%◌, ◌≤◌, ◌<◌, ◌≡◌, refl, ap, true, false,
  some, List, [], ◌∷◌, length, get_or, arith,
}
use mara_ton_contest_solutio.Bits.{bit_at, BitPtr}
use mara_ton_contest_solutio.Bits.Equal.{shr-zero, bit_at-zeroes}
use mara_ton_contest_solutio.Bits.Bytes.{byte_ops, byte_laws}
use mara_ton_contest_solutio.Bits.Stream.{seek, Ahead, advance}
use mara_ton_contest_solutio.Utils.{bytes_str_to_bit_str}
use mara_ton_contest_solutio.Utils.Counts.{digit_counts, digit_laws}
use mara_ton_contest_solutio.Huffman.{HuffmanEncoderDecoder, new}
use mara_ton_contest_solutio.Huffman.Tables.{d1_freq}
use mara_ton_contest_solutio.Huffman.RoundTrip.{new-eq_some}
use mara_ton_contest_solutio.Serializator.Cell.{MyCell}
use mara_ton_contest_solutio.Serializator.Layout.{SerializeMetaData, my_cells_to_bit_str}
use mara_ton_contest_solutio.Serializator.{match_len_th}
use mara_ton_contest_solutio.Serializator.Numbers.RoundTrip.{num_bits}
use mara_ton_contest_solutio.Serializator.Lz.{LzCoders, dump_capped}
use mara_ton_contest_solutio.Serializator.Decode.Stream.{read_capped}
use mara_ton_contest_solutio.Serializator.Decode.Capped.{capped_bits, read_capped-dump_capped}
use mara_ton_contest_solutio.Huffman.Built.{match_len_coder, length-match_len_freq}
use mara_ton_contest_solutio.Huffman.Codes.{length-path_to}
use mara_ton_contest_solutio.Huffman.Walk.{code_bits}
use mara_ton_contest_solutio.Huffman.Tables.{match_len_freq}
use mara_ton_contest_solutio.Serializator.Decode.Fields.{State, advance_cells_read}
use mara_ton_contest_solutio.Serializator.Decode.Written.{AreCells, stream_bits}
use mara_ton_contest_solutio.Serializator.Decode.Sorted.{received, advance_cells_read-apply_order}
use mara_ton_contest_solutio.Serializator.Order.{initial_cell_order, apply_order}
use mara_ton_contest_solutio.Serializator.Order.Graphs.{cell_of}
use mara_ton_contest_solutio.Serializator.Order.Rounds.{IsAcyclic}
use mara_ton_contest_solutio.Serializator.Decode.RoundTrip.{
  my_cells_to_bit_str_lem, advance_cells_read-my_cells_to_bit_str,
}

abbrev sizes : List ℕ
sizes = 4 ∷ 1 ∷ 9 ∷ 1 ∷ 1 ∷ 1 ∷ 1 ∷ 1 ∷ 12 ∷ []

sizes_made : (c : HuffmanEncoderDecoder) × (new sizes ≡ some c)
sizes_made = let (c, made, _, _, _) = new-eq_some sizes 0 (omega arith) (omega arith) in (c, made)

d1_made : (c : HuffmanEncoderDecoder) × (new d1_freq ≡ some c)
unfolding d1_freq
d1_made = let (c, made, _, _, _) = new-eq_some d1_freq 0 (omega arith) (omega arith) in (c, made)

-- A special cell of eight bits that refers to an empty cell.
abbrev parent : MyCell
parent = record {
  cnt_refs = 1;
  refs = 1 ∷ 0 ∷ 0 ∷ 0 ∷ [];
  is_special = true;
  bytes = 181 ∷ [];
  cnt_bits = 8;
}

abbrev empty : MyCell
empty = record {
  cnt_refs = 0;
  refs = 0 ∷ 0 ∷ 0 ∷ 0 ∷ [];
  is_special = false;
  bytes = [];
  cnt_bits = 0;
}

abbrev two_cells : List MyCell
two_cells = parent ∷ empty ∷ []

byte_padded : (b j : ℕ) → 8 ≤ j → bit_at (b ∷ []) j ≡ 0
unfolding bit_at
byte_padded b j h = rw (behind (j / 8) (omega arith)) (ap (λ (x : ℕ). x % 2) (shr-zero (7 - j % 8)))
  where
    behind : (k : ℕ) → 0 < k → get_or (b ∷ []) k 0 ≡ 0
    behind zero h = absurd (omega arith)
    behind (suc k) h = refl

two_cells-AreCells : AreCells 2 (length sizes) 0 two_cells
two_cells-AreCells = (
  record {
    few = omega arith;
    slots = refl;
    listed = refl;
    valid = (((λ e. omega arith), omega arith), tt);
    sized = omega arith;
    enough = refl;
    all_bytes = (omega arith, tt);
    padded = byte_padded 181;
  },
  (
    record {
      few = omega arith;
      slots = refl;
      listed = refl;
      valid = tt;
      sized = omega arith;
      enough = refl;
      all_bytes = tt;
      padded = λ j h. bit_at-zeroes 0 j;
    },
    tt,
  ),
)

-- Their bits.
abbrev stream : List ℕ
stream = stream_bits digit_counts d1_made.0 sizes_made.0 2 two_cells

my_cells_to_bit_str_lem_example :
    (bytes : List ℕ) × (meta : List SerializeMetaData) × (my_cells_to_bit_str byte_ops digit_counts
        d1_made.0 sizes_made.0 two_cells
      ≡ some (bytes, meta))
    × (bytes_str_to_bit_str digit_counts bytes true ≡ some stream)
    × (length meta ≡ length stream)
    × Ahead (record { ptr = bytes; offs = 0 }) stream
    × (length bytes ≡ (length meta + 8) / 8)
my_cells_to_bit_str_lem_example =
    my_cells_to_bit_str_lem byte_ops byte_laws digit_counts digit_laws d1_made.0 sizes_made.0 sizes
      two_cells (omega arith) (omega arith) d1_made.1 sizes_made.1 (omega arith) two_cells-AreCells

-- The same, for the test below.
written :
    (bytes : List ℕ) × (meta : List SerializeMetaData) × (my_cells_to_bit_str byte_ops digit_counts
        d1_made.0 sizes_made.0 two_cells
      ≡ some (bytes, meta))
    × (bytes_str_to_bit_str digit_counts bytes true ≡ some stream)
    × Ahead (record { ptr = bytes; offs = 0 }) stream
written =
    let (bytes, meta, sent, unpack, _, ahead, _) =
      my_cells_to_bit_str_lem byte_ops byte_laws digit_counts digit_laws d1_made.0 sizes_made.0
        sizes two_cells (omega arith) (omega arith) d1_made.1 sizes_made.1 (omega arith)
        two_cells-AreCells in
    (bytes, meta, sent, unpack, ahead)

advance_cells_read-my_cells_to_bit_str_example :
    (t : State) × (advance_cells_read byte_ops digit_counts d1_made.0 sizes_made.0 2
        (received 2 written.0 (length stream))
      ≡ some t)
    × (t.my_cells ≡ two_cells)
    × (t.out_bits ≡ advance (record { ptr = written.0; offs = 0 }) (length stream))
advance_cells_read-my_cells_to_bit_str_example =
    advance_cells_read-my_cells_to_bit_str byte_ops byte_laws digit_counts digit_laws d1_made.0
      sizes_made.0 sizes two_cells written.0 stream written.1 (received 2 written.0 (length stream))
      (omega arith) (omega arith) d1_made.1 sizes_made.1 (omega arith) (omega arith)
      two_cells-AreCells written.2 written.3 refl refl written.4 (omega arith)

abbrev target : BitPtr
target = record { ptr = replicate 20 0; offs = 5 }

abbrev lz_coders : LzCoders
lz_coders = record {
  literal_len = match_len_coder.0;
  match_len = match_len_coder.0;
  cell_id_offset = match_len_coder.0;
  offset_within_cell = match_len_coder.0;
}

abbrev match_len_bits : List ℕ
match_len_bits = capped_bits match_len_coder.0 match_len_th 330 (num_bits 8 (330 - match_len_th))

-- A match of 330 bits is written as the threshold, 300, and 30 more.
match_len_room : length match_len_bits ≤ 72
match_len_room = omega (
  arith,
  length-append (code_bits match_len_coder.0 match_len_th) (num_bits 8 30),
  length-path_to match_len_th match_len_coder.0.root,
  match_len_coder.2.low,
)

read_capped-dump_capped_example :
    (q : BitPtr) × (dump_capped byte_ops digit_counts lz_coders match_len_coder.0 match_len_th 8 330
        target
      ≡ some q)
    × (read_capped byte_ops digit_counts d1_made.0 sizes_made.0 lz_coders 2 1000 match_len_coder.0
          match_len_th 8
          (seek q 5)
        ≡ some (330, q))
read_capped-dump_capped_example =
    read_capped-dump_capped byte_ops byte_laws match_len_coder.0 match_len_freq match_len_coder.2
      (omega (arith, length-match_len_freq)) match_len_th (omega (arith, length-match_len_freq))
      digit_counts lz_coders 8 (omega arith) (omega arith) d1_made.0 sizes_made.0 2 1000 330 target
      (omega arith) (omega (arith, length-match_len_freq)) (omega (arith, match_len_room))
      (omega arith)

two_cells-IsAcyclic : IsAcyclic two_cells
two_cells-IsAcyclic = record { height = λ i. 1 - i; falls = falls }
  where
    falls :
        (i k : ℕ)
        → i < 2
        → k < (cell_of two_cells i).cnt_refs
        → 1 - get_or (cell_of two_cells i).refs k 0 < 1 - i
    falls zero zero h few = omega arith
    falls zero (suc k) h few = absurd (omega arith)
    falls (suc zero) k h few = absurd (omega arith)
    falls (suc (suc i)) k h few = absurd (omega arith)

advance_cells_read-apply_order_example :
    (order : List ℕ) × (cells' : List MyCell) × (bytes bits : List ℕ) × (meta : List
      SerializeMetaData)
    × (t : State) × (initial_cell_order two_cells ≡ some order)
    × (apply_order two_cells order ≡ some cells')
    × (my_cells_to_bit_str byte_ops digit_counts d1_made.0 sizes_made.0 cells' ≡ some (bytes, meta))
    × (bytes_str_to_bit_str digit_counts bytes true ≡ some bits)
    × (length meta ≡ length bits)
    × (advance_cells_read byte_ops digit_counts d1_made.0 sizes_made.0 2
          (received 2 bytes (length bits))
        ≡ some t)
    × (t.my_cells ≡ cells')
advance_cells_read-apply_order_example =
    advance_cells_read-apply_order byte_ops byte_laws digit_counts digit_laws d1_made.0 sizes_made.0
      sizes two_cells (omega arith) (omega arith) d1_made.1 sizes_made.1 (omega arith) (omega arith)
      two_cells-AreCells two_cells-IsAcyclic
