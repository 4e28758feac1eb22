-- ===== src/Serializator/Pipeline.antt =====
-- serialize, compress and decompress of serializator.hpp. Base64 and the TON library's own
-- serialisation of cells are the parameter `Codec`.
use mara_ton_contest_solutio.Common.{
  ℕ, Bool, true, not, Option, some, List, ◌==◌, if◌then◌else◌, ◌>>=◌, ◌>>◌, check, length,
}
use mara_ton_contest_solutio.Bits.{BitOps}
use mara_ton_contest_solutio.Utils.{ZeroCounts, bytes_str_to_bit_str}
use mara_ton_contest_solutio.Huffman.{new}
use mara_ton_contest_solutio.Huffman.Tables.{d1_freq}
use mara_ton_contest_solutio.Huffman.Bytes.{encode_8, decode_8}
use mara_ton_contest_solutio.Serializator.Cell.{Vm, MyCell, convert_to_my_cells}
use mara_ton_contest_solutio.Serializator.Order.{initial_cell_order, apply_order}
use mara_ton_contest_solutio.Serializator.Layout.{my_cells_to_bit_str}
use mara_ton_contest_solutio.Serializator.Lz.{new_coders, run_lz}
use mara_ton_contest_solutio.Serializator.Decode.Stream.{deserialise_cells}
use mara_ton_contest_solutio.Serializator.Rebuild.{Builder, my_cells_to_vm_root}

-- td::base64_decode and base64_encode, vm::std_boc_deserialize and vm::std_boc_serialize(·, 31).
pub record Codec (In Out : Type 0) : Type 0 where
  pub base64_decode : List ℕ → Option (List ℕ)
  pub base64_encode : List ℕ → List ℕ
  pub boc_deserialize : List ℕ → Option In
  pub boc_serialize : Out → Option (List ℕ)

-- The two tables that huffman.hpp decodes from text.
pub record Tables : Type 0 where
  pub data_size_freq : List ℕ
  pub offset_within_cell_freq : List ℕ

module _ (ops : BitOps) (zc : ZeroCounts) (tables : Tables) where
  -- serialize after the cells are read: the block under `if (false)` is never run.
  unfoldable pub serialize_cells : List MyCell → Option (List ℕ)
  serialize_cells my_cells = do
    order ← initial_cell_order my_cells
    ordered ← apply_order my_cells order
    d1_encoder ← new d1_freq
    data_size_encoder ← new tables.data_size_freq
    (output, meta) ← my_cells_to_bit_str ops zc d1_encoder data_size_encoder ordered
    bits ← bytes_str_to_bit_str zc output true
    coders ← new_coders tables.offset_within_cell_freq
    run_lz ops zc coders bits meta

  unfoldable pub serialize : (vm : Vm) (depth : ℕ) → vm.Cell → Option (List ℕ)
  serialize vm depth root = do
    my_cells ← convert_to_my_cells ops vm depth root
    serialize_cells my_cells

  -- deserialise(lz_bytes)
  unfoldable pub deserialise : (b : Builder) → List ℕ → Option b.Cell
  deserialise b lz_bytes = do
    my_cells ←
        deserialise_cells ops zc tables.data_size_freq tables.offset_within_cell_freq lz_bytes
    my_cells_to_vm_root ops zc b my_cells

  module _ (vm : Vm) (b : Builder) (codec : Codec vm.Cell b.Cell) where
    -- compress(base64_data, return_before_huffman, return_after_serialize)
    unfoldable pub compress :
        (depth : ℕ)
        → List ℕ
        → (return_before_huffman return_after_serialize : Bool) → Option (List ℕ)
    compress depth base64_data return_before_huffman return_after_serialize = do
      check (not (length base64_data == 0))
      bytes ← codec.base64_decode base64_data
      root ← codec.boc_deserialize bytes
      packed ← serialize vm depth root
      let coded = encode_8 ops packed >>= λ out. some (codec.base64_encode out)
      if return_after_serialize
          then some packed
          else if return_before_huffman
          then some packed
          else coded

    unfoldable pub decompress : List ℕ → Option (List ℕ)
    decompress base64_data = do
      check (not (length base64_data == 0))
      bytes ← codec.base64_decode base64_data
      packed ← decode_8 ops bytes
      root ← deserialise b packed
      serialised_properly ← codec.boc_serialize root
      some (codec.base64_encode serialised_properly)
