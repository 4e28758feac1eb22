-- ===== src/Lib.antt =====
-- A bit-level compressor for TON cells (serializator.hpp, huffman.hpp, suff_aut.hpp, utils.h) and
-- the offline tools beside it (rANS.hpp, utils_local.hpp).
--
-- The program reads a tree of cells, orders the cells so that references point backwards, writes
-- their fields as one string of bits, replaces repeated stretches of it by references to earlier
-- ones (an LZ coder over a suffix automaton), and Huffman-codes the bytes of the result.
-- Decompression undoes each of these steps.
--
-- The files:
--   Common      tests on numbers, lists with default values, chains of Option.
--   Bits        td::BitPtr: byte strings, `write` for `store_uint` followed by `offs +=`, and `read`
--               for `get_uint` followed by `offs +=`. Bits.Stream has the lemmas on a pointer that
--               moves forward, Bits.Equal those on strings with the same bits, and Bits.Bytes is an
--               instance of the parameter that satisfies its laws.
--   Utils       utils.h: len_in_bits, len_in_bytes, push_bit_range, insert_bits_to_beginning and
--               bytes_str_to_bit_str. Utils.Counts is an instance of the counts of zero bits.
--   Huffman     huffman.hpp: the constructor of HuffmanEncoderDecoder as `new` (its set of nodes as
--               a list sorted by `cmp`), encode_symbol and decode_symbol; Huffman.Tables the tables
--               of frequencies that are written out, Huffman.Bytes encode_8 and decode_8, and
--               Huffman.Built the coder of match_len_freq.
--   SuffAut     suff_aut.hpp: the automaton (`add_c`), prepare_matches and get_match.
--   Serializator  serializator.hpp, with Numbers for dump_num and read_dumped_num, Cell for MyCell
--               and convert_to_my_cells, Order for initial_cell_order and apply_order, Layout for
--               my_cells_to_bit_str and build_offsets_within_cells, Lz for run_lz, Decode for
--               deserialise up to the list of cells (Decode.Meta for CellMeta and
--               predict_next_meta, Decode.Fields for advance_cells_read, Decode.Stream for
--               advance_lz_decoder), Rebuild for my_cells_to_vm_root, and Pipeline for serialize,
--               deserialise, compress and decompress. Layout and Decode.Fields meet in
--               Decode.Written, which says what the sections of the string of bits are,
--               Decode.Readers (a field), Decode.Cursor (a round of the reading loop),
--               Decode.Sections, Decode.AllSections and Decode.RoundTrip; Decode.Ordered and
--               Decode.Sorted put Order before them, as serialize does; Lz and Decode.Stream meet
--               in Decode.Capped. Order.Graphs says what the references between cells and an order
--               of the cells are, for Order and Rebuild.
--   Rans        rANS.hpp: normalize_freq, ArithEncoder and ArithDecoder.
--   LocalUtils  utils_local.hpp: pack_expanded_bits_to_bytes, cnt_occurrences (LocalUtils.ZFunction
--               and LocalUtils.Occurrences) and DSU (LocalUtils.Sets and LocalUtils.Unite).
--   Arrays      encode of encode_array.cpp and decode_vector of utils.h.
--
-- Numbers are natural numbers; a 32-bit sum that can wrap is `u32` of it and a 64-bit one `u64`. A
-- failed CHECK and an exception are `none`. A lambda that captures state takes it as an argument
-- and returns it. -1u is `none_u32`; where a function returns it for failure, the result is an
-- Option inside an Option. What C++ leaves undefined, such as a shift of a 32-bit number by 32, is
-- left out by the hypotheses. The cells that the stream can hold (`IsCell`) have no bits behind
-- cnt_bits in their bytes, so Merkle cells as convert_to_my_cells loads them are not among them.
--
-- Loops run on fuel. In the Huffman constructor the fuel is the number of nodes, of which a round
-- takes one away; in dump_num it is num + 1, for a round takes 1 at least; a loop that reads has
-- the number of bits of its input, for a round reads one at least; copy_chunks has the number of
-- bits to copy; raise_loop has 2^12, the sum that it aims at; read_fields has a round for each field
-- of each cell and one for the end; order_loop has a round for each cell, and the recursion of
-- top_sort a level for each cell and one more, as no cell is entered twice; get_comp has the number of
-- entries, which a way to a root is shorter than; find_symbol has the size of the table. The
-- recursion on the cells of the root has the depth of the tree as an argument.
--
-- Parameters stand for the TON library under include/, of which the repository has the headers
-- only: `BitOps` for get_uint and store_uint with `BitLaws`, `ZeroCounts` for the counts of leading
-- and trailing zeroes with `ZeroLaws`, `Vm` and `Builder` for cells, `Codec` for base64 and the
-- standard serialisation, and `TextCodec` for LZ4 and base64. The two tables that are decoded from
-- compressed text are parameters, too.
--
-- Not modelled: what is printed, timing, build_stats and the block under `if (false)` of serialize,
-- which never run, the dictionary (dictionary.hpp), the analyses and table builders (analyse.cpp,
-- analyse2.cpp, build_dict.cpp, build_huffman.cpp, build_rANS.cpp), main.cpp, the Python scripts and
-- the code examples.
pub mod Common
pub mod Bits
pub mod Utils
pub mod Huffman
pub mod Serializator
pub mod SuffAut
pub mod Rans
pub mod LocalUtils
pub mod Arrays
