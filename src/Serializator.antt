-- ===== src/Serializator.antt =====
-- serializator.hpp: the container of cells as a string of bits, and its compression.
-- The constants of the namespace stand here, each part in a module of its own.
pub mod Examples
pub mod Numbers
pub mod Cell
pub mod Order
pub mod Layout
pub mod Lz
pub mod Decode
pub mod Rebuild
pub mod Pipeline
use mara_ton_contest_solutio.Common.{ℕ}

abbrev pub min_match_len : ℕ
min_match_len = 32

abbrev pub bits_for_n_cells : ℕ
bits_for_n_cells = 20

abbrev pub bits_to_dump_literal_len : ℕ
bits_to_dump_literal_len = 9

abbrev pub bits_to_dump_match_len : ℕ
bits_to_dump_match_len = 8

abbrev pub bits_for_within_cell_offset_curplus : ℕ
bits_for_within_cell_offset_curplus = 4

abbrev pub literal_len_th : ℕ
literal_len_th = 500

abbrev pub cell_id_offset_th : ℕ
cell_id_offset_th = 1000

abbrev pub match_len_th : ℕ
match_len_th = 300

abbrev pub offset_within_cell_th : ℕ
offset_within_cell_th = 1047
