-- ===== src/Serializator/Lz.antt =====
-- run_lz of serializator.hpp: literals and matches, a match as its length, the distance in cells
-- and the offset within the cell. The table offset_within_cell_freq is decoded from text by the TON
-- library: it is a parameter. The counts that are only printed are left out.
use mara_ton_contest_solutio.Common.{
  ℕ, zero, suc, ◌+◌, ◌-◌, ◌*◌, ◌/◌, ◌%◌, ◌^◌, min, max, not, ◌&&◌, Option, some, List, [], ◌∷◌, ltb,
  ◌==◌, if◌then◌else◌, ◌>>=◌, ◌>>◌, check, length, get_or, take, replicate, none_u32, u32,
}
use mara_ton_contest_solutio.Bits.{BitOps, BitPtr, write}
use mara_ton_contest_solutio.Utils.{ZeroCounts, len_in_bits}
use mara_ton_contest_solutio.Huffman.{HuffmanEncoderDecoder, new, encode_symbol}
use mara_ton_contest_solutio.Huffman.Tables.{
  literal_lengths_freq, match_len_freq, cell_id_offset_freq,
}
use mara_ton_contest_solutio.SuffAut.{Match, SuffAut, build, prepare_matches, get_match}
use mara_ton_contest_solutio.Serializator.{
  min_match_len, bits_for_n_cells, bits_to_dump_literal_len, bits_to_dump_match_len,
  bits_for_within_cell_offset_curplus, literal_len_th, cell_id_offset_th, match_len_th,
  offset_within_cell_th,
}
use mara_ton_contest_solutio.Serializator.Numbers.{dump_num}
use mara_ton_contest_solutio.Serializator.Layout.{
  field_none, SerializeMetaData, build_offsets_within_cells,
}

pub record LzCoders : Type 0 where
  pub literal_len : HuffmanEncoderDecoder
  pub match_len : HuffmanEncoderDecoder
  pub cell_id_offset : HuffmanEncoderDecoder
  pub offset_within_cell : HuffmanEncoderDecoder

unfoldable pub new_coders : List ℕ → Option LzCoders
new_coders offset_within_cell_freq = do
  literals ← new literal_lengths_freq
  lengths ← new match_len_freq
  cells ← new cell_id_offset_freq
  offsets ← new offset_within_cell_freq
  some (record {
    literal_len = literals;
    match_len = lengths;
    cell_id_offset = cells;
    offset_within_cell = offsets;
  })

abbrev pub no_meta : SerializeMetaData
no_meta = record { cell_id = none_u32; field_type = field_none }

-- meta[i].cell_id
abbrev pub cell_id_at : List SerializeMetaData → ℕ → ℕ
cell_id_at meta i = (get_or meta i no_meta).cell_id

-- n_cells = max(n_cells, m.cell_id + 1) over the notes.
unfoldable pub count_cells : List SerializeMetaData → ℕ → ℕ
count_cells [] n_cells = n_cells
count_cells (m ∷ meta) n_cells = count_cells meta (max n_cells (u32 (m.cell_id + 1)))

-- The longest match whose start has a cell, the first of these: its start and length.
unfoldable pub best_match : List SerializeMetaData → List Match → (best_s match_len : ℕ) → ℕ × ℕ
best_match meta [] best_s match_len = (best_s, match_len)
best_match meta (m ∷ matches) best_s match_len =
    let better = not (cell_id_at meta m.start == none_u32) && ltb match_len m.len in
    best_match meta matches (if better then m.start else best_s)
      (if better then m.len else match_len)

module _ (ops : BitOps) (zc : ZeroCounts) (coders : LzCoders) where
  -- A symbol below the threshold, or the threshold and the rest.
  unfoldable pub dump_capped : HuffmanEncoderDecoder → (th blen num : ℕ) → BitPtr → Option BitPtr
  dump_capped coder th blen num p = do
    (q, n) ← encode_symbol ops coder p (min th num)
    if min th num == th then dump_num ops q (num - th) blen else some q

  -- The bits start, start + 1, …; `n` are left.
  unfoldable pub dump_bits : List ℕ → (start n : ℕ) → BitPtr → BitPtr
  dump_bits bits start zero p = p
  dump_bits bits start (suc n) p =
      dump_bits bits (start + 1) n (write ops p (get_or bits start 0) 1)

  unfoldable pub dump_literal : List ℕ → (literal_len start : ℕ) → BitPtr → Option BitPtr
  dump_literal bits literal_len start p = do
    q ← dump_capped coders.literal_len literal_len_th bits_to_dump_literal_len literal_len p
    some (dump_bits bits start literal_len q)

  -- The distance from the current cell back to the cell of the match.
  unfoldable pub dump_cell_id_offset : (n_cells offset : ℕ) → BitPtr → Option BitPtr
  dump_cell_id_offset n_cells offset p =
      let blen = len_in_bits zc (u32 (n_cells - 1 + 2 ^ 32 - cell_id_offset_th)) in
      do
        (q, n) ← encode_symbol ops coders.cell_id_offset p (min offset cell_id_offset_th)
        some (
            if min offset cell_id_offset_th == cell_id_offset_th
            then write ops q (offset - cell_id_offset_th) blen
            else q)

  module _ (bits : List ℕ) (meta : List SerializeMetaData) (n_cells : ℕ) (within : List ℕ) where
    unfoldable pub dump_token : (last_literal_start i s match_len : ℕ) → BitPtr → Option BitPtr
    dump_token last_literal_start i s match_len p =
        let ref_cell_id = cell_id_at meta s in
        let cell_id_offset = u32 (n_cells + cell_id_at meta i + 2 ^ 32 - ref_cell_id) % n_cells in
        do
          p1 ← dump_literal bits (i - last_literal_start) last_literal_start p
          p2 ← dump_capped coders.match_len match_len_th bits_to_dump_match_len match_len p1
          check (not (ref_cell_id == none_u32))
          p3 ← dump_cell_id_offset n_cells cell_id_offset p2
          dump_capped coders.offset_within_cell offset_within_cell_th
              bits_for_within_cell_offset_curplus (get_or within s 0) p3

    -- for (i < n): a round moves on by a character at least, so n rounds suffice. The answer is
    -- the pointer and last_literal_start.
    unfoldable pub tokens : ℕ → SuffAut → (i last_literal_start : ℕ) → BitPtr → Option (BitPtr × ℕ)
    tokens zero sa i last_literal_start p = some (p, last_literal_start)
    tokens (suc fuel) sa i last_literal_start p =
        let searched =
          if not (cell_id_at meta i == none_u32) then get_match 2 sa i else some ([], sa) in
        let round = searched >>= λ got.
        (let (best_s, match_len) = best_match meta got.0 none_u32 0 in
          let skip = tokens fuel got.1 (i + 1) last_literal_start p in
          let take_match = dump_token last_literal_start i best_s match_len p >>= λ q.
          tokens fuel got.1 (i + match_len) (i + match_len) q in
          if not (best_s == none_u32) then take_match else skip) in
        if ltb i (length bits) then round else some (p, last_literal_start)

  unfoldable pub run_lz : List ℕ → List SerializeMetaData → Option (List ℕ)
  run_lz bits meta =
      let n = length bits in
      let n_cells = count_cells meta 0 in
      let within = build_offsets_within_cells meta in
      let start : BitPtr = record { ptr = replicate ((n / 8 + 1) * 4 / 3) 0; offs = 0 } in
      do
        a ← build 2 bits
        sa ← prepare_matches 2 a bits min_match_len
        (p, last_literal_start) ←
            tokens bits meta n_cells within n sa 0 0 (write ops start n_cells bits_for_n_cells)
        q ←
            (if ltb last_literal_start n
              then dump_literal bits (n - last_literal_start) last_literal_start p
              else some p)
        let marked = write ops q 1 1
        some (take ((marked.offs + 7) / 8) marked.ptr)
