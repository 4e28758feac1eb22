-- ===== src/Serializator/Decode/Fields.antt =====
-- Reading the fields of cells from the output of the decoder: try_read_d1, try_read_data_size,
-- try_read_refs, try_read_data and advance_cells_read.
use mara_ton_contest_solutio.Common.{
  ℕ, zero, suc, ◌+◌, ◌-◌, ◌*◌, ◌/◌, ◌%◌, ◌^◌, Bool, true, false, not, Option, none, some, List, [],
  ◌∷◌, ltb, leb, ◌==◌, if◌then◌else◌, ◌>>=◌, ◌>>◌, check, get_or, set, u32,
}
use mara_ton_contest_solutio.Bits.{shr, BitOps, BitPtr, write, read}
use mara_ton_contest_solutio.Utils.{ZeroCounts, len_in_bits}
use mara_ton_contest_solutio.Huffman.{HuffmanEncoderDecoder, decode_symbol}
use mara_ton_contest_solutio.Serializator.Cell.{MyCell, blank_cell, resize}
use mara_ton_contest_solutio.Serializator.Layout.{
  FieldType, field_none, d1_field, data_size_field, refs_field, data_field, SerializeMetaData,
}
use mara_ton_contest_solutio.Serializator.Decode.Meta.{
  CellMeta, blank_meta, set_span, predict_next_meta,
}

-- What the lambdas of deserialise share: out_bits, out_bits_write_ptr, my_cells, cell_metas and
-- last_read_meta.
pub record State : Type 0 where
  pub out_bits : BitPtr
  pub write_ptr : ℕ
  pub my_cells : List MyCell
  pub cell_metas : List CellMeta
  pub last_read_meta : SerializeMetaData

abbrev pub cell_at : State → ℕ → MyCell
cell_at s i = get_or s.my_cells i blank_cell

abbrev pub set_cell : State → ℕ → MyCell → BitPtr → State
set_cell s i c p = record s { out_bits = p; my_cells = set s.my_cells i c }

abbrev pub is_end : FieldType → Bool
is_end field_none = true
is_end _ = false

module _ (ops : BitOps) (zc : ZeroCounts) (d1_decoder data_size_decoder : HuffmanEncoderDecoder)
    (n_cells : ℕ) where
  -- `some none` is the answer false, with nothing changed.
  unfoldable pub try_read_d1 : State → ℕ → Option (Option State)
  try_read_d1 s i = do
    (symbol, p) ← decode_symbol ops d1_decoder s.out_bits s.write_ptr
    elim symbol [
      | none ↦ some none
      | some d1 ↦
          check (leb (d1 % 8) 4)
          >> some (
              some (
                set_cell s i
                  (record (cell_at s i) { cnt_refs = d1 % 8; is_special = not (shr d1 3 % 2 == 0) })
                  p))
    ]

  unfoldable pub try_read_data_size : State → ℕ → Option (Option State)
  try_read_data_size s i = do
    (symbol, p) ← decode_symbol ops data_size_decoder s.out_bits s.write_ptr
    elim symbol [
      | none ↦ some none
      | some n ↦ some (some (set_cell s i (record (cell_at s i) { cnt_bits = n }) p))
    ]

  -- The loop over the references j, j + 1, …; `left` are left. `none` is `fail`.
  unfoldable pub read_refs :
      (left j i : ℕ) → (write_ptr : ℕ) → BitPtr → List ℕ → Option (List ℕ × BitPtr)
  read_refs zero j i write_ptr p refs = some (refs, p)
  read_refs (suc left) j i write_ptr p refs =
      let bit_len = len_in_bits zc (n_cells - 1) in
      let (stored, q) = read ops p bit_len in
      let ref_id = u32 (n_cells + i + 2 ^ 32 - (stored + 1)) % n_cells in
      let rest = read_refs left (j + 1) i write_ptr q (set refs j ref_id) in
      if ltb write_ptr (p.offs + bit_len) then none else rest

  unfoldable pub try_read_refs : State → ℕ → Option (Option State)
  try_read_refs s i =
      let got = read_refs (cell_at s i).cnt_refs 0 i s.write_ptr s.out_bits (0 ∷ 0 ∷ 0 ∷ 0 ∷ []) in
      check (ltb 0 (cell_at s i).cnt_refs) >> elim got [
        | none ↦ some none
        | some (refs, p) ↦ some (some (set_cell s i (record (cell_at s i) { refs = refs }) p))
      ]

  -- The bits of a cell, one by one; `n` are left.
  unfoldable pub move_bits : (n : ℕ) → (from to : BitPtr) → BitPtr × BitPtr
  move_bits zero from to = (from, to)
  move_bits (suc n) from to =
      let (bit, from') = read ops from 1 in move_bits n from' (write ops to bit 1)

  unfoldable pub try_read_data : State → ℕ → Option (Option State)
  try_read_data s i =
      let cnt_bits = (cell_at s i).cnt_bits in
      let room = resize ((cnt_bits + 7) / 8) (cell_at s i).bytes in
      let (p, filled) = move_bits cnt_bits s.out_bits (record { ptr = room; offs = 0 }) in
      check (ltb 0 cnt_bits)
      >> (if ltb s.write_ptr (s.out_bits.offs + cnt_bits)
          then some none
          else some (some (set_cell s i (record (cell_at s i) { bytes = filled.ptr }) p)))

  -- The branches of the first loop of advance_cells_read.
  unfoldable pub try_read : FieldType → State → ℕ → Option (Option State)
  try_read field_none s i = none
  try_read d1_field s i = try_read_d1 s i
  try_read data_size_field s i = try_read_data_size s i
  try_read refs_field s i = try_read_refs s i
  try_read data_field s i = try_read_data s i

  -- cell_metas[m.cell_id].x_start = start; cell_metas[m.cell_id].x_cnt = count;
  unfoldable pub note_span : SerializeMetaData → (start count : ℕ) → State → Option State
  note_span m start count s = do
    meta ←
        set_span m.field_type (record { start = start; count = count })
          (get_or s.cell_metas m.cell_id blank_meta)
    some (record s { cell_metas = set s.cell_metas m.cell_id meta })

  -- while (true): a round reads a field, and there are four of each cell.
  unfoldable pub read_fields : ℕ → State → Option State
  read_fields zero s = none
  read_fields (suc fuel) s = do
    m ← predict_next_meta n_cells s.my_cells s.last_read_meta
    let initial_offs = s.out_bits.offs
    let round = do
      tried ← try_read m.field_type s m.cell_id
      elim tried [
        | none ↦ some s
        | some t ↦ note_span m initial_offs (t.out_bits.offs - initial_offs) t >>= λ u.
            read_fields fuel (record u { last_read_meta = m })
      ]
    if is_end m.field_type then some s else round

  unfoldable pub advance_cells_read : State → Option State
  advance_cells_read s = do
    t ← read_fields (4 * n_cells + 1) s
    let unread = do
      m ← predict_next_meta n_cells t.my_cells t.last_read_meta
      note_span m t.out_bits.offs (t.write_ptr - t.out_bits.offs) t
    if ltb t.out_bits.offs t.write_ptr then unread else some t
