-- ===== src/Serializator/Decode/Meta.antt =====
-- struct CellMeta, and the order in which the decoder meets the fields of the cells.
use mara_ton_contest_solutio.Common.{
  ℕ, zero, suc, ◌+◌, ◌-◌, ◌*◌, Bool, true, Option, none, some, List, ltb, ◌==◌, if◌then◌else◌, ◌>>◌,
  check, get_or, none_u32, u32,
}
use mara_ton_contest_solutio.Serializator.Cell.{MyCell, blank_cell}
use mara_ton_contest_solutio.Serializator.Layout.{
  FieldType, field_none, d1_field, data_size_field, refs_field, data_field, SerializeMetaData,
}

-- The members x_start and x_cnt are `start` and `count` of the span x.
pub record Span : Type 0 where
  pub start : ℕ
  pub count : ℕ

pub record CellMeta : Type 0 where
  pub d1 : Span
  pub data_size : Span
  pub refs : Span
  pub bits : Span

abbrev pub no_span : Span
no_span = record { start = none_u32; count = 0 }

abbrev pub blank_meta : CellMeta
blank_meta = record { d1 = no_span; data_size = no_span; refs = no_span; bits = no_span }

unfoldable pub get_pos : CellMeta → ℕ → Option ℕ
get_pos m offset =
    let offset1 = offset - m.d1.count in
    let offset2 = offset1 - m.data_size.count in
    let offset3 = offset2 - m.refs.count in
    if ltb offset m.d1.count
    then some (m.d1.start + offset)
    else if ltb offset1 m.data_size.count
    then some (m.data_size.start + offset1)
    else if ltb offset2 m.refs.count
    then some (m.refs.start + offset2)
    else check (ltb offset3 m.bits.count) >> some (m.bits.start + offset3)

-- The span of a field; `field_none` has none.
unfoldable pub set_span : FieldType → Span → CellMeta → Option CellMeta
set_span field_none s m = none
set_span d1_field s m = some (record m { d1 = s })
set_span data_size_field s m = some (record m { data_size = s })
set_span refs_field s m = some (record m { refs = s })
set_span data_field s m = some (record m { bits = s })

-- static_cast<FieldType>(fid + 1)
abbrev pub next_field : FieldType → FieldType
next_field field_none = d1_field
next_field d1_field = data_size_field
next_field data_size_field = refs_field
next_field refs_field = data_field
next_field data_field = field_none

-- The cell that the next field starts with.
abbrev pub wrapped : FieldType → ℕ
wrapped data_field = none_u32
wrapped _ = 0

unfoldable pub next_meta_dummy : (n_cells : ℕ) → SerializeMetaData → SerializeMetaData
next_meta_dummy n_cells m =
    if ltb (u32 (m.cell_id + 1)) n_cells
    then record { cell_id = u32 (m.cell_id + 1); field_type = m.field_type }
    else record { cell_id = wrapped m.field_type; field_type = next_field m.field_type }

abbrev pub present : FieldType → MyCell → Bool
present field_none c = true
present d1_field c = true
present data_size_field c = true
present refs_field c = ltb 0 c.cnt_refs
present data_field c = ltb 0 c.cnt_bits

-- Whether the cell has bits of the field: `return m` in the loop of predict_next_meta.
unfoldable pub is_present : List MyCell → SerializeMetaData → Bool
is_present my_cells m = present m.field_type (get_or my_cells m.cell_id blank_cell)

-- while (true): after the data of the last cell comes `none`, so a round for each cell and field
-- suffices.
unfoldable pub predict_loop :
    ℕ → (n_cells : ℕ) → List MyCell → SerializeMetaData → Option SerializeMetaData
predict_loop zero n_cells my_cells m = none
predict_loop (suc fuel) n_cells my_cells m =
    let next = next_meta_dummy n_cells m in
    let rest = predict_loop fuel n_cells my_cells next in
    if is_present my_cells next then some next else rest

unfoldable pub predict_next_meta :
    (n_cells : ℕ) → List MyCell → SerializeMetaData → Option SerializeMetaData
predict_next_meta n_cells my_cells m =
    let walked = predict_loop (4 * n_cells + 1) n_cells my_cells m in
    if m.cell_id == none_u32 then some (record { cell_id = 0; field_type = d1_field }) else walked
