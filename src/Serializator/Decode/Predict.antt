-- ===== src/Serializator/Decode/Predict.antt =====
-- predict_next_meta ends, and skips just the fields without bits.
use mara_ton_contest_solutio.Common.{
  ℕ, zero, suc, ◌+◌, ◌*◌, ◌^◌, ◌≤◌, ◌<◌, ◌≡◌, ◌≢◌, inl, inr, refl, sym, ap, ◌∙◌, true, false, some,
  List, ◌==◌, get_or, none_u32, Bool-cases, arith,
}
use mara_ton_contest_solutio.Serializator.Cell.{MyCell, blank_cell}
use mara_ton_contest_solutio.Serializator.Layout.{
  FieldType, field_none, d1_field, data_size_field, refs_field, data_field, SerializeMetaData,
}
use mara_ton_contest_solutio.Serializator.Decode.Meta.{
  next_meta_dummy, present, is_present, predict_loop, predict_next_meta,
}
use mara_ton_contest_solutio.Serializator.Decode.Places.{
  rank, InRange, HasBits, present-HasBits, has_bits, next_rank,
}

-- Fields in the same place are the same.
same_place :
    (n : ℕ) (cells : List MyCell) (f g : FieldType) (c d : ℕ)
    → InRange n f c
    → InRange n g d
    → 0 < n
    → rank n f c ≡ rank n g d
    → present f (get_or cells c blank_cell) ≡ present g (get_or cells d blank_cell)
same_place n cells field_none field_none c d hf hg pos e = refl
same_place n cells field_none d1_field c d hf hg pos e = absurd (omega arith)
same_place n cells field_none data_size_field c d hf hg pos e = absurd (omega arith)
same_place n cells field_none refs_field c d hf hg pos e = absurd (omega arith)
same_place n cells field_none data_field c d hf hg pos e = absurd (omega arith)
same_place n cells d1_field field_none c d hf hg pos e = absurd (omega arith)
same_place n cells d1_field d1_field c d hf hg pos e =
    ap (λ (x : ℕ). present d1_field (get_or cells x blank_cell)) {x = c} {y = d} (omega arith)
same_place n cells d1_field data_size_field c d hf hg pos e = absurd (omega arith)
same_place n cells d1_field refs_field c d hf hg pos e = absurd (omega arith)
same_place n cells d1_field data_field c d hf hg pos e = absurd (omega arith)
same_place n cells data_size_field field_none c d hf hg pos e = absurd (omega arith)
same_place n cells data_size_field d1_field c d hf hg pos e = absurd (omega arith)
same_place n cells data_size_field data_size_field c d hf hg pos e =
    ap (λ (x : ℕ). present data_size_field (get_or cells x blank_cell)) {x = c} {y = d}
      (omega arith)
same_place n cells data_size_field refs_field c d hf hg pos e = absurd (omega arith)
same_place n cells data_size_field data_field c d hf hg pos e = absurd (omega arith)
same_place n cells refs_field field_none c d hf hg pos e = absurd (omega arith)
same_place n cells refs_field d1_field c d hf hg pos e = absurd (omega arith)
same_place n cells refs_field data_size_field c d hf hg pos e = absurd (omega arith)
same_place n cells refs_field refs_field c d hf hg pos e =
    ap (λ (x : ℕ). present refs_field (get_or cells x blank_cell)) {x = c} {y = d} (omega arith)
same_place n cells refs_field data_field c d hf hg pos e = absurd (omega arith)
same_place n cells data_field field_none c d hf hg pos e = absurd (omega arith)
same_place n cells data_field d1_field c d hf hg pos e = absurd (omega arith)
same_place n cells data_field data_size_field c d hf hg pos e = absurd (omega arith)
same_place n cells data_field refs_field c d hf hg pos e = absurd (omega arith)
same_place n cells data_field data_field c d hf hg pos e =
    ap (λ (x : ℕ). present data_field (get_or cells x blank_cell)) {x = c} {y = d} (omega arith)

in_order :
    (n : ℕ) (cells : List MyCell) (f : FieldType) (c : ℕ)
    → InRange n f c
    → present f (get_or cells c blank_cell) ≡ false
    → rank n f c < 5 * n
in_order n cells field_none c h e = absurd cc
in_order n cells d1_field c h e = omega arith
in_order n cells data_size_field c h e = omega arith
in_order n cells refs_field c h e = omega arith
in_order n cells data_field c h e = omega arith

predict_loop_lem :
    (fuel n : ℕ) (cells : List MyCell) (m k : SerializeMetaData)
    → 0 < n
    → n ≤ 2 ^ 31
    → InRange n m.field_type m.cell_id
    → rank n m.field_type m.cell_id < 5 * n
    → 5 * n ≤ rank n m.field_type m.cell_id + fuel
    → InRange n k.field_type k.cell_id
    → is_present cells k ≡ true
    → rank n m.field_type m.cell_id < rank n k.field_type k.cell_id
    → (m' : SerializeMetaData) × (predict_loop fuel n cells m ≡ some m')
      × (is_present cells m' ≡ true)
      × InRange n m'.field_type m'.cell_id
      × (rank n m.field_type m.cell_id < rank n m'.field_type m'.cell_id)
      × (rank n m'.field_type m'.cell_id ≤ rank n k.field_type k.cell_id)
unfolding predict_loop is_present
predict_loop_lem zero n cells m k pos small own low enough other there later = absurd (omega arith)
predict_loop_lem (suc fuel) n cells m k pos small own low enough other there later =
    let next : SerializeMetaData = next_meta_dummy n m in
    let (e, here) = next_rank n m.field_type m.cell_id own low small in
    elim (Bool-cases (present next.field_type (get_or cells next.cell_id blank_cell))) [
      | inl found ↦ (next, rw found refl, found, here, omega arith, omega arith)
      | inr missing ↦
          let apart : rank n next.field_type next.cell_id ≢ rank n k.field_type k.cell_id = λ same.
            true_false (
              sym there
              ∙ sym (
                  same_place n cells next.field_type k.field_type next.cell_id k.cell_id here other
                    pos same)
              ∙ missing) in
          let (m', got, p, r, up, down) =
            predict_loop_lem fuel n cells next k pos small here
              (in_order n cells next.field_type next.cell_id here missing) (omega arith) other there
              (omega (arith, apart)) in
          (m', rw missing got, p, r, omega arith, down)
    ]
  where
    true_false : true ≢ false
    true_false h = cc

-- For 1 to 2^31 cells, a field of one of them and a later place k of the stream (in the order of all
-- d1, all data sizes, all references, all data bits, the end) that is not the references of a cell
-- without any, nor the data bits of a cell without any: predict_next_meta ends with a place that is
-- later than the field, is again no such place, and is not behind k.
pub predict_next_meta_lem :
    (n_cells : ℕ) (cells : List MyCell) (m k : SerializeMetaData)
    → 0 < n_cells
    → n_cells ≤ 2 ^ 31
    → m.cell_id < n_cells
    → m.field_type ≢ field_none
    → InRange n_cells k.field_type k.cell_id
    → HasBits k.field_type (get_or cells k.cell_id blank_cell)
    → rank n_cells m.field_type m.cell_id < rank n_cells k.field_type k.cell_id
    → (m' : SerializeMetaData) × (predict_next_meta n_cells cells m ≡ some m')
      × HasBits m'.field_type (get_or cells m'.cell_id blank_cell)
      × InRange n_cells m'.field_type m'.cell_id
      × (rank n_cells m.field_type m.cell_id < rank n_cells m'.field_type m'.cell_id)
      × (rank n_cells m'.field_type m'.cell_id ≤ rank n_cells k.field_type k.cell_id)
unfolding predict_next_meta is_present
predict_next_meta_lem n_cells cells m k pos small own field other there later =
    let (own', low, high) = bounds m.field_type own field in
    let (m', got, p, r, up, down) =
      predict_loop_lem (4 * n_cells + 1) n_cells cells m k pos small own' low (omega arith) other
        (present-HasBits k.field_type (get_or cells k.cell_id blank_cell) there) later in
    (
      m',
      rw (started m.cell_id (omega arith)) got,
      has_bits m'.field_type (get_or cells m'.cell_id blank_cell) p,
      r,
      up,
      down,
    )
  where
    started : (c : ℕ) → c < 2 ^ 31 → (c == none_u32) ≡ false
    started c h = ground arith

    bounds :
        (f : FieldType)
        → m.cell_id < n_cells
        → f ≢ field_none
        → InRange n_cells f m.cell_id
          × (rank n_cells f m.cell_id < 5 * n_cells)
          × (n_cells ≤ rank n_cells f m.cell_id)
    bounds field_none own h = absurd (h refl)
    bounds d1_field own h = (own, omega arith, omega arith)
    bounds data_size_field own h = (own, omega arith, omega arith)
    bounds refs_field own h = (own, omega arith, omega arith)
    bounds data_field own h = (own, omega arith, omega arith)
