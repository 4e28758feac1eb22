-- ===== src/Serializator/Decode/Cursor.antt =====
-- The place that predict_next_meta looks at next, and a round of the loop of advance_cells_read.
use mara_ton_contest_solutio.Common.{
  ℕ, zero, suc, ◌+◌, ◌-◌, ◌*◌, ◌^◌, ◌≤◌, ◌<◌, ◌≡◌, refl, ap, ◌∙◌, false, Option, some, List, ◌==◌,
  lt→ltb, le→ltb, none_u32, u32, if◌then◌else◌, arith,
}
use mara_ton_contest_solutio.Bits.{BitOps}
use mara_ton_contest_solutio.Utils.{ZeroCounts}
use mara_ton_contest_solutio.Huffman.{HuffmanEncoderDecoder}
use mara_ton_contest_solutio.Serializator.Cell.{MyCell}
use mara_ton_contest_solutio.Serializator.Layout.{
  FieldType, field_none, d1_field, data_size_field, refs_field, data_field, SerializeMetaData,
}
use mara_ton_contest_solutio.Serializator.Decode.Meta.{
  CellMeta, set_span, wrapped, next_field, next_meta_dummy, is_present, predict_loop,
  predict_next_meta,
}
use mara_ton_contest_solutio.Serializator.Decode.Fields.{
  State, is_end, note_span, try_read, read_fields,
}
use mara_ton_contest_solutio.Serializator.Decode.Places.{rank}

-- A field of a cell.
abbrev pub place : FieldType → ℕ → SerializeMetaData
place f i = record { cell_id = i; field_type = f }

-- The search from a place on, the place itself included.
abbrev pub look : (fuel n : ℕ) → List MyCell → SerializeMetaData → Option SerializeMetaData
look fuel n cells m =
    let rest = predict_loop fuel n cells m in if is_present cells m then some m else rest

predict_loop-look :
    (fuel n : ℕ) (cells : List MyCell) (m : SerializeMetaData)
    → predict_loop (suc fuel) n cells m ≡ look fuel n cells (next_meta_dummy n m)
unfolding predict_loop
predict_loop-look fuel n cells m = refl

pub next-inside :
    (n i : ℕ) (f : FieldType)
    → i + 1 < n
    → n < 2 ^ 31
    → next_meta_dummy n (place f i) ≡ place f (i + 1)
unfolding next_meta_dummy
next-inside n i f inside small =
    let e : u32 (i + 1) ≡ i + 1 = omega arith in rw (e, lt→ltb (i + 1) n inside) refl

pub next-last :
    (n i : ℕ) (f : FieldType)
    → i + 1 ≡ n
    → n < 2 ^ 31
    → next_meta_dummy n (place f i) ≡ place (next_field f) (wrapped f)
unfolding next_meta_dummy
next-last n i f last small =
    let e : u32 (i + 1) ≡ i + 1 = omega arith in rw (e, le→ltb (i + 1) n (omega arith)) refl

-- The next place to look at is m, and there is fuel to get to the end.
pub record Looks (n : ℕ) (s : State) (m : SerializeMetaData) : Type 0 where
  pub fuel : ℕ
  pub found : predict_next_meta n s.my_cells s.last_read_meta ≡ look fuel n s.my_cells m
  pub enough : 5 * n ≤ rank n m.field_type m.cell_id + fuel

-- A place without bits is passed.
pub Looks-absent :
    (n : ℕ) (s : State) (m : SerializeMetaData)
    → Looks n s m
    → is_present s.my_cells m ≡ false
    → rank n m.field_type m.cell_id < 5 * n
    → rank n (next_meta_dummy n m).field_type (next_meta_dummy n m).cell_id
      ≡ rank n m.field_type m.cell_id + 1
    → Looks n s (next_meta_dummy n m)
Looks-absent n s m l missing low next = go l.fuel l.found l.enough
  where
    go :
        (fuel : ℕ)
        → predict_next_meta n s.my_cells s.last_read_meta ≡ look fuel n s.my_cells m
        → 5 * n ≤ rank n m.field_type m.cell_id + fuel
        → Looks n s (next_meta_dummy n m)
    go zero e enough = absurd (omega arith)
    go (suc fuel) e enough = record {
      fuel = fuel;
      found = e ∙ rw missing (predict_loop-look fuel n s.my_cells m);
      enough = omega arith;
    }

-- Behind the place that was read last comes the next one.
pub Looks-read :
    (n i : ℕ) (f : FieldType) (s : State)
    → i < n
    → n < 2 ^ 31
    → s.last_read_meta ≡ place f i
    → n + 1
      ≤ rank n (next_meta_dummy n (place f i)).field_type (next_meta_dummy n (place f i)).cell_id
    → Looks n s (next_meta_dummy n (place f i))
unfolding predict_next_meta
Looks-read n i f s here small last later =
    let started : (i == none_u32) ≡ false = ground arith in
    record {
      fuel = 4 * n;
      found = rw (last, started, e (4 * n + 1) (omega arith)) refl;
      enough = omega arith;
    }
  where
    e :
        (k : ℕ)
        → k ≡ suc (4 * n)
        → predict_loop k n s.my_cells (place f i)
          ≡ look (4 * n) n s.my_cells (next_meta_dummy n (place f i))
    e k same =
        ap (λ (k : ℕ). predict_loop k n s.my_cells (place f i)) same
        ∙ predict_loop-look (4 * n) n s.my_cells (place f i)

module _ (ops : BitOps) (zc : ZeroCounts) (d1_coder data_size_coder : HuffmanEncoderDecoder)
    (n_cells : ℕ) where
  -- note_span only touches cell_metas.
  pub note_span-some :
      (f : FieldType) (i start count : ℕ) (s : State)
      → is_end f ≡ false
      → (metas : List CellMeta) × (note_span ops zc d1_coder data_size_coder n_cells
            (place f i)
            start
            count
            s
          ≡ some (record s { cell_metas = metas }))
  unfolding note_span set_span
  note_span-some field_none i start count s h = absurd (cc)
  note_span-some d1_field i start count s h = (_, refl)
  note_span-some data_size_field i start count s h = (_, refl)
  note_span-some refs_field i start count s h = (_, refl)
  note_span-some data_field i start count s h = (_, refl)

  -- k rounds lead from s to t.
  abbrev pub Rounds : (k : ℕ) → (s t : State) → Type 0
  Rounds k s t =
      (before after : ℕ)
      → before ≡ k + after
      → read_fields ops zc d1_coder data_size_coder n_cells before s
        ≡ read_fields ops zc d1_coder data_size_coder n_cells after t

  -- A round reads the field that predict_next_meta finds.
  pub read_fields-Rounds :
      (f : FieldType) (i : ℕ) (s t : State)
      → is_end f ≡ false
      → predict_next_meta n_cells s.my_cells s.last_read_meta ≡ some (place f i)
      → try_read ops zc d1_coder data_size_coder n_cells f s i ≡ some (some t)
      → (metas : List CellMeta) × Rounds 1 s
          (record t { cell_metas = metas; last_read_meta = place f i })
  unfolding read_fields
  read_fields-Rounds f i s t h found read =
      let (metas, noted) =
        note_span-some f i s.out_bits.offs (t.out_bits.offs - s.out_bits.offs) t h in
      (metas, λ before after e. one before after metas e noted)
    where
      one :
          (before after : ℕ) (metas : List CellMeta)
          → before ≡ 1 + after
          → note_span ops zc d1_coder data_size_coder n_cells
              (place f i)
              s.out_bits.offs
              (t.out_bits.offs - s.out_bits.offs)
              t
            ≡ some (record t { cell_metas = metas })
          → read_fields ops zc d1_coder data_size_coder n_cells before s
            ≡ read_fields ops zc d1_coder data_size_coder n_cells after
                (record t { cell_metas = metas; last_read_meta = place f i })
      one zero after metas e noted = absurd (omega arith)
      one (suc before) after metas e noted =
          let same : before ≡ after = omega arith in rw (found, h, read, noted, same) refl
