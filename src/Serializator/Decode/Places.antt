-- ===== src/Serializator/Decode/Places.antt =====
-- The places of the fields in the stream, and the step from one to the next.
use mara_ton_contest_solutio.Common.{
  ℕ, ◌+◌, ◌*◌, ◌^◌, ◌≤◌, ◌<◌, ◌≡◌, ◌⊎◌, inl, inr, refl, true, false, ltb, lt→ltb, le→ltb, u32,
  arith,
}
use mara_ton_contest_solutio.Serializator.Cell.{MyCell}
use mara_ton_contest_solutio.Serializator.Layout.{
  FieldType, field_none, d1_field, data_size_field, refs_field, data_field,
}
use mara_ton_contest_solutio.Serializator.Decode.Meta.{next_meta_dummy, present}
use native.Mathlib.Decide.{dec_lt}

-- The place of a field in the order of the stream, for n cells: all d1, all data sizes, all refs,
-- all data, and the end.
abbrev pub rank : ℕ → FieldType → ℕ → ℕ
rank n field_none c = 5 * n
rank n d1_field c = n + c
rank n data_size_field c = 2 * n + c
rank n refs_field c = 3 * n + c
rank n data_field c = 4 * n + c

-- A field of one of the n cells, or the end.
abbrev pub InRange : ℕ → FieldType → ℕ → Type 0
InRange n field_none c = Unit {0}
InRange n _ c = c < n

-- Whether the stream holds bits of a field for a cell: a reference or a data bit at least, and always
-- a symbol for d1 and for the data size. The end counts as one, since the search stops there.
abbrev pub HasBits : FieldType → MyCell → Type 0
HasBits field_none c = Unit {0}
HasBits d1_field c = Unit {0}
HasBits data_size_field c = Unit {0}
HasBits refs_field c = 0 < c.cnt_refs
HasBits data_field c = 0 < c.cnt_bits

pub present-HasBits : (f : FieldType) (c : MyCell) → HasBits f c → present f c ≡ true
present-HasBits field_none c h = refl
present-HasBits d1_field c h = refl
present-HasBits data_size_field c h = refl
present-HasBits refs_field c h = lt→ltb 0 c.cnt_refs h
present-HasBits data_field c h = lt→ltb 0 c.cnt_bits h

pub has_bits : (f : FieldType) (c : MyCell) → present f c ≡ true → HasBits f c
has_bits field_none c e = tt
has_bits d1_field c e = tt
has_bits data_size_field c e = tt
has_bits refs_field c e = ground arith
has_bits data_field c e = ground arith

-- The next cell, or none behind the last one.
next_cell :
    (n c : ℕ)
    → c < n
    → n ≤ 2 ^ 31
    → ((u32 (c + 1) ≡ c + 1) × (ltb (c + 1) n ≡ true) × (c + 1 < n))
      ⊎ ((u32 (c + 1) ≡ c + 1) × (ltb (c + 1) n ≡ false) × (c + 1 ≡ n))
next_cell n c h small = elim (dec_lt (c + 1) n) [
  | yes inside ↦ inl (omega arith, lt→ltb (c + 1) n inside, inside)
  | no last ↦ inr (omega arith, le→ltb (c + 1) n (omega arith), omega arith)
]

pub next_rank :
    (n : ℕ) (f : FieldType) (c : ℕ)
    → InRange n f c
    → rank n f c < 5 * n
    → n ≤ 2 ^ 31
    → (rank n
          (next_meta_dummy n (record { cell_id = c; field_type = f })).field_type
          (next_meta_dummy n (record { cell_id = c; field_type = f })).cell_id
        ≡ rank n f c + 1)
      × InRange n
          (next_meta_dummy n (record { cell_id = c; field_type = f })).field_type
          (next_meta_dummy n (record { cell_id = c; field_type = f })).cell_id
unfolding next_meta_dummy
next_rank n field_none c h low small = absurd (omega arith)
next_rank n d1_field c h low small = elim (next_cell n c h small) [
  | inl (e, t, inside) ↦ rw (e, t) (omega arith, inside)
  | inr (e, t, last) ↦ rw (e, t) (omega arith, omega arith)
]
next_rank n data_size_field c h low small = elim (next_cell n c h small) [
  | inl (e, t, inside) ↦ rw (e, t) (omega arith, inside)
  | inr (e, t, last) ↦ rw (e, t) (omega arith, omega arith)
]
next_rank n refs_field c h low small = elim (next_cell n c h small) [
  | inl (e, t, inside) ↦ rw (e, t) (omega arith, inside)
  | inr (e, t, last) ↦ rw (e, t) (omega arith, omega arith)
]
next_rank n data_field c h low small = elim (next_cell n c h small) [
  | inl (e, t, inside) ↦ rw (e, t) (omega arith, inside)
  | inr (e, t, last) ↦ rw (e, t) (omega arith, tt)
]
