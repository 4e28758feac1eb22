-- ===== src/Serializator/Decode/Refs.antt =====
-- The references of a cell, written by push_refs and read by try_read_refs: each is stored as the
-- distance backwards from the cell, around the end, less one.
use mara_ton_contest_solutio.Common.{
  ℕ, suc, ◌+◌, ◌-◌, ◌*◌, ◌%◌, ◌^◌, ◌≤◌, ◌<◌, ◌≡◌, ◌≢◌, refl, sym, ap, ◌∙◌, true, false, some, List,
  [], ◌∷◌, ◌++◌, ltb, ◌==◌, le→ltb, lt→ltb, length, length-append, length-replicate, set, replicate,
  All, u32, subst, arith,
}
use mara_ton_contest_solutio.Bits.{uint_bits, BitOps, BitLaws, BitPtr, write}
use mara_ton_contest_solutio.Bits.Stream.{
  Fits, Appends, Appends-none, Appends-trans, Ahead, Ahead-advance, Ahead-seek, advance-seek,
  advance, advance_zero, advance-advance, seek, write-Appends, read-Ahead, length-uint_bits,
}
use mara_ton_contest_solutio.Utils.{ZeroCounts, ZeroLaws, len_in_bits}
use mara_ton_contest_solutio.Utils.Widths.{len_in_bits_lem}
use mara_ton_contest_solutio.Huffman.{HuffmanEncoderDecoder}
use mara_ton_contest_solutio.Serializator.Cell.{MyCell}
use mara_ton_contest_solutio.Serializator.Layout.{
  FieldType, SerializeMetaData, refs_field, note, push_ref_list, push_refs,
}
use mara_ton_contest_solutio.Serializator.Decode.Fields.{
  State, cell_at, set_cell, read_refs, try_read_refs,
}
use native.Mathlib.Nat.{mod-eq-sub-mod, mod-eq_of_lt}
use native.Mathlib.Decide.{dec_lt}

-- A reference of cell i: to a cell of the list, and not to itself.
abbrev pub IsRefOf : (n_cells i : ℕ) → ℕ → Type 0
IsRefOf n_cells i ref = (ref ≢ i) × (ref < n_cells)

mod_once : (n x : ℕ) → n ≤ x → x < n + n → x % n ≡ x - n
mod_once n x low high = mod-eq-sub-mod low ∙ mod-eq_of_lt (omega arith)

-- Going back by the distance leads to the reference.
distance_lem :
    (n i ref : ℕ)
    → n < 2 ^ 31
    → i < n
    → IsRefOf n i ref
    → (d : ℕ) × (u32 (n + i + 2 ^ 32 - ref) % n ≡ suc d)
      × (suc d < n)
      × (u32 (n + i + 2 ^ 32 - (d + 1)) % n ≡ ref)
distance_lem n i ref small here (other, below) = elim (dec_lt ref i) [
  | yes back ↦
      let there : u32 (n + i + 2 ^ 32 - ref) ≡ n + i - ref = omega arith in
      let again : u32 (n + i + 2 ^ 32 - (i - ref - 1 + 1)) ≡ n + ref = omega arith in
      (
        i - ref - 1,
        ap (λ (x : ℕ). x % n) there
            ∙ mod_once n (n + i - ref) (omega arith) (omega arith)
            ∙ omega arith,
        omega arith,
        ap (λ (x : ℕ). x % n) again
            ∙ mod_once n (n + ref) (omega arith) (omega arith)
            ∙ omega arith,
      )
  | no ahead ↦
      let there : u32 (n + i + 2 ^ 32 - ref) ≡ n + i - ref = omega arith in
      let again : u32 (n + i + 2 ^ 32 - (n + i - ref - 1 + 1)) ≡ ref = omega arith in
      (
        n + i - ref - 1,
        ap (λ (x : ℕ). x % n) there ∙ mod-eq_of_lt (omega arith) ∙ omega arith,
        omega arith,
        ap (λ (x : ℕ). x % n) again ∙ mod-eq_of_lt below,
      )
]

-- The references written to the slots from number j on.
abbrev pub fill : (j : ℕ) → List ℕ → List ℕ → List ℕ
fill j [] slots = slots
fill j (ref ∷ refs) slots = fill (j + 1) refs (set slots j ref)

pub fill_slots :
    (refs : List ℕ)
    → length refs ≤ 4
    → fill 0 refs (0 ∷ 0 ∷ 0 ∷ 0 ∷ []) ≡ refs ++ replicate (4 - length refs) 0
fill_slots [] h = refl
fill_slots (a ∷ []) h = refl
fill_slots (a ∷ b ∷ []) h = refl
fill_slots (a ∷ b ∷ c ∷ []) h = refl
fill_slots (a ∷ b ∷ c ∷ d ∷ []) h = refl
fill_slots (a ∷ b ∷ c ∷ d ∷ e ∷ refs) h = absurd (omega arith)

pub length-note :
    (n i : ℕ) (f : FieldType) (meta : List SerializeMetaData)
    → length (note n i f meta) ≡ length meta + n
unfolding note
length-note n i f meta =
    length-append meta (replicate n (record { cell_id = i; field_type = f }))
    ∙ ap (λ (k : ℕ). length meta + k) (length-replicate n (record { cell_id = i; field_type = f }))

-- The width of a stored reference.
abbrev pub ref_width : ZeroCounts → ℕ → ℕ
ref_width zc n_cells = len_in_bits zc (n_cells - 1)

-- The bits of the references of cell i.
abbrev pub ref_bits : ZeroCounts → (n_cells i : ℕ) → List ℕ → List ℕ
ref_bits zc n_cells i [] = []
ref_bits zc n_cells i (ref ∷ refs) =
    uint_bits (ref_width zc n_cells) (u32 (n_cells + i + 2 ^ 32 - ref) % n_cells - 1)
    ++ ref_bits zc n_cells i refs

module _ (ops : BitOps) (laws : BitLaws ops) (zc : ZeroCounts) (zlaws : ZeroLaws zc) (n_cells i : ℕ)
    (small : n_cells < 2 ^ 31) (here : i < n_cells) where
  width_le : ref_width zc n_cells ≤ 64
  width_le = (len_in_bits_lem zc zlaws (n_cells - 1) (omega arith)).1

  pub length-ref_bits :
      (refs : List ℕ) → length (ref_bits zc n_cells i refs) ≡ length refs * ref_width zc n_cells
  length-ref_bits [] = omega arith
  length-ref_bits (ref ∷ refs) =
      let d : ℕ = u32 (n_cells + i + 2 ^ 32 - ref) % n_cells - 1 in
      length-append (uint_bits (ref_width zc n_cells) d) (ref_bits zc n_cells i refs)
      ∙ omega (arith, length-uint_bits (ref_width zc n_cells) d, length-ref_bits refs)

  pub push_ref_list-Appends :
      (d1_encoder data_size_encoder : HuffmanEncoderDecoder) (refs rest : List ℕ) (p : BitPtr)
      (meta : List SerializeMetaData)
      → All (IsRefOf n_cells i) refs
      → Fits p (length refs * ref_width zc n_cells)
      → (q : BitPtr) × (meta' : List SerializeMetaData) × (push_ref_list ops zc d1_encoder
            data_size_encoder n_cells
            (length refs)
            i
            (refs ++ rest)
            (p, meta)
          ≡ some (q, meta'))
        × (length meta' ≡ length meta + length refs * ref_width zc n_cells)
        × Appends p (ref_bits zc n_cells i refs) q
  unfolding push_ref_list
  push_ref_list-Appends d1_encoder data_size_encoder [] rest p meta valid room =
      (p, meta, refl, omega arith, Appends-none p)
  push_ref_list-Appends d1_encoder data_size_encoder (ref ∷ refs) rest p meta (own, valid) room =
      let (d, e, _, _) = distance_lem n_cells i ref small here own in
      let first =
        write-Appends ops laws p (u32 (n_cells + i + 2 ^ 32 - ref) % n_cells - 1)
          (ref_width zc n_cells) width_le (omega arith) in
      let other : (ref == i) ≡ false = ne_test ref i own.0 in
      let far : ltb 0 (u32 (n_cells + i + 2 ^ 32 - ref) % n_cells) ≡ true =
        lt→ltb 0 (u32 (n_cells + i + 2 ^ 32 - ref) % n_cells) (omega arith) in
      let (q, meta', sent, noted, a) =
        push_ref_list-Appends d1_encoder data_size_encoder refs rest
          (write ops p (u32 (n_cells + i + 2 ^ 32 - ref) % n_cells - 1) (ref_width zc n_cells))
          (note (ref_width zc n_cells) i refs_field meta) valid
          (omega (
            arith,
            first.moved,
            first.size,
            length-uint_bits (ref_width zc n_cells)
                (u32 (n_cells + i + 2 ^ 32 - ref) % n_cells - 1),
          )) in
      (
        q,
        meta',
        rw (other, far) sent,
        noted ∙ omega (arith, length-note (ref_width zc n_cells) i refs_field meta),
        Appends-trans first a,
      )
    where
      ne_test : (a b : ℕ) → a ≢ b → (a == b) ≡ false
      ne_test a b h = ground arith

  pub read_refs-Ahead :
      (d1_decoder data_size_decoder : HuffmanEncoderDecoder) (refs : List ℕ) (j write_ptr : ℕ)
      (p : BitPtr) (slots : List ℕ)
      → All (IsRefOf n_cells i) refs
      → Ahead p (ref_bits zc n_cells i refs)
      → p.offs + length refs * ref_width zc n_cells ≤ write_ptr
      → read_refs ops zc d1_decoder data_size_decoder n_cells (length refs) j i write_ptr p slots
        ≡ some (fill j refs slots, advance p (length refs * ref_width zc n_cells))
  unfolding read_refs
  read_refs-Ahead d1_decoder data_size_decoder [] j write_ptr p slots valid a room =
      ap (λ (q : BitPtr). some (slots, q)) (sym (advance_zero p) ∙ ap (advance p) (omega arith))
  read_refs-Ahead d1_decoder data_size_decoder (ref ∷ refs) j write_ptr p slots (own, valid) a
        room =
      let (d, e, less, undone) = distance_lem n_cells i ref small here own in
      let v : ℕ = u32 (n_cells + i + 2 ^ 32 - ref) % n_cells - 1 in
      let same : v ≡ d = omega arith in
      let (_, _, wide) = len_in_bits_lem zc zlaws (n_cells - 1) (omega arith) in
      let got =
        read-Ahead ops laws p v (ref_width zc n_cells) (ref_bits zc n_cells i refs) width_le
          (omega arith) a in
      let rest =
        Ahead-advance p (uint_bits (ref_width zc n_cells) v) (ref_bits zc n_cells i refs) a in
      let ih =
        read_refs-Ahead d1_decoder data_size_decoder refs (j + 1) write_ptr
          (advance p (ref_width zc n_cells)) (set slots j ref) valid
          (subst (λ n. Ahead (advance p n) (ref_bits zc n_cells i refs))
            (length-uint_bits (ref_width zc n_cells) v) rest)
          (unfold advance in omega arith) in
      let back : u32 (n_cells + i + 2 ^ 32 - (v + 1)) % n_cells ≡ ref =
        ap (λ (x : ℕ). u32 (n_cells + i + 2 ^ 32 - (x + 1)) % n_cells) same ∙ undone in
      rw (le→ltb write_ptr (p.offs + (ref_width zc n_cells)) (omega arith), got, back)
        (ih
          ∙ ap (λ (q : BitPtr). some (fill (j + 1) refs (set slots j ref), q))
              (advance-advance p (ref_width zc n_cells) (length refs * ref_width zc n_cells)
                ∙ ap (advance p) (omega arith)))

  pub try_read_refs-some :
      (d1_decoder data_size_decoder : HuffmanEncoderDecoder) (s : State) (slots : List ℕ)
      (q : BitPtr)
      → 0 < (cell_at s i).cnt_refs
      → read_refs ops zc d1_decoder data_size_decoder n_cells
          (cell_at s i).cnt_refs
          0
          i
          s.write_ptr
          s.out_bits
          (0 ∷ 0 ∷ 0 ∷ 0 ∷ [])
        ≡ some (slots, q)
      → try_read_refs ops zc d1_decoder data_size_decoder n_cells s i
        ≡ some (some (set_cell s i (record (cell_at s i) { refs = slots }) q))
  unfolding try_read_refs
  try_read_refs-some d1_decoder data_size_decoder s slots q pos e =
      rw (lt→ltb 0 (cell_at s i).cnt_refs pos, e) refl

  -- A cell with 1 to 4 references, each to another of the fewer than 2^31 cells, and 0 in the slots
  -- behind them: where their bits fit, push_refs passes its CHECKs, and try_read_refs from the old
  -- position, with the output ending at the new one, sets the same four slots in the cell, for
  -- which the number of references was read before, and stops at the new position.
  pub try_read_refs-push_refs :
      (d1_coder data_size_coder : HuffmanEncoderDecoder) (c : MyCell) (refs : List ℕ) (p : BitPtr)
      (meta : List SerializeMetaData) (s : State)
      → 0 < length refs
      → length refs ≤ 4
      → All (IsRefOf n_cells i) refs
      → c.cnt_refs ≡ length refs
      → c.refs ≡ refs ++ replicate (4 - length refs) 0
      → (cell_at s i).cnt_refs ≡ c.cnt_refs
      → Fits p (length refs * len_in_bits zc (n_cells - 1))
      → (q : BitPtr) × (meta' : List SerializeMetaData) × (push_refs ops zc d1_coder data_size_coder
            n_cells i c
            (p, meta)
          ≡ some (q, meta'))
        × (try_read_refs ops zc d1_coder data_size_coder n_cells
              (record s { out_bits = seek q p.offs; write_ptr = q.offs })
              i
            ≡ some (
                some (
                  set_cell
                    (record s { out_bits = seek q p.offs; write_ptr = q.offs })
                    i
                    (record (cell_at s i) { refs = c.refs })
                    q)))
  unfolding push_refs
  try_read_refs-push_refs d1_coder data_size_coder c refs p meta s some_refs few valid cnt slots
        read_cnt room =
      let (q, meta', sent, noted, a) =
        push_ref_list-Appends d1_coder data_size_coder refs (replicate (4 - length refs) 0) p meta
          valid room in
      let size = length-ref_bits refs in
      let ahead = Ahead-seek p q (ref_bits zc n_cells i refs) (omega arith) a in
      let got =
        read_refs-Ahead d1_coder data_size_coder refs 0 q.offs (seek q p.offs) (0 ∷ 0 ∷ 0 ∷ 0 ∷ [])
          valid ahead (unfold seek in omega (arith, a.moved)) in
      let filled : fill 0 refs (0 ∷ 0 ∷ 0 ∷ 0 ∷ []) ≡ c.refs = fill_slots refs few ∙ sym slots in
      let stop : advance (seek q p.offs) (length refs * ref_width zc n_cells) ≡ q =
        ap (advance (seek q p.offs)) (sym size) ∙ advance-seek p q (ref_bits zc n_cells i refs) a in
      let t : State = record s { out_bits = seek q p.offs; write_ptr = q.offs } in
      let count : length refs ≡ (cell_at t i).cnt_refs = sym (read_cnt ∙ cnt) in
      let all =
        got
        ∙ ap (λ l. some (l, advance (seek q p.offs) (length refs * ref_width zc n_cells))) filled
        ∙ ap (λ (r : BitPtr). some (c.refs, r)) stop in
      (
        q,
        meta',
        rw (cnt, slots) sent,
        try_read_refs-some d1_coder data_size_coder t c.refs q (omega arith) (
            subst
              (λ n.
                read_refs ops zc d1_coder data_size_coder n_cells n 0 i q.offs (seek q p.offs)
                  (0 ∷ 0 ∷ 0 ∷ 0 ∷ [])
                ≡ some (c.refs, q))
              count all),
      )
