-- ===== src/Serializator/Decode/Content.antt =====
-- The data bits of a cell, written by push_data and read by try_read_data.
use mara_ton_contest_solutio.Common.{
  ℕ, zero, suc, ◌+◌, ◌-◌, ◌*◌, ◌/◌, ◌≤◌, ◌<◌, ◌≡◌, refl, sym, ap, ◌∙◌, some, List, [], le→ltb,
  lt→ltb, length, replicate, length-replicate, arith,
}
use mara_ton_contest_solutio.Bits.{bits_at, BitOps, BitLaws, BitPtr, write, read}
use mara_ton_contest_solutio.Bits.Stream.{
  Fits, Appends, Appends-none, Appends-trans, Ahead-seek, advance-seek, advance, advance_zero, seek,
  length-bits_at,
}
use mara_ton_contest_solutio.Utils.{ZeroCounts}
use mara_ton_contest_solutio.Utils.Ranges.{copy-Appends}
use mara_ton_contest_solutio.Huffman.{HuffmanEncoderDecoder}
use mara_ton_contest_solutio.Serializator.Cell.{MyCell, resize}
use mara_ton_contest_solutio.Serializator.Layout.{
  SerializeMetaData, push_bits, push_data, note, data_field,
}
use mara_ton_contest_solutio.Serializator.Decode.Fields.{
  State, cell_at, set_cell, move_bits, try_read_data,
}

pub resize-nil : (n : ℕ) → resize n [] ≡ replicate n 0
resize-nil zero = refl
resize-nil (suc n) = ap (λ (k : ℕ). replicate k 0) {x = suc n - 0} {y = suc n} (omega arith)

module _ (ops : BitOps) (laws : BitLaws ops) (zc : ZeroCounts)
    (d1_coder data_size_coder : HuffmanEncoderDecoder) (n_cells : ℕ) where
  pub push_bits-Appends :
      (n : ℕ) (from to : BitPtr)
      → Fits from n
      → Fits to n
      → Appends to
          (bits_at from.ptr from.offs n)
          (push_bits ops zc d1_coder data_size_coder n_cells n from to)
  unfolding push_bits read
  push_bits-Appends zero from to there room = Appends-none to
  push_bits-Appends (suc n) from to there room =
      let first = copy-Appends ops laws to from 1 (omega arith) (omega arith) (omega arith) in
      Appends-trans first (
        push_bits-Appends n (read ops from 1).1 (write ops to (read ops from 1).0 1) (omega arith)
          (omega (arith, first.moved, first.size)))

  pub move_bits-Appends :
      (n : ℕ) (from to : BitPtr)
      → Fits from n
      → Fits to n
      → ((move_bits ops zc d1_coder data_size_coder n_cells n from to).0 ≡ advance from n)
        × Appends to
            (bits_at from.ptr from.offs n)
            (move_bits ops zc d1_coder data_size_coder n_cells n from to).1
  unfolding move_bits read advance
  move_bits-Appends zero from to there room =
      (sym (unfold advance in advance_zero from), Appends-none to)
  move_bits-Appends (suc n) from to there room =
      let first = copy-Appends ops laws to from 1 (omega arith) (omega arith) (omega arith) in
      let (moved, rest) =
        move_bits-Appends n (read ops from 1).1 (write ops to (read ops from 1).0 1) (omega arith)
          (omega (arith, first.moved, first.size)) in
      (moved ∙ ap (λ (o : ℕ). record from { offs = o }) (omega arith), Appends-trans first rest)

  pub try_read_data-some :
      (s : State) (i : ℕ)
      → 0 < (cell_at s i).cnt_bits
      → s.out_bits.offs + (cell_at s i).cnt_bits ≤ s.write_ptr
      → try_read_data ops zc d1_coder data_size_coder n_cells s i
        ≡ some (
            some (
              set_cell s i
                (record (cell_at s i) {
                  bytes =
                      (move_bits ops zc d1_coder data_size_coder n_cells
                        (cell_at s i).cnt_bits
                        s.out_bits
                        (record {
                          ptr = resize (((cell_at s i).cnt_bits + 7) / 8) (cell_at s i).bytes;
                          offs = 0;
                        })).1.ptr;
                })
                (move_bits ops zc d1_coder data_size_coder n_cells
                  (cell_at s i).cnt_bits
                  s.out_bits
                  (record {
                    ptr = resize (((cell_at s i).cnt_bits + 7) / 8) (cell_at s i).bytes;
                    offs = 0;
                  })).0))
  unfolding try_read_data
  try_read_data-some s i pos room =
      rw
        (
          lt→ltb 0 (cell_at s i).cnt_bits pos,
          le→ltb s.write_ptr (s.out_bits.offs + (cell_at s i).cnt_bits) room,
        )
        refl

  -- Where the cnt_bits bits of a cell, one at least, lie within its bytes and fit behind the
  -- position: try_read_data from the old position, with the output ending at the new one, fills a
  -- cell that has the same cnt_bits and no bytes yet with just enough bytes, which start with the
  -- same cnt_bits bits, and stops at the new position.
  pub try_read_data-push_data :
      (i : ℕ) (c : MyCell) (p : BitPtr) (meta : List SerializeMetaData) (s : State)
      → 0 < c.cnt_bits
      → c.cnt_bits ≤ 8 * length c.bytes
      → (cell_at s i).cnt_bits ≡ c.cnt_bits
      → (cell_at s i).bytes ≡ []
      → Fits p c.cnt_bits
      → (q : BitPtr) × (meta' : List SerializeMetaData) × (bytes' : List ℕ) × (push_data ops zc
            d1_coder data_size_coder n_cells i c
            (p, meta)
          ≡ some (q, meta'))
        × (try_read_data ops zc d1_coder data_size_coder n_cells
              (record s { out_bits = seek q p.offs; write_ptr = q.offs })
              i
            ≡ some (
                some (
                  set_cell
                    (record s { out_bits = seek q p.offs; write_ptr = q.offs })
                    i
                    (record (cell_at s i) { bytes = bytes' })
                    q)))
        × (length bytes' ≡ (c.cnt_bits + 7) / 8)
        × (bits_at bytes' 0 c.cnt_bits ≡ bits_at c.bytes 0 c.cnt_bits)
  unfolding push_data
  try_read_data-push_data i c p meta s pos there cnt empty room =
      let n : ℕ = c.cnt_bits in
      let k : ℕ = (cell_at s i).cnt_bits in
      let bits : List ℕ = bits_at c.bytes 0 n in
      let size = length-bits_at c.bytes 0 n in
      let q : BitPtr =
        push_bits ops zc d1_coder data_size_coder n_cells n (record { ptr = c.bytes; offs = 0 })
          p in
      let sent : Appends p bits q =
        push_bits-Appends n (record { ptr = c.bytes; offs = 0 }) p (omega arith) room in
      let ahead = Ahead-seek p q bits (omega arith) sent in
      let content : bits_at q.ptr p.offs k ≡ bits =
        ap (bits_at q.ptr p.offs) {x = k} {y = length bits} (omega arith)
        ∙ (unfold seek in ahead.content) in
      let t : State = record s { out_bits = seek q p.offs; write_ptr = q.offs } in
      let target : BitPtr = record { ptr = resize ((k + 7) / 8) (cell_at s i).bytes; offs = 0 } in
      let fresh : length target.ptr ≡ (k + 7) / 8 =
        ap (λ (l : List ℕ). length (resize ((k + 7) / 8) l)) empty
        ∙ ap length (resize-nil ((k + 7) / 8))
        ∙ length-replicate ((k + 7) / 8) 0 in
      let (moved, filled) =
        move_bits-Appends k (seek q p.offs) target (unfold seek in omega (arith, sent.size))
          (omega arith) in
      let out : BitPtr =
        (move_bits ops zc d1_coder data_size_coder n_cells k (seek q p.offs) target).1 in
      let stop : advance (seek q p.offs) k ≡ q =
        ap (advance (seek q p.offs)) {x = k} {y = length bits} (omega arith)
        ∙ advance-seek p q bits sent in
      let end : out.offs ≡ n =
        filled.moved ∙ omega (arith, length-bits_at (seek q p.offs).ptr (seek q p.offs).offs k) in
      (
        q,
        note n i data_field meta,
        out.ptr,
        refl,
        try_read_data-some t i (omega arith) (unfold seek in omega (arith, sent.moved))
            ∙ ap
                (λ (r : BitPtr).
                  some (some (set_cell t i (record (cell_at s i) { bytes = out.ptr }) r)))
                (moved ∙ stop),
        filled.size ∙ fresh ∙ omega arith,
        ap (bits_at out.ptr 0) (sym end) ∙ filled.content ∙ (unfold seek in content),
      )
