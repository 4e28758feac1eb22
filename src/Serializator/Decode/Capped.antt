-- ===== src/Serializator/Decode/Capped.antt =====
-- The numbers of a token: written by dump_capped and dump_cell_id_offset of run_lz, read by
-- read_capped and read_cell_id_offset.
use mara_ton_contest_solutio.Common.{
  ℕ, ◌+◌, ◌-◌, ◌*◌, ◌^◌, ◌≤◌, ◌<◌, min, ◌≡◌, refl, sym, ap, ◌∙◌, true, false, some, List, [], ◌++◌,
  append-nil, append_assoc, ltb, ◌==◌, if◌then◌else◌, lt→ltb, le→ltb, u32, none_u32, length,
  length-append, subst, arith,
}
use mara_ton_contest_solutio.Bits.{uint_bits, BitOps, BitLaws, BitPtr, write}
use mara_ton_contest_solutio.Bits.Stream.{
  Fits, Appends, Appends-trans, Ahead, Ahead-front, Ahead-advance, Ahead-seek, advance-seek,
  advance, advance-advance, seek, write-Appends, read-Ahead, length-uint_bits,
}
use mara_ton_contest_solutio.Utils.{ZeroCounts, ZeroLaws, len_in_bits}
use mara_ton_contest_solutio.Utils.Widths.{len_in_bits_lem}
use mara_ton_contest_solutio.Huffman.{HuffmanEncoderDecoder}
use mara_ton_contest_solutio.Huffman.Walk.{
  code_bits, IsCoderOf, encode_symbol-Appends, decode_symbol-Ahead,
}
use mara_ton_contest_solutio.Serializator.{cell_id_offset_th}
use mara_ton_contest_solutio.Serializator.Numbers.RoundTrip.{
  num_bits, dump_num-Appends, read_dumped_num-Ahead,
}
use mara_ton_contest_solutio.Serializator.Lz.{LzCoders, dump_capped, dump_cell_id_offset}
use mara_ton_contest_solutio.Serializator.Decode.Stream.{read_capped, read_cell_id_offset}
use native.Mathlib.Decide.{dec_lt}

-- A number below the threshold, or the threshold and the bits of the rest.
abbrev pub capped_bits : HuffmanEncoderDecoder → (th num : ℕ) → (more : List ℕ) → List ℕ
capped_bits coder th num more =
    if ltb num th then code_bits coder num else code_bits coder th ++ more

capped_below :
    (coder : HuffmanEncoderDecoder) (th num : ℕ) (more : List ℕ)
    → num < th
    → capped_bits coder th num more ≡ code_bits coder num
capped_below coder th num more h = rw (lt→ltb num th h) refl

capped_above :
    (coder : HuffmanEncoderDecoder) (th num : ℕ) (more : List ℕ)
    → th ≤ num
    → capped_bits coder th num more ≡ code_bits coder th ++ more
capped_above coder th num more h = rw (le→ltb num th h) refl

ne_test : (x y : ℕ) → x < y → (x == y) ≡ false
ne_test x y h = ground arith

eq_test : (x y : ℕ) → x ≡ y → (x == y) ≡ true
eq_test x y h = ground arith

module _ (ops : BitOps) (laws : BitLaws ops) (coder : HuffmanEncoderDecoder) (freqs : List ℕ)
    (coded : IsCoderOf freqs coder) (two : 1 < length freqs) (th : ℕ)
    (known : th < length freqs) where
  module _ (zc : ZeroCounts) (coders : LzCoders) (blen : ℕ) (pos : 0 < blen)
      (narrow : blen < 32) where
    dump_capped-Appends :
        (num : ℕ) (p : BitPtr)
        → Fits p (length (capped_bits coder th num (num_bits blen (num - th))))
        → (q : BitPtr) × (dump_capped ops zc coders coder th blen num p ≡ some q)
          × Appends p (capped_bits coder th num (num_bits blen (num - th))) q
    unfolding dump_capped
    dump_capped-Appends num p room = elim (dec_lt num th) [
      | yes lt ↦
          let e = capped_below coder th num (num_bits blen (num - th)) lt in
          let (q, sent, a) =
            encode_symbol-Appends ops laws freqs coder p num coded two (omega arith)
              (subst (λ b. Fits p (length b)) e room) in
          let least : min th num ≡ num = omega arith in
          (q, rw (least, sent, ne_test num th lt) refl, subst (λ b. Appends p b q) (sym e) a)
      | no ge ↦
          let more : List ℕ = num_bits blen (num - th) in
          let e = capped_above coder th num more (omega arith) in
          let space : Fits p (length (code_bits coder th ++ more)) =
            subst (λ b. Fits p (length b)) e room in
          let size = length-append (code_bits coder th) more in
          let (q, sent, a) =
            encode_symbol-Appends ops laws freqs coder p th coded two known (omega arith) in
          let (q', sent', a') =
            dump_num-Appends ops laws blen pos narrow q (num - th)
              (omega (arith, a.moved, a.size)) in
          let most : min th num ≡ th = omega arith in
          (
            q',
            rw (most, sent, eq_test th th refl) sent',
            subst (λ b. Appends p b q') (sym e) (Appends-trans a a'),
          )
    ]

    read_capped-Ahead :
        (d1_coder data_size_coder : HuffmanEncoderDecoder) (n_cells lz_cnt_bits num : ℕ)
        (p : BitPtr) (rest : List ℕ)
        → num < 2 ^ 32
        → length freqs ≤ none_u32
        → Ahead p (capped_bits coder th num (num_bits blen (num - th)) ++ rest)
        → 8 * length p.ptr ≤ none_u32
        → read_capped ops zc d1_coder data_size_coder coders n_cells lz_cnt_bits coder th blen p
          ≡ some (num, advance p (length (capped_bits coder th num (num_bits blen (num - th)))))
    unfolding read_capped
    read_capped-Ahead d1_coder data_size_coder n_cells lz_cnt_bits num p rest small fits a short =
        elim (dec_lt num th) [
          | yes lt ↦
              let e = capped_below coder th num (num_bits blen (num - th)) lt in
              let ahead = subst (λ b. Ahead p (b ++ rest)) e a in
              let front = Ahead-front p (code_bits coder num) rest ahead in
              let got =
                decode_symbol-Ahead ops laws freqs coder p num none_u32 rest coded (omega arith)
                  ahead (omega (arith, front.within)) in
              rw (got, ne_test num th lt) (ap (λ b. some (num, advance p (length b))) (sym e))
          | no ge ↦
              let more : List ℕ = num_bits blen (num - th) in
              let e = capped_above coder th num more (omega arith) in
              let ahead =
                subst (Ahead p) (append_assoc (code_bits coder th) more rest)
                  (subst (λ b. Ahead p (b ++ rest)) e a) in
              let front = Ahead-front p (code_bits coder th) (more ++ rest) ahead in
              let got =
                decode_symbol-Ahead ops laws freqs coder p th none_u32 (more ++ rest) coded known
                  ahead (omega (arith, front.within)) in
              let got' =
                read_dumped_num-Ahead ops laws blen pos narrow
                  (advance p (length (code_bits coder th))) (num - th) rest (omega arith)
                  (Ahead-advance p (code_bits coder th) (more ++ rest) ahead) in
              let sum : u32 (th + (num - th)) ≡ num = omega arith in
              rw (got, eq_test th th refl, got', sum)
                (ap (λ q. some (num, q))
                  (advance-advance p (length (code_bits coder th)) (length more)
                    ∙ ap (advance p) (sym (length-append (code_bits coder th) more))
                    ∙ ap (λ b. advance p (length b)) (sym e)))
        ]

    -- For the coder of a table of 2 to 2^32 - 1 symbols, one of them the threshold, a group width
    -- from 1 to 31 and a 32-bit number: where its code fits in a string of fewer than 2^32 bits,
    -- dump_capped succeeds, and read_capped from the old position returns the number and stops at the
    -- new one.
    pub read_capped-dump_capped :
        (d1_coder data_size_coder : HuffmanEncoderDecoder) (n_cells lz_cnt_bits num : ℕ)
        (p : BitPtr)
        → num < 2 ^ 32
        → length freqs ≤ none_u32
        → Fits p (length (capped_bits coder th num (num_bits blen (num - th))))
        → 8 * length p.ptr ≤ none_u32
        → (q : BitPtr) × (dump_capped ops zc coders coder th blen num p ≡ some q)
          × (read_capped ops zc d1_coder data_size_coder coders n_cells lz_cnt_bits coder th blen
                (seek q p.offs)
              ≡ some (num, q))
    read_capped-dump_capped d1_coder data_size_coder n_cells lz_cnt_bits num p small fits room
          short =
        let bits : List ℕ = capped_bits coder th num (num_bits blen (num - th)) in
        let (q, sent, a) = dump_capped-Appends num p room in
        let ahead = Ahead-seek p q bits room a in
        (
          q,
          sent,
          read_capped-Ahead d1_coder data_size_coder n_cells lz_cnt_bits num (seek q p.offs) []
                small fits (subst (Ahead (seek q p.offs)) (sym (append-nil bits)) ahead)
                (unfold seek in omega (arith, a.size))
              ∙ ap (λ r. some (num, r)) (advance-seek p q bits a),
        )

-- The width of the rest of a distance between cells.
abbrev offset_width : ZeroCounts → ℕ → ℕ
offset_width zc n_cells = len_in_bits zc (u32 (n_cells - 1 + 2 ^ 32 - cell_id_offset_th))

-- The bits of a distance between cells.
abbrev pub offset_bits : ZeroCounts → HuffmanEncoderDecoder → (n_cells offset : ℕ) → List ℕ
offset_bits zc coder n_cells offset =
    capped_bits coder cell_id_offset_th offset
      (uint_bits (offset_width zc n_cells) (offset - cell_id_offset_th))

module _ (ops : BitOps) (laws : BitLaws ops) (zc : ZeroCounts) (zlaws : ZeroLaws zc)
    (coders : LzCoders) (freqs : List ℕ) (coded : IsCoderOf freqs coders.cell_id_offset)
    (two : 1 < length freqs) (known : cell_id_offset_th < length freqs) (n_cells : ℕ)
    (small : n_cells < 2 ^ 32) where
  offset_width_le : offset_width zc n_cells ≤ 64
  offset_width_le =
      (len_in_bits_lem zc zlaws (u32 (n_cells - 1 + 2 ^ 32 - cell_id_offset_th)) (omega arith)).1

  dump_cell_id_offset-Appends :
      (offset : ℕ) (p : BitPtr)
      → Fits p (length (offset_bits zc coders.cell_id_offset n_cells offset))
      → (q : BitPtr) × (dump_cell_id_offset ops zc coders n_cells offset p ≡ some q)
        × Appends p (offset_bits zc coders.cell_id_offset n_cells offset) q
  unfolding dump_cell_id_offset
  dump_cell_id_offset-Appends offset p room =
      let coder : HuffmanEncoderDecoder = coders.cell_id_offset in
      let th : ℕ = cell_id_offset_th in
      let more : List ℕ = uint_bits (offset_width zc n_cells) (offset - th) in
      elim (dec_lt offset th) [
        | yes lt ↦
            let e = capped_below coder th offset more lt in
            let (q, sent, a) =
              encode_symbol-Appends ops laws freqs coder p offset coded two (omega arith)
                (subst (λ b. Fits p (length b)) e room) in
            let least : min offset th ≡ offset = omega arith in
            (q, rw (least, sent, ne_test offset th lt) refl, subst (λ b. Appends p b q) (sym e) a)
        | no ge ↦
            let e = capped_above coder th offset more (omega arith) in
            let space : Fits p (length (code_bits coder th ++ more)) =
              subst (λ b. Fits p (length b)) e room in
            let size = length-append (code_bits coder th) more in
            let (q, sent, a) =
              encode_symbol-Appends ops laws freqs coder p th coded two known (omega arith) in
            let a' =
              write-Appends ops laws q (offset - th) (offset_width zc n_cells) offset_width_le (
                omega (
                  arith,
                  a.moved,
                  a.size,
                  length-uint_bits (offset_width zc n_cells) (offset - th),
                )) in
            let most : min offset th ≡ th = omega arith in
            (
              write ops q (offset - th) (offset_width zc n_cells),
              rw (most, sent) refl,
              subst (λ b. Appends p b (write ops q (offset - th) (offset_width zc n_cells))) (sym e)
                  (Appends-trans a a'),
            )
      ]

  read_cell_id_offset-Ahead :
      (d1_coder data_size_coder : HuffmanEncoderDecoder) (lz_cnt_bits offset : ℕ) (p : BitPtr)
      (rest : List ℕ)
      → offset < n_cells
      → length freqs ≤ none_u32
      → Ahead p (offset_bits zc coders.cell_id_offset n_cells offset ++ rest)
      → 8 * length p.ptr ≤ none_u32
      → read_cell_id_offset ops zc d1_coder data_size_coder coders n_cells lz_cnt_bits p
        ≡ some (offset, advance p (length (offset_bits zc coders.cell_id_offset n_cells offset)))
  unfolding read_cell_id_offset
  read_cell_id_offset-Ahead d1_coder data_size_coder lz_cnt_bits offset p rest inside fits a short =
      let coder : HuffmanEncoderDecoder = coders.cell_id_offset in
      let th : ℕ = cell_id_offset_th in
      let more : List ℕ = uint_bits (offset_width zc n_cells) (offset - th) in
      elim (dec_lt offset th) [
        | yes lt ↦
            let e = capped_below coder th offset more lt in
            let ahead = subst (λ b. Ahead p (b ++ rest)) e a in
            let front = Ahead-front p (code_bits coder offset) rest ahead in
            let got =
              decode_symbol-Ahead ops laws freqs coder p offset none_u32 rest coded (omega arith)
                ahead (omega (arith, front.within)) in
            rw (got, ne_test offset th lt) (ap (λ b. some (offset, advance p (length b))) (sym e))
        | no ge ↦
            let e = capped_above coder th offset more (omega arith) in
            let ahead =
              subst (Ahead p) (append_assoc (code_bits coder th) more rest)
                (subst (λ b. Ahead p (b ++ rest)) e a) in
            let front = Ahead-front p (code_bits coder th) (more ++ rest) ahead in
            let got =
              decode_symbol-Ahead ops laws freqs coder p th none_u32 (more ++ rest) coded known
                ahead (omega (arith, front.within)) in
            let (_, _, wide) =
              len_in_bits_lem zc zlaws (u32 (n_cells - 1 + 2 ^ 32 - cell_id_offset_th))
                (omega arith) in
            let got' =
              read-Ahead ops laws (advance p (length (code_bits coder th))) (offset - th)
                (offset_width zc n_cells) rest offset_width_le (omega (arith, wide))
                (Ahead-advance p (code_bits coder th) (more ++ rest) ahead) in
            let sum : u32 (th + (offset - th)) ≡ offset = omega arith in
            rw (got, got', sum)
              (ap (λ q. some (offset, q))
                (advance-advance p (length (code_bits coder th)) (offset_width zc n_cells)
                  ∙ ap (advance p) (
                      omega (
                        arith,
                        length-append (code_bits coder th) more,
                        length-uint_bits (offset_width zc n_cells) (offset - th),
                      ))
                  ∙ ap (λ b. advance p (length b)) (sym e)))
      ]

  -- For fewer than 2^32 cells, a distance below their number and the coder of a table of at most
  -- 2^32 - 1 symbols, one of them the threshold: where its code fits in a string of fewer than 2^32
  -- bits, dump_cell_id_offset succeeds, and read_cell_id_offset from the old position returns the
  -- distance and stops at the new one.
  pub read_cell_id_offset-dump_cell_id_offset :
      (d1_coder data_size_coder : HuffmanEncoderDecoder) (lz_cnt_bits offset : ℕ) (p : BitPtr)
      → offset < n_cells
      → length freqs ≤ none_u32
      → Fits p (length (offset_bits zc coders.cell_id_offset n_cells offset))
      → 8 * length p.ptr ≤ none_u32
      → (q : BitPtr) × (dump_cell_id_offset ops zc coders n_cells offset p ≡ some q)
        × (read_cell_id_offset ops zc d1_coder data_size_coder coders n_cells lz_cnt_bits
              (seek q p.offs)
            ≡ some (offset, q))
  read_cell_id_offset-dump_cell_id_offset d1_coder data_size_coder lz_cnt_bits offset p inside fits
        room short =
      let bits : List ℕ = offset_bits zc coders.cell_id_offset n_cells offset in
      let (q, sent, a) = dump_cell_id_offset-Appends offset p room in
      let ahead = Ahead-seek p q bits room a in
      (
        q,
        sent,
        read_cell_id_offset-Ahead d1_coder data_size_coder lz_cnt_bits offset (seek q p.offs) []
              inside fits (subst (Ahead (seek q p.offs)) (sym (append-nil bits)) ahead)
              (unfold seek in omega (arith, a.size))
            ∙ ap (λ r. some (offset, r)) (advance-seek p q bits a),
      )
