-- ===== src/Serializator/Decode/Readers.antt =====
-- Reading one field of a cell from a stream that has its bits ahead.
use mara_ton_contest_solutio.Common.{
  ℕ, ◌+◌, ◌-◌, ◌*◌, ◌/◌, ◌%◌, ◌≤◌, ◌<◌, ◌^◌, ◌≡◌, refl, sym, ap, ◌∙◌, Bool, true, false, not, some,
  List, [], ◌∷◌, ◌++◌, ◌==◌, length, take, replicate, length-replicate, All, ltb→lt, ltb→le, subst,
  arith,
}
use mara_ton_contest_solutio.Bits.{shr, bit_at, bits_at, BitOps, BitLaws, BitPtr}
use mara_ton_contest_solutio.Bits.Stream.{Ahead, Ahead-front, advance, length-bits_at}
use mara_ton_contest_solutio.Bits.Equal.{bit_at-eq, bytes_eq, All-zeroes, bit_at-zeroes}
use mara_ton_contest_solutio.Utils.{ZeroCounts, ZeroLaws}
use mara_ton_contest_solutio.Huffman.{HuffmanEncoderDecoder}
use mara_ton_contest_solutio.Huffman.Tables.{d1_freq}
use mara_ton_contest_solutio.Huffman.Walk.{code_bits, decode_symbol-Ahead}
use mara_ton_contest_solutio.Serializator.Cell.{MyCell, blank_cell, resize, d1}
use mara_ton_contest_solutio.Serializator.Layout.{
  FieldType, field_none, d1_field, data_size_field, refs_field, data_field,
}
use mara_ton_contest_solutio.Serializator.Decode.Meta.{next_field, present}
use mara_ton_contest_solutio.Serializator.Decode.Fields.{
  State, cell_at, set_cell, is_end, read_refs, move_bits, try_read,
}
use native.Mathlib.Decide.{dec_lt}
use mara_ton_contest_solutio.Serializator.Decode.Refs.{
  ref_width, ref_bits, length-ref_bits, fill, fill_slots, read_refs-Ahead, try_read_refs-some,
}
use mara_ton_contest_solutio.Serializator.Decode.Content.{
  resize-nil, move_bits-Appends, try_read_data-some,
}
use mara_ton_contest_solutio.Serializator.Decode.Symbols.{
  d1_parts, try_read_d1-some, try_read_data_size-some,
}
use mara_ton_contest_solutio.Serializator.Decode.Written.{IsCell, AreCoders, field_bits}

-- What is known of a cell before the section of a field is read; before the end, all.
abbrev pub before : FieldType → MyCell → MyCell
before field_none c = c
before d1_field c = blank_cell
before data_size_field c = record blank_cell { cnt_refs = c.cnt_refs; is_special = c.is_special }
before refs_field c = record blank_cell {
  cnt_refs = c.cnt_refs;
  is_special = c.is_special;
  cnt_bits = c.cnt_bits;
}
before data_field c = record c { bytes = [] }

nil_of_length {ℓ} : {A : Type ℓ} (l : List A) → length l ≡ 0 → [] ≡ l
nil_of_length [] e = refl
nil_of_length (x ∷ l) e = absurd (omega arith)

-- Nothing is written of a field that is not present, and there is nothing to be learned.
pub absent :
    (zc : ZeroCounts) (d1_coder data_size_coder : HuffmanEncoderDecoder) (n_cells cnt_sizes i : ℕ)
    (f : FieldType) (c : MyCell)
    → IsCell n_cells cnt_sizes i c
    → present f (before f c) ≡ false
    → (field_bits zc d1_coder data_size_coder n_cells f i c ≡ [])
      × (before f c ≡ before (next_field f) c)
absent zc d1_coder data_size_coder n_cells cnt_sizes i field_none c own e = absurd (cc)
absent zc d1_coder data_size_coder n_cells cnt_sizes i d1_field c own e = absurd (cc)
absent zc d1_coder data_size_coder n_cells cnt_sizes i data_size_field c own e = absurd (cc)
absent zc d1_coder data_size_coder n_cells cnt_sizes i refs_field c own e =
    let none_left : c.cnt_refs ≡ 0 = omega (arith, ltb→le 0 c.cnt_refs e) in
    let slots : 0 ∷ 0 ∷ 0 ∷ 0 ∷ [] ≡ c.refs =
      sym (own.slots ∙ ap (λ (n : ℕ). take n c.refs ++ replicate (4 - n) 0) none_left) in
    (
      ap (λ (n : ℕ). ref_bits zc n_cells i (take n c.refs)) none_left,
      ap
          (λ (l : List ℕ). record {
            cnt_refs = c.cnt_refs;
            refs = l;
            is_special = c.is_special;
            bytes = [];
            cnt_bits = c.cnt_bits;
          })
          slots,
    )
absent zc d1_coder data_size_coder n_cells cnt_sizes i data_field c own e =
    let no_bits : c.cnt_bits ≡ 0 = omega (arith, ltb→le 0 c.cnt_bits e) in
    (
      ap (λ (n : ℕ). bits_at c.bytes 0 n) no_bits,
      ap (λ (l : List ℕ). record c { bytes = l })
          (nil_of_length c.bytes (omega (arith, own.enough))),
    )

module _ (ops : BitOps) (laws : BitLaws ops) (zc : ZeroCounts) (zlaws : ZeroLaws zc)
    (d1_coder data_size_coder : HuffmanEncoderDecoder) (data_size_freq : List ℕ)
    (coded : AreCoders d1_coder data_size_coder data_size_freq) (n_cells : ℕ)
    (small : n_cells < 2 ^ 31) where
  -- The bytes that try_read_data fills are those of the cell.
  filled_bytes :
      (i : ℕ) (c : MyCell) (p : BitPtr)
      → IsCell n_cells (length data_size_freq) i c
      → Ahead p (bits_at c.bytes 0 c.cnt_bits)
      → ((move_bits ops zc d1_coder data_size_coder n_cells c.cnt_bits p
            (record { ptr = resize ((c.cnt_bits + 7) / 8) []; offs = 0 })).0
          ≡ advance p c.cnt_bits)
        × ((move_bits ops zc d1_coder data_size_coder n_cells c.cnt_bits p
              (record { ptr = resize ((c.cnt_bits + 7) / 8) []; offs = 0 })).1.ptr
            ≡ c.bytes)
  filled_bytes i c p own a =
      let n : ℕ = c.cnt_bits in
      let k : ℕ = (n + 7) / 8 in
      let target : BitPtr = record { ptr = resize k []; offs = 0 } in
      let zeroes = resize-nil k in
      let fresh : length target.ptr ≡ k = ap length zeroes ∙ length-replicate k 0 in
      let size = length-bits_at c.bytes 0 n in
      let (moved, filled) =
        move_bits-Appends ops laws zc d1_coder data_size_coder n_cells n p target
          (omega (arith, a.within)) (omega arith) in
      let out : BitPtr = (move_bits ops zc d1_coder data_size_coder n_cells n p target).1 in
      let end : out.offs ≡ n = filled.moved ∙ omega (arith, length-bits_at p.ptr p.offs n) in
      let content : bits_at out.ptr 0 n ≡ bits_at c.bytes 0 n =
        ap (bits_at out.ptr 0) (sym end)
        ∙ filled.content
        ∙ ap (bits_at p.ptr p.offs) (sym size)
        ∙ a.content in
      (
        moved,
        bytes_eq out.ptr c.bytes (filled.size ∙ fresh ∙ sym own.enough)
            (filled.bytes (subst (All (λ x. x < 256)) (sym zeroes) (All-zeroes k))) own.all_bytes
            λ j. elim (dec_lt j n) [
              | yes inside ↦ bit_at-eq out.ptr c.bytes 0 n j content (omega arith) (omega arith)
              | no behind ↦
                  filled.kept j (omega arith)
                  ∙ ap (λ (l : List ℕ). bit_at l j) zeroes
                  ∙ bit_at-zeroes k j
                  ∙ sym (own.padded j (omega arith))
            ],
      )

  -- A field that is present is read from its bits.
  pub try_read-Ahead :
      (f : FieldType) (i : ℕ) (c : MyCell) (rest : List ℕ) (s : State)
      → is_end f ≡ false
      → IsCell n_cells (length data_size_freq) i c
      → i < n_cells
      → cell_at s i ≡ before f c
      → present f (before f c) ≡ true
      → Ahead s.out_bits (field_bits zc d1_coder data_size_coder n_cells f i c ++ rest)
      → s.out_bits.offs + length (field_bits zc d1_coder data_size_coder n_cells f i c)
        ≤ s.write_ptr
      → try_read ops zc d1_coder data_size_coder n_cells f s i
        ≡ some (
            some (
              set_cell s i (before (next_field f) c) (
                advance s.out_bits
                  (length (field_bits zc d1_coder data_size_coder n_cells f i c)))))
  unfolding try_read d1_freq
  try_read-Ahead field_none i c rest s end own here at some_bits a room = absurd (cc)
  try_read-Ahead d1_field i c rest s end own here at some_bits a room =
      let (low, high, code) = d1_parts c own.few in
      let q : BitPtr = advance s.out_bits (length (code_bits d1_coder (d1 c))) in
      let got =
        decode_symbol-Ahead ops laws d1_freq d1_coder s.out_bits (d1 c) s.write_ptr rest
          coded.d1_coded (omega arith) a room in
      try_read_d1-some ops laws zc d1_coder data_size_coder n_cells s i (d1 c) q got
        (omega (arith, own.few))
      ∙ ap
          (λ (x : MyCell). some (
            some (
              set_cell s i
                (record x { cnt_refs = d1 c % 8; is_special = not (shr (d1 c) 3 % 2 == 0) }) q)))
          at
      ∙ ap
          (λ (k : ℕ). some (
            some (
              set_cell s i
                (record blank_cell { cnt_refs = k; is_special = not (shr (d1 c) 3 % 2 == 0) }) q)))
          low
      ∙ ap
          (λ (b : Bool).
            some
              (some (set_cell s i (record blank_cell { cnt_refs = c.cnt_refs; is_special = b }) q)))
          high
  try_read-Ahead data_size_field i c rest s end own here at some_bits a room =
      let q : BitPtr = advance s.out_bits (length (code_bits data_size_coder c.cnt_bits)) in
      let got =
        decode_symbol-Ahead ops laws data_size_freq data_size_coder s.out_bits c.cnt_bits
          s.write_ptr rest coded.sizes_coded own.sized a room in
      try_read_data_size-some ops laws zc d1_coder data_size_coder n_cells s i c.cnt_bits q got
      ∙ ap (λ (x : MyCell). some (some (set_cell s i (record x { cnt_bits = c.cnt_bits }) q))) at
  try_read-Ahead refs_field i c rest s end own here at some_bits a room =
      let refs : List ℕ = take c.cnt_refs c.refs in
      let size = length-ref_bits ops laws zc zlaws n_cells i small here refs in
      let width : ℕ = ref_width zc n_cells in
      let zero_slots : List ℕ = 0 ∷ 0 ∷ 0 ∷ 0 ∷ [] in
      let front = Ahead-front s.out_bits (ref_bits zc n_cells i refs) rest a in
      let got =
        read_refs-Ahead ops laws zc zlaws n_cells i small here d1_coder data_size_coder refs 0
          s.write_ptr s.out_bits zero_slots own.valid front (omega arith) in
      let filled : fill 0 refs zero_slots ≡ c.refs =
        fill_slots refs (omega (arith, own.listed, own.few))
        ∙ ap (λ (k : ℕ). refs ++ replicate (4 - k) 0) own.listed
        ∙ sym own.slots in
      let q : BitPtr = advance s.out_bits (length (ref_bits zc n_cells i refs)) in
      let stop : advance s.out_bits (length refs * width) ≡ q =
        ap (advance s.out_bits) (sym size) in
      let all =
        got
        ∙ ap (λ (l : List ℕ). some (l, advance s.out_bits (length refs * width))) filled
        ∙ ap (λ (r : BitPtr). some (c.refs, r)) stop in
      let count : length refs ≡ (cell_at s i).cnt_refs =
        own.listed ∙ sym (ap (λ (x : MyCell). x.cnt_refs) at) in
      try_read_refs-some ops laws zc zlaws n_cells i small here d1_coder data_size_coder s c.refs q
        (omega (arith, ltb→lt 0 c.cnt_refs some_bits, own.listed))
        (subst
          (λ n.
            read_refs ops zc d1_coder data_size_coder n_cells n 0 i s.write_ptr s.out_bits
              zero_slots
            ≡ some (c.refs, q))
          count all)
      ∙ ap (λ (x : MyCell). some (some (set_cell s i (record x { refs = c.refs }) q))) at
  try_read-Ahead data_field i c rest s end own here at some_bits a room =
      let bits : List ℕ = bits_at c.bytes 0 c.cnt_bits in
      let size = length-bits_at c.bytes 0 c.cnt_bits in
      let count : (cell_at s i).cnt_bits ≡ c.cnt_bits = ap (λ (x : MyCell). x.cnt_bits) at in
      let (moved, filled) = filled_bytes i c s.out_bits own (Ahead-front s.out_bits bits rest a) in
      let out = λ (x : MyCell).
        move_bits ops zc d1_coder data_size_coder n_cells x.cnt_bits s.out_bits
          (record { ptr = resize ((x.cnt_bits + 7) / 8) x.bytes; offs = 0 }) in
      try_read_data-some ops laws zc d1_coder data_size_coder n_cells s i
        (omega (arith, ltb→lt 0 c.cnt_bits some_bits)) (omega arith)
      ∙ ap
          (λ (x : MyCell).
            some (some (set_cell s i (record x { bytes = (out x).1.ptr }) (out x).0)))
          at
      ∙ ap
          (λ (l : List ℕ).
            some (some (set_cell s i (record c { bytes = l }) (out (before data_field c)).0)))
          filled
      ∙ ap (λ (q : BitPtr). some (some (set_cell s i c q)))
          (moved ∙ ap (advance s.out_bits) (sym size))
