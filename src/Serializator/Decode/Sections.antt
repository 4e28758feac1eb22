-- ===== src/Serializator/Decode/Sections.antt =====
-- advance_cells_read on what my_cells_to_bit_str writes: cell by cell, section by section.
use mara_ton_contest_solutio.Common.{
  ℕ, zero, suc, ◌+◌, ◌*◌, ◌^◌, ◌≤◌, ◌<◌, ◌≡◌, refl, sym, ap, ◌∙◌, true, false, some, List, [], ◌∷◌,
  ◌++◌, map, append_assoc, append-nil, inl, inr, Bool-cases, length, length-append, get_or, set,
  subst, arith,
}
use mara_ton_contest_solutio.Bits.{BitOps, BitLaws, BitPtr}
use mara_ton_contest_solutio.Bits.Stream.{
  Ahead, Ahead-advance, advance, advance_zero, advance-advance,
}
use mara_ton_contest_solutio.Utils.{ZeroCounts, ZeroLaws}
use mara_ton_contest_solutio.Huffman.{HuffmanEncoderDecoder}
use mara_ton_contest_solutio.Serializator.Cell.{MyCell, blank_cell}
use mara_ton_contest_solutio.Serializator.Layout.{
  FieldType, field_none, d1_field, data_size_field, refs_field, data_field, SerializeMetaData,
}
use mara_ton_contest_solutio.Serializator.Decode.Meta.{
  next_field, wrapped, next_meta_dummy, present, is_present, predict_next_meta,
}
use mara_ton_contest_solutio.Serializator.Decode.Fields.{
  State, cell_at, set_cell, is_end, read_fields,
}
use mara_ton_contest_solutio.Serializator.Decode.Places.{rank, InRange, next_rank}
use mara_ton_contest_solutio.Serializator.Decode.Cursor.{
  place, next-inside, next-last, Looks, Looks-absent, Looks-read, Rounds, read_fields-Rounds,
}
use mara_ton_contest_solutio.Serializator.Decode.Written.{
  IsCell, AreCells, AreCoders, field_bits, section_bits,
}
use mara_ton_contest_solutio.Serializator.Decode.Readers.{before, absent, try_read-Ahead}

module _ {ℓ} {A : Type ℓ} where
  get_or-middle :
      (xs ys : List A) (x d : A) (i : ℕ) → length xs ≡ i → get_or (xs ++ (x ∷ ys)) i d ≡ x
  get_or-middle [] ys x d zero e = refl
  get_or-middle [] ys x d (suc i) e = absurd (omega arith)
  get_or-middle (a ∷ xs) ys x d zero e = absurd (omega arith)
  get_or-middle (a ∷ xs) ys x d (suc i) e = get_or-middle xs ys x d i (omega arith)

  set-middle :
      (xs ys : List A) (x y : A) (i : ℕ) → length xs ≡ i → set (xs ++ (x ∷ ys)) i y ≡ xs ++ (y ∷ ys)
  set-middle [] ys x y zero e = refl
  set-middle [] ys x y (suc i) e = absurd (omega arith)
  set-middle (a ∷ xs) ys x y zero e = absurd (omega arith)
  set-middle (a ∷ xs) ys x y (suc i) e = ap (λ l. a ∷ l) (set-middle xs ys x y i (omega arith))

rank_bounds :
    (n i : ℕ) (f : FieldType)
    → is_end f ≡ false
    → i < n
    → InRange n f i × (rank n f i < 5 * n) × (n ≤ rank n f i)
rank_bounds n i field_none h here = absurd (cc)
rank_bounds n i d1_field h here = (here, omega arith, omega arith)
rank_bounds n i data_size_field h here = (here, omega arith, omega arith)
rank_bounds n i refs_field h here = (here, omega arith, omega arith)
rank_bounds n i data_field h here = (here, omega arith, omega arith)

pub advance-offs : (p : BitPtr) (k : ℕ) → (advance p k).offs ≡ p.offs + k
unfolding advance
advance-offs p k = refl

module _ (ops : BitOps) (laws : BitLaws ops) (zc : ZeroCounts) (zlaws : ZeroLaws zc)
    (d1_coder data_size_coder : HuffmanEncoderDecoder) (data_size_freq : List ℕ)
    (coded : AreCoders d1_coder data_size_coder data_size_freq) (n_cells : ℕ)
    (small : n_cells < 2 ^ 31) where
  -- At most `bound` rounds lead from s to a state that knows these cells, has passed `size` bits and
  -- looks at m.
  pub record Reads (bound : ℕ) (s : State) (cells : List MyCell) (size : ℕ) (m : SerializeMetaData)
      : Type 0 where
    pub rounds : ℕ
    pub few : rounds ≤ bound
    pub after : State
    pub reached : Rounds ops zc d1_coder data_size_coder n_cells rounds s after
    pub content : after.my_cells ≡ cells
    pub moved : after.out_bits ≡ advance s.out_bits size
    pub kept : after.write_ptr ≡ s.write_ptr
    pub looks : Looks n_cells after m

  pub Reads-trans :
      {a b : ℕ} {s : State} {cells cells' : List MyCell} {size size' : ℕ} {m m' : SerializeMetaData}
      (r : Reads a s cells size m)
      → Reads b r.after cells' size' m'
      → Reads (a + b) s cells' (size + size') m'
  Reads-trans {s = s} {size = size} {size' = size'} r q = record {
    rounds = r.rounds + q.rounds;
    few = omega (arith, r.few, q.few);
    after = q.after;
    reached = λ x y e. r.reached x (q.rounds + y) (omega arith) ∙ q.reached (q.rounds + y) y refl;
    content = q.content;
    moved = q.moved ∙ ap (λ p. advance p size') r.moved ∙ advance-advance s.out_bits size size';
    kept = q.kept ∙ r.kept;
    looks = q.looks;
  }

  cell-Reads :
      (f : FieldType) (i : ℕ) (c : MyCell) (done tail : List MyCell) (rest : List ℕ) (s : State)
      → is_end f ≡ false
      → IsCell n_cells (length data_size_freq) i c
      → length done ≡ i
      → i < n_cells
      → s.my_cells ≡ done ++ (before f c ∷ tail)
      → Ahead s.out_bits (field_bits zc d1_coder data_size_coder n_cells f i c ++ rest)
      → s.out_bits.offs + length (field_bits zc d1_coder data_size_coder n_cells f i c)
        ≤ s.write_ptr
      → Looks n_cells s (place f i)
      → Reads 1 s
          (done ++ (before (next_field f) c ∷ tail))
          (length (field_bits zc d1_coder data_size_coder n_cells f i c))
          (next_meta_dummy n_cells (place f i))
  unfolding is_present
  cell-Reads f i c done tail rest s end own place_of here known a room l =
      let (own_range, low, high) = rank_bounds n_cells i f end here in
      let (later, _) = next_rank n_cells f i own_range low (omega arith) in
      let at : cell_at s i ≡ before f c =
        ap (λ (x : List MyCell). get_or x i blank_cell) known
        ∙ get_or-middle done tail (before f c) blank_cell i place_of in
      elim (Bool-cases (present f (before f c))) [
        | inl there ↦
            let shown : is_present s.my_cells (place f i) ≡ true = ap (present f) at ∙ there in
            let found : predict_next_meta n_cells s.my_cells s.last_read_meta ≡ some (place f i) =
              l.found ∙ rw shown refl in
            let got =
              try_read-Ahead ops laws zc zlaws d1_coder data_size_coder data_size_freq coded n_cells
                small f i c rest s end own here at there a room in
            let (metas, reached) =
              read_fields-Rounds ops zc d1_coder data_size_coder n_cells f i s
                (set_cell s i (before (next_field f) c) (
                  advance s.out_bits
                    (length (field_bits zc d1_coder data_size_coder n_cells f i c))))
                end found got in
            record {
              rounds = 1;
              few = omega arith;
              after = _;
              reached = reached;
              content =
                  ap (λ (x : List MyCell). set x i (before (next_field f) c)) known
                  ∙ set-middle done tail (before f c) (before (next_field f) c) i place_of;
              moved = refl;
              kept = refl;
              looks = Looks-read n_cells i f _ here small refl (omega arith);
            }
        | inr missing ↦
            let shown : is_present s.my_cells (place f i) ≡ false = ap (present f) at ∙ missing in
            let (none_left, same) =
              absent zc d1_coder data_size_coder n_cells (length data_size_freq) i f c own
                missing in
            record {
              rounds = 0;
              few = omega arith;
              after = s;
              reached = λ x y e.
                  ap (λ (k : ℕ). read_fields ops zc d1_coder data_size_coder n_cells k s) {x = x}
                    {y = y} (omega arith);
              content = known ∙ ap (λ (b : MyCell). done ++ (b ∷ tail)) same;
              moved =
                  sym (advance_zero s.out_bits)
                  ∙ ap (λ (b : List ℕ). advance s.out_bits (length b)) (sym none_left);
              kept = refl;
              looks = Looks-absent n_cells s (place f i) l shown low later;
            }
      ]

  Reads-eq :
      {k k' : ℕ} {s : State} {cells cells' : List MyCell} {size size' : ℕ}
      {m m' : SerializeMetaData}
      → Reads k s cells size m
      → k ≤ k'
      → cells ≡ cells'
      → size ≡ size'
      → m ≡ m'
      → Reads k' s cells' size' m'
  Reads-eq {s = s} r h e e' e'' = record {
    rounds = r.rounds;
    few = omega (arith, r.few);
    after = r.after;
    reached = r.reached;
    content = r.content ∙ e;
    moved = r.moved ∙ ap (advance s.out_bits) e';
    kept = r.kept;
    looks = subst (Looks n_cells r.after) e'' r.looks;
  }

  -- A section, from a cell on that is not behind the end.
  pub section-Reads :
      (f : FieldType) (i : ℕ) (c : MyCell) (cells done : List MyCell) (rest : List ℕ) (s : State)
      → is_end f ≡ false
      → AreCells n_cells (length data_size_freq) i (c ∷ cells)
      → length done ≡ i
      → i + length (c ∷ cells) ≡ n_cells
      → s.my_cells ≡ done ++ map (before f) (c ∷ cells)
      → Ahead s.out_bits (section_bits zc d1_coder data_size_coder n_cells f i (c ∷ cells) ++ rest)
      → s.out_bits.offs + length (section_bits zc d1_coder data_size_coder n_cells f i (c ∷ cells))
        ≤ s.write_ptr
      → Looks n_cells s (place f i)
      → Reads
          (length (c ∷ cells))
          s
          (done ++ map (before (next_field f)) (c ∷ cells))
          (length (section_bits zc d1_coder data_size_coder n_cells f i (c ∷ cells)))
          (place (next_field f) (wrapped f))
  section-Reads f i c [] done rest s end (own, none_left) place_of total known a room l =
      let bits : List ℕ = field_bits zc d1_coder data_size_coder n_cells f i c in
      let nil : bits ≡ bits ++ [] = sym (append-nil bits) in
      let r =
        cell-Reads f i c done [] rest s end own place_of (omega arith) known
          (subst (λ b. Ahead s.out_bits (b ++ rest)) (sym nil) a)
          (subst (λ b. s.out_bits.offs + length b ≤ s.write_ptr) (sym nil) room) l in
      Reads-eq r (omega arith) refl (ap length nil) (next-last n_cells i f (omega arith) small)
  section-Reads f i c (d ∷ cells) done rest s end (own, owns) place_of total known a room l =
      let y : MyCell = before (next_field f) c in
      let bits : List ℕ = field_bits zc d1_coder data_size_coder n_cells f i c in
      let others : List ℕ =
        section_bits zc d1_coder data_size_coder n_cells f (i + 1) (d ∷ cells) in
      let size = length-append bits others in
      let ahead = subst (Ahead s.out_bits) (append_assoc bits others rest) a in
      let r =
        Reads-eq {k' = 1}
          (cell-Reads f i c done (map (before f) (d ∷ cells)) (others ++ rest) s end own place_of
            (omega arith) known ahead (omega arith) l)
          (omega arith) (sym (append_assoc done (y ∷ []) (map (before f) (d ∷ cells)))) refl
          (next-inside n_cells i f (omega arith) small) in
      let q =
        section-Reads f (i + 1) d cells (done ++ (y ∷ [])) rest r.after end owns
          (omega (arith, length-append done (y ∷ []))) (omega arith) r.content
          (subst (λ p. Ahead p (others ++ rest)) (sym r.moved)
            (Ahead-advance s.out_bits bits (others ++ rest) ahead))
          (omega (
            arith,
            ap (λ (p : BitPtr). p.offs) r.moved,
            advance-offs s.out_bits (length bits),
            r.kept,
          ))
          r.looks in
      Reads-eq (Reads-trans r q) (omega arith)
        (append_assoc done (y ∷ []) (map (before (next_field f)) (d ∷ cells))) (sym size) refl
