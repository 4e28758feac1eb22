-- ===== src/Huffman/Walk.antt =====
-- What the coder of a table writes for a symbol, and the walk down the tree that reads it.
use mara_ton_contest_solutio.Common.{
  ℕ, suc, ◌+◌, ◌%◌, ◌≤◌, ◌<◌, ◌≡◌, refl, ap, ◌∙◌, inl, inr, Option, none, some, List, [], ◌∷◌, ◌++◌,
  ltb, leb, ◌==◌, if◌then◌else◌, length, replicate, length-replicate, get_or, Bool-cases, le→leb,
  lt→ltb, ltb→lt, ltb→le, >>=-eq_some, sym, arith, subst, Bool, true, false, not, none_u32,
}
use mara_ton_contest_solutio.Bits.{of_bits, BitOps, BitLaws, BitPtr, write, read}
use mara_ton_contest_solutio.Bits.Stream.{
  Fits, Appends, Ahead, seek, advance, advance_zero, advance-advance, Ahead-advance, write-Appends,
  read-Ahead, uint_bits-of_bits,
}
use mara_ton_contest_solutio.Huffman.{
  build_tree, Node, leaf, branch, dfs, HuffmanEncoderDecoder, new, encode_symbol, walk,
  decode_symbol,
}
use mara_ton_contest_solutio.Huffman.Trees.{occ, leaves, IsTreeOf, build_tree-IsTreeOf}
use mara_ton_contest_solutio.Huffman.Codes.{
  path_to, path_to-IsBit, length-path_to, height, Coded, dfs-Coded,
}
use mara_ton_contest_solutio.Huffman.Depth.{height_of_dfs}

-- The string of bits that a coder has for a symbol.
abbrev pub code_bits : HuffmanEncoderDecoder → ℕ → List ℕ
code_bits coder s = path_to s coder.root

pub record IsCoderOf (freqs : List ℕ) (coder : HuffmanEncoderDecoder) : Type 0 where
  pub tree : IsTreeOf freqs coder.root
  pub low : height coder.root ≤ 64
  pub coded : Coded coder.root 0 0 (replicate (length freqs) (0, 0)) coder.codes

occ-one :
    (freqs : List ℕ) (tree : Node) (s : ℕ) → IsTreeOf freqs tree → s < length freqs → occ s tree ≡ 1
occ-one freqs tree s t h = ground (arith, t.occurs s)

-- A path starts at every node with two leaves or more.
path_to-pos : (s : ℕ) (v : Node) → 2 ≤ leaves v → 0 < length (path_to s v)
path_to-pos s (leaf t f) h = absurd (omega arith)
path_to-pos s (branch l r f m d) h = ground arith

pub code_bits-pos :
    (freqs : List ℕ) (coder : HuffmanEncoderDecoder) (s : ℕ)
    → IsCoderOf freqs coder
    → 1 < length freqs
    → 0 < length (code_bits coder s)
code_bits-pos freqs coder s c two = path_to-pos s coder.root (omega (arith, c.tree.counted))

-- Whatever the constructor returns is the coder of its table.
pub new-IsCoderOf :
    (freqs : List ℕ) {coder : HuffmanEncoderDecoder}
    → 0 < length freqs
    → length freqs ≤ none_u32
    → new freqs ≡ some coder
    → IsCoderOf freqs coder
unfolding new
new-IsCoderOf freqs {coder} pos fits h =
    let (tree, e, t) = build_tree-IsTreeOf freqs pos fits in
    let empty : List (ℕ × ℕ) = replicate (length freqs) (0, 0) in
    let (filled, d, made) = >>=-eq_some (dfs tree 0 0 empty) _ (rw e at h) in
    let low = height_of_dfs tree 0 0 empty (omega arith) (omega (arith, t.counted)) d in
    let (codes, d', c) = dfs-Coded tree 0 0 empty low (omega arith) in
    subst (IsCoderOf freqs) {x = record { codes = codes; root = tree }} (cc)
      (record { tree = t; low = omega arith; coded = c })

-- A tree that is low enough always becomes a coder.
pub new_low :
    (freqs : List ℕ) (tree : Node)
    → build_tree freqs ≡ some tree
    → IsTreeOf freqs tree
    → height tree ≤ 64
    → (coder : HuffmanEncoderDecoder) × (new freqs ≡ some coder)
      × IsCoderOf freqs coder
      × (coder.root ≡ tree)
unfolding new
new_low freqs tree e t low =
    let (codes, d, c) =
      dfs-Coded tree 0 0 (replicate (length freqs) (0, 0)) (omega arith) (omega arith) in
    (
      record { codes = codes; root = tree },
      rw (e, d) refl,
      record { tree = t; low = low; coded = c },
      refl,
    )

module _ (ops : BitOps) (laws : BitLaws ops) where
  -- What the encoder appends for a symbol of the table, and the length that it returns.
  pub encode_symbol-Appends :
      (freqs : List ℕ) (coder : HuffmanEncoderDecoder) (p : BitPtr) (s : ℕ)
      → IsCoderOf freqs coder
      → 1 < length freqs
      → s < length freqs
      → Fits p (length (code_bits coder s))
      → (p' : BitPtr) × (encode_symbol ops coder p s ≡ some (p', length (code_bits coder s)))
        × Appends p (code_bits coder s) p'
  unfolding encode_symbol
  encode_symbol-Appends freqs coder p s c two h fits =
      let bits : List ℕ = code_bits coder s in
      let given : get_or coder.codes s (0, 0) ≡ (of_bits 0 bits, length bits) =
        c.coded.given s (occ-one freqs coder.root s c.tree h)
          (omega (arith, length-replicate {0} {A = ℕ × ℕ} (length freqs) (0, 0)))
        ∙ ap (λ (n : ℕ). (of_bits 0 bits, n)) (omega arith) in
      let nonempty = path_to-pos s coder.root (omega (arith, c.tree.counted)) in
      let short : length bits ≤ 64 = omega (arith, length-path_to s coder.root, c.low) in
      (
        write ops p (of_bits 0 bits) (length bits),
        rw (given, lt→ltb 0 (length bits) nonempty) refl,
        subst (λ l. Appends p l (write ops p (of_bits 0 bits) (length bits)))
            (uint_bits-of_bits bits (path_to-IsBit s coder.root))
            (write-Appends ops laws p (of_bits 0 bits) (length bits) short fits),
      )

  -- One step of the walk: the next bit says which side to take.
  walk_step :
      (l r : Node) (f m d b ptr_len initial_offs : ℕ) (p : BitPtr) (rest : List ℕ)
      → b < 2
      → Ahead p (b ∷ rest)
      → p.offs < ptr_len
      → walk ops (branch l r f m d) ptr_len initial_offs p ≡ (
          if b == 0
          then walk ops l ptr_len initial_offs (advance p 1)
          else walk ops r ptr_len initial_offs (advance p 1))
  unfolding walk
  walk_step l r f m d b ptr_len initial_offs p rest hb a more =
      let bit : b % 2 ≡ b = omega arith in
      let got : read ops p 1 ≡ (b, advance p 1) =
        read-Ahead ops laws p b 1 rest (omega arith) (omega arith)
          (subst (λ x. Ahead p (x ∷ rest)) (sym bit) a) in
      rw (lt→leb p.offs ptr_len more, got) (not_if (b == 0) _ _)
    where
      lt→leb : (x y : ℕ) → x < y → leb y x ≡ false
      lt→leb x y h = ground arith

      not_if :
          (t : Bool) (x y : Option (Option ℕ × BitPtr))
          → (if not t then x else y) ≡ (if t then y else x)
      not_if true x y = refl
      not_if false x y = refl

  walk-Ahead :
      (v : Node) (s ptr_len initial_offs : ℕ) (p : BitPtr) (rest : List ℕ)
      → occ s v ≡ 1
      → Ahead p (path_to s v ++ rest)
      → p.offs + length (path_to s v) ≤ ptr_len
      → walk ops v ptr_len initial_offs p ≡ some (some s, advance p (length (path_to s v)))
  walk-Ahead (leaf t f) s ptr_len initial_offs p rest one a room =
      let same : t ≡ s = ground arith in
      unfold walk in rw (le→leb p.offs ptr_len (omega arith), same, advance_zero p) refl
  walk-Ahead (branch l r f m d) s ptr_len initial_offs p rest one a room =
      elim (Bool-cases (ltb 0 (occ s l))) [
        | inl here ↦
            let ahead : Ahead p (0 ∷ path_to s l ++ rest) = rw here at a in
            let space : p.offs + suc (length (path_to s l)) ≤ ptr_len = rw here at room in
            rw here (
              walk_step l r f m d 0 ptr_len initial_offs p (path_to s l ++ rest) (omega arith) ahead
                (omega arith)
              ∙ walk-Ahead l s ptr_len initial_offs (advance p 1) rest
                  (omega (arith, ltb→lt 0 (occ s l) here))
                  (Ahead-advance p (0 ∷ []) (path_to s l ++ rest) ahead)
                  (unfold advance in omega arith)
              ∙ ap (λ (q : BitPtr). some (some s, q))
                  (advance-advance p 1 (length (path_to s l))
                    ∙ ap (advance p) {x = 1 + length (path_to s l)} {y = suc (length (path_to s l))}
                        (omega arith)))
        | inr there ↦
            let ahead : Ahead p (1 ∷ path_to s r ++ rest) = rw there at a in
            let space : p.offs + suc (length (path_to s r)) ≤ ptr_len = rw there at room in
            rw there (
              walk_step l r f m d 1 ptr_len initial_offs p (path_to s r ++ rest) (omega arith) ahead
                (omega arith)
              ∙ walk-Ahead r s ptr_len initial_offs (advance p 1) rest
                  (omega (arith, ltb→le 0 (occ s l) there))
                  (Ahead-advance p (1 ∷ []) (path_to s r ++ rest) ahead)
                  (unfold advance in omega arith)
              ∙ ap (λ (q : BitPtr). some (some s, q))
                  (advance-advance p 1 (length (path_to s r))
                    ∙ ap (advance p) {x = 1 + length (path_to s r)} {y = suc (length (path_to s r))}
                        (omega arith)))
      ]

  -- The walk stops at `ptr_len` inside a code, and puts the pointer back.
  walk_cut :
      (v : Node) (s ptr_len initial_offs : ℕ) (p : BitPtr) (front : List ℕ) (x : ℕ) (back : List ℕ)
      → occ s v ≡ 1
      → path_to s v ≡ front ++ (x ∷ back)
      → Ahead p front
      → p.offs + length front ≡ ptr_len
      → walk ops v ptr_len initial_offs p ≡ some (none, seek p initial_offs)
  walk_cut (leaf t f) s ptr_len initial_offs p [] x back one e a room = cc
  walk_cut (leaf t f) s ptr_len initial_offs p (b ∷ front) x back one e a room = cc
  walk_cut (branch l r f m d) s ptr_len initial_offs p [] x back one e a room =
      unfold walk seek in ground arith
  walk_cut (branch l r f m d) s ptr_len initial_offs p (b ∷ front) x back one e a room =
      elim (Bool-cases (ltb 0 (occ s l))) [
        | inl here ↦
            let e' : 0 ∷ path_to s l ≡ b ∷ front ++ (x ∷ back) = rw here at e in
            let ahead : Ahead p (0 ∷ front) = subst (λ y. Ahead p (y ∷ front)) (cc) a in
            walk_step l r f m d 0 ptr_len initial_offs p front (omega arith) ahead (omega arith)
            ∙ walk_cut l s ptr_len initial_offs (advance p 1) front x back
                (omega (arith, ltb→lt 0 (occ s l) here)) (cc) (Ahead-advance p (0 ∷ []) front ahead)
                (unfold advance in omega arith)
            ∙ passed
        | inr there ↦
            let e' : 1 ∷ path_to s r ≡ b ∷ front ++ (x ∷ back) = rw there at e in
            let ahead : Ahead p (1 ∷ front) = subst (λ y. Ahead p (y ∷ front)) (cc) a in
            walk_step l r f m d 1 ptr_len initial_offs p front (omega arith) ahead (omega arith)
            ∙ walk_cut r s ptr_len initial_offs (advance p 1) front x back
                (omega (arith, ltb→le 0 (occ s l) there)) (cc)
                (Ahead-advance p (1 ∷ []) front ahead) (unfold advance in omega arith)
            ∙ passed
      ]
    where
      passed :
          ◌≡◌ {A = Option (Option ℕ × BitPtr)}
            (some (none, seek (advance p 1) initial_offs))
            (some (none, seek p initial_offs))
      passed = unfold advance seek in refl

  -- A decoder that meets the code of a symbol returns the symbol and passes the code.
  pub decode_symbol-Ahead :
      (freqs : List ℕ) (coder : HuffmanEncoderDecoder) (p : BitPtr) (s ptr_len : ℕ) (rest : List ℕ)
      → IsCoderOf freqs coder
      → s < length freqs
      → Ahead p (code_bits coder s ++ rest)
      → p.offs + length (code_bits coder s) ≤ ptr_len
      → decode_symbol ops coder p ptr_len ≡ some (some s, advance p (length (code_bits coder s)))
  unfolding decode_symbol
  decode_symbol-Ahead freqs coder p s ptr_len rest c h a room =
      walk-Ahead coder.root s ptr_len p.offs p rest (occ-one freqs coder.root s c.tree h) a room

  -- At the end of the bits, inside a code, it returns -1u and stays where it was.
  pub decode_symbol_cut :
      (freqs : List ℕ) (coder : HuffmanEncoderDecoder) (p : BitPtr) (s : ℕ) (front : List ℕ) (x : ℕ)
      (back : List ℕ)
      → IsCoderOf freqs coder
      → s < length freqs
      → code_bits coder s ≡ front ++ (x ∷ back)
      → Ahead p front
      → decode_symbol ops coder p (p.offs + length front) ≡ some (none, p)
  unfolding decode_symbol
  decode_symbol_cut freqs coder p s front x back c h e a =
      walk_cut coder.root s (p.offs + length front) p.offs p front x back
        (occ-one freqs coder.root s c.tree h) e a refl
      ∙ (unfold seek in refl)
