-- ===== src/Huffman/RoundTrip.antt =====
-- Writing a symbol and reading it back, for the coder of any table of frequencies.
use mara_ton_contest_solutio.Common.{
  ℕ, zero, suc, append-nil, ◌+◌, ◌*◌, ◌≤◌, ◌<◌, ◌≡◌, refl, ap, ◌∙◌, none, some, List, [], ◌∷◌, ◌++◌,
  length, subst, sym, arith, none_u32, ltb, if◌then◌else◌,
}
use mara_ton_contest_solutio.Bits.{BitOps, BitLaws, BitPtr}
use mara_ton_contest_solutio.Bits.Stream.{Fits, Ahead, Ahead-seek, Ahead-front, advance-seek, seek}
use mara_ton_contest_solutio.Huffman.{HuffmanEncoderDecoder, new, encode_symbol, decode_symbol}
use mara_ton_contest_solutio.Huffman.Codes.{height, length-path_to}
use mara_ton_contest_solutio.Huffman.Trees.{leaves, occ, build_tree-IsTreeOf}
use mara_ton_contest_solutio.Huffman.Depth.{height-lt-leaves}
use mara_ton_contest_solutio.Huffman.Walk.{
  code_bits, IsCoderOf, new-IsCoderOf, new_low, encode_symbol-Appends, decode_symbol-Ahead,
  decode_symbol_cut, code_bits-pos,
}

split_at :
    (n : ℕ) (xs : List ℕ)
    → n < length xs
    → (front : List ℕ) × (x : ℕ) × (back : List ℕ) × (xs ≡ front ++ (x ∷ back)) × (length front ≡ n)
split_at n [] h = absurd (omega arith)
split_at zero (x ∷ xs) h = ([], x, xs, refl, refl)
split_at (suc n) (x ∷ xs) h =
    let (front, y, back, e, l) = split_at n xs (omega arith) in
    (x ∷ front, y, back, ap (λ (t : List ℕ). x ∷ t) e, ap suc l)

-- A table of 1 to 65 symbols always gets a coder: the loop that merges nodes ends, and no CHECK fails,
-- neither that on two nodes that agree nor that on the length of a code. No leaf of the tree is
-- deeper than 64, the tree has as many leaves as the table has symbols, and a number s stands at
-- exactly one leaf if it is a symbol of the table, and at none if it is not.
pub new-eq_some :
    (freqs : List ℕ) (s : ℕ)
    → 0 < length freqs
    → length freqs ≤ 65
    → (coder : HuffmanEncoderDecoder) × (new freqs ≡ some coder)
      × (leaves coder.root ≡ length freqs)
      × (occ s coder.root ≡ (if ltb s (length freqs) then 1 else 0))
      × (height coder.root ≤ 64)
new-eq_some freqs s pos few =
    let (tree, e, t) = build_tree-IsTreeOf freqs pos (omega arith) in
    let (coder, made, c, _) =
      new_low freqs tree e t (omega (arith, height-lt-leaves tree, t.counted)) in
    (coder, made, c.tree.counted, ground (arith, c.tree.occurs s), c.low)

module _ (ops : BitOps) (laws : BitLaws ops) where
  -- For every table of 2 to 2^32 - 1 symbols whose coder is built, and every symbol s of it: where
  -- 64 bits fit in a string of fewer than 2^32 bits, encode_symbol succeeds, moves the pointer by
  -- the 1 to 64 bits that it reports, and decode_symbol from the old position returns s and stops at
  -- the new one.
  pub decode-encode :
      (freqs : List ℕ) (coder : HuffmanEncoderDecoder) (p : BitPtr) (s : ℕ)
      → 1 < length freqs
      → length freqs ≤ none_u32
      → new freqs ≡ some coder
      → s < length freqs
      → Fits p 64
      → 8 * length p.ptr ≤ none_u32
      → (p' : BitPtr) × (n : ℕ) × (encode_symbol ops coder p s ≡ some (p', n))
        × ((0 < n) × (n ≤ 64) × (p'.offs ≡ p.offs + n))
        × (decode_symbol ops coder (seek p' p.offs) none_u32 ≡ some (some s, p'))
  decode-encode freqs coder p s two fits e h room small =
      let c = new-IsCoderOf freqs (omega arith) fits e in
      let bits : List ℕ = code_bits coder s in
      let short : length bits ≤ 64 = omega (arith, length-path_to s coder.root, c.low) in
      let (p', sent, a) = encode_symbol-Appends ops laws freqs coder p s c two h (omega arith) in
      (
        p',
        length bits,
        sent,
        (code_bits-pos freqs coder s c two, short, a.moved),
        decode_symbol-Ahead ops laws freqs coder (seek p' p.offs) s none_u32 [] c h
              (rw (append-nil bits) (Ahead-seek p p' bits (omega arith) a))
              (unfold seek in omega arith)
            ∙ ap (λ (q : BitPtr). some (some s, q)) (advance-seek p p' bits a),
      )

  -- For every table of 2 to 2^32 - 1 symbols whose coder is built, and a symbol of it that
  -- encode_symbol wrote in n bits where 64 fit: decode_symbol from the old position, with the end of
  -- the bits at fewer than n bits from there, answers -1u and leaves the pointer where it was.
  pub decode_cut :
      (freqs : List ℕ) (coder : HuffmanEncoderDecoder) (p : BitPtr) (s : ℕ) (p' : BitPtr) (n : ℕ)
      (k : ℕ)
      → 1 < length freqs
      → length freqs ≤ none_u32
      → new freqs ≡ some coder
      → s < length freqs
      → Fits p 64
      → encode_symbol ops coder p s ≡ some (p', n)
      → k < n
      → decode_symbol ops coder (seek p' p.offs) (p.offs + k) ≡ some (none, seek p' p.offs)
  decode_cut freqs coder p s p' n k two fits e h room sent cut =
      let c = new-IsCoderOf freqs (omega arith) fits e in
      let bits : List ℕ = code_bits coder s in
      let short : length bits ≤ 64 = omega (arith, length-path_to s coder.root, c.low) in
      let (q, sent', a) = encode_symbol-Appends ops laws freqs coder p s c two h (omega arith) in
      let (front, x, back, parts, size) = split_at k bits (ground arith) in
      let whole : Ahead (seek q p.offs) (front ++ (x ∷ back)) =
        subst (Ahead (seek q p.offs)) parts (Ahead-seek p q bits (omega arith) a) in
      let same : q ≡ p' = cc in
      subst
        (λ (r : BitPtr).
          decode_symbol ops coder (seek r p.offs) (p.offs + k) ≡ some (none, seek r p.offs))
        same
        (ap (λ (m : ℕ). decode_symbol ops coder (seek q p.offs) (p.offs + m)) (sym size)
          ∙ stop q front x back c parts (Ahead-front (seek q p.offs) front (x ∷ back) whole))
    where
      stop :
          (q : BitPtr) (front : List ℕ) (x : ℕ) (back : List ℕ)
          → IsCoderOf freqs coder
          → code_bits coder s ≡ front ++ (x ∷ back)
          → Ahead (seek q p.offs) front
          → decode_symbol ops coder (seek q p.offs) (p.offs + length front)
            ≡ some (none, seek q p.offs)
      stop q front x back c e' a =
          ap (λ (o : ℕ). decode_symbol ops coder (seek q p.offs) (o + length front)) {x = p.offs}
            {y = (seek q p.offs).offs} (unfold seek in refl)
          ∙ decode_symbol_cut ops laws freqs coder (seek q p.offs) s front x back c h e' a
