-- ===== src/Huffman/BytesRoundTrip.antt =====
-- decode_8 undoes encode_8.
use mara_ton_contest_solutio.Common.{
  ℕ, zero, suc, ◌+◌, ◌-◌, ◌*◌, ◌/◌, ◌%◌, ◌^◌, ◌≤◌, ◌<◌, ◌≡◌, refl, sym, ap, ◌∙◌, true, not, Option,
  none, some, List, [], ◌∷◌, ◌++◌, append_assoc, append-nil, ◌==◌, length, length-append, u32,
  none_u32, All, lt→ltb, le→ltb, le→leb, length-replicate, arith,
}
use mara_ton_contest_solutio.Bits.{shr, bits_at, IsByte, BitOps, BitLaws, BitPtr, write}
use mara_ton_contest_solutio.Bits.Stream.{
  Fits, Appends, Appends-none, Appends-trans, Ahead, Ahead-advance, advance, write-Appends,
}
use mara_ton_contest_solutio.Utils.{back}
use mara_ton_contest_solutio.Utils.Marks.{EndsMarked, back-bits, back-pos}
use mara_ton_contest_solutio.Utils.Closing.{fresh, zeroes, closed, closed-EndsMarked}
use native.Mathlib.Decide.{ℕ_discrete}
use mara_ton_contest_solutio.Huffman.{
  Node, HuffmanEncoderDecoder, new, build_tree, merge, insert_leaves, insert, join, cmp,
}
use mara_ton_contest_solutio.Huffman.Trees.{build_tree-IsTreeOf}
use mara_ton_contest_solutio.Huffman.Codes.{height, length-path_to}
use mara_ton_contest_solutio.Huffman.Walk.{
  code_bits, IsCoderOf, new_low, encode_symbol-Appends, decode_symbol-Ahead, code_bits-pos,
}
use mara_ton_contest_solutio.Huffman.Tables.{bytes_freq}
use mara_ton_contest_solutio.Huffman.Bytes.{
  drop_tail, encode_bytes, encode_8, decode_loop, decode_8,
}

-- The codes of a byte string, one after the other.
abbrev codes_of : HuffmanEncoderDecoder → List ℕ → List ℕ
codes_of coder [] = []
codes_of coder (b ∷ bs) = code_bits coder b ++ codes_of coder bs

-- No code is longer than 9 bits under `bytes_freq`.
bytes_tree_height : Option Node → ℕ
bytes_tree_height none = 0
bytes_tree_height (some t) = height t

bytes_freq-height : bytes_tree_height (build_tree bytes_freq) ≡ 9
unfolding bytes_tree_height build_tree merge insert_leaves insert join cmp bytes_freq
bytes_freq-height = refl

length-bytes_freq : length bytes_freq ≡ 256
unfolding bytes_freq
length-bytes_freq = refl

bytes_coder :
    (coder : HuffmanEncoderDecoder) × (new bytes_freq ≡ some coder)
    × IsCoderOf bytes_freq coder
    × (height coder.root ≤ 9)
unfolding bytes_tree_height
bytes_coder =
    let size = length-bytes_freq in
    let (tree, e, t) = build_tree-IsTreeOf bytes_freq (omega arith) (omega arith) in
    let low : height tree ≡ 9 = ap bytes_tree_height (sym e) ∙ bytes_freq-height in
    let (coder, made, c, same) = new_low bytes_freq tree e t (omega arith) in
    (coder, made, c, rw same (omega arith))

codes_of-length :
    (coder : HuffmanEncoderDecoder) (bs : List ℕ)
    → height coder.root ≤ 9
    → length (codes_of coder bs) ≤ 9 * length bs
codes_of-length coder [] low = omega arith
codes_of-length coder (b ∷ bs) low = omega (
  arith,
  length-append (code_bits coder b) (codes_of coder bs),
  length-path_to b coder.root,
  codes_of-length coder bs low,
)

-- The tail that `drop_tail` looks for, from position `tail` on.
drop_tail-eq :
    (last tail k left cnt : ℕ)
    → tail + left ≡ 8
    → tail ≤ k
    → k < 8
    → shr last k % 2 ≡ 1
    → ((j : ℕ) → j < k → shr last j % 2 ≡ 0)
    → drop_tail last tail left cnt ≡ cnt - (k + 1)
unfolding drop_tail
drop_tail-eq last tail k zero cnt e le lt one none_before = absurd (omega arith)
drop_tail-eq last tail k (suc left) cnt e le lt one none_before = elim (ℕ_discrete tail k) [
  | yes at ↦ rw (at, one) refl
  | no before ↦
      rw (none_before tail (omega arith))
        (drop_tail-eq last (tail + 1) k left cnt (omega arith) (omega arith) lt one none_before)
]

module _ (ops : BitOps) (laws : BitLaws ops) (coder : HuffmanEncoderDecoder) where
  encode_bytes-Appends :
      (bytes : List ℕ) (p : BitPtr)
      → IsCoderOf bytes_freq coder
      → All IsByte bytes
      → Fits p (length (codes_of coder bytes))
      → (q : BitPtr) × (encode_bytes ops coder bytes p ≡ some q)
        × Appends p (codes_of coder bytes) q
  unfolding encode_bytes
  encode_bytes-Appends [] p c a room = (p, refl, Appends-none p)
  encode_bytes-Appends (b ∷ bs) p c (hb, a) room =
      let split = length-append (code_bits coder b) (codes_of coder bs) in
      let size = length-bytes_freq in
      let (q, e, first) =
        encode_symbol-Appends ops laws bytes_freq coder p b c (omega arith) (omega arith)
          (omega (arith, split)) in
      let (r, e', second) =
        encode_bytes-Appends bs q c a (omega (arith, split, first.moved, first.size)) in
      (r, rw e e', Appends-trans first second)

  decode_loop-Ahead :
      (bytes : List ℕ) (fuel : ℕ) (p : BitPtr) (cnt_bits : ℕ) (result : List ℕ)
      → IsCoderOf bytes_freq coder
      → All IsByte bytes
      → Ahead p (codes_of coder bytes)
      → p.offs + length (codes_of coder bytes) ≡ cnt_bits
      → cnt_bits ≤ p.offs + fuel
      → cnt_bits ≤ none_u32
      → decode_loop ops fuel coder p cnt_bits result ≡ some (result ++ bytes)
  unfolding decode_loop
  decode_loop-Ahead [] zero p cnt_bits result c a ahead end enough small =
      rw (le→ltb p.offs cnt_bits (omega arith), append-nil result) refl
  decode_loop-Ahead [] (suc fuel) p cnt_bits result c a ahead end enough small =
      rw (le→ltb p.offs cnt_bits (omega arith), append-nil result) refl
  decode_loop-Ahead (b ∷ bs) zero p cnt_bits result c a ahead end enough small = absurd (
      omega (
        arith,
        length-append (code_bits coder b) (codes_of coder bs),
        code_bits-pos bytes_freq coder b c (omega (arith, length-bytes_freq)),
      ))
  decode_loop-Ahead (b ∷ bs) (suc fuel) p cnt_bits result c (hb, a) ahead end enough small =
      let split = length-append (code_bits coder b) (codes_of coder bs) in
      let pos = code_bits-pos bytes_freq coder b c (omega (arith, length-bytes_freq)) in
      let n : ℕ = length (code_bits coder b) in
      rw
        (
          lt→ltb p.offs cnt_bits (omega (arith, split, pos)),
          decode_symbol-Ahead ops laws bytes_freq coder p b none_u32 (codes_of coder bs) c
              (omega (arith, length-bytes_freq)) ahead (omega (arith, split)),
          byte_of b hb,
        )
        (decode_loop-Ahead bs fuel (advance p n) cnt_bits (result ++ (b ∷ [])) c a
            (Ahead-advance p (code_bits coder b) (codes_of coder bs) ahead)
            (unfold advance in omega (arith, split)) (unfold advance in omega (arith, split, pos))
            small
          ∙ ap some (append_assoc result (b ∷ []) bs))
    where
      byte_of : (x : ℕ) → x < 256 → x % 256 ≡ x
      byte_of x h = omega arith

module _ (ops : BitOps) (laws : BitLaws ops) (coder : HuffmanEncoderDecoder) where
  -- What encode_8 returns holds the codes and a marker.
  encode_8-EndsMarked :
      (bytes : List ℕ)
      → new bytes_freq ≡ some coder
      → IsCoderOf bytes_freq coder
      → height coder.root ≤ 9
      → 0 < length bytes
      → All IsByte bytes
      → (out : List ℕ) × (encode_8 ops bytes ≡ some out)
        × (length out ≤ 2 * length bytes)
        × EndsMarked out (length (codes_of coder bytes))
        × (bits_at out 0 (length (codes_of coder bytes)) ≡ codes_of coder bytes)
  unfolding encode_8
  encode_8-EndsMarked bytes made c low pos a =
      let size : ℕ = length bytes * 2 in
      let n = codes_of-length coder bytes low in
      let full : length (zeroes size) ≡ size = length-replicate size 0 in
      let (p, sent, body) =
        encode_bytes-Appends ops laws coder bytes (fresh size) c a (omega arith) in
      let q : BitPtr = write ops p 1 1 in
      let last =
        write-Appends ops laws p 1 1 (omega arith) (omega (arith, body.size, body.moved)) in
      let all = Appends-trans body last in
      let (marked, content) = closed-EndsMarked size q (codes_of coder bytes) all (omega arith) in
      let fits : (q.offs + 7) / 8 ≤ length q.ptr =
        omega (arith, body.size, body.moved, last.size, last.moved) in
      (
        closed q,
        rw (made, sent, le→leb ((q.offs + 7) / 8) (length q.ptr) fits) refl,
        omega (arith, marked.close, body.moved, last.moved, n),
        marked,
        content,
      )

  decode_8-EndsMarked :
      (out bytes : List ℕ)
      → new bytes_freq ≡ some coder
      → IsCoderOf bytes_freq coder
      → All IsByte bytes
      → EndsMarked out (length (codes_of coder bytes))
      → bits_at out 0 (length (codes_of coder bytes)) ≡ codes_of coder bytes
      → length out * 8 < 2 ^ 32
      → decode_8 ops out ≡ some bytes
  unfolding decode_8
  decode_8-EndsMarked out bytes made c a marked content small =
      let n : ℕ = length (codes_of coder bytes) in
      let (one, none_before) = back-bits out n marked in
      let tail =
        drop_tail-eq (back out) 0 (8 * length out - 1 - n) 8 (u32 (length out * 8)) (omega arith)
          (omega arith) (omega (arith, marked.within, marked.close)) one none_before in
      let count : drop_tail (back out) 0 8 (u32 (length out * 8)) ≡ n =
        tail ∙ omega (arith, marked.within) in
      let start : BitPtr = record { ptr = out; offs = 0 } in
      let ahead : Ahead start (codes_of coder bytes) = record {
        content = content;
        within = omega (arith, marked.within);
      } in
      rw (made, nonzero (back out) (back-pos out n marked), count)
        (decode_loop-Ahead ops laws coder bytes n start n [] c a ahead (omega arith) (omega arith)
          (omega (arith, marked.within)))
    where
      nonzero : (b : ℕ) → 0 < b → not (b == 0) ≡ true
      nonzero b h = ground arith

module _ (ops : BitOps) (laws : BitLaws ops) where
  -- For every non-empty byte string shorter than 2^27 bytes, encode_8 succeeds with at most twice
  -- as many bytes, and decode_8 returns the string from them.
  pub decode_8-encode_8 :
      (bytes : List ℕ)
      → 0 < length bytes
      → length bytes < 2 ^ 27
      → All IsByte bytes
      → (out : List ℕ) × (encode_8 ops bytes ≡ some out)
        × (length out ≤ 2 * length bytes)
        × (decode_8 ops out ≡ some bytes)
  decode_8-encode_8 bytes pos small a =
      let (coder, made, c, low) = bytes_coder in
      let (out, sent, short, marked, content) =
        encode_8-EndsMarked ops laws coder bytes made c low pos a in
      (
        out,
        sent,
        short,
        decode_8-EndsMarked ops laws coder out bytes made c a marked content (omega arith),
      )
