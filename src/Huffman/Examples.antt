-- ===== src/Huffman/Examples.antt =====
-- The Huffman coder on small inputs.
use mara_ton_contest_solutio.Common.{
  ℕ, ◌+◌, ◌≤◌, ◌<◌, ◌≡◌, refl, none, some, List, [], ◌∷◌, length, none_u32, arith,
}
use mara_ton_contest_solutio.Bits.{BitPtr, write}
use mara_ton_contest_solutio.Bits.Stream.{seek}
use mara_ton_contest_solutio.Bits.Bytes.{byte_ops, byte_laws}
use mara_ton_contest_solutio.Huffman.{
  Node, leaf, branch, HuffmanEncoderDecoder, build_tree, merge, insert_leaves, insert, cmp, join,
  dfs, new, encode_symbol, decode_symbol,
}
use mara_ton_contest_solutio.Huffman.Bytes.{encode_8, decode_8}
use mara_ton_contest_solutio.Huffman.Trees.{leaves, occ, IsTreeOf, build_tree-IsTreeOf}
use mara_ton_contest_solutio.Huffman.Codes.{height}
use mara_ton_contest_solutio.Huffman.RoundTrip.{new-eq_some, decode-encode, decode_cut}
use mara_ton_contest_solutio.Huffman.BytesRoundTrip.{decode_8-encode_8}

abbrev three : List ℕ
three = 5 ∷ 2 ∷ 1 ∷ []

abbrev coder : HuffmanEncoderDecoder
coder = record {
  codes = (1, 1) ∷ (1, 2) ∷ (0, 2) ∷ [];
  root = branch (branch (leaf 2 1) (leaf 1 2) 3 1 1) (leaf 0 5) 8 0 1;
}

made : new three ≡ some coder
unfolding new build_tree merge insert_leaves insert cmp join dfs
made = refl

abbrev target : BitPtr
target = record { ptr = 128 ∷ 0 ∷ 0 ∷ 0 ∷ 0 ∷ 0 ∷ 0 ∷ 0 ∷ 0 ∷ 0 ∷ []; offs = 7 }

abbrev after : BitPtr
after = record { ptr = 128 ∷ 128 ∷ 0 ∷ 0 ∷ 0 ∷ 0 ∷ 0 ∷ 0 ∷ 0 ∷ 0 ∷ []; offs = 9 }

sent : encode_symbol byte_ops coder target 1 ≡ some (after, 2)
unfolding encode_symbol byte_ops write
sent = refl

new-eq_some_example :
    (c : HuffmanEncoderDecoder) × (new three ≡ some c)
    × (leaves c.root ≡ 3)
    × (occ 0 c.root ≡ 1)
    × (height c.root ≤ 64)
new-eq_some_example = new-eq_some three 0 (omega arith) (omega arith)

build_tree-IsTreeOf_example : (tree : Node) × (build_tree three ≡ some tree) × IsTreeOf three tree
build_tree-IsTreeOf_example = build_tree-IsTreeOf three (omega arith) (omega arith)

decode-encode_example :
    (p' : BitPtr) × (n : ℕ) × (encode_symbol byte_ops coder target 1 ≡ some (p', n))
    × ((0 < n) × (n ≤ 64) × (p'.offs ≡ 7 + n))
    × (decode_symbol byte_ops coder (seek p' 7) none_u32 ≡ some (some 1, p'))
decode-encode_example =
    decode-encode byte_ops byte_laws three coder target 1 (omega arith) (omega arith) made
      (omega arith) (omega arith) (omega arith)

decode_cut_example : decode_symbol byte_ops coder (seek after 7) 8 ≡ some (none, seek after 7)
decode_cut_example =
    decode_cut byte_ops byte_laws three coder target 1 after 2 1 (omega arith) (omega arith) made
      (omega arith) (omega arith) sent (omega arith)

decode_8-encode_8_example :
    (out : List ℕ) × (encode_8 byte_ops (181 ∷ 238 ∷ 0 ∷ []) ≡ some out)
    × (length out ≤ 6)
    × (decode_8 byte_ops out ≡ some (181 ∷ 238 ∷ 0 ∷ []))
decode_8-encode_8_example =
    decode_8-encode_8 byte_ops byte_laws (181 ∷ 238 ∷ 0 ∷ []) (omega arith) (omega arith)
      (omega arith, (omega arith, (omega arith, tt)))
