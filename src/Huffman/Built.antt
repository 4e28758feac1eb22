-- ===== src/Huffman/Built.antt =====
-- The coder of match_len_freq, a table that huffman.hpp writes out: its tree is low enough.
use mara_ton_contest_solutio.Common.{
  ℕ, ◌≤◌, ◌<◌, ◌≡◌, refl, sym, ap, ◌∙◌, Option, none, some, List, length, none_u32, arith,
}
use mara_ton_contest_solutio.Huffman.{
  Node, HuffmanEncoderDecoder, new, insert_leaves, insert, join, merge, build_tree, cmp,
}
use mara_ton_contest_solutio.Huffman.Trees.{build_tree-IsTreeOf}
use mara_ton_contest_solutio.Huffman.Codes.{height}
use mara_ton_contest_solutio.Huffman.Walk.{IsCoderOf, new_low}
use mara_ton_contest_solutio.Huffman.Tables.{match_len_freq}

abbrev tree_height : Option Node → ℕ
tree_height none = 0
tree_height (some v) = height v

-- A table whose tree is low enough has a coder.
built :
    (freqs : List ℕ) (h : ℕ)
    → 0 < length freqs
    → length freqs ≤ none_u32
    → tree_height (build_tree freqs) ≡ h
    → h ≤ 64
    → (coder : HuffmanEncoderDecoder) × (new freqs ≡ some coder) × IsCoderOf freqs coder
built freqs h pos fits measured low =
    let (tree, e, t) = build_tree-IsTreeOf freqs pos (omega arith) in
    let same : height tree ≡ h = ap tree_height (sym e) ∙ measured in
    let (coder, made, c, _) = new_low freqs tree e t (omega arith) in (coder, made, c)

match_len_freq-height : tree_height (build_tree match_len_freq) ≡ 16
unfolding build_tree merge insert_leaves insert join cmp match_len_freq
match_len_freq-height = refl

pub length-match_len_freq : length match_len_freq ≡ 301
unfolding match_len_freq
length-match_len_freq = refl

pub match_len_coder :
    (coder : HuffmanEncoderDecoder) × (new match_len_freq ≡ some coder)
    × IsCoderOf match_len_freq coder
match_len_coder =
    let size = length-match_len_freq in
    built match_len_freq 16 (omega arith) (omega arith) match_len_freq-height (omega arith)
