-- ===== src/Huffman/Trees.antt =====
-- The constructor's set of nodes and the tree that it ends with: no node is lost on the way, since
-- the symbols of different nodes differ and `cmp` tells them apart.
use mara_ton_contest_solutio.Common.{
  ℕ, zero, suc, ◌+◌, ◌≤◌, ◌<◌, min, max, ◌≡◌, refl, ap, inl, inr, Bool, false, some, List, [], ◌∷◌,
  ltb, leb, ◌==◌, if◌then◌else◌, length, All, Bool-cases, arith, ◌&&◌, ◌≢◌, ◌⊎◌, none_u32,
}
use mara_ton_contest_solutio.Huffman.{
  Node, leaf, branch, freq, min_symbol, min_depth, join, cmp, insert, insert_leaves, merge,
  build_tree,
}

-- How often a symbol stands at a leaf.
abbrev pub occ : ℕ → Node → ℕ
occ s (leaf t f) = if s == t then 1 else 0
occ s (branch l r f m d) = occ s l + occ s r

abbrev pub occ_all : ℕ → List Node → ℕ
occ_all s [] = 0
occ_all s (n ∷ ns) = occ s n + occ_all s ns

-- The number of leaves.
abbrev pub leaves : Node → ℕ
leaves (leaf t f) = 1
leaves (branch l r f m d) = leaves l + leaves r

abbrev pub leaves_all : List Node → ℕ
leaves_all [] = 0
leaves_all (n ∷ ns) = leaves n + leaves_all ns

-- `min_symbol` names a leaf of the node.
pub record IsLabelled (n : Node) : Type 0 where
  pub small : min_symbol n < none_u32
  pub own : 1 ≤ occ (min_symbol n) n

IsLabelled-join : {a b : Node} → IsLabelled a → IsLabelled b → IsLabelled (join a b)
unfolding join
IsLabelled-join {a} {b} ha hb = elim (min_cases (min_symbol a) (min_symbol b) ha.small hb.small) [
  | inl e ↦ record { small = rw e ha.small; own = omega (arith, ha.own, ap (λ (x : ℕ). occ x a) e) }
  | inr e ↦ record { small = rw e hb.small; own = omega (arith, hb.own, ap (λ (x : ℕ). occ x b) e) }
]
  where
    min_cases :
        (x y : ℕ)
        → x < none_u32
        → y < none_u32
        → (min (min none_u32 x) y ≡ x) ⊎ (min (min none_u32 x) y ≡ y)
    min_cases x y hx hy = omega arith

-- The order does not abort at two nodes with a symbol of their own each.
cmp_total : (a b : Node) → min_symbol a ≢ min_symbol b → (below : Bool) × (cmp a b ≡ some below)
unfolding cmp
cmp_total a b ne = elim (Bool-cases (freq a == freq b)) [
  | inr apart ↦ (ltb (freq a) (freq b), rw apart refl)
  | inl same ↦ elim (Bool-cases (min_depth a == min_depth b)) [
    | inr apart ↦ (ltb (min_depth a) (min_depth b), rw (same, apart) refl)
    | inl level ↦
        let distinct : (min_symbol a == min_symbol b) ≡ false = ground arith in
        (ltb (min_symbol a) (min_symbol b), rw (same, level, distinct) refl)
  ]
]

min_symbol-ne :
    (a b : Node)
    → IsLabelled a
    → IsLabelled b
    → ((s : ℕ) → occ s a + occ s b ≤ 1)
    → min_symbol a ≢ min_symbol b
min_symbol-ne a b ha hb apart e = absurd (omega (arith, apart (min_symbol a), ha.own, own_b))
  where
    own_b : 1 ≤ occ (min_symbol a) b
    own_b = rw e hb.own

-- What `insert` does to a set that the new node has no symbol in common with.
pub record Inserted (n : Node) (nodes nodes' : List Node) : Type 0 where
  pub occurs : (s : ℕ) → occ_all s nodes' ≡ occ s n + occ_all s nodes
  pub counted : leaves_all nodes' ≡ leaves n + leaves_all nodes
  pub longer : length nodes' ≡ suc (length nodes)
  pub labelled : All IsLabelled nodes'

insert-Inserted :
    (n : Node) (nodes : List Node)
    → IsLabelled n
    → All IsLabelled nodes
    → ((s : ℕ) → occ s n + occ_all s nodes ≤ 1)
    → (nodes' : List Node) × (insert n nodes ≡ some nodes') × Inserted n nodes nodes'
unfolding insert
insert-Inserted n [] hn hs apart = (
  n ∷ [],
  refl,
  record { occurs = λ s. refl; counted = refl; longer = refl; labelled = (hn, tt) },
)
insert-Inserted n (a ∷ rest) hn (ha, hs) apart =
    let (below, compared) = cmp_total n a (min_symbol-ne n a hn ha (λ s. omega (arith, apart s))) in
    let (rest', e, ih) = insert-Inserted n rest hn hs (λ s. omega (arith, apart s)) in
    elim (Bool-cases below) [
      | inl first ↦ (
        n ∷ a ∷ rest,
        rw (compared, first) refl,
        record { occurs = λ s. refl; counted = refl; longer = refl; labelled = (hn, (ha, hs)) },
      )
      | inr later ↦ (
        a ∷ rest',
        rw (compared, later, e) refl,
        record {
          occurs = λ s. omega (arith, ih.occurs s);
          counted = omega (arith, ih.counted);
          longer = ap suc ih.longer;
          labelled = (ha, ih.labelled);
        },
      )
    ]

-- The loop ends with one tree that has the leaves of all nodes.
pub record Merged (nodes : List Node) (tree : Node) : Type 0 where
  pub occurs : (s : ℕ) → occ s tree ≡ occ_all s nodes
  pub counted : leaves tree ≡ leaves_all nodes

merge-Merged :
    (fuel : ℕ) (nodes : List Node)
    → 0 < length nodes
    → length nodes ≤ suc fuel
    → All IsLabelled nodes
    → ((s : ℕ) → occ_all s nodes ≤ 1)
    → (tree : Node) × (merge fuel nodes ≡ some tree) × Merged nodes tree
unfolding merge join
merge-Merged fuel [] pos enough hs apart = absurd (omega arith)
merge-Merged fuel (root ∷ []) pos enough hs apart =
    (root, refl, record { occurs = λ s. omega arith; counted = omega arith })
merge-Merged zero (a ∷ b ∷ nodes) pos enough hs apart = absurd (omega arith)
merge-Merged (suc fuel) (a ∷ b ∷ nodes) pos enough (ha, (hb, hs)) apart =
    let (nodes', inserted, new) =
      insert-Inserted (join a b) nodes (IsLabelled-join ha hb) hs (λ s. omega (arith, apart s)) in
    let (tree, e, m) =
      merge-Merged fuel nodes' (omega (arith, new.longer)) (omega (arith, new.longer)) new.labelled
        (λ s. omega (arith, apart s, new.occurs s)) in
    (
      tree,
      rw inserted e,
      record {
        occurs = λ s. omega (arith, m.occurs s, new.occurs s);
        counted = omega (arith, m.counted, new.counted);
      },
    )

-- 1 at the symbols of the table from `lo` on, and 0 elsewhere.
abbrev pub in_table : ℕ → ℕ → ℕ → ℕ
in_table lo n s = if leb lo s && ltb s (lo + n) then 1 else 0

record Filled (lo : ℕ) (freqs : List ℕ) (nodes nodes' : List Node) : Type 0 where
  occurs : (s : ℕ) → occ_all s nodes' ≡ occ_all s nodes + in_table lo (length freqs) s
  counted : leaves_all nodes' ≡ leaves_all nodes + length freqs
  longer : length nodes' ≡ length nodes + length freqs
  labelled : All IsLabelled nodes'

insert_leaves-Filled :
    (freqs : List ℕ) (lo : ℕ) (nodes : List Node)
    → lo + length freqs ≤ none_u32
    → All IsLabelled nodes
    → ((s : ℕ) → occ_all s nodes ≤ 1)
    → ((s : ℕ) → lo ≤ s → occ_all s nodes ≡ 0)
    → (nodes' : List Node) × (insert_leaves freqs lo nodes ≡ some nodes')
      × Filled lo freqs nodes nodes'
unfolding insert_leaves
insert_leaves-Filled [] lo nodes fits hs apart fresh = (
  nodes,
  refl,
  record { occurs = λ s. ground arith; counted = omega arith; longer = omega arith; labelled = hs },
)
insert_leaves-Filled (f ∷ fs) lo nodes fits hs apart fresh =
    let (nodes', inserted, new) =
      insert-Inserted (leaf lo (max 1 f)) nodes (record { small = omega arith; own = ground arith })
        hs (λ s. ground (arith, apart s, fresh s)) in
    let (filled, e, ih) =
      insert_leaves-Filled fs (lo + 1) nodes' (omega arith) new.labelled
        (λ s. ground (arith, new.occurs s, apart s, fresh s))
        (λ s h. ground (arith, new.occurs s, fresh s)) in
    (
      filled,
      rw inserted e,
      record {
        occurs = λ s. ground (arith, ih.occurs s, new.occurs s, fresh s);
        counted = omega (arith, ih.counted, new.counted);
        longer = omega (arith, ih.longer, new.longer);
        labelled = ih.labelled;
      },
    )

pub record IsTreeOf (freqs : List ℕ) (tree : Node) : Type 0 where
  pub occurs : (s : ℕ) → occ s tree ≡ in_table 0 (length freqs) s
  pub counted : leaves tree ≡ length freqs

-- For every table with a symbol the loop ends, and the tree has each symbol at one leaf.
pub build_tree-IsTreeOf :
    (freqs : List ℕ)
    → 0 < length freqs
    → length freqs ≤ none_u32
    → (tree : Node) × (build_tree freqs ≡ some tree) × IsTreeOf freqs tree
unfolding build_tree
build_tree-IsTreeOf freqs pos fits =
    let (nodes, inserted, f) =
      insert_leaves-Filled freqs 0 [] (omega arith) tt (λ s. omega arith) (λ s _. refl) in
    let (tree, e, m) =
      merge-Merged (length nodes) nodes (omega (arith, f.longer)) (omega arith) f.labelled
        (λ s. ground (arith, f.occurs s)) in
    (
      tree,
      rw inserted e,
      record {
        occurs = λ s. omega (arith, m.occurs s, f.occurs s);
        counted = omega (arith, m.counted, f.counted);
      },
    )
