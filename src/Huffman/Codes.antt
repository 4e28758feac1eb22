-- ===== src/Huffman/Codes.antt =====
-- The codes that `dfs` writes: at each symbol the path to its leaf, as a number and a length.
use mara_ton_contest_solutio.Common.{
  ℕ, suc, ◌+◌, ◌*◌, ◌%◌, ◌^◌, ◌≤◌, ◌<◌, ◌≡◌, refl, ap, ◌∙◌, some, List, [], ◌∷◌, ltb, if◌then◌else◌,
  length, length-set, get_or, set, get_or-set_self, get_or-set_ne, All, Bool-cases, inl, inr, max,
  arith, le→leb, ltb→le, ltb→lt,
}
use mara_ton_contest_solutio.Bits.{of_bits, IsBit}
use mara_ton_contest_solutio.Huffman.{Node, leaf, branch, dfs}
use mara_ton_contest_solutio.Huffman.Trees.{occ}
use native.Mathlib.Nat.{pow-suc, pow-le-pow_right}

-- The path to a symbol: 0 to the left and 1 to the right.
abbrev pub path_to : ℕ → Node → List ℕ
path_to s (leaf t f) = []
path_to s (branch l r f m d) = if ltb 0 (occ s l) then 0 ∷ path_to s l else 1 ∷ path_to s r

abbrev pub height : Node → ℕ
height (leaf t f) = 0
height (branch l r f m d) = suc (max (height l) (height r))

pub path_to-IsBit : (s : ℕ) (v : Node) → All IsBit (path_to s v)
path_to-IsBit s (leaf t f) = tt
path_to-IsBit s (branch l r f m d) = ground (arith, path_to-IsBit s l, path_to-IsBit s r)

pub length-path_to : (s : ℕ) (v : Node) → length (path_to s v) ≤ height v
length-path_to s (leaf t f) = omega arith
length-path_to s (branch l r f m d) = ground (arith, length-path_to s l, length-path_to s r)

-- What `dfs` does to the table below a node whose symbols are all within it.
pub record Coded (v : Node) (code depth : ℕ) (codes codes' : List (ℕ × ℕ)) : Type 0 where
  pub size : length codes' ≡ length codes
  pub kept : (s : ℕ) → occ s v ≡ 0 → get_or codes' s (0, 0) ≡ get_or codes s (0, 0)
  pub given :
      (s : ℕ)
      → occ s v ≡ 1
      → s < length codes
      → get_or codes' s (0, 0) ≡ (of_bits code (path_to s v), depth + length (path_to s v))

-- A branch puts the tables of its two sides together.
Coded-branch :
    (l r : Node) (f m d code depth : ℕ) {cs cs' cs'' : List (ℕ × ℕ)}
    → Coded l (code * 2 + 0) (depth + 1) cs cs'
    → Coded r (code * 2 + 1) (depth + 1) cs' cs''
    → Coded (branch l r f m d) code depth cs cs''
Coded-branch l r f m d code depth {cs} {cs'} {cs''} on_left on_right = record {
  size = on_right.size ∙ on_left.size;
  kept = λ s h. on_right.kept s (omega arith) ∙ on_left.kept s (omega arith);
  given = λ s h within. elim (Bool-cases (ltb 0 (occ s l))) [
    | inl here ↦ rw here (
        on_right.kept s (omega (arith, ltb→lt 0 (occ s l)))
        ∙ on_left.given s (omega (arith, ltb→lt 0 (occ s l))) within
        ∙ ap (λ (n : ℕ). (of_bits (code * 2 + 0) (path_to s l), n)) (omega arith))
    | inr there ↦ rw there (
        on_right.given s (omega (arith, ltb→le 0 (occ s l) there)) (omega (arith, on_left.size))
        ∙ ap (λ (n : ℕ). (of_bits (code * 2 + 1) (path_to s r), n)) (omega arith))
  ];
}

-- Down to depth 64 neither the code nor its length wraps, and the CHECK holds.
pub dfs-Coded :
    (v : Node) (code depth : ℕ) (codes : List (ℕ × ℕ))
    → depth + height v ≤ 64
    → code < 2 ^ depth
    → (codes' : List (ℕ × ℕ)) × (dfs v code depth codes ≡ some codes')
      × Coded v code depth codes codes'
unfolding dfs
dfs-Coded (leaf t f) code depth codes low small = (
  set codes t (code, depth),
  rw (le→leb depth 64 (omega arith)) refl,
  record {
    size = length-set codes t (code, depth);
    kept = λ s h. get_or-set_ne codes t s (code, depth) (0, 0) (λ e. ground arith);
    given = λ s h within.
        let same : s ≡ t = ground arith in
        ap (λ (k : ℕ). get_or (set codes t (code, depth)) k (0, 0)) same
        ∙ get_or-set_self codes t (code, depth) (0, 0) (omega arith)
        ∙ ap (λ (n : ℕ). (code, n)) (omega arith);
  },
)
dfs-Coded (branch l r f m d) code depth codes low small =
    let room : 2 ^ depth * 2 ≤ 2 ^ 64 = omega (
      arith,
      pow-suc 2 depth,
      pow-le-pow_right {n = 2} (omega arith) {i = suc depth} {j = 64} (omega arith),
    ) in
    let (cs, el, hl) =
      dfs-Coded l (code * 2 + 0) (depth + 1) codes (omega arith) (ground (arith, grow depth)) in
    let (cs', er, hr) =
      dfs-Coded r (code * 2 + 1) (depth + 1) cs (omega arith) (ground (arith, grow depth)) in
    (
      cs',
      rw (left_code room, right_code room, deeper, el) er,
      Coded-branch l r f m d code depth hl hr,
    )
  where
    grow : (n : ℕ) → 2 ^ (n + 1) ≡ 2 ^ n * 2
    grow n = ap (λ (k : ℕ). 2 ^ k) {x = n + 1} {y = suc n} (omega arith) ∙ pow-suc 2 n

    left_code : 2 ^ depth * 2 ≤ 2 ^ 64 → code * 2 % 2 ^ 64 ≡ code * 2 + 0
    left_code room = omega arith

    right_code : 2 ^ depth * 2 ≤ 2 ^ 64 → (code * 2 + 1) % 2 ^ 64 ≡ code * 2 + 1
    right_code room = omega arith

    deeper : (depth + 1) % 256 ≡ depth + 1
    deeper = omega arith
