-- ===== src/Huffman/Depth.antt =====
-- The CHECK on the length of a code sees the length modulo 256. A tree that it lets pass is still
-- no deeper than 64: below depth 64 every path would have to go on to depth 256 at least, and no
-- table has that many symbols.
use mara_ton_contest_solutio.Common.{
  ℕ, zero, suc, ◌+◌, ◌*◌, ◌%◌, ◌^◌, ◌≤◌, ◌<◌, ◌≡◌, some, List, >>=-eq_some, check-eq_some, leb,
  leb→le, arith,
}
use mara_ton_contest_solutio.Huffman.{Node, leaf, branch, dfs}
use mara_ton_contest_solutio.Huffman.Trees.{leaves}
use mara_ton_contest_solutio.Huffman.Codes.{height}
use native.Mathlib.Nat.{pow-suc}
use native.Mathlib.Decide.{dec_lt}

pub leaves_pos : (v : Node) → 1 ≤ leaves v
leaves_pos (leaf t f) = omega arith
leaves_pos (branch l r f m d) = omega (arith, leaves_pos l)

pub height-lt-leaves : (v : Node) → height v < leaves v
height-lt-leaves (leaf t f) = omega arith
height-lt-leaves (branch l r f m d) = omega (arith, height-lt-leaves l, height-lt-leaves r)

-- Both sides of a branch that `dfs` gets through.
dfs_sides :
    (l r : Node) (f m d code depth : ℕ) (codes : List (ℕ × ℕ)) {out : List (ℕ × ℕ)}
    → dfs (branch l r f m d) code depth codes ≡ some out
    → (mid : List (ℕ × ℕ)) × (dfs l (code * 2 % 2 ^ 64) ((depth + 1) % 256) codes ≡ some mid)
      × (dfs r ((code * 2 + 1) % 2 ^ 64) ((depth + 1) % 256) mid ≡ some out)
unfolding dfs
dfs_sides l r f m d code depth codes h =
    >>=-eq_some (dfs l (code * 2 % 2 ^ 64) ((depth + 1) % 256) codes)
      (λ c. dfs r ((code * 2 + 1) % 2 ^ 64) ((depth + 1) % 256) c) h

dfs_leaf :
    (t f code depth : ℕ) (codes : List (ℕ × ℕ)) {out : List (ℕ × ℕ)}
    → dfs (leaf t f) code depth codes ≡ some out
    → depth ≤ 64
unfolding dfs
dfs_leaf t f code depth codes h = leb→le depth 64 ((check-eq_some (leb depth 64) _ h).0)

-- k levels are left to depth 256.
leaves_below :
    (v : Node) (code depth k : ℕ) (codes : List (ℕ × ℕ)) {out : List (ℕ × ℕ)}
    → depth + suc k ≡ 256
    → 64 < depth
    → dfs v code depth codes ≡ some out
    → 2 ^ suc k ≤ leaves v
leaves_below (leaf t f) code depth k codes e low h =
    absurd (omega (arith, dfs_leaf t f code depth codes h))
leaves_below (branch l r f m d) code depth zero codes e low h =
    omega (arith, leaves_pos l, leaves_pos r)
leaves_below (branch l r f m d) code depth (suc k) codes e low h =
    let (mid, hl, hr) = dfs_sides l r f m d code depth codes h in
    omega (
      arith,
      pow-suc 2 (suc k),
      leaves_below l _ ((depth + 1) % 256) k codes (omega arith) (omega arith) hl,
      leaves_below r _ ((depth + 1) % 256) k mid (omega arith) (omega arith) hr,
    )

pub height_of_dfs :
    (v : Node) (code depth : ℕ) (codes : List (ℕ × ℕ)) {out : List (ℕ × ℕ)}
    → depth ≤ 64
    → leaves v < 2 ^ 191
    → dfs v code depth codes ≡ some out
    → depth + height v ≤ 64
height_of_dfs (leaf t f) code depth codes low few h = omega arith
height_of_dfs (branch l r f m d) code depth codes low few h =
    let (mid, hl, hr) = dfs_sides l r f m d code depth codes h in
    elim (dec_lt depth 64) [
      | yes above ↦ omega (
        arith,
        height_of_dfs l _ ((depth + 1) % 256) codes (omega arith) (omega arith) hl,
        height_of_dfs r _ ((depth + 1) % 256) mid (omega arith) (omega arith) hr,
      )
      | no at ↦ absurd (
          omega
            (arith, leaves_below l _ ((depth + 1) % 256) 190 codes (omega arith) (omega arith) hl))
    ]
