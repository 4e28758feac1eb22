-- ===== src/Huffman.antt =====
-- huffman.hpp: the tree of a table of frequencies, its codes, and coding a symbol.
-- A `unsigned` field is a number with its wrap at 2^32; -1u stands for "none". CHECK aborts, which
-- is `none`. std::set<Ptr<Node>, cmp> is the list of its elements in the order of `cmp`.
pub mod Examples
pub mod Trees
pub mod Codes
pub mod Depth
pub mod Walk
pub mod Tables
pub mod Built
pub mod Bytes
pub mod BytesRoundTrip
pub mod RoundTrip
use mara_ton_contest_solutio.Common.{
  ℕ, zero, suc, ◌+◌, ◌-◌, ◌*◌, ◌%◌, ◌^◌, ◌≤◌, ◌<◌, min, max, ◌≡◌, Bool, true, false, not, ◌&&◌,
  Option, none, some, List, [], ◌∷◌, ltb, leb, ◌==◌, if◌then◌else◌, ◌>>=◌, ◌>>◌, check, length, set,
  get_or, replicate, u32, none_u32,
}
use mara_ton_contest_solutio.Bits.{BitOps, BitPtr, write, read}

-- struct Node: `left` and `right` are both null or both set.
pub data Node : Type 0 where
  leaf : (symbol freq : ℕ) → Node
  branch : (left right : Node) → (freq min_symbol min_depth : ℕ) → Node

abbrev pub freq : Node → ℕ
freq (leaf s f) = f
freq (branch l r f m d) = f

abbrev pub min_symbol : Node → ℕ
min_symbol (leaf s f) = s
min_symbol (branch l r f m d) = m

abbrev pub min_depth : Node → ℕ
min_depth (leaf s f) = 0
min_depth (branch l r f m d) = d

-- Node(Ptr<Node> left, Ptr<Node> right)
unfoldable pub join : Node → Node → Node
join left right =
    branch left right (u32 (freq left + freq right))
      (min (min none_u32 (min_symbol left)) (min_symbol right))
      (u32 (min (min_depth left) (min_depth right) + 1))

-- The order of the set, for two nodes that are not the same pointer; it aborts at two that agree.
unfoldable pub cmp : Node → Node → Option Bool
cmp a b =
    if not (freq a == freq b)
    then some (ltb (freq a) (freq b))
    else if not (min_depth a == min_depth b)
    then some (ltb (min_depth a) (min_depth b))
    else check (not (min_symbol a == min_symbol b)) >> some (ltb (min_symbol a) (min_symbol b))

-- nodes.insert(n): as the CHECK of `cmp` aborts at a node that agrees with `n`, a node that `n` is
-- not below is below `n`.
unfoldable pub insert : Node → List Node → Option (List Node)
insert n [] = some (n ∷ [])
insert n (a ∷ rest) =
    let later = insert n rest >>= λ nodes. some (a ∷ nodes) in
    cmp n a >>= λ below. if below then some (n ∷ a ∷ rest) else later

-- The loop over the symbols: `s` is the next symbol.
unfoldable pub insert_leaves : List ℕ → ℕ → List Node → Option (List Node)
insert_leaves [] s nodes = some nodes
insert_leaves (f ∷ fs) s nodes =
    insert (leaf s (max 1 f)) nodes >>= λ nodes'. insert_leaves fs (s + 1) nodes'

-- while (nodes.size() > 1): a round replaces two nodes by one, so `length nodes` rounds suffice.
-- CHECK(!nodes.empty()) is the first clause.
unfoldable pub merge : ℕ → List Node → Option Node
merge fuel [] = none
merge fuel (root ∷ []) = some root
merge zero (a ∷ b ∷ nodes) = none
merge (suc fuel) (a ∷ b ∷ nodes) = insert (join a b) nodes >>= λ nodes'. merge fuel nodes'

unfoldable pub build_tree : List ℕ → Option Node
build_tree freqs = insert_leaves freqs 0 [] >>= λ nodes. merge (length nodes) nodes

-- The lambda `dfs`: fills `codes` at the leaves below v. `code` is a uint64_t and `code_length` a
-- uint8_t.
unfoldable pub dfs : Node → ℕ → ℕ → List (ℕ × ℕ) → Option (List (ℕ × ℕ))
dfs (leaf symbol f) code code_length codes = do
  check (leb code_length 64)
  some (set codes symbol (code, code_length))
dfs (branch left right f m d) code code_length codes = do
  codes' ← dfs left (code * 2 % 2 ^ 64) ((code_length + 1) % 256) codes
  dfs right ((code * 2 + 1) % 2 ^ 64) ((code_length + 1) % 256) codes'

pub record HuffmanEncoderDecoder : Type 0 where
  pub codes : List (ℕ × ℕ)
  pub root : Node

-- The constructor. The statistics that it sums up are for the verbose print alone.
unfoldable pub new : List ℕ → Option HuffmanEncoderDecoder
new freqs = do
  tree ← build_tree freqs
  filled ← dfs tree 0 0 (replicate (length freqs) (0, 0))
  some (record { codes = filled; root = tree })

module _ (ops : BitOps) where
  -- The pointer after the call, and the length of the code.
  unfoldable pub encode_symbol : HuffmanEncoderDecoder → BitPtr → ℕ → Option (BitPtr × ℕ)
  encode_symbol coder bit_ptr s =
      let code = get_or coder.codes s (0, 0) in
      do check (ltb 0 code.1); some (write ops bit_ptr code.0 code.1, code.1)

  -- The walk from `v` down; `none` inside is the answer -1u, given with the pointer put back.
  unfoldable pub walk : Node → (ptr_len initial_offs : ℕ) → BitPtr → Option (Option ℕ × BitPtr)
  walk (leaf symbol f) ptr_len initial_offs bit_ptr = do
    check (leb bit_ptr.offs ptr_len)
    some (some symbol, bit_ptr)
  walk (branch left right f m d) ptr_len initial_offs bit_ptr =
      let (bit, next) = read ops bit_ptr 1 in
      let out =
        check (bit_ptr.offs == ptr_len) >> some (none, record bit_ptr { offs = initial_offs }) in
      let on_right = walk right ptr_len initial_offs next in
      let on_left = walk left ptr_len initial_offs next in
      if leb ptr_len bit_ptr.offs then out else if not (bit == 0) then on_right else on_left

  -- decode_symbol(bit_ptr, ptr_len); the default of ptr_len is -1u.
  unfoldable pub decode_symbol : HuffmanEncoderDecoder → BitPtr → ℕ → Option (Option ℕ × BitPtr)
  decode_symbol coder bit_ptr ptr_len = walk coder.root ptr_len bit_ptr.offs bit_ptr
