-- ===== src/LocalUtils.antt =====
-- utils_local.hpp: packing bits into bytes, counting occurrences, and disjoint sets.
pub mod Examples
pub mod Packing
pub mod Sets
pub mod Unite
pub mod ZFunction
pub mod Occurrences
use Prim.Native.Nat.{bit_xor}
use mara_ton_contest_solutio.Common.{
  ℕ, zero, suc, ◌+◌, ◌-◌, ◌*◌, ◌/◌, ◌%◌, ◌^◌, min, Bool, true, false, not, ◌&&◌, Option, none, some,
  List, [], ◌∷◌, ◌++◌, ltb, leb, ◌==◌, if◌then◌else◌, ◌>>=◌, ◌>>◌, check, length, map, get_or,
  get_elem?, set, replicate,
}

-- out[i / 8] ^= 1u << (7 - i % 8)
unfoldable pub flip : List ℕ → ℕ → List ℕ
flip out i = set out (i / 8) (bit_xor (get_or out (i / 8) 0) (2 ^ (7 - i % 8)))

-- The loop over data[i], data[i + 1], …
unfoldable pub pack_loop : List ℕ → (i : ℕ) → List ℕ → Option (List ℕ)
pack_loop [] i out = some out
pack_loop (b ∷ bits) i out =
    check (leb b 1) >> pack_loop bits (i + 1) (if b == 0 then out else flip out i)

unfoldable pub pack_expanded_bits_to_bytes : List ℕ → Option (List ℕ)
pack_expanded_bits_to_bytes bits =
    let n = length bits in do out ← pack_loop bits 0 (replicate (n / 8 + 1) 0); some (flip out n)

-- while (i + z[i] < n && s[z[i]] == s[i + z[i]]) ++z[i]; the fuel is n.
unfoldable pub grow_z : ℕ → List ℕ → (i z : ℕ) → ℕ
grow_z zero s i z = z
grow_z (suc fuel) s i z =
    let rest = grow_z fuel s i (z + 1) in
    if ltb (i + z) (length s) && (get_or s z 0 == get_or s (i + z) 0) then rest else z

-- The rounds i, i + 1, … of the loop of cnt_occurrences; `left` are left.
unfoldable pub count_loop : (left : ℕ) → List ℕ → (size i l r cnt : ℕ) → List ℕ → ℕ
count_loop zero s size i l r cnt z = cnt
count_loop (suc left) s size i l r cnt z =
    let first = if ltb i r then min (r - i) (get_or z (i - l) 0) else 0 in
    let zi = grow_z (length s) s i first in
    let wider = ltb r (i + zi) in
    count_loop left s size (i + 1) (if wider then i else l) (if wider then i + zi else r)
      (if leb size i && leb size zi then cnt + 1 else cnt) (set z i zi)

unfoldable pub cnt_occurrences : List ℕ → List ℕ → ℕ
cnt_occurrences sample text =
    let s = sample ++ text in
    count_loop (length s - 1) s (length sample) 1 0 0 0 (replicate (length s) 0)

-- struct DSU: an entry of `par` is a parent, or for a root the negative of its size.
pub data Entry : Type 0 where
  parent : ℕ → Entry
  size : ℕ → Entry

unfoldable pub new_dsu : ℕ → List Entry
new_dsu n = replicate n (size 1)

-- get_comp with path compression; the fuel bounds the length of the path.
unfoldable pub get_comp : ℕ → List Entry → ℕ → Option (ℕ × List Entry)
get_comp zero par x = none
get_comp (suc fuel) par x = do
  e ← get_elem? par x
  elim e [
    | size n ↦ some (x, par)
    | parent y ↦ get_comp fuel par y >>= λ got. some (got.0, set got.1 x (parent got.0))
  ]

abbrev pub entry_size : Entry → ℕ
entry_size (size n) = n
entry_size (parent y) = 0

unfoldable pub size_of : List Entry → ℕ → ℕ
size_of par x = entry_size (get_or par x (size 0))

unfoldable pub unite : List Entry → ℕ → ℕ → Option (Bool × List Entry)
unite par x y = do
  (a, par1) ← get_comp (length par) par x
  (b, par2) ← get_comp (length par) par1 y
  let swap = ltb (size_of par2 a) (size_of par2 b)
  let big = if swap then b else a
  let small = if swap then a else b
  let joined = set (set par2 big (size (size_of par2 big + size_of par2 small))) small (parent big)
  some (if a == b then (false, par2) else (true, joined))

-- comps.insert(c) for a std::set, whose elements are listed from the least on.
unfoldable pub insert_comp : ℕ → List ℕ → List ℕ
insert_comp c [] = c ∷ []
insert_comp c (d ∷ comps) =
    if ltb c d then c ∷ d ∷ comps else if c == d then d ∷ comps else d ∷ insert_comp c comps

-- for (i < par.size()) comps.insert(get_comp(i)); `left` are left, from i on.
unfoldable pub all_comps : (left i : ℕ) → List Entry → List ℕ → Option (List ℕ × List Entry)
all_comps zero i par comps = some (comps, par)
all_comps (suc left) i par comps = do
  (c, par') ← get_comp (length par) par i
  all_comps left (i + 1) par' (insert_comp c comps)

unfoldable pub comp_sizes : List Entry → Option (List ℕ × List Entry)
comp_sizes par = do
  (comps, par') ← all_comps (length par) 0 par []
  some (map (size_of par') comps, par')

unfoldable pub cnt_comps : List Entry → Option (ℕ × List Entry)
cnt_comps par = do (comps, par') ← all_comps (length par) 0 par []; some (length comps, par')
