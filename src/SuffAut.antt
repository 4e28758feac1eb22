-- ===== src/SuffAut.antt =====
-- suff_aut.hpp: the suffix automaton of the reversed string, and the search for earlier matches.
-- Node 0 is NULL and node 1 the root. A loop along the suffix links takes fuel; a link leads to a
-- shorter node, so as many rounds as there are nodes suffice. CHECK aborts, which is `none`.
pub mod Examples
pub mod Matches
use mara_ton_contest_solutio.Common.{
  ℕ, zero, suc, ◌+◌, ◌-◌, not, ◌&&◌, Option, none, some, List, [], ◌∷◌, ◌++◌, ltb, leb, ◌==◌,
  if◌then◌else◌, ◌>>=◌, ◌>>◌, check, length, get_or, set, replicate, none_u32,
}
use mathlib.Core.List.{reverse}

pub record Node : Type 0 where
  pub to : List ℕ
  pub link : ℕ
  pub len : ℕ

abbrev pub blank_node : ℕ → Node
blank_node c = record { to = replicate c 0; link = 0; len = 0 }

-- struct SuffAutBase<C>
pub record Automaton : Type 0 where
  pub nodes : List Node
  pub root : ℕ
  pub last : ℕ

pub record Match : Type 0 where
  pub start : ℕ
  pub len : ℕ

module _ (C : ℕ) where
  -- nodes[v]
  abbrev pub node : List Node → ℕ → Node
  node nodes v = get_or nodes v (blank_node C)

  -- nodes[v].to[c] = w
  abbrev pub set_to : List Node → (v c w : ℕ) → List Node
  set_to nodes v c w = set nodes v (record {
    to = set (node nodes v).to c w;
    link = (node nodes v).link;
    len = (node nodes v).len;
  })

  abbrev pub set_link : List Node → (v w : ℕ) → List Node
  set_link nodes v w =
      set nodes v (record { to = (node nodes v).to; link = w; len = (node nodes v).len })

  -- SuffAutBase(): CHECK(C <= 256), the null node and the root.
  unfoldable pub empty : Option Automaton
  empty =
      check (leb C 256)
      >> some (record { nodes = blank_node C ∷ blank_node C ∷ []; root = 1; last = 1 })

  -- for (; p && !nodes[p].to[c]; p = nodes[p].link) nodes[p].to[c] = cur;
  unfoldable pub extend_loop : ℕ → List Node → (p c cur : ℕ) → Option (List Node × ℕ)
  extend_loop zero nodes p c cur = none
  extend_loop (suc fuel) nodes p c cur =
      let rest = extend_loop fuel (set_to nodes p c cur) (node nodes p).link c cur in
      if not (p == 0) && (get_or (node nodes p).to c 0 == 0) then rest else some (nodes, p)

  -- for (; p && nodes[p].to[c] == q; p = nodes[p].link) nodes[p].to[c] = clone;
  unfoldable pub redirect_loop : ℕ → List Node → (p c q clone : ℕ) → Option (List Node)
  redirect_loop zero nodes p c q clone = none
  redirect_loop (suc fuel) nodes p c q clone =
      let rest = redirect_loop fuel (set_to nodes p c clone) (node nodes p).link c q clone in
      if not (p == 0) && (get_or (node nodes p).to c 0 == q) then rest else some nodes

  -- The part of add_c behind the first loop, with the nodes and the p that it leaves.
  unfoldable pub link_cur : Automaton → (c cur p : ℕ) → Option Automaton
  link_cur a c cur p =
      let q = get_or (node a.nodes p).to c 0 in
      let clone = length a.nodes in
      let copied =
        a.nodes
        ++ record {
          to = (node a.nodes q).to;
          link = (node a.nodes q).link;
          len = (node a.nodes p).len + 1;
        }
          ∷ [] in
      let linked = set_link (set_link copied q clone) cur clone in
      let cloned = redirect_loop (length linked) linked p c q clone >>= λ nodes.
      some (record a { nodes = nodes }) in
      if p == 0
      then some (record a { nodes = set_link a.nodes cur a.root })
      else if (node a.nodes q).len == (node a.nodes p).len + 1
      then some (record a { nodes = set_link a.nodes cur q })
      else cloned

  unfoldable pub add_c : Automaton → ℕ → Option Automaton
  add_c a c =
      let cur = length a.nodes in
      let grown =
        a.nodes
        ++ record { to = replicate C 0; link = 0; len = (node a.nodes a.last).len + 1 } ∷ [] in
      do
        check (ltb c C)
        (nodes, p) ← extend_loop (length grown) grown a.last c cur
        link_cur (record { nodes = nodes; root = a.root; last = cur }) c cur p

  unfoldable pub add_all : Automaton → List ℕ → Option Automaton
  add_all a [] = some a
  add_all a (c ∷ cs) = do a' ← add_c a c; add_all a' cs

  -- SuffAut(s): the characters from the last to the first.
  unfoldable pub build : List ℕ → Option Automaton
  build s = do a ← empty; add_all a (reverse s)

  -- vs before it is reversed: the nodes on the way from the root along the string.
  unfoldable pub prefixes : List Node → (v : ℕ) → List ℕ → Option (List ℕ)
  prefixes nodes v [] = some []
  prefixes nodes v (c ∷ cs) =
      let next = get_or (node nodes v).to c 0 in
      do check (not (v == 0)); vs ← prefixes nodes next cs; some (next ∷ vs)

-- struct SuffAut<C> after prepare_matches
pub record SuffAut : Type 0 where
  pub nodes : List Node
  pub last_suff : List ℕ
  pub vs : List ℕ
  pub i_ptr : ℕ
  pub min_match_len : ℕ

module _ (C : ℕ) where
  unfoldable pub prepare_matches : Automaton → List ℕ → ℕ → Option SuffAut
  prepare_matches a s min_match_len = do
    vs ← prefixes C a.nodes a.root (reverse s)
    check (length vs == length s)
    some (record {
      nodes = a.nodes;
      last_suff = replicate (length a.nodes) none_u32;
      vs = reverse vs;
      i_ptr = 0;
      min_match_len = min_match_len;
    })

  -- while (u && nodes[u].len >= min_match_len): the matches, and last_suff with i at the nodes
  -- passed.
  unfoldable pub match_loop :
      ℕ → List Node → (min_match_len i u : ℕ) → List ℕ → List Match → Option (List Match × List ℕ)
  match_loop zero nodes min_match_len i u last_suff res = none
  match_loop (suc fuel) nodes min_match_len i u last_suff res =
      let seen = get_or last_suff u none_u32 in
      let res' =
        if seen == none_u32
        then res
        else res ++ (record { start = seen; len = (node C nodes u).len } ∷ []) in
      let rest =
        match_loop fuel nodes min_match_len i (node C nodes u).link (set last_suff u i) res' in
      if not (u == 0) && leb min_match_len (node C nodes u).len then rest else some (res, last_suff)

  -- while (i_ptr <= need_i): `left` rounds are left, and `res` is that of the last round.
  unfoldable pub get_match_loop : ℕ → SuffAut → List Match → Option (List Match × SuffAut)
  get_match_loop zero sa res = some (res, sa)
  get_match_loop (suc left) sa res = do
    check (ltb sa.i_ptr (length sa.vs))
    (found, last_suff) ←
        match_loop (length sa.nodes) sa.nodes sa.min_match_len sa.i_ptr (get_or sa.vs sa.i_ptr 0)
          sa.last_suff []
    get_match_loop left (record sa { last_suff = last_suff; i_ptr = sa.i_ptr + 1 }) found

  unfoldable pub get_match : SuffAut → ℕ → Option (List Match × SuffAut)
  get_match sa need_i = do check (leb sa.i_ptr need_i); get_match_loop (need_i + 1 - sa.i_ptr) sa []
