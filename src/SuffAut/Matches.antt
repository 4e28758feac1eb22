-- ===== src/SuffAut/Matches.antt =====
-- get_match finds earlier starts, and its loops end.
use mara_ton_contest_solutio.Common.{
  ℕ, zero, suc, ◌+◌, ◌-◌, ◌≤◌, ◌<◌, ◌≡◌, ◌⊎◌, inl, inr, refl, sym, ap, true, false, not, ◌&&◌, some,
  List, [], ◌∷◌, ◌++◌, leb, ◌==◌, le→leb, lt→ltb, if◌then◌else◌, length, get_or, get_or-set_ne, set,
  All, All-append, Bool-cases, none_u32, subst, arith,
}
use mara_ton_contest_solutio.SuffAut.{
  Node, blank_node, node, Match, SuffAut, match_loop, get_match_loop, get_match,
}

All-get_or {ℓ κ} :
    {A : Type ℓ} (P : A → Type κ) (xs : List A) (i : ℕ) (d : A) → All P xs → P d → P (get_or xs i d)
All-get_or P [] i d a h = h
All-get_or P (x ∷ xs) zero d (hx, a) h = hx
All-get_or P (x ∷ xs) (suc i) d (hx, a) h = All-get_or P xs i d a h

All-set {ℓ κ} :
    {A : Type ℓ} (P : A → Type κ) (xs : List A) (i : ℕ) (v : A)
    → All P xs
    → P v
    → All P (set xs i v)
All-set P [] i v a h = a
All-set P (x ∷ xs) zero v (hx, a) h = (h, a)
All-set P (x ∷ xs) (suc i) v (hx, a) h = (hx, All-set P xs i v a h)

All-weaken {ℓ κ κ'} :
    {A : Type ℓ} (P : A → Type κ) (Q : A → Type κ') (xs : List A)
    → ((x : A) → P x → Q x)
    → All P xs
    → All Q xs
All-weaken P Q [] f a = tt
All-weaken P Q (x ∷ xs) f (hx, a) = (f x hx, All-weaken P Q xs f a)

-- An entry of last_suff: -1u or a position before i.
abbrev pub IsBefore : ℕ → ℕ → Type 0
IsBefore i k = (k ≡ none_u32) ⊎ (k < i)

-- A match that starts before i and has the least length at least.
abbrev pub IsMatchBefore : (i min_match_len : ℕ) → Match → Type 0
IsMatchBefore i min_match_len m = (m.start < i) × (min_match_len ≤ m.len)

module _ (C : ℕ) where
  -- A suffix link leads to NULL or to a shorter node.
  abbrev pub IsShrinking : List Node → Node → Type 0
  IsShrinking nodes v = (v.link ≡ 0) ⊎ ((node C nodes v.link).len < v.len)

  abbrev pub IsShort : List Node → Node → Type 0
  IsShort nodes v = v.len + 2 ≤ length nodes

  -- The links shrink, no node is longer than the nodes are many, less two, and what last_suff
  -- holds lies before i_ptr.
  pub record IsSearchable (sa : SuffAut) : Type 0 where
    pub some_nodes : 2 ≤ length sa.nodes
    pub links : All (IsShrinking sa.nodes) sa.nodes
    pub lens : All (IsShort sa.nodes) sa.nodes
    pub earlier : All (IsBefore sa.i_ptr) sa.last_suff

  match_loop_lem :
      (fuel : ℕ) (nodes : List Node) (min_match_len i u : ℕ) (last_suff : List ℕ) (res : List Match)
      → All (IsShrinking nodes) nodes
      → ((u ≡ 0) × (0 < fuel))
        ⊎ (((node C nodes u).len + 2 ≤ fuel)
            × ((k : ℕ)
                → (node C nodes k).len ≤ (node C nodes u).len
                → IsBefore i (get_or last_suff k none_u32)))
      → All (IsBefore (i + 1)) last_suff
      → All (IsMatchBefore i min_match_len) res
      → (found : List Match) × (last' : List ℕ) × (match_loop C fuel nodes min_match_len i u
            last_suff res
          ≡ some (found, last'))
        × All (IsMatchBefore i min_match_len) found
        × All (IsBefore (i + 1)) last'
  unfolding match_loop
  match_loop_lem zero nodes min_match_len i u last_suff res links (inl (null, h)) before good =
      absurd (omega arith)
  match_loop_lem zero nodes min_match_len i u last_suff res links (inr (h, _)) before good =
      absurd (omega arith)
  match_loop_lem (suc fuel) nodes min_match_len i u last_suff res links (inl (null, h)) before
        good =
      (res, last_suff, rw null refl, good, before)
  match_loop_lem (suc fuel) nodes min_match_len i u last_suff res links (inr (enough, at)) before
        good =
      elim (Bool-cases (not (u == 0) && leb min_match_len (node C nodes u).len)) [
        | inr stop ↦ (res, last_suff, rw stop refl, good, before)
        | inl go ↦
            let long : min_match_len ≤ (node C nodes u).len =
              long_enough u (node C nodes u).len go in
            let (found, last', e, good', before') =
              match_loop_lem fuel nodes min_match_len i (node C nodes u).link (set last_suff u i)
                (if get_or last_suff u none_u32 == none_u32
                  then res
                  else res
                    ++ (record { start = get_or last_suff u none_u32; len = (node C nodes u).len }
                        ∷ []))
                links
                (next (All-get_or (IsShrinking nodes) nodes u (blank_node C) links (inl refl)))
                (All-set (IsBefore (i + 1)) last_suff u i before (inr (omega arith)))
                (add (get_or last_suff u none_u32) (at u (omega arith)) long) in
            (found, last', rw go e, good', before')
      ]
    where
      long_enough : (v l : ℕ) → (not (v == 0) && leb min_match_len l) ≡ true → min_match_len ≤ l
      long_enough v l h = ground arith

      next :
          IsShrinking nodes (node C nodes u)
          → (((node C nodes u).link ≡ 0) × (0 < fuel))
            ⊎ (((node C nodes (node C nodes u).link).len + 2 ≤ fuel)
                × ((k : ℕ)
                    → (node C nodes k).len ≤ (node C nodes (node C nodes u).link).len
                    → IsBefore i (get_or (set last_suff u i) k none_u32)))
      next (inl null) = inl (null, omega arith)
      next (inr less) = inr (
        omega arith,
        λ k h.
            subst (IsBefore i)
              (sym (
                get_or-set_ne last_suff u k i none_u32
                  (λ e. omega (arith, less, h, ap (λ (x : ℕ). (node C nodes x).len) e))))
              (at k (omega arith)),
      )

      is_before : (seen : ℕ) → IsBefore i seen → (seen == none_u32) ≡ false → seen < i
      is_before seen (inl e) met = ground arith
      is_before seen (inr less) met = less

      add :
          (seen : ℕ)
          → IsBefore i seen
          → min_match_len ≤ (node C nodes u).len
          → All (IsMatchBefore i min_match_len) (
              if seen == none_u32
              then res
              else res ++ (record { start = seen; len = (node C nodes u).len } ∷ []))
      add seen b long = elim (Bool-cases (seen == none_u32)) [
        | inl fresh ↦ rw fresh good
        | inr met ↦ rw met (
            All-append (IsMatchBefore i min_match_len) res
              (record { start = seen; len = (node C nodes u).len } ∷ []) good
              ((is_before seen b met, long), tt))
      ]

  get_match_loop_lem :
      (left : ℕ) (sa : SuffAut) (res : List Match)
      → IsSearchable sa
      → sa.i_ptr + left ≤ length sa.vs
      → All (IsMatchBefore (sa.i_ptr + left - 1) sa.min_match_len) res
      → (found : List Match) × (sa' : SuffAut) × (get_match_loop C left sa res ≡ some (found, sa'))
        × All (IsMatchBefore (sa.i_ptr + left - 1) sa.min_match_len) found
        × IsSearchable sa'
        × (sa'.i_ptr ≡ sa.i_ptr + left)
        × (sa'.vs ≡ sa.vs)
  unfolding get_match_loop
  get_match_loop_lem zero sa res ready room good = (res, sa, refl, good, ready, omega arith, refl)
  get_match_loop_lem (suc left) sa res ready room good =
      let u : ℕ = get_or sa.vs sa.i_ptr 0 in
      let (found, last', e, good', before') =
        match_loop_lem (length sa.nodes) sa.nodes sa.min_match_len sa.i_ptr u sa.last_suff []
          ready.links
          (inr (
            All-get_or (IsShort sa.nodes) sa.nodes u (blank_node C) ready.lens
                (omega (arith, ready.some_nodes)),
            λ k _. All-get_or (IsBefore sa.i_ptr) sa.last_suff k none_u32 ready.earlier (inl refl),
          ))
          (All-weaken (IsBefore sa.i_ptr) (IsBefore (sa.i_ptr + 1)) sa.last_suff later
            ready.earlier)
          tt in
      let sa1 : SuffAut = record sa { last_suff = last'; i_ptr = sa.i_ptr + 1 } in
      let (found', sa', e', good'', ready', moved, same) =
        get_match_loop_lem left sa1 found
          (record {
            some_nodes = ready.some_nodes;
            links = ready.links;
            lens = ready.lens;
            earlier = before';
          })
          (omega arith)
          (All-weaken (IsMatchBefore sa.i_ptr sa.min_match_len)
            (IsMatchBefore (sa.i_ptr + 1 + left - 1) sa.min_match_len) found
            (λ m h. (omega (arith, h.0), h.1)) good') in
      (
        found',
        sa',
        rw (lt→ltb sa.i_ptr (length sa.vs) (omega arith), e) e',
        All-weaken (IsMatchBefore (sa.i_ptr + 1 + left - 1) sa.min_match_len)
            (IsMatchBefore (sa.i_ptr + suc left - 1) sa.min_match_len) found'
            (λ m h. (omega (arith, h.0), h.1)) good'',
        ready',
        omega arith,
        same,
      )
    where
      later : (k : ℕ) → IsBefore sa.i_ptr k → IsBefore (sa.i_ptr + 1) k
      later k (inl e) = inl e
      later k (inr h) = inr (omega arith)

  -- In an automaton whose suffix links shrink and whose nodes are shorter than they are many, less
  -- one, with positions before i_ptr in last_suff, get_match ends for every position from i_ptr on
  -- within the string: each match starts before the position and has min_match_len characters at
  -- least, and the same holds of the state that is left, with i_ptr behind the position.
  pub get_match_lem :
      (sa : SuffAut) (need_i : ℕ)
      → IsSearchable sa
      → sa.i_ptr ≤ need_i
      → need_i < length sa.vs
      → (found : List Match) × (sa' : SuffAut) × (get_match C sa need_i ≡ some (found, sa'))
        × All (IsMatchBefore need_i sa.min_match_len) found
        × IsSearchable sa'
        × (sa'.i_ptr ≡ need_i + 1)
        × (sa'.vs ≡ sa.vs)
  unfolding get_match
  get_match_lem sa need_i ready low high =
      let (found, sa', e, good, ready', moved, same) =
        get_match_loop_lem (need_i + 1 - sa.i_ptr) sa [] ready (omega arith) tt in
      (
        found,
        sa',
        rw (le→leb sa.i_ptr need_i low) e,
        All-weaken (IsMatchBefore (sa.i_ptr + (need_i + 1 - sa.i_ptr) - 1) sa.min_match_len)
            (IsMatchBefore need_i sa.min_match_len) found (λ m h. (omega (arith, h.0), h.1)) good,
        ready',
        omega arith,
        same,
      )
