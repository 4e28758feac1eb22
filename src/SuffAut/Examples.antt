-- ===== src/SuffAut/Examples.antt =====
-- The automaton of a short string.
use mara_ton_contest_solutio.Common.{
  ◌+◌, ◌≡◌, inl, inr, refl, some, List, [], ◌∷◌, ◌>>=◌, All, none_u32, arith,
}
use mara_ton_contest_solutio.SuffAut.{
  Match, SuffAut, empty, extend_loop, redirect_loop, link_cur, add_c, add_all, build, prefixes,
  prepare_matches, get_match,
}
use mara_ton_contest_solutio.SuffAut.Matches.{IsSearchable, IsMatchBefore, get_match_lem}

-- The string 0, 1, 0.
abbrev ready : SuffAut
ready = record {
  nodes =
      record { to = 0 ∷ 0 ∷ []; link = 0; len = 0 }
      ∷ record { to = 2 ∷ 3 ∷ []; link = 0; len = 0 }
      ∷ record { to = 0 ∷ 3 ∷ []; link = 1; len = 1 }
      ∷ record { to = 4 ∷ 0 ∷ []; link = 1; len = 2 }
      ∷ record { to = 0 ∷ 0 ∷ []; link = 2; len = 3 }
      ∷ [];
  last_suff = none_u32 ∷ none_u32 ∷ none_u32 ∷ none_u32 ∷ none_u32 ∷ [];
  vs = 4 ∷ 3 ∷ 2 ∷ [];
  i_ptr = 0;
  min_match_len = 1;
}

-- It is the state that the constructor and prepare_matches leave.
ready_built :
    (build 2 (0 ∷ 1 ∷ 0 ∷ []) >>= λ a. prepare_matches 2 a (0 ∷ 1 ∷ 0 ∷ []) 1) ≡ some ready
unfolding build empty add_all add_c extend_loop redirect_loop link_cur prefixes prepare_matches
ready_built = refl

ready-IsSearchable : IsSearchable 2 ready
ready-IsSearchable = record {
  some_nodes = omega arith;
  links = (inl refl, (inl refl, (inr (omega arith), (inr (omega arith), (inr (omega arith), tt)))));
  lens = (omega arith, (omega arith, (omega arith, (omega arith, (omega arith, tt)))));
  earlier = (inl refl, (inl refl, (inl refl, (inl refl, (inl refl, tt)))));
}

get_match_lem_example :
    (found : List Match) × (sa' : SuffAut) × (get_match 2 ready 2 ≡ some (found, sa'))
    × All (IsMatchBefore 2 1) found
    × IsSearchable 2 sa'
    × (sa'.i_ptr ≡ 2 + 1)
    × (sa'.vs ≡ 4 ∷ 3 ∷ 2 ∷ [])
get_match_lem_example = get_match_lem 2 ready 2 ready-IsSearchable (omega arith) (omega arith)
