-- ===== src/Serializator/Rebuild/Sorting.antt =====
-- top_sort on cells without cycles: every cell once, references first.
use mara_ton_contest_solutio.Common.{
  test_eq, ℕ, zero, suc, ◌+◌, ◌≤◌, ◌<◌, ◌≡◌, ◌≢◌, refl, sym, ap, ◌∙◌, inl, inr, Bool, true, false,
  some, List, [], ◌∷◌, Bool-cases, length, length-replicate, replicate, get_or, subst, arith,
}
use mara_ton_contest_solutio.Serializator.Cell.{MyCell}
use mara_ton_contest_solutio.Serializator.Order.Graphs.{
  cell_of, IsGraph, IsOrder, occurs, occurs-place, place-occurs, one-place,
}
use mara_ton_contest_solutio.Serializator.Order.Rounds.{IsAcyclic, place-refs}
use mara_ton_contest_solutio.Serializator.Rebuild.{Sort, sort_all, top_sort}
use mara_ton_contest_solutio.Serializator.Rebuild.TopSort.{
  was_at, unmarked, SortInv, Grows, Grows-refl, Grows-trans, sort_from-lem,
}
use native.Mathlib.Decide.{ℕ_discrete}

unmarked_le : (l : List Bool) → unmarked l ≤ length l
unmarked_le [] = omega arith
unmarked_le (b ∷ l) = ground (arith, unmarked_le l)

unmarked-all : (l : List Bool) → ((v : ℕ) → v < length l → get_or l v false ≡ true) → unmarked l ≡ 0
unmarked-all [] h = refl
unmarked-all (b ∷ l) h =
    let first : b ≡ true = h 0 (omega arith) in
    rw first (unmarked-all l (λ v lt. h (suc v) (omega arith)))

unmarked-none : (n : ℕ) → unmarked (replicate n false) ≡ n
unmarked-none zero = refl
unmarked-none (suc n) = ap suc (unmarked-none n)

none_was : (n v : ℕ) → get_or (replicate n false) v false ≡ false
none_was zero v = refl
none_was (suc n) zero = refl
none_was (suc n) (suc v) = none_was n v

module _ (cells : List MyCell) (graph : IsGraph cells) (acyclic : IsAcyclic cells) where
  sort_all-lem :
      (left v : ℕ) (s : Sort)
      → SortInv cells s
      → v + left ≡ length cells
      → ((u : ℕ) → was_at s u ≡ true → 0 < occurs u s.order)
      → ((u : ℕ) → u < v → was_at s u ≡ true)
      → (t : Sort) × (sort_all left v cells s ≡ some t)
        × SortInv cells t
        × Grows s t
        × ((u : ℕ) → u < length cells → 0 < occurs u t.order)
  unfolding sort_all
  sort_all-lem zero v s inv total closed seen =
      (s, refl, inv, Grows-refl s, λ u h. closed u (seen u (omega arith)))
  sort_all-lem (suc left) v s inv total closed seen = elim (Bool-cases (was_at s v)) [
    | inl here ↦
        let (t, sorted, inv', g, all) = sort_all-lem left (v + 1) s inv (omega arith) closed (λ u h.
          elim (ℕ_discrete v u) [
            | yes e ↦ subst (λ x. was_at s x ≡ true) e here
            | no ne ↦ seen u (omega (arith, ne))
          ]) in
        (t, rw here sorted, inv', g, all)
    | inr free ↦
        let (t1, found, inv1, g1, there) =
          sort_from-lem cells graph acyclic (length cells + 1) v s inv (omega arith) free
            (λ u marked. inl (closed u marked)) (omega (arith, unmarked_le s.was, inv.wide)) in
        let (t, sorted, inv', g, all) =
          sort_all-lem left (v + 1) t1 inv1 (omega arith)
            (λ u marked. elim (g1.closed u marked) [
              | inl in_order ↦ in_order
              | inr before ↦ g1.kept u (closed u before)
            ])
            (λ u h. elim (ℕ_discrete v u) [
              | yes e ↦ subst (λ x. was_at t1 x ≡ true) e (inv1.marked v there)
              | no ne ↦ g1.more u (seen u (omega (arith, ne)))
            ]) in
        (t, rw (free, found) sorted, inv', Grows-trans g1 g, all)
  ]

-- Where the references of the cells are to cells of the list and form no cycle: top_sort passes its
-- CHECKs and its recursion ends, with an order in which each cell has just one place, behind those of
-- the cells that it refers to.
pub top_sort_lem :
    (cells : List MyCell)
    → IsGraph cells
    → IsAcyclic cells
    → (order : List ℕ) × (top_sort cells ≡ some order)
      × IsOrder (length cells) order
      × ((j k : ℕ)
          → j < length cells
          → k < (cell_of cells (get_or order j 0)).cnt_refs
          → (i : ℕ) × (i < j)
            × (get_or order i 0 ≡ get_or (cell_of cells (get_or order j 0)).refs k 0))
unfolding top_sort
top_sort_lem cells graph acyclic =
    let n : ℕ = length cells in
    let start : Sort = record { was = replicate n false; order = [] } in
    let never = λ (u : ℕ) (h : was_at start u ≡ true). no_confusion (sym h ∙ none_was n u) in
    let inv : SortInv cells start = record {
      wide = length-replicate n false;
      once = λ v. omega arith;
      below = λ v h. absurd (omega arith);
      marked = λ v h. absurd (omega arith);
      first = λ j r h stands. absurd (omega arith);
    } in
    let (t, sorted, last, g, all) =
      sort_all-lem cells graph acyclic n 0 start inv (omega arith) (λ u h. absurd (never u h))
        (λ u h. absurd (omega arith)) in
    let full : unmarked t.was ≡ 0 =
      unmarked-all t.was (λ v h. last.marked v (all v (omega (arith, last.wide)))) in
    let size : length t.order ≡ n = omega (arith, g.size, full, unmarked-none n) in
    let own = λ (j : ℕ) (h : j < n).
      last.below (get_or t.order j 0) (place-occurs t.order j (omega arith)) in
    (
      t.order,
      rw (sorted, test_eq (length t.order) n size) refl,
      record {
        size = size;
        below = own;
        listed =
            λ v h. let (k, lt, found) = occurs-place v t.order (all v h) in (k, omega arith, found);
        once = λ i j h h' e.
            one-place t.order i j (omega arith) (omega arith) e
              (omega (arith, last.once (get_or t.order j 0), place-occurs t.order j (omega arith)));
      },
      λ j k h few_refs.
          let c : MyCell = cell_of cells (get_or t.order j 0) in
          last.first j (get_or c.refs k 0) (omega arith)
            (place-refs c.cnt_refs c.refs k few_refs (graph.slots (get_or t.order j 0) (own j h))),
    )
  where
    no_confusion : true ≢ false
    no_confusion h = cc
