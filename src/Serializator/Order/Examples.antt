-- ===== src/Serializator/Order/Examples.antt =====
-- Three cells put in order: the first refers to the other two, and the second to the third.
use mara_ton_contest_solutio.Common.{
  ℕ, zero, suc, ◌≤◌, ◌<◌, ◌≡◌, refl, sym, ap, ◌∙◌, false, some, List, [], ◌∷◌, length, get_or,
  arith,
}
use mara_ton_contest_solutio.Serializator.Cell.{MyCell, blank_cell}
use mara_ton_contest_solutio.Serializator.Order.{initial_cell_order, apply_order}
use mara_ton_contest_solutio.Serializator.Order.Graphs.{cell_of, IsGraph, IsOrder}
use mara_ton_contest_solutio.Serializator.Order.Rounds.{IsAcyclic}
use mara_ton_contest_solutio.Serializator.Order.Initial.{initial_cell_order_lem}
use mara_ton_contest_solutio.Serializator.Order.Applied.{apply_order_lem}
use mara_ton_contest_solutio.Serializator.Order.Sorting.{apply_order-initial_cell_order}
use mara_ton_contest_solutio.Serializator.Rebuild.{top_sort}
use mara_ton_contest_solutio.Serializator.Rebuild.Sorting.{top_sort_lem}

abbrev with_refs : ℕ → List ℕ → MyCell
with_refs n refs = record {
  cnt_refs = n;
  refs = refs;
  is_special = false;
  bytes = [];
  cnt_bits = n;
}

abbrev cells : List MyCell
cells =
    with_refs 2 (1 ∷ 2 ∷ 0 ∷ 0 ∷ [])
    ∷ with_refs 1 (2 ∷ 0 ∷ 0 ∷ 0 ∷ [])
    ∷ with_refs 0 (0 ∷ 0 ∷ 0 ∷ 0 ∷ [])
    ∷ []

cells-IsGraph : IsGraph cells
cells-IsGraph = record { slots = slots; valid = valid }
  where
    slots : (i : ℕ) → i < 3 → (cell_of cells i).cnt_refs ≤ length (cell_of cells i).refs
    slots zero h = omega arith
    slots (suc zero) h = omega arith
    slots (suc (suc zero)) h = omega arith
    slots (suc (suc (suc i))) h = absurd (omega arith)

    valid :
        (i k : ℕ) → i < 3 → k < (cell_of cells i).cnt_refs → get_or (cell_of cells i).refs k 0 < 3
    valid zero zero h h' = omega arith
    valid zero (suc zero) h h' = omega arith
    valid zero (suc (suc k)) h h' = absurd (omega arith)
    valid (suc zero) zero h h' = omega arith
    valid (suc zero) (suc k) h h' = absurd (omega arith)
    valid (suc (suc zero)) k h h' = absurd (omega arith)
    valid (suc (suc (suc i))) k h h' = absurd (omega arith)

abbrev heights : List ℕ
heights = 2 ∷ 1 ∷ 0 ∷ []

cells-IsAcyclic : IsAcyclic cells
cells-IsAcyclic = record { height = λ i. get_or heights i 0; falls = falls }
  where
    falls :
        (i k : ℕ)
        → i < 3
        → k < (cell_of cells i).cnt_refs
        → get_or heights (get_or (cell_of cells i).refs k 0) 0 < get_or heights i 0
    falls zero zero h h' = omega arith
    falls zero (suc zero) h h' = omega arith
    falls zero (suc (suc k)) h h' = absurd (omega arith)
    falls (suc zero) zero h h' = omega arith
    falls (suc zero) (suc k) h h' = absurd (omega arith)
    falls (suc (suc zero)) k h h' = absurd (omega arith)
    falls (suc (suc (suc i))) k h h' = absurd (omega arith)

few_refs : (i : ℕ) → i < 3 → (cell_of cells i).cnt_refs < 256
few_refs zero h = omega arith
few_refs (suc zero) h = omega arith
few_refs (suc (suc zero)) h = omega arith
few_refs (suc (suc (suc i))) h = absurd (omega arith)

initial_cell_order_lem_example :
    (order : List ℕ) × (initial_cell_order cells ≡ some order)
    × IsOrder 3 order
    × ((j k : ℕ)
        → j < 3
        → k < (cell_of cells (get_or order j 0)).cnt_refs
        → (i : ℕ) × (i < j)
          × (get_or order i 0 ≡ get_or (cell_of cells (get_or order j 0)).refs k 0))
initial_cell_order_lem_example = initial_cell_order_lem cells cells-IsGraph cells-IsAcyclic few_refs

top_sort_lem_example :
    (order : List ℕ) × (top_sort cells ≡ some order)
    × IsOrder 3 order
    × ((j k : ℕ)
        → j < 3
        → k < (cell_of cells (get_or order j 0)).cnt_refs
        → (i : ℕ) × (i < j)
          × (get_or order i 0 ≡ get_or (cell_of cells (get_or order j 0)).refs k 0))
top_sort_lem_example = top_sort_lem cells cells-IsGraph cells-IsAcyclic

abbrev backwards : List ℕ
backwards = 2 ∷ 1 ∷ 0 ∷ []

backwards-IsOrder : IsOrder 3 backwards
backwards-IsOrder = record { size = refl; below = below; listed = listed; once = once }
  where
    undo :
        (v : ℕ)
        → v < 3
        → (get_or backwards v 0 < 3) × (get_or backwards (get_or backwards v 0) 0 ≡ v)
    undo zero h = (omega arith, refl)
    undo (suc zero) h = (omega arith, refl)
    undo (suc (suc zero)) h = (omega arith, refl)
    undo (suc (suc (suc v))) h = absurd (omega arith)

    below : (j : ℕ) → j < 3 → get_or backwards j 0 < 3
    below j h = (undo j h).0

    listed : (v : ℕ) → v < 3 → (j : ℕ) × (j < 3) × (get_or backwards j 0 ≡ v)
    listed v h = let (lt, e) = undo v h in (get_or backwards v 0, lt, e)

    once : (i j : ℕ) → i < 3 → j < 3 → get_or backwards i 0 ≡ get_or backwards j 0 → i ≡ j
    once i j h h' e = sym (undo i h).1 ∙ ap (λ (x : ℕ). get_or backwards x 0) e ∙ (undo j h').1

apply_order_lem_example :
    (cells' : List MyCell) × (apply_order cells backwards ≡ some cells')
    × (length cells' ≡ 3)
    × ((j : ℕ)
        → j < 3
        → (refs' : List ℕ) × (get_or cells' j blank_cell
            ≡ record (cell_of cells (get_or backwards j 0)) { refs = refs' })
          × ((k : ℕ)
              → k < (cell_of cells (get_or backwards j 0)).cnt_refs
              → (get_or refs' k 0 < 3)
                × (get_or backwards (get_or refs' k 0) 0
                    ≡ get_or (cell_of cells (get_or backwards j 0)).refs k 0))
          × (length refs' ≡ length (cell_of cells (get_or backwards j 0)).refs)
          × ((k : ℕ)
              → (cell_of cells (get_or backwards j 0)).cnt_refs ≤ k
              → get_or refs' k 0 ≡ get_or (cell_of cells (get_or backwards j 0)).refs k 0))
apply_order_lem_example = apply_order_lem cells backwards backwards-IsOrder cells-IsGraph

apply_order-initial_cell_order_example :
    (order : List ℕ) × (cells' : List MyCell) × (initial_cell_order cells ≡ some order)
    × (apply_order cells order ≡ some cells')
    × (length cells' ≡ 3)
    × ((j k : ℕ) → j < 3 → k < (cell_of cells' j).cnt_refs → get_or (cell_of cells' j).refs k 0 < j)
apply_order-initial_cell_order_example =
    apply_order-initial_cell_order cells cells-IsGraph cells-IsAcyclic few_refs
