-- ===== src/Serializator/Order/Sorting.antt =====
-- initial_cell_order and apply_order together, as serialize calls them.
use mara_ton_contest_solutio.Common.{
  ℕ, ◌<◌, ◌≡◌, sym, ap, ◌∙◌, some, List, length, get_or, subst, arith,
}
use mara_ton_contest_solutio.Serializator.Cell.{MyCell}
use mara_ton_contest_solutio.Serializator.Order.{initial_cell_order, apply_order}
use mara_ton_contest_solutio.Serializator.Order.Graphs.{cell_of, IsGraph}
use mara_ton_contest_solutio.Serializator.Order.Rounds.{IsAcyclic}
use mara_ton_contest_solutio.Serializator.Order.Initial.{initial_cell_order_lem}
use mara_ton_contest_solutio.Serializator.Order.Applied.{apply_order_lem}

-- Where the references of the cells, fewer than 256 of each, are to cells of the list and form no
-- cycle: initial_cell_order and then apply_order succeed with as many cells, of which each refers only
-- to cells before it.
pub apply_order-initial_cell_order :
    (cells : List MyCell)
    → IsGraph cells
    → IsAcyclic cells
    → ((i : ℕ) → i < length cells → (cell_of cells i).cnt_refs < 256)
    → (order : List ℕ) × (cells' : List MyCell) × (initial_cell_order cells ≡ some order)
      × (apply_order cells order ≡ some cells')
      × (length cells' ≡ length cells)
      × ((j k : ℕ)
          → j < length cells
          → k < (cell_of cells' j).cnt_refs
          → get_or (cell_of cells' j).refs k 0 < j)
apply_order-initial_cell_order cells graph acyclic few =
    let (order, ordered, own, first) = initial_cell_order_lem cells graph acyclic few in
    let (cells', applied, size, renumbered) = apply_order_lem cells order own graph in
    (
      order,
      cells',
      ordered,
      applied,
      size,
      λ j k h few_refs.
          let (refs', same, renumbered_refs, _, _) = renumbered j h in
          let count : k < (cell_of cells (get_or order j 0)).cnt_refs =
            subst (λ n. k < n) (ap (λ (c : MyCell). c.cnt_refs) same) few_refs in
          let (below, led) = renumbered_refs k count in
          let (i, before, at) = first j k h count in
          let e : get_or refs' k 0 ≡ i =
            own.once (get_or refs' k 0) i below (omega arith) (led ∙ sym at) in
          omega (arith, e, ap (λ (c : MyCell). get_or c.refs k 0) same),
    )
