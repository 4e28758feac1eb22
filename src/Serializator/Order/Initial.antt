-- ===== src/Serializator/Order/Initial.antt =====
-- initial_cell_order on cells without cycles: every cell once, references first.
use mara_ton_contest_solutio.Common.{
  ℕ, zero, suc, ◌+◌, ◌%◌, ◌≤◌, ◌<◌, ◌≡◌, refl, some, List, [], ◌∷◌, map, length, length-map, get_or,
  arith,
}
use mara_ton_contest_solutio.Serializator.Cell.{MyCell}
use mara_ton_contest_solutio.Serializator.Order.{
  insert, insert_all, order_loop, degree, initial_cell_order,
}
use mara_ton_contest_solutio.Serializator.Order.Graphs.{
  cell_of, IsGraph, IsOrder, occurs, occurs-place, place-occurs, one-place,
}
use mara_ton_contest_solutio.Serializator.Order.Sorted.{
  Sorted, occurs-insert, length-insert, insert-Sorted,
}
use native.Mathlib.Decide.{ℕ_discrete, dec_lt}
use mara_ton_contest_solutio.Serializator.Order.Rounds.{
  IsAcyclic, place-refs, length-refs, pending-nil, refs_at, who, Inv, ready, step,
}

module _ (cells : List MyCell) (graph : IsGraph cells) (acyclic : IsAcyclic cells) where
  loop :
      (fuel : ℕ) {out_degree : List ℕ} (queue : List ℕ) {order : List ℕ}
      → Inv cells graph acyclic out_degree queue order
      → length queue ≤ fuel
      → (out_degree' : List ℕ) × (order' : List ℕ) × (order_loop
            (who cells graph acyclic)
            fuel
            out_degree
            queue
            order
          ≡ some order')
        × Inv cells graph acyclic out_degree' [] order'
  unfolding order_loop
  loop fuel {out_degree} [] {order} inv enough = (out_degree, order, refl, inv)
  loop zero (i ∷ queue) inv enough = absurd (omega arith)
  loop (suc fuel) (i ∷ queue) inv enough =
      let zero_left = ready cells graph acyclic i inv in
      let (out_degree', queue', released, size, next) = step cells graph acyclic i inv in
      let (d, order', got, last) = loop fuel queue' next (omega arith) in
      (d, order', rw (zero_left, released) got, last)

  -- All cells, one by one.
  record Filled (out_degree : List ℕ) (i n : ℕ) (queue queue' : List ℕ) : Type 0 where
    below : (v : ℕ) → v < i → occurs v queue' ≡ occurs v queue
    within : (v : ℕ) → i ≤ v → v < i + n → occurs v queue' ≡ 1
    above : (v : ℕ) → i + n ≤ v → occurs v queue' ≡ 0
    size : length queue' ≡ length queue + n
    sorted : Sorted out_degree queue'

  insert_all-Filled :
      (out_degree : List ℕ) (i n : ℕ) (queue : List ℕ)
      → ((v : ℕ) → i ≤ v → occurs v queue ≡ 0)
      → Sorted out_degree queue
      → Filled out_degree i n queue (insert_all (who cells graph acyclic) out_degree i n queue)
  unfolding insert_all
  insert_all-Filled out_degree i zero queue fresh s = record {
    below = λ v h. refl;
    within = λ v h h'. absurd (omega arith);
    above = λ v h. fresh v (omega arith);
    size = omega arith;
    sorted = s;
  }
  insert_all-Filled out_degree i (suc n) queue fresh s =
      let new = fresh i (omega arith) in
      let more = λ (v : ℕ). occurs-insert (who cells graph acyclic) out_degree i v queue new in
      let f =
        insert_all-Filled out_degree (i + 1) n (insert (who cells graph acyclic) out_degree i queue)
          (λ v h. ground (arith, more v, fresh v (omega arith)))
          (insert-Sorted (who cells graph acyclic) out_degree i queue new s) in
      record {
        below = λ v h. ground (arith, f.below v (omega arith), more v);
        within = λ v h h'. elim (ℕ_discrete i v) [
          | yes e ↦ ground (arith, f.below v (omega arith), more v, fresh v (omega arith))
          | no ne ↦ f.within v (omega arith) (omega arith)
        ];
        above = λ v h. f.above v (omega arith);
        size =
            omega (arith, f.size, length-insert (who cells graph acyclic) out_degree i queue new);
        sorted = f.sorted;
      }

  start :
      ((i : ℕ) → i < length cells → (cell_of cells i).cnt_refs < 256)
      → Inv cells graph acyclic
          (map degree cells)
          (insert_all (who cells graph acyclic) (map degree cells) 0 (length cells) [])
          []
  start few =
      let f = insert_all-Filled (map degree cells) 0 (length cells) [] (λ v h. refl) tt in
      record {
        wide = length-map degree cells;
        parted = λ v h. omega (arith, f.within v (omega arith) (omega arith));
        outside = λ v h. omega (arith, f.above v (omega arith));
        degrees = λ v h.
            let c : MyCell = cell_of cells v in
            omega (
              arith,
              degree_at cells v h,
              few v h,
              pending-nil (refs_at cells graph acyclic v),
              length-refs c.cnt_refs c.refs (graph.slots v h),
            );
        sorted = f.sorted;
        total = omega (arith, f.size);
        first = λ j r h stands. absurd (omega arith);
      }
    where
      degree_at :
          (l : List MyCell) (v : ℕ)
          → v < length l
          → get_or (map degree l) v 0 ≡ (cell_of l v).cnt_refs % 256
      degree_at [] v h = absurd (omega arith)
      degree_at (c ∷ l) zero h = refl
      degree_at (c ∷ l) (suc v) h = degree_at l v (omega arith)

-- Where the references of the cells, fewer than 256 of each, are to cells of the list and form no
-- cycle: initial_cell_order passes its CHECKs and ends with an order in which each cell has just one
-- place, behind those of the cells that it refers to.
pub initial_cell_order_lem :
    (cells : List MyCell)
    → IsGraph cells
    → IsAcyclic cells
    → ((i : ℕ) → i < length cells → (cell_of cells i).cnt_refs < 256)
    → (order : List ℕ) × (initial_cell_order cells ≡ some order)
      × IsOrder (length cells) order
      × ((j k : ℕ)
          → j < length cells
          → k < (cell_of cells (get_or order j 0)).cnt_refs
          → (i : ℕ) × (i < j)
            × (get_or order i 0 ≡ get_or (cell_of cells (get_or order j 0)).refs k 0))
unfolding initial_cell_order
initial_cell_order_lem cells graph acyclic few =
    let inv = start cells graph acyclic few in
    let queue : List ℕ =
      insert_all (who cells graph acyclic) (map degree cells) 0 (length cells) [] in
    let (d, order, got, last) =
      loop cells graph acyclic (length cells) queue inv (omega (arith, inv.total)) in
    let size : length order ≡ length cells = omega (arith, last.total) in
    let own = below order last.outside in
    (
      order,
      got,
      record {
        size = size;
        below = λ j h. own j (omega arith);
        listed = λ v h.
            let (k, lt, found) = occurs-place v order (omega (arith, last.parted v h)) in
            (k, omega arith, found);
        once = λ i j h h' e.
            one-place order i j (omega arith) (omega arith) e
              (omega (arith, last.parted (get_or order j 0) (own j (omega arith))));
      },
      λ j k h few_refs.
          let c : MyCell = cell_of cells (get_or order j 0) in
          last.first j (get_or c.refs k 0) (omega arith) (
            place-refs c.cnt_refs c.refs k few_refs
              (graph.slots (get_or order j 0) (own j (omega arith)))),
    )
  where
    below :
        (order : List ℕ)
        → ((v : ℕ) → length cells ≤ v → 0 + occurs v order ≡ 0)
        → (j : ℕ) → j < length order
        → get_or order j 0 < length cells
    below order outside j h = elim (dec_lt (get_or order j 0) (length cells)) [
      | yes lt ↦ lt
      | no ge ↦
          absurd (omega (arith, outside (get_or order j 0) (omega arith), place-occurs order j h))
    ]
