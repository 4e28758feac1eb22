-- ===== src/Serializator/Order/Applied.antt =====
-- apply_order puts each cell at its place of the order, with its references renumbered.
use mara_ton_contest_solutio.Common.{
  test_eq, ℕ, zero, suc, ◌+◌, ◌<◌, ◌≤◌, ◌≡◌, ◌≢◌, refl, sym, ap, ◌∙◌, ◌⊎◌, inl, inr, true, some,
  List, [], ◌∷◌, map, ◌==◌, length, length-set, length-replicate, length-map, get_or, set,
  get_or-set_self, get_or-set_ne, replicate, arith,
}
use mara_ton_contest_solutio.Serializator.Cell.{MyCell, blank_cell}
use mara_ton_contest_solutio.Serializator.Order.Graphs.{IsOrder, IsGraph, cell_of}
use mara_ton_contest_solutio.Serializator.Order.{
  positions, renumber, renumber_cell, place, apply_order,
}
use native.Mathlib.Decide.{ℕ_discrete}

-- What `positions` notes of v: its last place, or else what was there before.
positions-cases :
    (order : List ℕ) (i : ℕ) (pos : List ℕ) (v : ℕ)
    → v < length pos
    → ((get_or (positions order i pos) v 0 ≡ get_or pos v 0)
        × ((k : ℕ) → k < length order → get_or order k 0 ≢ v))
      ⊎ ((k : ℕ) × (k < length order)
          × (get_or order k 0 ≡ v)
          × (get_or (positions order i pos) v 0 ≡ i + k))
unfolding positions
positions-cases [] i pos v h = inl (refl, λ k lt. absurd (omega arith))
positions-cases (x ∷ order) i pos v h =
    let size = length-set pos x i in
    elim (positions-cases order (i + 1) (set pos x i) v (omega arith)) [
      | inr (k, lt, found, noted) ↦ inr (suc k, omega arith, found, noted ∙ omega arith)
      | inl (same, none_left) ↦ elim (ℕ_discrete x v) [
        | yes e ↦ inr (
          0,
          omega arith,
          e,
          same
              ∙ ap (λ (y : ℕ). get_or (set pos x i) y 0) (sym e)
              ∙ get_or-set_self pos x i 0 (omega arith)
              ∙ omega arith,
        )
        | no ne ↦ inl (same ∙ get_or-set_ne pos x v i 0 ne, λ k. other ne none_left k)
      ]
    ]
  where
    other :
        (x ≢ v)
        → ((k : ℕ) → k < length order → get_or order k 0 ≢ v)
        → (k : ℕ) → k < suc (length order)
        → get_or (x ∷ order) k 0 ≢ v
    other ne none_left zero lt = ne
    other ne none_left (suc k) lt = none_left k (omega arith)

-- What `place` puts at p: the last cell with that position, or else what was there before.
place-cases :
    (pos : List ℕ) (cells : List MyCell) (i : ℕ) (new : List MyCell) (p : ℕ)
    → p < length new
    → ((get_or (place pos cells i new) p blank_cell ≡ get_or new p blank_cell)
        × ((k : ℕ) → k < length cells → get_or pos (i + k) 0 ≢ p))
      ⊎ ((k : ℕ) × (k < length cells)
          × (get_or pos (i + k) 0 ≡ p)
          × (get_or (place pos cells i new) p blank_cell ≡ get_or cells k blank_cell))
unfolding place
place-cases pos [] i new p h = inl (refl, λ k lt. absurd (omega arith))
place-cases pos (c ∷ cells) i new p h =
    let x : ℕ = get_or pos i 0 in
    let size = length-set new x c in
    let shift =
      λ (k : ℕ). ap (λ (j : ℕ). get_or pos j 0) {x = i + suc k} {y = i + 1 + k} (omega arith) in
    let start = ap (λ (j : ℕ). get_or pos j 0) {x = i + 0} {y = i} (omega arith) in
    elim (place-cases pos cells (i + 1) (set new x c) p (omega arith)) [
      | inr (k, lt, found, put) ↦ inr (suc k, omega arith, shift k ∙ found, put)
      | inl (same, none_left) ↦ elim (ℕ_discrete x p) [
        | yes e ↦ inr (
          0,
          omega arith,
          start ∙ e,
          same
              ∙ ap (λ (y : ℕ). get_or (set new x c) y blank_cell) (sym e)
              ∙ get_or-set_self new x c blank_cell (omega arith),
        )
        | no ne ↦ inl (
          same ∙ get_or-set_ne new x p c blank_cell ne,
          λ k. other (λ e. ne (sym start ∙ e)) (λ j lt e. none_left j lt (sym (shift j) ∙ e)) k,
        )
      ]
    ]
  where
    other :
        (get_or pos (i + 0) 0 ≢ p)
        → ((k : ℕ) → k < length cells → get_or pos (i + suc k) 0 ≢ p)
        → (k : ℕ) → k < suc (length cells)
        → get_or pos (i + k) 0 ≢ p
    other ne none_left zero lt = ne
    other ne none_left (suc k) lt = none_left k (omega arith)

length-positions :
    (order : List ℕ) (i : ℕ) (pos : List ℕ) → length (positions order i pos) ≡ length pos
unfolding positions
length-positions [] i pos = refl
length-positions (v ∷ order) i pos =
    length-positions order (i + 1) (set pos v i) ∙ length-set pos v i

length-place :
    (pos : List ℕ) (cells : List MyCell) (i : ℕ) (new : List MyCell)
    → length (place pos cells i new) ≡ length new
unfolding place
length-place pos [] i new = refl
length-place pos (c ∷ cells) i new =
    length-place pos cells (i + 1) (set new (get_or pos i 0) c) ∙ length-set new (get_or pos i 0) c

get_or-renumber :
    (pos : List ℕ) (n : ℕ) (refs : List ℕ) (k : ℕ)
    → k < n
    → k < length refs
    → get_or (renumber pos n refs) k 0 ≡ get_or pos (get_or refs k 0) 0
unfolding renumber
get_or-renumber pos zero refs k h h' = absurd (omega arith)
get_or-renumber pos (suc n) [] k h h' = absurd (omega arith)
get_or-renumber pos (suc n) (r ∷ refs) zero h h' = refl
get_or-renumber pos (suc n) (r ∷ refs) (suc k) h h' =
    get_or-renumber pos n refs k (omega arith) (omega arith)

length-renumber :
    (pos : List ℕ) (n : ℕ) (refs : List ℕ) → length (renumber pos n refs) ≡ length refs
unfolding renumber
length-renumber pos zero refs = refl
length-renumber pos (suc n) [] = refl
length-renumber pos (suc n) (r ∷ refs) = ap suc (length-renumber pos n refs)

renumber-behind :
    (pos : List ℕ) (n : ℕ) (refs : List ℕ) (k : ℕ)
    → n ≤ k
    → get_or (renumber pos n refs) k 0 ≡ get_or refs k 0
unfolding renumber
renumber-behind pos zero refs k h = refl
renumber-behind pos (suc n) [] k h = refl
renumber-behind pos (suc n) (r ∷ refs) zero h = absurd (omega arith)
renumber-behind pos (suc n) (r ∷ refs) (suc k) h = renumber-behind pos n refs k (omega arith)

get_or-map :
    (f : MyCell → MyCell) (cells : List MyCell) (k : ℕ)
    → k < length cells
    → get_or (map f cells) k blank_cell ≡ f (get_or cells k blank_cell)
get_or-map f [] k h = absurd (omega arith)
get_or-map f (c ∷ cells) zero h = refl
get_or-map f (c ∷ cells) (suc k) h = get_or-map f cells k (omega arith)

module _ (order : List ℕ) (n : ℕ) (own : IsOrder n order) where
  -- The place of a cell.
  abbrev pos : List ℕ
  pos = positions order 0 (replicate n 0)

  pos-inverse : (v : ℕ) → v < n → (get_or pos v 0 < n) × (get_or order (get_or pos v 0) 0 ≡ v)
  pos-inverse v h =
      elim (positions-cases order 0 (replicate n 0) v
        (omega (arith, length-replicate {A = ℕ} n 0))) [
          | inl (same, none_left) ↦
              let (j, lt, found) = own.listed v h in
              absurd (none_left j (omega (arith, own.size)) found)
          | inr (k, lt, found, noted) ↦
              let e : get_or pos v 0 ≡ k = noted ∙ omega arith in
              (omega (arith, own.size), ap (λ (j : ℕ). get_or order j 0) e ∙ found)
        ]

  inverse-pos : (j : ℕ) → j < n → get_or pos (get_or order j 0) 0 ≡ j
  inverse-pos j h =
      let (lt, back) = pos-inverse (get_or order j 0) (own.below j h) in
      own.once (get_or pos (get_or order j 0) 0) j lt h back

  placed :
      (cells : List MyCell) (j : ℕ)
      → length cells ≡ n
      → j < n
      → get_or (place pos cells 0 (replicate n blank_cell)) j blank_cell
        ≡ get_or cells (get_or order j 0) blank_cell
  placed cells j size h =
      let start = λ (k : ℕ). ap (λ (i : ℕ). get_or pos i 0) {x = 0 + k} {y = k} (omega arith) in
      elim (place-cases pos cells 0 (replicate n blank_cell) j
        (omega (arith, length-replicate n blank_cell))) [
          | inl (same, none_left) ↦ absurd (
              none_left (get_or order j 0) (omega (arith, own.below j h))
                (start (get_or order j 0) ∙ inverse-pos j h))
          | inr (k, lt, found, put) ↦
              let (_, back) = pos-inverse k (omega arith) in
              let at : get_or order j 0 ≡ k =
                ap (λ (i : ℕ). get_or order i 0) (sym found ∙ start k) ∙ back in
              put ∙ ap (λ (i : ℕ). get_or cells i blank_cell) (sym at)
        ]

-- Every place of an order has the cell that the order names, all but the references as they were, and
-- where the references are to cells of the list, each of them is replaced by the place of the cell
-- that it referred to; the slots behind them are kept.
pub apply_order_lem :
    (cells : List MyCell) (order : List ℕ)
    → IsOrder (length cells) order
    → IsGraph cells
    → (cells' : List MyCell) × (apply_order cells order ≡ some cells')
      × (length cells' ≡ length cells)
      × ((j : ℕ)
          → j < length cells
          → (refs' : List ℕ) × (get_or cells' j blank_cell
              ≡ record (cell_of cells (get_or order j 0)) { refs = refs' })
            × ((k : ℕ)
                → k < (cell_of cells (get_or order j 0)).cnt_refs
                → (get_or refs' k 0 < length cells)
                  × (get_or order (get_or refs' k 0) 0
                      ≡ get_or (cell_of cells (get_or order j 0)).refs k 0))
            × (length refs' ≡ length (cell_of cells (get_or order j 0)).refs)
            × ((k : ℕ)
                → (cell_of cells (get_or order j 0)).cnt_refs ≤ k
                → get_or refs' k 0 ≡ get_or (cell_of cells (get_or order j 0)).refs k 0))
unfolding apply_order renumber_cell
apply_order_lem cells order own graph =
    let n : ℕ = length cells in
    let pos : List ℕ = positions order 0 (replicate n 0) in
    let new : List MyCell = map (renumber_cell pos) cells in
    let same : (length order == n) ≡ true = test_eq (length order) n own.size in
    (
      place pos new 0 (replicate n blank_cell),
      rw same refl,
      length-place pos new 0 (replicate n blank_cell) ∙ length-replicate n blank_cell,
      λ j h.
          let c : MyCell = get_or cells (get_or order j 0) blank_cell in
          (
            renumber pos c.cnt_refs c.refs,
            placed order n own new j (length-map (renumber_cell pos) cells) h
                ∙ get_or-map (renumber_cell pos) cells (get_or order j 0) (own.below j h),
            λ k few.
                let i : ℕ = get_or order j 0 in
                let e =
                  get_or-renumber pos c.cnt_refs c.refs k few
                    (omega (arith, graph.slots i (own.below j h))) in
                let (lt, back) =
                  pos-inverse order n own (get_or c.refs k 0)
                    (graph.valid i k (own.below j h) few) in
                (omega arith, ap (λ (i : ℕ). get_or order i 0) e ∙ back),
            length-renumber pos c.cnt_refs c.refs,
            λ k behind. renumber-behind pos c.cnt_refs c.refs k behind,
          ),
    )
