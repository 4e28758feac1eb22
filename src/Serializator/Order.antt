-- ===== src/Serializator/Order.antt =====
-- apply_order and initial_cell_order of serializator.hpp. std::set<unsigned, cmp> is the list of
-- its elements in the order of `cmp`; no two numbers are equal under it.
pub mod Graphs
pub mod Sorted
pub mod Release
pub mod Rounds
pub mod Initial
pub mod Applied
pub mod Sorting
pub mod Examples
use mara_ton_contest_solutio.Common.{
  ℕ, zero, suc, ◌+◌, ◌-◌, ◌%◌, Bool, not, Option, none, some, List, [], ◌∷◌, ◌++◌, ltb, ◌==◌,
  if◌then◌else◌, ◌>>=◌, ◌>>◌, check, length, get_or, set, replicate, map,
}
use mara_ton_contest_solutio.Serializator.Cell.{MyCell, blank_cell}

-- for (i from `i` on) pos[order[i]] = i;
unfoldable pub positions : List ℕ → (i : ℕ) → List ℕ → List ℕ
positions [] i pos = pos
positions (v ∷ order) i pos = positions order (i + 1) (set pos v i)

-- refs[i] = pos[refs[i]] for the first n entries.
unfoldable pub renumber : List ℕ → (n : ℕ) → List ℕ → List ℕ
renumber pos zero refs = refs
renumber pos (suc n) [] = []
renumber pos (suc n) (r ∷ refs) = get_or pos r 0 ∷ renumber pos n refs

-- for (i from `i` on) new_my_cells[pos[i]] = my_cells[i];
unfoldable pub place : List ℕ → List MyCell → (i : ℕ) → List MyCell → List MyCell
place pos [] i new_my_cells = new_my_cells
place pos (c ∷ my_cells) i new_my_cells =
    place pos my_cells (i + 1) (set new_my_cells (get_or pos i 0) c)

unfoldable pub renumber_cell : List ℕ → MyCell → MyCell
renumber_cell pos c = record c { refs = renumber pos c.cnt_refs c.refs }

unfoldable pub apply_order : List MyCell → List ℕ → Option (List MyCell)
apply_order my_cells order =
    let n_cells = length my_cells in
    let pos = positions order 0 (replicate n_cells 0) in
    let renumbered = map (renumber_cell pos) my_cells in
    check (length order == n_cells) >> some (place pos renumbered 0 (replicate n_cells blank_cell))

-- who_refers[r].push_back(i) for the first n references r of cell i.
unfoldable pub add_referrers : (i n : ℕ) → List ℕ → List (List ℕ) → List (List ℕ)
add_referrers i zero refs who = who
add_referrers i (suc n) [] who = who
add_referrers i (suc n) (r ∷ refs) who =
    add_referrers i n refs (set who r (get_or who r [] ++ (i ∷ [])))

unfoldable pub who_refers : (i : ℕ) → List MyCell → List (List ℕ) → List (List ℕ)
who_refers i [] who = who
who_refers i (c ∷ cells) who = who_refers (i + 1) cells (add_referrers i c.cnt_refs c.refs who)

unfoldable pub erase : ℕ → List ℕ → List ℕ
erase i [] = []
erase i (j ∷ cells) = if i == j then cells else j ∷ erase i cells

module _ (who : List (List ℕ)) where
  unfoldable pub cmp : (out_degree : List ℕ) → ℕ → ℕ → Bool
  cmp out_degree i j =
      let di = get_or out_degree i 0 in
      let dj = get_or out_degree j 0 in
      let ri = length (get_or who i []) in
      let rj = length (get_or who j []) in
      if not (di == dj) then ltb di dj else if not (ri == rj) then ltb rj ri else ltb i j

  unfoldable pub insert : (out_degree : List ℕ) → ℕ → List ℕ → List ℕ
  insert out_degree i [] = i ∷ []
  insert out_degree i (j ∷ cells) =
      if cmp out_degree i j
      then i ∷ j ∷ cells
      else if cmp out_degree j i
      then j ∷ insert out_degree i cells
      else j ∷ cells

  unfoldable pub insert_all : (out_degree : List ℕ) → (i n : ℕ) → List ℕ → List ℕ
  insert_all out_degree i zero cells = cells
  insert_all out_degree i (suc n) cells =
      insert_all out_degree (i + 1) n (insert out_degree i cells)

  -- for (from : who_refers[i]): the set and the degrees afterwards.
  unfoldable pub release : List ℕ → (out_degree cells : List ℕ) → Option (List ℕ × List ℕ)
  release [] out_degree cells = some (out_degree, cells)
  release (from ∷ froms) out_degree cells =
      let left = get_or out_degree from 0 in
      let out_degree' = set out_degree from (left - 1) in
      check (ltb 0 left) >> release froms out_degree' (insert out_degree' from (erase from cells))

  -- while (!cells.empty()): a round takes one cell out for good, so `n_cells` rounds suffice.
  unfoldable pub order_loop : ℕ → (out_degree cells order : List ℕ) → Option (List ℕ)
  order_loop fuel out_degree [] order = some order
  order_loop zero out_degree (i ∷ cells) order = none
  order_loop (suc fuel) out_degree (i ∷ cells) order = do
    check (get_or out_degree i 0 == 0)
    (out_degree', cells') ← release (get_or who i []) out_degree cells
    order_loop fuel out_degree' cells' (order ++ (i ∷ []))

-- The uint8_t that a count of references is stored as.
abbrev pub degree : MyCell → ℕ
degree c = c.cnt_refs % 256

unfoldable pub initial_cell_order : List MyCell → Option (List ℕ)
initial_cell_order my_cells =
    let n_cells = length my_cells in
    let out_degree = map degree my_cells in
    let who = who_refers 0 my_cells (replicate n_cells []) in
    order_loop who n_cells out_degree (insert_all who out_degree 0 n_cells []) []
