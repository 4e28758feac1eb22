-- ===== src/Serializator/Rebuild.antt =====
-- my_cells_to_vm_root of serializator.hpp: a topological order of the cells, and a vm::Cell for
-- each. vm::CellBuilder and the hashes and depths of cells belong to the TON library: they are the
-- parameter `Builder`.
pub mod TopSort
pub mod Sorting
use mara_ton_contest_solutio.Common.{
  ℕ, zero, suc, ◌+◌, ◌-◌, ◌*◌, ◌/◌, Bool, true, false, not, ◌||◌, Option, none, some, List, [], ◌∷◌,
  ◌++◌, ltb, leb, ◌==◌, if◌then◌else◌, ◌>>=◌, ◌>>◌, check, length, get_or, get_elem?, set, take,
  replicate,
}
use mara_ton_contest_solutio.Bits.{shr, BitOps, BitPtr, write}
use mara_ton_contest_solutio.Utils.{ZeroCounts, len_in_bytes, push_bit_range_str}
use mara_ton_contest_solutio.Serializator.Cell.{
  MyCell, blank_cell, get_type, resize, merkle_proof, merkle_update,
}

pub record Builder : Type 1 where
  pub Cell : Type 0
  -- CellBuilder with store_ref on each reference, store_bits, and finalize_novm_nothrow
  pub finalize :
      (refs : List Cell) (bytes : List ℕ) (cnt_bits : ℕ) (is_special : Bool) → Option Cell
  pub is_special : Cell → Bool
  pub get_bits : Cell → ℕ
  -- get_hash(0).as_slice() and get_depth(0)
  pub get_hash : Cell → List ℕ
  pub get_depth : Cell → ℕ

pub record Sort : Type 0 where
  pub was : List Bool
  pub order : List ℕ

-- for (i < cnt_refs) if (!was[to]) self(self, to);
unfoldable pub sort_refs : (ℕ → Sort → Option Sort) → List ℕ → Sort → Option Sort
sort_refs self [] s = some s
sort_refs self (to ∷ refs) s =
    let into = self to s >>= λ t. sort_refs self refs t in
    let over = sort_refs self refs s in if not (get_or s.was to false) then into else over

-- The lambda `dfs`; the fuel bounds the depth of the recursion, which passes no cell twice.
unfoldable pub sort_from : ℕ → List MyCell → ℕ → Sort → Option Sort
sort_from zero my_cells v s = none
sort_from (suc fuel) my_cells v s =
    let c = get_or my_cells v blank_cell in
    do
      check (ltb v (length my_cells))
      check (not (get_or s.was v false))
      t ←
          sort_refs (sort_from fuel my_cells) (take c.cnt_refs c.refs)
            (record s { was = set s.was v true })
      some (record t { order = t.order ++ (v ∷ []) })

-- for (v < n_cells) if (!was[v]) dfs(dfs, v); `left` cells are left, from v on.
unfoldable pub sort_all : (left v : ℕ) → List MyCell → Sort → Option Sort
sort_all zero v my_cells s = some s
sort_all (suc left) v my_cells s =
    let into =
      sort_from (length my_cells + 1) my_cells v s >>= λ t. sort_all left (v + 1) my_cells t in
    let over = sort_all left (v + 1) my_cells s in if not (get_or s.was v false) then into else over

unfoldable pub top_sort : List MyCell → Option (List ℕ)
top_sort my_cells = do
  s ←
      sort_all (length my_cells) 0 my_cells
        (record { was = replicate (length my_cells) false; order = [] })
  check (length s.order == length my_cells)
  some s.order

-- a == b
abbrev same : Bool → Bool → Bool
same true x = x
same false x = not x

module _ (ops : BitOps) (zc : ZeroCounts) (b : Builder) where
  open b use {Cell, finalize, get_bits, get_hash, get_depth}

  -- The cells of the first n references; CHECK(cells[ref_id].get()).
  unfoldable pub refs_of : (n : ℕ) → List ℕ → List (Option Cell) → Option (List Cell)
  refs_of zero refs cells = some []
  refs_of (suc n) [] cells = none
  refs_of (suc n) (r ∷ refs) cells = do
    c ← get_or cells r none
    cs ← refs_of n refs cells
    some (c ∷ cs)

  -- The byte of the type takes the place of its two bits.
  unfoldable pub expand_type : MyCell → Option (List ℕ × ℕ)
  expand_type c =
      let cnt_bits = c.cnt_bits + 6 in
      let cell_type_int = shr (get_or c.bytes 0 0) 6 + 1 in
      let head =
        write ops (record { ptr = replicate ((cnt_bits + 7) / 8) 0; offs = 0 }) cell_type_int 8 in
      let (new_data, new_data_bits) =
        push_bit_range_str ops head.ptr head.offs (record { ptr = c.bytes; offs = 2 }) 2
          (cnt_bits - 8) in
      let special = check (new_data_bits == cnt_bits) >> some (new_data, new_data_bits) in
      if c.is_special then special else some (c.bytes, c.cnt_bits)

  unfoldable pub store_bytes : List ℕ → BitPtr → BitPtr
  store_bytes [] p = p
  store_bytes (x ∷ xs) p = store_bytes xs (write ops p x 8)

  unfoldable pub store_hashes : List Cell → BitPtr → BitPtr
  store_hashes [] p = p
  store_hashes (c ∷ refs) p = store_hashes refs (store_bytes (take 32 (get_hash c)) p)

  unfoldable pub store_depths : (width : ℕ) → List Cell → BitPtr → BitPtr
  store_depths width [] p = p
  store_depths width (c ∷ refs) p = store_depths width refs (write ops p (get_depth c) width)

  -- The hashes and depths of a Merkle cell are made again from its references.
  unfoldable pub expand_merkle : (n_cells : ℕ) → List Cell → List ℕ × ℕ → Option (List ℕ × ℕ)
  expand_merkle n_cells refs (bytes, cnt_bits) =
      let width = len_in_bytes zc n_cells in
      let room = resize (1 + 256 / 8 * 2 + 8 * width) bytes in
      let hashed = store_hashes refs (record { ptr = room; offs = 8 }) in
      let p = store_depths (width * 8) refs hashed in
      check (leb (length refs) 2)
      >> check (length bytes == 1)
      >> check (cnt_bits == 8)
      >> some (p.ptr, p.offs)

  unfoldable pub build_cell : List MyCell → List (Option Cell) → ℕ → Option Cell
  build_cell my_cells cells i = do
    c ← get_elem? my_cells i
    refs ← refs_of c.cnt_refs c.refs cells
    cell_type ← get_type c
    plain ← expand_type c
    (bytes, cnt_bits) ←
        (if (cell_type == merkle_update) || (cell_type == merkle_proof)
          then expand_merkle (length my_cells) refs plain
          else some plain)
    cell ← finalize refs bytes cnt_bits c.is_special
    check (same (b.is_special cell) c.is_special)
    check (get_bits cell == cnt_bits)
    some cell

  unfoldable pub build_cells :
      List MyCell → List ℕ → List (Option Cell) → Option (List (Option Cell))
  build_cells my_cells [] cells = some cells
  build_cells my_cells (i ∷ order) cells = do
    cell ← build_cell my_cells cells i
    build_cells my_cells order (set cells i (some cell))

  -- cells[order.back()]
  unfoldable pub my_cells_to_vm_root : List MyCell → Option Cell
  my_cells_to_vm_root my_cells = do
    order ← top_sort my_cells
    cells ← build_cells my_cells order (replicate (length my_cells) none)
    get_or cells (get_or order (length order - 1) 0) none
