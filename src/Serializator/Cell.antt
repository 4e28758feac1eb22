-- ===== src/Serializator/Cell.antt =====
-- struct MyCell of serializator.hpp, and reading the cells below a root into it.
-- vm::Cell, vm::CellSlice and the loading of cells belong to the TON library: they are the parameter
-- `Vm`. std::unordered_map<const vm::Cell *, unsigned> is the list of its entries.
use mara_ton_contest_solutio.Common.{
  ℕ, zero, suc, ◌+◌, ◌-◌, ◌*◌, ◌/◌, ◌%◌, min, Bool, false, not, ◌&&◌, ◌||◌, Option, none, some,
  List, [], ◌∷◌, ◌++◌, ltb, leb, ◌==◌, if◌then◌else◌, ◌>>=◌, ◌>>◌, check, length, get_elem?, take,
  replicate, none_u32,
}
use mara_ton_contest_solutio.Bits.{shr, BitOps, BitPtr, write}

-- vm::CellTraits::SpecialType
abbrev pub ordinary : ℕ
ordinary = 0

abbrev pub merkle_proof : ℕ
merkle_proof = 3

abbrev pub merkle_update : ℕ
merkle_update = 4

pub record Vm : Type 1 where
  pub Cell : Type 0
  pub Slice : Type 0
  -- cell.get() == other.get()
  pub same_cell : Cell → Cell → Bool
  -- cell->load_cell().move_as_ok().data_cell: special_type, get_refs_cnt, get_ref and size
  pub special_type : Cell → ℕ
  pub is_special : Cell → Bool
  pub get_refs_cnt : Cell → ℕ
  pub get_ref : Cell → ℕ → Cell
  pub size : Cell → ℕ
  -- vm::load_cell_slice; vm::load_cell_slice_special, with its flag; fetch_ulong
  pub load_cell_slice : Cell → Slice
  pub load_cell_slice_special : Cell → Slice × Bool
  pub fetch_ulong : Slice → ℕ → ℕ × Slice

-- The members that are kept when the cell is written. `refs` has four entries.
pub record MyCell : Type 0 where
  pub cnt_refs : ℕ
  pub refs : List ℕ
  pub is_special : Bool
  pub bytes : List ℕ
  pub cnt_bits : ℕ

-- MyCell()
abbrev pub blank_cell : MyCell
blank_cell = record {
  cnt_refs = none_u32;
  refs = 0 ∷ 0 ∷ 0 ∷ 0 ∷ [];
  is_special = false;
  bytes = [];
  cnt_bits = none_u32;
}

-- data.at(0) throws on an empty string, and CHECK wants a special type.
unfoldable pub get_type : MyCell → Option ℕ
get_type cell =
    let special =
      get_elem? cell.bytes 0 >>= λ b. check (not (shr b 6 + 1 == ordinary)) >> some (shr b 6 + 1) in
    if not cell.is_special then some ordinary else special

unfoldable pub d1 : MyCell → ℕ
d1 cell = (cell.cnt_refs + 8 * (if cell.is_special then 1 else 0)) % 256

-- bytes.resize(n, 0)
abbrev pub resize : ℕ → List ℕ → List ℕ
resize n bytes = take n bytes ++ replicate (n - length bytes) 0

module _ (ops : BitOps) (vm : Vm) where
  open vm use {Cell, Slice, same_cell, get_refs_cnt, get_ref, fetch_ulong}

  unfoldable pub cell_to_slice : Cell → Option Slice
  cell_to_slice cell =
      let (slice, is_special_flag) = vm.load_cell_slice_special cell in
      let special = check is_special_flag >> some slice in
      if not (vm.is_special cell) then some (vm.load_cell_slice cell) else special

  -- One round of the loop over the bits: the byte of a special cell's type takes two bits.
  unfoldable pub take_byte :
      Bool → (cur_bits byte : ℕ) → BitPtr → (cnt_bits : ℕ) → Option (BitPtr × ℕ)
  take_byte is_special cur_bits byte p cnt_bits =
      let type_bits =
        check (leb 8 cur_bits)
        >> check (not (byte == 0))
        >> check (ltb (byte - 1) 4)
        >> some (write ops p (byte - 1) 2, cnt_bits - 6) in
      if is_special && (p.offs == 0) then type_bits else some (write ops p byte cur_bits, cnt_bits)

  -- while (bits_left > 0): a round takes a bit at least.
  unfoldable pub take_bytes :
      ℕ → Bool → Slice → (bits_left : ℕ) → BitPtr → (cnt_bits : ℕ) → Option (BitPtr × ℕ)
  take_bytes zero is_special slice bits_left p cnt_bits = some (p, cnt_bits)
  take_bytes (suc fuel) is_special slice bits_left p cnt_bits =
      let cur_bits = min bits_left 8 in
      let (fetched, slice') = fetch_ulong slice cur_bits in
      let rest = take_byte is_special cur_bits (fetched % 256) p cnt_bits >>= λ got.
      take_bytes fuel is_special slice' (bits_left - cur_bits) got.0 got.1 in
      if ltb 0 bits_left then rest else some (p, cnt_bits)

  -- The first n cells that a cell refers to, from number i on.
  unfoldable pub refs_below : Cell → (n i : ℕ) → List Cell
  refs_below c zero i = []
  refs_below c (suc n) i = get_ref c i ∷ refs_below c n (i + 1)

  -- MyCell(cell), with `refs_as_cells`.
  unfoldable pub load_my_cell : Cell → Option (MyCell × List Cell)
  load_my_cell cell =
      let cell_type = vm.special_type cell in
      let is_special = not (cell_type == ordinary) in
      let bits = vm.size cell in
      let cnt_refs = get_refs_cnt cell in
      let merkle = (cell_type == merkle_update) || (cell_type == merkle_proof) in
      do
        slice ← cell_to_slice cell
        (p, cnt_bits) ←
            take_bytes bits is_special slice bits
              (record { ptr = replicate ((bits + 7) / 8) 0; offs = 0 }) bits
        check (leb cnt_refs 4)
        let bytes = take ((cnt_bits + 7) / 8) p.ptr
        some (
          record {
            cnt_refs = cnt_refs;
            refs = 0 ∷ 0 ∷ 0 ∷ 0 ∷ [];
            is_special = is_special;
            bytes = if merkle then resize 1 bytes else bytes;
            cnt_bits = if merkle then 2 else cnt_bits;
          },
          refs_below cell cnt_refs 0,
        )

  -- pos: the number of each cell that was met.
  unfoldable pub find_pos : Cell → List (Cell × ℕ) → Option ℕ
  find_pos cell [] = none
  find_pos cell ((c, n) ∷ pos) = if same_cell c cell then some n else find_pos cell pos

  pub record Walk : Type 0 where
    pub pos : List (Cell × ℕ)
    pub my_cells : List (MyCell × List Cell)

  unfoldable pub visit_all : (Cell → Walk → Option Walk) → List Cell → Walk → Option Walk
  visit_all visit [] w = some w
  visit_all visit (c ∷ cs) w = do w' ← visit c w; visit_all visit cs w'

  -- The lambda `dfs`; the fuel bounds the depth of the recursion.
  unfoldable pub visit : ℕ → Cell → Walk → Option Walk
  visit zero cell w = none
  visit (suc fuel) cell w =
      let fresh = load_my_cell cell >>= λ loaded.
      check (leb loaded.0.cnt_refs 4)
      >> visit_all (visit fuel) loaded.1 (record {
        pos = (cell, length w.my_cells) ∷ w.pos;
        my_cells = w.my_cells ++ (loaded ∷ []);
      }) in
      elim (find_pos cell w.pos) [ some n ↦ some w | none ↦ fresh ]

  unfoldable pub number_refs : List (Cell × ℕ) → List Cell → Option (List ℕ)
  number_refs pos [] = some []
  number_refs pos (c ∷ cs) = do n ← find_pos c pos; ns ← number_refs pos cs; some (n ∷ ns)

  -- cell->refs[i] = pos.at(ref.get())
  unfoldable pub number_all : List (Cell × ℕ) → List (MyCell × List Cell) → Option (List MyCell)
  number_all pos [] = some []
  number_all pos ((cell, below) ∷ rest) = do
    refs ← number_refs pos below
    done ← number_all pos rest
    some (record cell { refs = refs ++ replicate (4 - length refs) 0 } ∷ done)

  unfoldable pub convert_to_my_cells : (depth : ℕ) → Cell → Option (List MyCell)
  convert_to_my_cells depth root = do
    w ← visit depth root (record { pos = []; my_cells = [] })
    number_all w.pos w.my_cells
