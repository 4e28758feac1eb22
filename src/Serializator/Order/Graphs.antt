-- ===== src/Serializator/Order/Graphs.antt =====
-- The references between the cells of a list, and orders of the cells.
use mara_ton_contest_solutio.Common.{
  ap, ◌∙◌, subst, length-append, get_or-append_left, ℕ, zero, suc, ◌+◌, ◌≤◌, ◌<◌, ◌≡◌, refl, ◌⊎◌,
  inl, inr, List, [], ◌∷◌, ◌++◌, ◌==◌, if◌then◌else◌, length, take, get_or, arith,
}
use mara_ton_contest_solutio.Serializator.Cell.{MyCell, blank_cell}
use native.Mathlib.Decide.{ℕ_discrete, dec_lt}

abbrev pub cell_of : List MyCell → ℕ → MyCell
cell_of cells i = get_or cells i blank_cell

-- The slots of a cell suffice for its references, which are to cells of the list.
pub record IsGraph (cells : List MyCell) : Type 0 where
  pub slots :
      (i : ℕ) → i < length cells → (cell_of cells i).cnt_refs ≤ length (cell_of cells i).refs
  pub valid :
      (i k : ℕ)
      → i < length cells
      → k < (cell_of cells i).cnt_refs
      → get_or (cell_of cells i).refs k 0 < length cells

-- Each of the n cells has a place in the order, and only one.
pub record IsOrder (n : ℕ) (order : List ℕ) : Type 0 where
  pub size : length order ≡ n
  pub below : (j : ℕ) → j < n → get_or order j 0 < n
  pub listed : (v : ℕ) → v < n → (j : ℕ) × (j < n) × (get_or order j 0 ≡ v)
  pub once : (i j : ℕ) → i < n → j < n → get_or order i 0 ≡ get_or order j 0 → i ≡ j

-- How often a number stands in a list.
abbrev pub occurs : ℕ → List ℕ → ℕ
occurs v [] = 0
occurs v (x ∷ l) = let rest = occurs v l in if x == v then suc rest else rest

pub occurs-append : (v : ℕ) (l m : List ℕ) → occurs v (l ++ m) ≡ occurs v l + occurs v m
occurs-append v [] m = omega arith
occurs-append v (x ∷ l) m = ground (arith, occurs-append v l m)

-- What stands in a list has a place there.
pub occurs-place :
    (v : ℕ) (l : List ℕ) → 0 < occurs v l → (k : ℕ) × (k < length l) × (get_or l k 0 ≡ v)
occurs-place v [] h = absurd (omega arith)
occurs-place v (x ∷ l) h = elim (ℕ_discrete x v) [
  | yes e ↦ (0, omega arith, e)
  | no ne ↦ let (k, lt, found) = occurs-place v l (ground arith) in (suc k, omega arith, found)
]

pub place-occurs : (l : List ℕ) (k : ℕ) → k < length l → 0 < occurs (get_or l k 0) l
place-occurs [] k h = absurd (omega arith)
place-occurs (x ∷ l) zero h = ground arith
place-occurs (x ∷ l) (suc k) h = ground (arith, place-occurs l k (omega arith))

-- What stands there once has one place.
pub one-place :
    (l : List ℕ) (i j : ℕ)
    → i < length l
    → j < length l
    → get_or l i 0 ≡ get_or l j 0
    → occurs (get_or l j 0) l ≡ 1
    → i ≡ j
one-place [] i j h h' e once = absurd (omega arith)
one-place (x ∷ l) zero zero h h' e once = refl
one-place (x ∷ l) zero (suc j) h h' e once = absurd (ground (arith, place-occurs l j (omega arith)))
one-place (x ∷ l) (suc i) zero h h' e once = absurd (ground (arith, place-occurs l i (omega arith)))
one-place (x ∷ l) (suc i) (suc j) h h' e once =
    ap suc (
      one-place l i j (omega arith) (omega arith) e
        (ground (arith, place-occurs l j (omega arith))))

-- The references that are not in the order yet.
abbrev pub pending : List ℕ → List ℕ → ℕ
pending order [] = 0
pending order (r ∷ refs) =
    let rest = pending order refs in if occurs r order == 0 then suc rest else rest

pub pending-cases :
    (order refs : List ℕ)
    → (pending order refs ≡ 0) ⊎ ((r : ℕ) × (0 < occurs r refs) × (occurs r order ≡ 0))
pending-cases order [] = inl refl
pending-cases order (r ∷ refs) = elim (ℕ_discrete (occurs r order) 0) [
  | yes e ↦ inr (r, ground arith, e)
  | no ne ↦ elim (pending-cases order refs) [
    | inl none_left ↦ inl (ground arith)
    | inr (s, stands, free) ↦ inr (s, ground arith, free)
  ]
]

-- None is pending where all stand in the order.
pub pending-zero :
    (order refs : List ℕ) (r : ℕ) → pending order refs ≡ 0 → 0 < occurs r refs → 0 < occurs r order
pending-zero order [] r none_left stands = absurd (omega arith)
pending-zero order (s ∷ refs) r none_left stands = ground (arith, pending-zero order refs r)

-- A cell that is put behind an order is pending no more.
pub pending-append :
    (order refs : List ℕ) (i : ℕ)
    → occurs i order ≡ 0
    → pending order refs ≡ pending (order ++ (i ∷ [])) refs + occurs i refs
pending-append order [] i new = omega arith
pending-append order (r ∷ refs) i new =
    ground (arith, pending-append order refs i new, occurs-append r order (i ∷ []))

-- The references of a cell.
abbrev pub refs_of : MyCell → List ℕ
refs_of c = take c.cnt_refs c.refs

get_or-append_last : (l : List ℕ) (x : ℕ) (j : ℕ) → j ≡ length l → get_or (l ++ (x ∷ [])) j 0 ≡ x
get_or-append_last [] x zero e = refl
get_or-append_last [] x (suc j) e = absurd (omega arith)
get_or-append_last (y ∷ l) x zero e = absurd (omega arith)
get_or-append_last (y ∷ l) x (suc j) e = get_or-append_last l x j (omega arith)

-- What the cells of an order refer to comes before them.
abbrev pub RefsFirst : List MyCell → List ℕ → Type 0
RefsFirst cells order =
    (j r : ℕ)
    → j < length order
    → 0 < occurs r (refs_of (cell_of cells (get_or order j 0)))
    → (i : ℕ) × (i < j) × (get_or order i 0 ≡ r)

pub RefsFirst-append :
    (cells : List MyCell) (order : List ℕ) (v : ℕ)
    → RefsFirst cells order
    → ((r : ℕ) → 0 < occurs r (refs_of (cell_of cells v)) → 0 < occurs r order)
    → RefsFirst cells (order ++ (v ∷ []))
RefsFirst-append cells order v first known j r lt stands = elim (dec_lt j (length order)) [
  | yes inside ↦
      let same = get_or-append_left order (v ∷ []) j 0 inside in
      let (k, before, at) =
        first j r inside (subst (λ x. 0 < occurs r (refs_of (cell_of cells x))) same stands) in
      (k, before, get_or-append_left order (v ∷ []) k 0 (omega arith) ∙ at)
  | no last ↦
      let here = get_or-append_last order v j (omega (arith, length-append order (v ∷ []))) in
      let (k, before, at) =
        occurs-place r order
          (known r (subst (λ x. 0 < occurs r (refs_of (cell_of cells x))) here stands)) in
      (k, omega arith, get_or-append_left order (v ∷ []) k 0 before ∙ at)
]
