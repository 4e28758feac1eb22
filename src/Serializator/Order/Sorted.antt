-- ===== src/Serializator/Order/Sorted.antt =====
-- The set of cells of initial_cell_order as a sorted list: what insert and erase keep.
use mara_ton_contest_solutio.Common.{
  ℕ, suc, ◌≤◌, ◌<◌, ◌≡◌, ◌≢◌, refl, ap, ◌⊎◌, inl, inr, true, false, List, [], ◌∷◌, ◌==◌,
  if◌then◌else◌, ltb, not, length, get_or, set, get_or-set_ne, Bool-cases, arith,
}
use mara_ton_contest_solutio.Serializator.Order.{cmp, insert, erase}
use mara_ton_contest_solutio.Serializator.Order.Graphs.{occurs}
use native.Mathlib.Decide.{ℕ_discrete}

-- A cell comes before those that have more references left.
abbrev pub Sorted : (out_degree : List ℕ) → List ℕ → Type 0
Sorted out_degree [] = Unit {0}
Sorted out_degree (i ∷ cells) =
    ((j : ℕ) → 0 < occurs j cells → get_or out_degree i 0 ≤ get_or out_degree j 0)
    × Sorted out_degree cells

pub occurs-erase :
    (i v : ℕ) (cells : List ℕ) → 0 < occurs i cells → occurs v (i ∷ erase i cells) ≡ occurs v cells
unfolding erase
occurs-erase i v [] h = absurd (omega arith)
occurs-erase i v (j ∷ cells) h = elim (ℕ_discrete i j) [
  | yes e ↦ ground arith
  | no ne ↦ ground (arith, occurs-erase i v cells (ground arith))
]

pub length-erase :
    (i : ℕ) (cells : List ℕ) → 0 < occurs i cells → suc (length (erase i cells)) ≡ length cells
unfolding erase
length-erase i [] h = absurd (omega arith)
length-erase i (j ∷ cells) h = elim (ℕ_discrete i j) [
  | yes e ↦ ground arith
  | no ne ↦ ground (arith, length-erase i cells (ground arith))
]

erase-le : (i v : ℕ) (cells : List ℕ) → occurs v (erase i cells) ≤ occurs v cells
unfolding erase
erase-le i v [] = omega arith
erase-le i v (j ∷ cells) = ground (arith, erase-le i v cells)

pub erase-Sorted :
    (out_degree : List ℕ) (i : ℕ) (cells : List ℕ)
    → Sorted out_degree cells
    → Sorted out_degree (erase i cells)
unfolding erase
erase-Sorted out_degree i [] s = tt
erase-Sorted out_degree i (j ∷ cells) (low, s) = elim (Bool-cases (i == j)) [
  | inl same ↦ rw same s
  | inr other ↦
      rw other (λ k h. low k (omega (arith, erase-le i k cells)), erase-Sorted out_degree i cells s)
]

-- The degree of a cell that is not in the set may change.
pub set-Sorted :
    (out_degree : List ℕ) (x d : ℕ) (cells : List ℕ)
    → Sorted out_degree cells
    → occurs x cells ≡ 0
    → Sorted (set out_degree x d) cells
set-Sorted out_degree x d [] s out = tt
set-Sorted out_degree x d (i ∷ cells) (low, s) out =
    let ne : x ≢ i = λ e. ground arith in
    (
      λ j h.
          let other : x ≢ j = λ e. ground arith in
          omega (
            arith,
            get_or-set_ne out_degree x i d 0 ne,
            get_or-set_ne out_degree x j d 0 other,
            low j h,
          ),
      set-Sorted out_degree x d cells s (ground arith),
    )

module _ (who : List (List ℕ)) (out_degree : List ℕ) where
  -- Different cells are in an order, the one with fewer references left first.
  cmp-cases :
      (i j : ℕ)
      → i ≢ j
      → ((cmp who out_degree i j ≡ true) × (get_or out_degree i 0 ≤ get_or out_degree j 0))
        ⊎ ((cmp who out_degree i j ≡ false)
            × (cmp who out_degree j i ≡ true)
            × (get_or out_degree j 0 ≤ get_or out_degree i 0))
  unfolding cmp
  cmp-cases i j ne =
      decide (get_or out_degree i 0) (get_or out_degree j 0) (length (get_or who i []))
        (length (get_or who j []))
    where
      decide :
          (di dj ri rj : ℕ)
          → (((if not (di == dj) then ltb di dj else if not (ri == rj) then ltb rj ri else ltb i j)
                ≡ true)
              × (di ≤ dj))
            ⊎ (((if not (di == dj)
                    then ltb di dj
                    else if not (ri == rj)
                    then ltb rj ri
                    else ltb i j)
                  ≡ false)
                × ((if not (dj == di)
                      then ltb dj di
                      else if not (rj == ri)
                      then ltb ri rj
                      else ltb j i)
                    ≡ true)
                × (dj ≤ di))
      decide di dj ri rj =
          elim (Bool-cases
            (if not (di == dj) then ltb di dj else if not (ri == rj) then ltb rj ri else ltb i j)) [
              | inl e ↦ inl (e, ground arith)
              | inr e ↦ inr (e, ground arith, ground arith)
            ]

  pub occurs-insert :
      (i v : ℕ) (cells : List ℕ)
      → occurs i cells ≡ 0
      → occurs v (insert who out_degree i cells) ≡ occurs v (i ∷ cells)
  unfolding insert
  occurs-insert i v [] out = refl
  occurs-insert i v (j ∷ cells) out = elim (cmp-cases i j (λ e. ground arith)) [
    | inl (before, _) ↦ rw before refl
    | inr (after, swapped, _) ↦
        rw (after, swapped) (ground (arith, occurs-insert i v cells (ground arith)))
  ]

  pub length-insert :
      (i : ℕ) (cells : List ℕ)
      → occurs i cells ≡ 0
      → length (insert who out_degree i cells) ≡ suc (length cells)
  unfolding insert
  length-insert i [] out = refl
  length-insert i (j ∷ cells) out = elim (cmp-cases i j (λ e. ground arith)) [
    | inl (before, _) ↦ rw before refl
    | inr (after, swapped, _) ↦ rw (after, swapped) (ap suc (length-insert i cells (ground arith)))
  ]

  pub insert-Sorted :
      (i : ℕ) (cells : List ℕ)
      → occurs i cells ≡ 0
      → Sorted out_degree cells
      → Sorted out_degree (insert who out_degree i cells)
  unfolding insert
  insert-Sorted i [] out s = (λ j h. absurd (omega arith), tt)
  insert-Sorted i (j ∷ cells) out (low, s) = elim (cmp-cases i j (λ e. ground arith)) [
    | inl (before, fewer) ↦ rw before (λ k h. behind fewer k h, (low, s))
    | inr (after, swapped, fewer) ↦
        rw (after, swapped) (λ k h. front fewer k h, insert-Sorted i cells (ground arith) s)
  ]
    where
      behind :
          get_or out_degree i 0 ≤ get_or out_degree j 0
          → (k : ℕ) → 0 < occurs k (j ∷ cells)
          → get_or out_degree i 0 ≤ get_or out_degree k 0
      behind fewer k h = elim (ℕ_discrete j k) [
        | yes e ↦ omega (arith, ap (λ (x : ℕ). get_or out_degree x 0) e)
        | no ne ↦ omega (arith, low k (ground arith))
      ]

      front :
          get_or out_degree j 0 ≤ get_or out_degree i 0
          → (k : ℕ) → 0 < occurs k (insert who out_degree i cells)
          → get_or out_degree j 0 ≤ get_or out_degree k 0
      front fewer k h = elim (ℕ_discrete i k) [
        | yes e ↦ omega (arith, ap (λ (x : ℕ). get_or out_degree x 0) e)
        | no ne ↦ low k (ground (arith, occurs-insert i k cells (ground arith)))
      ]
