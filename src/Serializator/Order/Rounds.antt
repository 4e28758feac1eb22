-- ===== src/Serializator/Order/Rounds.antt =====
-- A round of initial_cell_order: a cell without references left goes to the order.
use mara_ton_contest_solutio.Common.{
  ℕ, zero, suc, ◌+◌, ◌≤◌, ◌<◌, ◌≡◌, ◌≢◌, refl, sym, ap, ◌∙◌, ◌⊎◌, inl, inr, some, List, [], ◌∷◌,
  ◌++◌, length, length-append, length-replicate, take, replicate, get_or, subst, arith,
}
use mara_ton_contest_solutio.Serializator.Cell.{MyCell}
use mara_ton_contest_solutio.Serializator.Order.{who_refers, release}
use mara_ton_contest_solutio.Serializator.Order.Graphs.{
  cell_of, refs_of, IsGraph, occurs, occurs-append, occurs-place, place-occurs, pending,
  pending-cases, pending-zero, pending-append, RefsFirst, RefsFirst-append,
}
use mara_ton_contest_solutio.Serializator.Order.Sorted.{Sorted}
use mara_ton_contest_solutio.Serializator.Order.Release.{release-Released, who_refers_lem}
use native.Mathlib.Decide.{ℕ_discrete, dec_lt}

-- A height that falls along every reference.
pub record IsAcyclic (cells : List MyCell) : Type 0 where
  pub height : ℕ → ℕ
  pub falls :
      (i k : ℕ)
      → i < length cells
      → k < (cell_of cells i).cnt_refs
      → height (get_or (cell_of cells i).refs k 0) < height i

refs-place :
    (n : ℕ) (refs : List ℕ) (r : ℕ)
    → 0 < occurs r (take n refs)
    → (k : ℕ) × (k < n) × (get_or refs k 0 ≡ r)
refs-place zero refs r h = absurd (omega arith)
refs-place (suc n) [] r h = absurd (omega arith)
refs-place (suc n) (s ∷ refs) r h = elim (ℕ_discrete s r) [
  | yes e ↦ (0, omega arith, e)
  | no ne ↦ let (k, lt, found) = refs-place n refs r (ground arith) in (suc k, omega arith, found)
]

pub place-refs :
    (n : ℕ) (refs : List ℕ) (k : ℕ)
    → k < n
    → n ≤ length refs
    → 0 < occurs (get_or refs k 0) (take n refs)
place-refs zero refs k h h' = absurd (omega arith)
place-refs (suc n) [] k h h' = absurd (omega arith)
place-refs (suc n) (s ∷ refs) zero h h' = ground arith
place-refs (suc n) (s ∷ refs) (suc k) h h' =
    ground (arith, place-refs n refs k (omega arith) (omega arith))

pub length-refs : (n : ℕ) (refs : List ℕ) → n ≤ length refs → length (take n refs) ≡ n
length-refs zero refs h = refl
length-refs (suc n) [] h = absurd (omega arith)
length-refs (suc n) (s ∷ refs) h = ap suc (length-refs n refs (omega arith))

pub pending-nil : (refs : List ℕ) → pending [] refs ≡ length refs
pending-nil [] = refl
pending-nil (r ∷ refs) = ap suc (pending-nil refs)

module _ (cells : List MyCell) (graph : IsGraph cells) (acyclic : IsAcyclic cells) where
  abbrev pub refs_at : ℕ → List ℕ
  refs_at v = refs_of (cell_of cells v)

  pub valid :
      (v r : ℕ)
      → v < length cells
      → 0 < occurs r (refs_at v)
      → (r < length cells) × (acyclic.height r < acyclic.height v)
  valid v r h stands =
      let c : MyCell = cell_of cells v in
      let (k, lt, e) = refs-place c.cnt_refs c.refs r stands in
      (
        subst (λ x. x < length cells) e (graph.valid v k h lt),
        subst (λ x. acyclic.height x < acyclic.height v) e (acyclic.falls v k h lt),
      )

  -- Who refers to each cell.
  abbrev pub who : List (List ℕ)
  who = who_refers 0 cells (replicate (length cells) [])

  who-cases :
      (v r : ℕ)
      → r < length cells
      → ((v < length cells) × (occurs v (get_or who r []) ≡ occurs r (refs_at v)))
        ⊎ ((length cells ≤ v) × (occurs v (get_or who r []) ≡ 0))
  who-cases v r h =
      who_refers_lem cells (replicate (length cells) []) v r
        (omega (arith, length-replicate {A = List ℕ} (length cells) []))
        (ap (occurs v) (blank (length cells) r))
    where
      blank : (n r : ℕ) → get_or {A = List ℕ} (replicate n []) r [] ≡ []
      blank zero r = refl
      blank (suc n) zero = refl
      blank (suc n) (suc r) = blank n r

  -- Each cell is in the queue or in the order, and its degree counts its references to cells that are
  -- not in the order yet, which those of the cells in the order all are.
  pub record Inv (out_degree queue order : List ℕ) : Type 0 where
    pub wide : length out_degree ≡ length cells
    pub parted : (v : ℕ) → v < length cells → occurs v queue + occurs v order ≡ 1
    pub outside : (v : ℕ) → length cells ≤ v → occurs v queue + occurs v order ≡ 0
    pub degrees : (v : ℕ) → v < length cells → get_or out_degree v 0 ≡ pending order (refs_at v)
    pub sorted : Sorted out_degree queue
    pub total : length queue + length order ≡ length cells
    pub first : RefsFirst cells order

  queued-below :
      {out_degree queue order : List ℕ} (v : ℕ)
      → Inv out_degree queue order
      → 0 < occurs v queue
      → v < length cells
  queued-below v inv h = elim (dec_lt v (length cells)) [
    | yes lt ↦ lt
    | no ge ↦ absurd (omega (arith, inv.outside v (omega arith)))
  ]

  -- Some cell of the queue has no reference left: one of the least height.
  lowest :
      (bound : ℕ) {out_degree queue order : List ℕ} (v : ℕ)
      → Inv out_degree queue order
      → acyclic.height v < bound
      → 0 < occurs v queue
      → (w : ℕ) × (0 < occurs w queue) × (get_or out_degree w 0 ≡ 0)
  lowest zero v inv h queued = absurd (omega arith)
  lowest (suc bound) {out_degree} {queue} {order} v inv h queued =
      let lt = queued-below v inv queued in
      elim (pending-cases order (refs_at v)) [
        | inl none_left ↦ (v, queued, inv.degrees v lt ∙ none_left)
        | inr (r, stands, free) ↦
            let (below, lower) = valid v r lt stands in
            lowest bound r inv (omega arith) (omega (arith, inv.parted r below))
      ]

  pub ready :
      {out_degree queue order : List ℕ} (i : ℕ)
      → Inv out_degree (i ∷ queue) order
      → get_or out_degree i 0 ≡ 0
  ready {out_degree} {queue} i inv =
      let (w, queued, none_left) =
        lowest (suc (acyclic.height i)) i inv (omega arith) (ground arith) in
      elim (ℕ_discrete i w) [
        | yes e ↦ ap (λ (x : ℕ). get_or out_degree x 0) e ∙ none_left
        | no ne ↦ omega (arith, inv.sorted.0 w (ground arith), none_left)
      ]

  pub step :
      {out_degree queue order : List ℕ} (i : ℕ)
      → Inv out_degree (i ∷ queue) order
      → (out_degree' : List ℕ) × (queue' : List ℕ) × (release who (get_or who i []) out_degree queue
          ≡ some (out_degree', queue'))
        × (length queue' ≡ length queue)
        × Inv out_degree' queue' (order ++ (i ∷ []))
  step {out_degree} {queue} {order} i inv =
      let here = queued-below i inv (ground arith) in
      let zero_left = ready i inv in
      let new : occurs i order ≡ 0 = ground (arith, inv.parted i here) in
      let (out_degree', queue', released, r) =
        release-Released who (get_or who i []) out_degree queue inv.sorted.1
          (λ v stands. refers v here zero_left new stands) in
      let size = length-append order (i ∷ []) in
      (
        out_degree',
        queue',
        released,
        r.size,
        record {
          wide = r.long ∙ inv.wide;
          parted =
              λ v lt. ground (arith, inv.parted v lt, r.same v, occurs-append v order (i ∷ []));
          outside =
              λ v ge. ground (arith, inv.outside v ge, r.same v, occurs-append v order (i ∷ []));
          degrees = λ v lt. elim (who-cases v i here) [
            | inl (_, e) ↦
                omega
                  (arith, r.degrees v, inv.degrees v lt, e, pending-append order (refs_at v) i new)
            | inr (ge, _) ↦ absurd (omega arith)
          ];
          sorted = r.sorted;
          total = omega (arith, inv.total, r.size);
          first = RefsFirst-append cells order i inv.first λ r stands.
              pending-zero order (refs_at i) r (sym (inv.degrees i here) ∙ zero_left) stands;
        },
      )
    where
      refers :
          (v : ℕ)
          → i < length cells
          → get_or out_degree i 0 ≡ 0
          → occurs i order ≡ 0
          → 0 < occurs v (get_or who i [])
          → (v < length out_degree)
            × (occurs v (get_or who i []) ≤ get_or out_degree v 0)
            × (occurs v queue ≡ 1)
      refers v here zero_left new stands = elim (who-cases v i here) [
        | inr (_, none_left) ↦ absurd (omega arith)
        | inl (lt, e) ↦
            let other : i ≢ v = λ same.
              absurd (omega (arith, (valid v i lt (omega arith)).1, ap acyclic.height same)) in
            (
              omega (arith, inv.wide),
              omega (arith, inv.degrees v lt, e, pending-append order (refs_at v) i new),
              elim (ℕ_discrete (occurs v order) 0) [
                | yes out ↦ ground (arith, inv.parted v lt)
                | no ne ↦
                    let (j, below, found) = occurs-place v order (omega (arith, ne)) in
                    let (k, before, at) =
                      inv.first j i below
                        (subst (λ x. 0 < occurs i (refs_at x)) (sym found) (omega arith)) in
                    absurd (
                      omega (
                        arith,
                        subst (λ x. 0 < occurs x order) at (place-occurs order k (omega arith)),
                      ))
              ],
            )
      ]
