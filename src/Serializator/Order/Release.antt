-- ===== src/Serializator/Order/Release.antt =====
-- who_refers lists the cells that refer to a cell, each as often as it does, and taking a cell out of
-- the set counts down the references of these.
use mara_ton_contest_solutio.Common.{
  ℕ, zero, suc, ◌+◌, ◌-◌, ◌≤◌, ◌<◌, ◌≡◌, ◌≢◌, refl, sym, ap, ◌∙◌, ◌⊎◌, inl, inr, some, List, [],
  ◌∷◌, ◌++◌, ◌==◌, if◌then◌else◌, ltb, lt→ltb, ltb→lt, ltb→le, Bool-cases, length, length-set, take,
  get_or, set, get_or-set_self, get_or-set_ne, arith,
}
use mara_ton_contest_solutio.Serializator.Cell.{MyCell}
use mara_ton_contest_solutio.Serializator.Order.{add_referrers, who_refers, insert, erase, release}
use mara_ton_contest_solutio.Serializator.Order.Graphs.{occurs, occurs-append, refs_of, cell_of}
use mara_ton_contest_solutio.Serializator.Order.Sorted.{
  Sorted, occurs-erase, length-erase, erase-Sorted, set-Sorted, occurs-insert, length-insert,
  insert-Sorted,
}
use native.Mathlib.Decide.{ℕ_discrete}

-- What release does for the cells that refer to the one taken out.
pub record Released (froms out_degree cells out_degree' cells' : List ℕ) : Type 0 where
  pub degrees : (v : ℕ) → get_or out_degree' v 0 + occurs v froms ≡ get_or out_degree v 0
  pub long : length out_degree' ≡ length out_degree
  pub same : (v : ℕ) → occurs v cells' ≡ occurs v cells
  pub size : length cells' ≡ length cells
  pub sorted : Sorted out_degree' cells'

module _ (who : List (List ℕ)) where
  pub release-Released :
      (froms out_degree cells : List ℕ)
      → Sorted out_degree cells
      → ((v : ℕ)
          → 0 < occurs v froms
          → (v < length out_degree)
            × (occurs v froms ≤ get_or out_degree v 0)
            × (occurs v cells ≡ 1))
      → (out_degree' : List ℕ) × (cells' : List ℕ) × (release who froms out_degree cells
          ≡ some (out_degree', cells'))
        × Released froms out_degree cells out_degree' cells'
  unfolding release
  release-Released [] out_degree cells s h = (
    out_degree,
    cells,
    refl,
    record { degrees = λ v. omega arith; long = refl; same = λ v. refl; size = refl; sorted = s },
  )
  release-Released (from ∷ froms) out_degree cells s h =
      let left : ℕ = get_or out_degree from 0 in
      let d : List ℕ = set out_degree from (left - 1) in
      let rest : List ℕ = erase from cells in
      let kept : List ℕ = insert who d from rest in
      let (inside, enough, once) = h from (ground arith) in
      let counted : 0 < left = ground (arith, enough) in
      let own : get_or d from 0 ≡ left - 1 = get_or-set_self out_degree from (left - 1) 0 inside in
      let wide = length-set out_degree from (left - 1) in
      let gone : occurs from rest ≡ 0 =
        ground (arith, occurs-erase from from cells (omega arith)) in
      let back =
        λ (v : ℕ). occurs-insert who d from v rest gone ∙ occurs-erase from v cells (omega arith) in
      let back_size = length-insert who d from rest gone ∙ length-erase from cells (omega arith) in
      let sorted : Sorted d kept =
        insert-Sorted who d from rest gone (
          set-Sorted out_degree from (left - 1) rest (erase-Sorted out_degree from cells s) gone) in
      let (out_degree', cells', released, r) = release-Released froms d kept sorted (λ v stands.
        next d wide own (λ w ne. get_or-set_ne out_degree from w (left - 1) 0 ne) kept back v
          stands) in
      (
        out_degree',
        cells',
        rw (lt→ltb 0 left counted) released,
        record {
          degrees = λ v.
              degrees d own (λ w ne. get_or-set_ne out_degree from w (left - 1) 0 ne) counted v
                (get_or out_degree' v 0) (r.degrees v);
          long = r.long ∙ wide;
          same = λ v. r.same v ∙ back v;
          size = r.size ∙ back_size;
          sorted = r.sorted;
        },
      )
    where
      next :
          (d : List ℕ)
          → length d ≡ length out_degree
          → get_or d from 0 ≡ get_or out_degree from 0 - 1
          → ((w : ℕ) → from ≢ w → get_or d w 0 ≡ get_or out_degree w 0)
          → (kept : List ℕ) → ((w : ℕ) → occurs w kept ≡ occurs w cells)
          → (v : ℕ) → 0 < occurs v froms
          → (v < length d) × (occurs v froms ≤ get_or d v 0) × (occurs v kept ≡ 1)
      next d wide own others kept back v stands =
          let (inside, enough, once) = h v (ground arith) in
          (
            omega arith,
            elim (ℕ_discrete from v) [
              | yes e ↦
                  let there = ap (λ (x : ℕ). get_or d x 0) e in
                  let before = ap (λ (x : ℕ). get_or out_degree x 0) e in
                  ground (arith, enough, own, there, before)
              | no ne ↦ ground (arith, enough, others v ne)
            ],
            back v ∙ once,
          )

      degrees :
          (d : List ℕ)
          → get_or d from 0 ≡ get_or out_degree from 0 - 1
          → ((w : ℕ) → from ≢ w → get_or d w 0 ≡ get_or out_degree w 0)
          → 0 < get_or out_degree from 0
          → (v : ℕ) → (x : ℕ) → x + occurs v froms ≡ get_or d v 0
          → x + occurs v (from ∷ froms) ≡ get_or out_degree v 0
      degrees d own others counted v x e = elim (ℕ_discrete from v) [
        | yes same ↦
            let there = ap (λ (x : ℕ). get_or d x 0) same in
            let before = ap (λ (x : ℕ). get_or out_degree x 0) same in
            ground (arith, own, there, before)
        | no ne ↦ ground (arith, others v ne)
      ]

length-add_referrers :
    (i n : ℕ) (refs : List ℕ) (who : List (List ℕ))
    → length (add_referrers i n refs who) ≡ length who
unfolding add_referrers
length-add_referrers i zero refs who = refl
length-add_referrers i (suc n) [] who = refl
length-add_referrers i (suc n) (r ∷ refs) who =
    length-add_referrers i n refs (set who r (get_or who r [] ++ (i ∷ [])))
    ∙ length-set who r (get_or who r [] ++ (i ∷ []))

occurs-add_referrers :
    (i n : ℕ) (refs : List ℕ) (who : List (List ℕ)) (v r : ℕ)
    → r < length who
    → occurs v (get_or (add_referrers i n refs who) r [])
      ≡ occurs v (get_or who r []) + (if i == v then occurs r (take n refs) else 0)
unfolding add_referrers
occurs-add_referrers i zero refs who v r h = ground arith
occurs-add_referrers i (suc n) [] who v r h = ground arith
occurs-add_referrers i (suc n) (s ∷ refs) who v r h =
    let new : List ℕ = get_or who s [] ++ (i ∷ []) in
    let ih =
      occurs-add_referrers i n refs (set who s new) v r (omega (arith, length-set who s new)) in
    elim (ℕ_discrete s r) [
      | yes e ↦
          let at : occurs v (get_or (set who s new) r []) ≡ occurs v (get_or who r [] ++ (i ∷ [])) =
            ap (λ (x : ℕ). occurs v (get_or (set who s new) x [])) (sym e)
            ∙ ap (occurs v) (get_or-set_self who s new [] (omega arith))
            ∙ ap (λ (x : ℕ). occurs v (get_or who x [] ++ (i ∷ []))) e in
          ground (arith, ih, at, occurs-append v (get_or who r []) (i ∷ []))
      | no ne ↦ let at = ap (occurs v) (get_or-set_ne who s r new [] ne) in ground (arith, ih, at)
    ]

-- The references to r of cell v, where the cells from number i on are given.
abbrev ahead : ℕ → List MyCell → (v r : ℕ) → ℕ
ahead i [] v r = 0
ahead i (c ∷ cells) v r = (if i == v then occurs r (refs_of c) else 0) + ahead (i + 1) cells v r

occurs-who_refers :
    (i : ℕ) (cells : List MyCell) (who : List (List ℕ)) (v r : ℕ)
    → r < length who
    → occurs v (get_or (who_refers i cells who) r [])
      ≡ occurs v (get_or who r []) + ahead i cells v r
unfolding who_refers
occurs-who_refers i [] who v r h = omega arith
occurs-who_refers i (c ∷ cells) who v r h =
    let who' : List (List ℕ) = add_referrers i c.cnt_refs c.refs who in
    omega (
      arith,
      occurs-who_refers (i + 1) cells who' v r
          (omega (arith, length-add_referrers i c.cnt_refs c.refs who)),
      occurs-add_referrers i c.cnt_refs c.refs who v r h,
    )

ahead-outside :
    (i : ℕ) (cells : List MyCell) (v r : ℕ)
    → (v < i) ⊎ (i + length cells ≤ v)
    → ahead i cells v r ≡ 0
ahead-outside i [] v r h = refl
ahead-outside i (c ∷ cells) v r (inl h) =
    ground (arith, ahead-outside (i + 1) cells v r (inl (omega arith)))
ahead-outside i (c ∷ cells) v r (inr h) =
    ground (arith, ahead-outside (i + 1) cells v r (inr (omega arith)))

ahead-inside :
    (i : ℕ) (cells : List MyCell) (k v r : ℕ)
    → k < length cells
    → v ≡ i + k
    → ahead i cells v r ≡ occurs r (refs_of (cell_of cells k))
ahead-inside i [] k v r h e = absurd (omega arith)
ahead-inside i (c ∷ cells) zero v r h e =
    ground (arith, ahead-outside (i + 1) cells v r (inl (omega arith)))
ahead-inside i (c ∷ cells) (suc k) v r h e =
    ground (arith, ahead-inside (i + 1) cells k v r (omega arith) (omega arith))

-- The list of a cell r has each cell as often as it refers to r.
pub who_refers_lem :
    (cells : List MyCell) (who : List (List ℕ)) (v r : ℕ)
    → r < length who
    → occurs v (get_or who r []) ≡ 0
    → ((v < length cells)
        × (occurs v (get_or (who_refers 0 cells who) r []) ≡ occurs r (refs_of (cell_of cells v))))
      ⊎ ((length cells ≤ v) × (occurs v (get_or (who_refers 0 cells who) r []) ≡ 0))
who_refers_lem cells who v r h blank =
    let e = occurs-who_refers 0 cells who v r h in
    elim (Bool-cases (ltb v (length cells))) [
      | inl inside ↦
          let lt = ltb→lt v (length cells) inside in
          inl (lt, omega (arith, e, ahead-inside 0 cells v v r lt (omega arith)))
      | inr outside ↦
          let ge = ltb→le v (length cells) outside in
          inr (ge, omega (arith, e, ahead-outside 0 cells v r (inr (omega arith))))
    ]
