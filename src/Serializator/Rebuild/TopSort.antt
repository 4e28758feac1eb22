-- ===== src/Serializator/Rebuild/TopSort.antt =====
-- The depth-first search of my_cells_to_vm_root on cells without cycles.
use mara_ton_contest_solutio.Common.{
  ℕ, zero, suc, ◌+◌, ◌≤◌, ◌<◌, ◌≡◌, ◌≢◌, refl, sym, ap, ◌∙◌, ◌⊎◌, inl, inr, Bool, true, false, some,
  List, [], ◌∷◌, ◌++◌, lt→ltb, Bool-cases, if◌then◌else◌, length, length-append, length-set, get_or,
  set, get_or-set_self, get_or-set_ne, subst, arith,
}
use mara_ton_contest_solutio.Serializator.Cell.{MyCell}
use mara_ton_contest_solutio.Serializator.Order.Graphs.{
  cell_of, refs_of, IsGraph, occurs, occurs-append, RefsFirst, RefsFirst-append,
}
use mara_ton_contest_solutio.Serializator.Order.Rounds.{IsAcyclic, valid}
use mara_ton_contest_solutio.Serializator.Rebuild.{Sort, sort_refs, sort_from}
use native.Mathlib.Decide.{ℕ_discrete}

-- Whether the search has come to a cell.
abbrev pub was_at : Sort → ℕ → Bool
was_at s v = get_or s.was v false

-- The cells that the search has not come to.
abbrev pub unmarked : List Bool → ℕ
unmarked [] = 0
unmarked (b ∷ l) = let rest = unmarked l in if b then rest else suc rest

unmarked-set :
    (l : List Bool) (v : ℕ)
    → v < length l
    → get_or l v false ≡ false
    → suc (unmarked (set l v true)) ≡ unmarked l
unmarked-set [] v h free = absurd (omega arith)
unmarked-set (b ∷ l) zero h free = ground (arith, free)
unmarked-set (b ∷ l) (suc v) h free = ground (arith, unmarked-set l v (omega arith) free)

no_confusion : true ≢ false
no_confusion h = cc

-- Marked cells include those of the order, each once, with what they refer to before them.
pub record SortInv (cells : List MyCell) (s : Sort) : Type 0 where
  pub wide : length s.was ≡ length cells
  pub once : (v : ℕ) → occurs v s.order ≤ 1
  pub below : (v : ℕ) → 0 < occurs v s.order → v < length cells
  pub marked : (v : ℕ) → 0 < occurs v s.order → was_at s v ≡ true
  pub first : RefsFirst cells s.order

-- What a search adds: all that it has come to goes to the order.
pub record Grows (s t : Sort) : Type 0 where
  pub more : (v : ℕ) → was_at s v ≡ true → was_at t v ≡ true
  pub kept : (v : ℕ) → 0 < occurs v s.order → 0 < occurs v t.order
  pub closed : (v : ℕ) → was_at t v ≡ true → (0 < occurs v t.order) ⊎ (was_at s v ≡ true)
  pub added : (v : ℕ) → 0 < occurs v t.order → (0 < occurs v s.order) ⊎ (was_at s v ≡ false)
  pub fewer : unmarked t.was ≤ unmarked s.was
  pub size : length t.order + unmarked t.was ≡ length s.order + unmarked s.was

pub Grows-refl : (s : Sort) → Grows s s
Grows-refl s = record {
  more = λ v h. h;
  kept = λ v h. h;
  closed = λ v h. inr h;
  added = λ v h. inl h;
  fewer = omega arith;
  size = refl;
}

pub Grows-trans : {s t u : Sort} → Grows s t → Grows t u → Grows s u
Grows-trans {s} {t} {u} g k = record {
  more = λ v h. k.more v (g.more v h);
  kept = λ v h. k.kept v (g.kept v h);
  closed = λ v h. elim (k.closed v h) [
    | inl there ↦ inl there
    | inr before ↦ elim (g.closed v before) [
      | inl there ↦ inl (k.kept v there)
      | inr first ↦ inr first
    ]
  ];
  added = λ v h. elim (k.added v h) [
    | inl before ↦ g.added v before
    | inr free ↦ elim (Bool-cases (was_at s v)) [
      | inl e ↦ absurd (no_confusion (sym (g.more v e) ∙ free))
      | inr e ↦ inr e
    ]
  ];
  fewer = omega (arith, g.fewer, k.fewer);
  size = k.size ∙ g.size;
}

module _ (cells : List MyCell) (graph : IsGraph cells) (acyclic : IsAcyclic cells) where
  -- The marked cells that are not in the order yet are at this height at least.
  abbrev pub OpenAbove : ℕ → Sort → Type 0
  OpenAbove h s = (u : ℕ) → was_at s u ≡ true → (0 < occurs u s.order) ⊎ (h ≤ acyclic.height u)

  -- What a search from a cell does.
  abbrev pub Searched : (fuel v : ℕ) → Sort → Type 0
  Searched fuel v s =
      (t : Sort) × (sort_from fuel cells v s ≡ some t)
      × SortInv cells t
      × Grows s t
      × (0 < occurs v t.order)

  OpenAbove-Grows : {h : ℕ} {s t : Sort} → OpenAbove h s → Grows s t → OpenAbove h t
  OpenAbove-Grows {h} {s} {t} o g u marked = elim (g.closed u marked) [
    | inl there ↦ inl there
    | inr before ↦ elim (o u before) [ inl there ↦ inl (g.kept u there) | inr high ↦ inr high ]
  ]

  sort_refs-lem :
      (fuel h : ℕ)
      → ((v : ℕ) (s : Sort)
          → SortInv cells s
          → v < length cells
          → was_at s v ≡ false
          → OpenAbove (suc (acyclic.height v)) s
          → unmarked s.was ≤ fuel
          → Searched fuel v s)
      → (refs : List ℕ) (s : Sort) → SortInv cells s
      → ((r : ℕ) → 0 < occurs r refs → (r < length cells) × (acyclic.height r < h))
      → OpenAbove h s
      → unmarked s.was ≤ fuel
      → (t : Sort) × (sort_refs (sort_from fuel cells) refs s ≡ some t)
        × SortInv cells t
        × Grows s t
        × ((r : ℕ) → 0 < occurs r refs → 0 < occurs r t.order)
  unfolding sort_refs
  sort_refs-lem fuel h self [] s inv low above enough =
      (s, refl, inv, Grows-refl s, λ r stands. absurd (omega arith))
  sort_refs-lem fuel h self (to ∷ refs) s inv low above enough =
      let (inside, lower) = low to (ground arith) in
      elim (Bool-cases (was_at s to)) [
        | inl seen ↦
            let (t, sorted, inv', g, known) =
              sort_refs-lem fuel h self refs s inv (λ r stands. low r (ground arith)) above
                enough in
            let there : 0 < occurs to s.order = elim (above to seen) [
              | inl there ↦ there
              | inr high ↦ absurd (omega arith)
            ] in
            (t, rw seen sorted, inv', g, all t known (g.kept to there))
        | inr free ↦
            let (t1, found, inv1, g1, there) =
              self to s inv inside free
                (λ u marked. elim (above u marked) [
                  | inl in_order ↦ inl in_order
                  | inr high ↦ inr (omega arith)
                ])
                enough in
            let (t, sorted, inv', g, known) =
              sort_refs-lem fuel h self refs t1 inv1 (λ r stands. low r (ground arith))
                (OpenAbove-Grows above g1) (omega (arith, g1.fewer)) in
            (t, rw (free, found) sorted, inv', Grows-trans g1 g, all t known (g.kept to there))
      ]
    where
      all :
          (t : Sort)
          → ((r : ℕ) → 0 < occurs r refs → 0 < occurs r t.order)
          → 0 < occurs to t.order
          → (r : ℕ) → 0 < occurs r (to ∷ refs)
          → 0 < occurs r t.order
      all t known there r stands = elim (ℕ_discrete to r) [
        | yes e ↦ subst (λ x. 0 < occurs x t.order) e there
        | no ne ↦ known r (ground arith)
      ]

  -- Marking a cell that the search has come to.
  abbrev enter : ℕ → Sort → Sort
  enter v s = record s { was = set s.was v true }

  was-enter :
      (v u : ℕ) (s : Sort)
      → v < length s.was
      → was_at (enter v s) u ≡ true
      → (u ≡ v) ⊎ (was_at s u ≡ true)
  was-enter v u s h marked = elim (ℕ_discrete v u) [
    | yes e ↦ inl (sym e)
    | no ne ↦ inr (sym (get_or-set_ne s.was v u true false ne) ∙ marked)
  ]

  enter-was :
      (v u : ℕ) (s : Sort) → v < length s.was → was_at s u ≡ true → was_at (enter v s) u ≡ true
  enter-was v u s h marked = elim (ℕ_discrete v u) [
    | yes e ↦
        ap (λ (x : ℕ). get_or (set s.was v true) x false) (sym e)
        ∙ get_or-set_self s.was v true false h
    | no ne ↦ get_or-set_ne s.was v u true false ne ∙ marked
  ]

  -- Leaving a cell after all that it refers to.
  leave-Grows :
      (v : ℕ) (s t : Sort)
      → SortInv cells s
      → v < length cells
      → was_at s v ≡ false
      → SortInv cells t
      → Grows (enter v s) t
      → ((r : ℕ) → 0 < occurs r (refs_of (cell_of cells v)) → 0 < occurs r t.order)
      → SortInv cells (record t { order = t.order ++ (v ∷ []) })
        × Grows s (record t { order = t.order ++ (v ∷ []) })
  leave-Grows v s t inv here free inv' g known =
      let own : was_at (enter v s) v ≡ true =
        get_or-set_self s.was v true false (omega (arith, inv.wide)) in
      let out : occurs v t.order ≡ 0 = elim (ℕ_discrete (occurs v t.order) 0) [
        | yes e ↦ e
        | no ne ↦ elim (g.added v (omega (arith, ne))) [
          | inl before ↦ absurd (no_confusion (sym (inv.marked v before) ∙ free))
          | inr unseen ↦ absurd (no_confusion (sym own ∙ unseen))
        ]
      ] in
      let count = λ (u : ℕ). occurs-append u t.order (v ∷ []) in
      (
        record {
          wide = inv'.wide;
          once = λ u. ground (arith, count u, inv'.once u, out);
          below = λ u h. elim (ℕ_discrete v u) [
            | yes e ↦ subst (λ x. x < length cells) e here
            | no ne ↦ inv'.below u (ground (arith, count u))
          ];
          marked = λ u h. elim (ℕ_discrete v u) [
            | yes e ↦ subst (λ x. was_at t x ≡ true) e (g.more v own)
            | no ne ↦ inv'.marked u (ground (arith, count u))
          ];
          first = RefsFirst-append cells t.order v inv'.first known;
        },
        record {
          more = λ u h. g.more u (enter-was v u s (omega (arith, inv.wide)) h);
          kept = λ u h. ground (arith, count u, g.kept u h);
          closed = λ u h. elim (g.closed u h) [
            | inl there ↦ inl (ground (arith, count u))
            | inr before ↦ elim (was-enter v u s (omega (arith, inv.wide)) before) [
              | inl e ↦ inl (ground (arith, count u))
              | inr seen ↦ inr seen
            ]
          ];
          added = λ u h. elim (ℕ_discrete v u) [
            | yes e ↦ inr (subst (λ x. was_at s x ≡ false) e free)
            | no ne ↦ elim (g.added u (ground (arith, count u))) [
              | inl before ↦ inl before
              | inr unseen ↦ inr (sym (get_or-set_ne s.was v u true false ne) ∙ unseen)
            ]
          ];
          fewer = omega (arith, g.fewer, unmarked-set s.was v (omega (arith, inv.wide)) free);
          size = omega (
            arith,
            g.size,
            unmarked-set s.was v (omega (arith, inv.wide)) free,
            length-append t.order (v ∷ []),
          );
        },
      )

  pub sort_from-lem :
      (fuel v : ℕ) (s : Sort)
      → SortInv cells s
      → v < length cells
      → was_at s v ≡ false
      → OpenAbove (suc (acyclic.height v)) s
      → unmarked s.was ≤ fuel
      → Searched fuel v s
  unfolding sort_from
  sort_from-lem zero v s inv here free above enough =
      absurd (omega (arith, unmarked-set s.was v (omega (arith, inv.wide)) free))
  sort_from-lem (suc fuel) v s inv here free above enough =
      let c : MyCell = cell_of cells v in
      let within : v < length s.was = omega (arith, inv.wide) in
      let entered : SortInv cells (enter v s) = record {
        wide = length-set s.was v true ∙ inv.wide;
        once = inv.once;
        below = inv.below;
        marked = λ u h. enter-was v u s within (inv.marked u h);
        first = inv.first;
      } in
      let (t, sorted, inv', g, known) =
        sort_refs-lem fuel (acyclic.height v) (sort_from-lem fuel) (refs_of c) (enter v s) entered
          (λ r stands. valid cells graph acyclic v r here stands)
          (λ u marked. elim (was-enter v u s within marked) [
            | inl e ↦ inr (omega (arith, ap acyclic.height e))
            | inr seen ↦ elim (above u seen) [
              | inl there ↦ inl there
              | inr high ↦ inr (omega arith)
            ]
          ])
          (omega (arith, unmarked-set s.was v within free)) in
      let (left, grown) = leave-Grows v s t inv here free inv' g known in
      (
        record t { order = t.order ++ (v ∷ []) },
        rw (lt→ltb v (length cells) here, free, sorted) refl,
        left,
        grown,
        ground (arith, occurs-append v t.order (v ∷ [])),
      )
