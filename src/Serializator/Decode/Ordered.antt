-- ===== src/Serializator/Decode/Ordered.antt =====
-- The cells that serialize lays out: put in order, they can be written and read again.
use mara_ton_contest_solutio.Common.{
  ℕ, zero, suc, ◌+◌, ◌-◌, ◌≤◌, ◌<◌, ◌≡◌, refl, sym, ap, ◌∙◌, some, List, [], ◌∷◌, ◌++◌, length,
  length-append, length-replicate, take, replicate, get_or, All, subst, arith,
}
use mara_ton_contest_solutio.Serializator.Cell.{MyCell}
use mara_ton_contest_solutio.Serializator.Order.{initial_cell_order, apply_order}
use mara_ton_contest_solutio.Serializator.Order.Graphs.{cell_of, IsGraph}
use mara_ton_contest_solutio.Serializator.Order.Rounds.{IsAcyclic}
use mara_ton_contest_solutio.Serializator.Order.Initial.{initial_cell_order_lem}
use mara_ton_contest_solutio.Serializator.Order.Applied.{apply_order_lem}
use mara_ton_contest_solutio.Serializator.Decode.Refs.{IsRefOf}
use mara_ton_contest_solutio.Serializator.Decode.Written.{IsCell, AreCells}

AreCells-at :
    (n sizes i : ℕ) (cells : List MyCell) (k : ℕ)
    → AreCells n sizes i cells
    → k < length cells
    → IsCell n sizes (i + k) (cell_of cells k)
AreCells-at n sizes i [] k own h = absurd (omega arith)
AreCells-at n sizes i (c ∷ cells) zero (first, own) h =
    subst (λ j. IsCell n sizes j c) {x = i} {y = i + 0} (omega arith) first
AreCells-at n sizes i (c ∷ cells) (suc k) (first, own) h =
    subst (λ j. IsCell n sizes j (cell_of cells k)) {x = i + 1 + k} {y = i + suc k} (omega arith)
      (AreCells-at n sizes (i + 1) cells k own (omega arith))

AreCells-from :
    (n sizes i : ℕ) (cells : List MyCell)
    → ((k : ℕ) → k < length cells → IsCell n sizes (i + k) (cell_of cells k))
    → AreCells n sizes i cells
AreCells-from n sizes i [] h = tt
AreCells-from n sizes i (c ∷ cells) h = (
  subst (λ j. IsCell n sizes j c) {x = i + 0} {y = i} (omega arith) (h 0 (omega arith)),
  AreCells-from n sizes (i + 1) cells (λ k lt.
      subst (λ j. IsCell n sizes j (cell_of cells k)) {x = i + suc k} {y = i + 1 + k} (omega arith)
        (h (suc k) (omega arith))),
)

get_or-take : (l : List ℕ) (n k : ℕ) → k < n → get_or (take n l) k 0 ≡ get_or l k 0
get_or-take l zero k h = absurd (omega arith)
get_or-take [] (suc n) k h = refl
get_or-take (x ∷ l) (suc n) zero h = refl
get_or-take (x ∷ l) (suc n) (suc k) h = get_or-take l n k (omega arith)

length-take_at : (l : List ℕ) (n : ℕ) → n ≤ length l → length (take n l) ≡ n
length-take_at l zero h = refl
length-take_at [] (suc n) h = absurd (omega arith)
length-take_at (x ∷ l) (suc n) h = ap suc (length-take_at l n (omega arith))

All-at :
    (n i : ℕ) (l : List ℕ) (k : ℕ) → All (IsRefOf n i) l → k < length l → IsRefOf n i (get_or l k 0)
All-at n i [] k own h = absurd (omega arith)
All-at n i (x ∷ l) zero (first, own) h = first
All-at n i (x ∷ l) (suc k) (first, own) h = All-at n i l k own (omega arith)

All-from :
    (n i : ℕ) (l : List ℕ)
    → ((k : ℕ) → k < length l → IsRefOf n i (get_or l k 0))
    → All (IsRefOf n i) l
All-from n i [] h = tt
All-from n i (x ∷ l) h = (h 0 (omega arith), All-from n i l (λ k lt. h (suc k) (omega arith)))

-- Slots with 0 behind the first n.
slots-from :
    (l : List ℕ) (n m : ℕ)
    → length l ≡ n + m
    → ((k : ℕ) → n ≤ k → get_or l k 0 ≡ 0)
    → l ≡ take n l ++ replicate m 0
slots-from [] zero zero size h = refl
slots-from [] zero (suc m) size h = absurd (omega arith)
slots-from [] (suc n) m size h = absurd (omega arith)
slots-from (x ∷ l) zero zero size h = absurd (omega arith)
slots-from (x ∷ l) zero (suc m) size h =
    let first : x ≡ 0 = h 0 (omega arith) in
    let rest = slots-from l 0 m (omega arith) (λ k lt. h (suc k) (omega arith)) in
    rw first (ap (λ t. 0 ∷ t) rest)
slots-from (x ∷ l) (suc n) m size h =
    ap (λ t. x ∷ t) (slots-from l n m (omega arith) (λ k lt. h (suc k) (omega arith)))

slots-behind :
    (l : List ℕ) (n m k : ℕ)
    → l ≡ take n l ++ replicate m 0
    → length (take n l) ≡ n
    → n ≤ k
    → get_or l k 0 ≡ 0
slots-behind l n m k e size h = ap (λ t. get_or t k 0) e ∙ behind (take n l) k (omega arith)
  where
    zeroes : (m k : ℕ) → get_or {A = ℕ} (replicate m 0) k 0 ≡ 0
    zeroes zero k = refl
    zeroes (suc m) zero = refl
    zeroes (suc m) (suc k) = zeroes m k

    behind : (t : List ℕ) (k : ℕ) → length t ≤ k → get_or (t ++ replicate m 0) k 0 ≡ 0
    behind [] k h = zeroes m k
    behind (x ∷ t) zero h = absurd (omega arith)
    behind (x ∷ t) (suc k) h = behind t k (omega arith)

length-take_bound : (l : List ℕ) (n : ℕ) → length (take n l) ≤ length l
length-take_bound l zero = omega arith
length-take_bound [] (suc n) = omega arith
length-take_bound (x ∷ l) (suc n) = omega (arith, length-take_bound l n)

AreCells-IsGraph :
    (sizes : ℕ) (cells : List MyCell) → AreCells (length cells) sizes 0 cells → IsGraph cells
AreCells-IsGraph sizes cells own = record {
  slots = λ i h.
      let c = AreCells-at (length cells) sizes 0 cells i own h in
      omega (arith, c.listed, length-take_bound (cell_of cells i).refs (cell_of cells i).cnt_refs);
  valid = λ i k h few.
      let c = AreCells-at (length cells) sizes 0 cells i own h in
      let l : List ℕ = (cell_of cells i).refs in
      let n : ℕ = (cell_of cells i).cnt_refs in
      subst (λ x. x < length cells) (get_or-take l n k few)
        (All-at (length cells) (0 + i) (take n l) k c.valid (omega (arith, c.listed))).1;
}

-- A cell with its references replaced by as many to earlier cells.
renumbered-IsCell :
    (n sizes i j : ℕ) (c : MyCell) (refs' : List ℕ)
    → IsCell n sizes i c
    → length refs' ≡ length c.refs
    → ((k : ℕ) → k < c.cnt_refs → (get_or refs' k 0 < n) × (get_or refs' k 0 < j))
    → ((k : ℕ) → c.cnt_refs ≤ k → get_or refs' k 0 ≡ get_or c.refs k 0)
    → IsCell n sizes j (record c { refs = refs' })
renumbered-IsCell n sizes i j c refs' own size earlier behind =
    let whole : length c.refs ≡ c.cnt_refs + (4 - c.cnt_refs) =
      ap length own.slots
      ∙ length-append (take c.cnt_refs c.refs) (replicate (4 - c.cnt_refs) 0)
      ∙ omega (arith, own.listed, length-replicate {A = ℕ} (4 - c.cnt_refs) 0) in
    let listed = length-take_at refs' c.cnt_refs (omega arith) in
    record {
      few = own.few;
      slots = slots-from refs' c.cnt_refs (4 - c.cnt_refs) (omega arith) (λ k h.
          behind k h ∙ slots-behind c.refs c.cnt_refs (4 - c.cnt_refs) k own.slots own.listed h);
      listed = listed;
      valid = All-from n j (take c.cnt_refs refs') (λ k h.
          let at = get_or-take refs' c.cnt_refs k (omega arith) in
          let (lt, before) = earlier k (omega arith) in ((λ e. absurd (omega arith)), omega arith));
      sized = own.sized;
      enough = own.enough;
      all_bytes = own.all_bytes;
      padded = own.padded;
    }

-- For cells that the stream can hold, without cycles: initial_cell_order and apply_order succeed,
-- with as many cells, which the stream can hold, too.
pub apply_order-AreCells :
    (sizes : ℕ) (cells : List MyCell)
    → AreCells (length cells) sizes 0 cells
    → IsAcyclic cells
    → (order : List ℕ) × (cells' : List MyCell) × (initial_cell_order cells ≡ some order)
      × (apply_order cells order ≡ some cells')
      × (length cells' ≡ length cells)
      × AreCells (length cells') sizes 0 cells'
apply_order-AreCells sizes cells own acyclic =
    let graph = AreCells-IsGraph sizes cells own in
    let n : ℕ = length cells in
    let (order, ordered, is_order, first) =
      initial_cell_order_lem cells graph acyclic
        (λ i h. omega (arith, (AreCells-at n sizes 0 cells i own h).few)) in
    let (cells', applied, size, renumbered) = apply_order_lem cells order is_order graph in
    (
      order,
      cells',
      ordered,
      applied,
      size,
      subst (λ m. AreCells m sizes 0 cells') (sym size)
          (AreCells-from n sizes 0 cells' (λ j h.
            let here : j < n = omega arith in
            let i : ℕ = get_or order j 0 in
            let (refs', same, led, long, behind) = renumbered j here in
            subst (IsCell n sizes (0 + j)) (sym same) (
              renumbered-IsCell n sizes (0 + i) (0 + j) (cell_of cells i) refs'
                (AreCells-at n sizes 0 cells i own (is_order.below j here)) long
                (λ k few.
                  let (below, back) = led k few in
                  let (e, before, at) = first j k here few in
                  let there : get_or refs' k 0 ≡ e =
                    is_order.once (get_or refs' k 0) e below (omega arith) (back ∙ sym at) in
                  (below, omega arith))
                behind))),
    )
