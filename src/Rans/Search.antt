-- ===== src/Rans/Search.antt =====
-- The binary search of ArithDecoder::decode_symbol.
use mara_ton_contest_solutio.Common.{
  test_eq, test_ne, ℕ, zero, suc, ◌+◌, ◌/◌, ◌≤◌, ◌<◌, ◌≡◌, refl, sym, subst, ◌⊎◌, inl, inr, true,
  false, some, List, length, get_or, leb, Bool-cases, arith,
}
use mara_ton_contest_solutio.Rans.{find_symbol}
use native.Mathlib.Decide.{ℕ_discrete}

-- A search that starts with an entry of at most y at l, and with r the end of the table or at an entry
-- above y, and has a round for each entry between, ends at an entry of at most y that is before r and
-- behind which comes r or an entry above y.
search-ends :
    (fuel : ℕ) (cum_freq : List ℕ) (y l r end : ℕ)
    → l < r
    → r ≤ l + fuel + 1
    → get_or cum_freq l 0 ≤ y
    → (r ≡ end) ⊎ (y < get_or cum_freq r 0)
    → (s : ℕ) × (find_symbol fuel cum_freq y l r ≡ some s)
      × (l ≤ s)
      × (s < r)
      × (get_or cum_freq s 0 ≤ y)
      × ((s + 1 ≡ end) ⊎ (y < get_or cum_freq (s + 1) 0))
unfolding find_symbol
search-ends zero cum_freq y l r end some_left enough low high =
    let e : l + 1 ≡ r = omega arith in
    (
      l,
      rw (test_eq (l + 1) r e) refl,
      omega arith,
      some_left,
      low,
      subst (λ x. (x ≡ end) ⊎ (y < get_or cum_freq x 0)) (sym e) high,
    )
search-ends (suc fuel) cum_freq y l r end some_left enough low high = elim (ℕ_discrete (l + 1) r) [
  | yes e ↦ (
    l,
    rw (test_eq (l + 1) r e) refl,
    omega arith,
    some_left,
    low,
    subst (λ x. (x ≡ end) ⊎ (y < get_or cum_freq x 0)) (sym e) high,
  )
  | no ne ↦
      let m : ℕ = (l + r) / 2 in
      let more = test_ne (l + 1) r ne in
      elim (Bool-cases (leb (get_or cum_freq m 0) y)) [
        | inl below ↦
            let (s, found, from, to, at, next) =
              search-ends fuel cum_freq y m r end (omega (arith, ne)) (omega (arith, ne))
                (le_test (get_or cum_freq m 0) y below) high in
            (s, rw (more, below) found, omega (arith, ne), to, at, next)
        | inr above ↦
            let (s, found, from, to, at, next) =
              search-ends fuel cum_freq y l m end (omega (arith, ne)) (omega (arith, ne)) low
                (inr (lt_test (get_or cum_freq m 0) y above)) in
            (s, rw (more, above) found, from, omega (arith, ne), at, next)
      ]
]
  where
    le_test : (a b : ℕ) → leb a b ≡ true → a ≤ b
    le_test a b h = ground arith

    lt_test : (a b : ℕ) → leb a b ≡ false → b < a
    lt_test a b h = ground arith

-- In a table of frequencies, one at least, whose first cumulative frequency is 0: the binary search
-- for any y ends within its rounds at a symbol of the table whose cumulative frequency is at most y,
-- and which is the last one or before one whose cumulative frequency is above y.
pub find_symbol_lem :
    (freq cum_freq : List ℕ) (y : ℕ)
    → 0 < length freq
    → get_or cum_freq 0 0 ≡ 0
    → (s : ℕ) × (find_symbol (length freq) cum_freq y 0 (length freq) ≡ some s)
      × (s < length freq)
      × (get_or cum_freq s 0 ≤ y)
      × ((s + 1 ≡ length freq) ⊎ (y < get_or cum_freq (s + 1) 0))
find_symbol_lem freq cum_freq y pos first =
    let (s, found, _, inside, low, next) =
      search-ends (length freq) cum_freq y 0 (length freq) (length freq) pos (omega arith)
        (omega arith) (inl refl) in
    (s, found, inside, low, next)
