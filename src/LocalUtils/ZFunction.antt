-- ===== src/LocalUtils/ZFunction.antt =====
-- A round of cnt_occurrences: how far the string agrees with its beginning from a position on.
use mara_ton_contest_solutio.Common.{
  ℕ, zero, suc, ◌+◌, ◌-◌, ◌≤◌, ◌<◌, min, ◌≡◌, ◌≢◌, refl, sym, ap, ◌∙◌, ◌⊎◌, inl, inr, Bool, true,
  false, ◌&&◌, List, [], ◌∷◌, ltb, leb, ◌==◌, if◌then◌else◌, Bool-cases, ltb→lt, length, get_or,
  arith,
}
use mara_ton_contest_solutio.LocalUtils.{grow_z}
use native.Mathlib.Decide.{ℕ_discrete}

abbrev pub starts_with : (sample text : List ℕ) → Bool
starts_with [] text = true
starts_with (x ∷ sample) [] = false
starts_with (x ∷ sample) (y ∷ text) = (x == y) && starts_with sample text

-- The places of the text where the sample stands.
abbrev pub occurrences : (sample text : List ℕ) → ℕ
occurrences sample [] = 0
occurrences sample (c ∷ text) =
    let rest = occurrences sample text in if starts_with sample (c ∷ text) then suc rest else rest

starts_with-yes :
    (m t : List ℕ)
    → length m ≤ length t
    → ((k : ℕ) → k < length m → get_or m k 0 ≡ get_or t k 0)
    → starts_with m t ≡ true
starts_with-yes [] t long same = refl
starts_with-yes (x ∷ m) [] long same = absurd (omega arith)
starts_with-yes (x ∷ m) (y ∷ t) long same =
    let first : x ≡ y = same 0 (omega arith) in
    let rest = starts_with-yes m t (omega arith) (λ k h. same (suc k) (omega arith)) in ground arith

starts_with-prefix :
    (m t : List ℕ)
    → starts_with m t ≡ true
    → (length m ≤ length t) × ((k : ℕ) → k < length m → get_or m k 0 ≡ get_or t k 0)
starts_with-prefix [] t h = (omega arith, λ k lt. absurd (omega arith))
starts_with-prefix (x ∷ m) [] h = absurd (cc)
starts_with-prefix (x ∷ m) (y ∷ t) h =
    let both = split (x == y) (starts_with m t) h in
    let (long, same) = starts_with-prefix m t both.1 in
    (omega arith, λ k lt. pointwise k (heads x y both.0) same lt)
  where
    split : (p q : Bool) → (p && q) ≡ true → (p ≡ true) × (q ≡ true)
    split true q h = (refl, h)
    split false q h = absurd (cc)

    heads : (x y : ℕ) → (x == y) ≡ true → x ≡ y
    heads x y h = ground arith

    pointwise :
        (k : ℕ)
        → x ≡ y
        → ((k : ℕ) → k < length m → get_or m k 0 ≡ get_or t k 0)
        → k < suc (length m)
        → get_or (x ∷ m) k 0 ≡ get_or (y ∷ t) k 0
    pointwise zero e same lt = e
    pointwise (suc k) e same lt = same k (omega arith)

module _ (s : List ℕ) where
  -- The first z characters from i on are those of the beginning.
  abbrev pub Agrees : (z i : ℕ) → Type 0
  Agrees z i = (k : ℕ) → k < z → get_or s k 0 ≡ get_or s (i + k) 0

  -- The loop extends z as far as it goes.
  pub grow_z-lem :
      (fuel i z : ℕ)
      → Agrees z i
      → i + z ≤ length s
      → length s ≤ i + z + fuel
      → Agrees (grow_z fuel s i z) i
        × (i + grow_z fuel s i z ≤ length s)
        × ((i + grow_z fuel s i z ≡ length s)
            ⊎ (get_or s (grow_z fuel s i z) 0 ≢ get_or s (i + grow_z fuel s i z) 0))
  unfolding grow_z
  grow_z-lem zero i z agrees within enough = (agrees, within, inl (omega arith))
  grow_z-lem (suc fuel) i z agrees within enough =
      elim (Bool-cases (ltb (i + z) (length s) && (get_or s z 0 == get_or s (i + z) 0))) [
        | inl more ↦
            let (inside, same) = go_on z i more in
            rw more (
              grow_z-lem fuel i (z + 1)
                (λ k h. elim (ℕ_discrete k z) [
                  | yes e ↦
                      ap (λ (x : ℕ). get_or s x 0) e
                      ∙ same
                      ∙ ap (λ (x : ℕ). get_or s (i + x) 0) (sym e)
                  | no ne ↦ agrees k (omega (arith, ne))
                ])
                (omega arith) (omega arith))
        | inr stop ↦ rw stop (agrees, within, ended z i within stop)
      ]
    where
      go_on :
          (z i : ℕ)
          → (ltb (i + z) (length s) && (get_or s z 0 == get_or s (i + z) 0)) ≡ true
          → (i + z < length s) × (get_or s z 0 ≡ get_or s (i + z) 0)
      go_on z i h = (ground arith, ground arith)

      ended :
          (z i : ℕ)
          → i + z ≤ length s
          → (ltb (i + z) (length s) && (get_or s z 0 == get_or s (i + z) 0)) ≡ false
          → (i + z ≡ length s) ⊎ (get_or s z 0 ≢ get_or s (i + z) 0)
      ended z i within h = elim (ℕ_discrete (i + z) (length s)) [
        | yes e ↦ inl e
        | no ne ↦ inr (λ e. ground arith)
      ]

  -- What a round starts with is right so far.
  pub first-Agrees :
      (i l r : ℕ) (z : List ℕ)
      → ((j : ℕ) → 0 < j → j < i → Agrees (get_or z j 0) j)
      → (r ≤ i) ⊎ ((0 < l) × (l < i) × Agrees (r - l) l)
      → r ≤ length s
      → i ≤ length s
      → Agrees (if ltb i r then min (r - i) (get_or z (i - l) 0) else 0) i
        × (i + (if ltb i r then min (r - i) (get_or z (i - l) 0) else 0) ≤ length s)
  first-Agrees i l r z known window below here = elim (Bool-cases (ltb i r)) [
    | inr behind ↦ rw behind (λ k h. absurd (omega arith), omega arith)
    | inl inside ↦
        let lt = ltb→lt i r inside in
        rw inside (
          elim window [
            | inl past ↦ absurd (omega arith)
            | inr (pos, left, agrees) ↦ λ k h.
                known (i - l) (omega arith) (omega arith) k (omega arith)
                ∙ agrees (i - l + k) (omega arith)
                ∙ ap (λ (x : ℕ). get_or s x 0) {x = l + (i - l + k)} {y = i + k} (omega arith)
          ],
          omega arith,
        )
  ]

  -- The test of a round, on what follows position i.
  pub test-starts :
      (sample rest : List ℕ) (i z : ℕ)
      → ((k : ℕ) → k < length sample → get_or sample k 0 ≡ get_or s k 0)
      → ((k : ℕ) → get_or s (i + k) 0 ≡ get_or rest k 0)
      → i + length rest ≡ length s
      → Agrees z i
      → i + z ≤ length s
      → (i + z ≡ length s) ⊎ (get_or s z 0 ≢ get_or s (i + z) 0)
      → leb (length sample) z ≡ starts_with sample rest
  test-starts sample rest i z front back total agrees within stop =
      elim (Bool-cases (leb (length sample) z)) [
        | inl enough ↦
            let le : length sample ≤ z = at_least (length sample) z enough in
            enough
            ∙ sym (
                starts_with-yes sample rest (omega arith)
                  (λ k h. front k h ∙ agrees k (omega arith) ∙ back k))
        | inr short ↦ elim (Bool-cases (starts_with sample rest)) [
          | inr other ↦ short ∙ sym other
          | inl here ↦
              let lt : z < length sample = below (length sample) z short in
              let (long, same) = starts_with-prefix sample rest here in
              elim stop [
                | inl e ↦ absurd (omega arith)
                | inr ne ↦ absurd (ne (sym (front z lt) ∙ same z lt ∙ sym (back z)))
              ]
        ]
      ]
    where
      at_least : (a b : ℕ) → leb a b ≡ true → a ≤ b
      at_least a b h = ground arith

      below : (a b : ℕ) → leb a b ≡ false → b < a
      below a b h = ground arith
