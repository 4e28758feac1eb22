-- ===== src/LocalUtils/Occurrences.antt =====
-- cnt_occurrences by the Z-function counts the places of the sample in the text.
use mara_ton_contest_solutio.Common.{
  ℕ, suc, ◌+◌, ◌-◌, ◌≤◌, ◌<◌, min, ◌≡◌, refl, sym, ap, ◌∙◌, ◌⊎◌, inl, inr, Bool, true, false, ◌&&◌,
  List, [], ◌∷◌, ◌++◌, ltb, leb, if◌then◌else◌, Bool-cases, le→leb, length, length-replicate,
  length-set, replicate, get_or, set, get_or-set_self, get_or-set_ne, get_or-append_left, subst,
  arith,
}
use mara_ton_contest_solutio.LocalUtils.{grow_z, count_loop, cnt_occurrences}
use mara_ton_contest_solutio.LocalUtils.ZFunction.{
  starts_with, occurrences, Agrees, grow_z-lem, first-Agrees, test-starts,
}
use native.Mathlib.Decide.{ℕ_discrete}

-- The places of the sample from position i on that are not before `size`.
abbrev places : (size i : ℕ) → (sample rest : List ℕ) → ℕ
places size i sample [] = 0
places size i sample (c ∷ rest) =
    let later = places size (i + 1) sample rest in
    if leb size i && starts_with sample (c ∷ rest) then suc later else later

module _ (s : List ℕ) where
  count_loop-places :
      (sample rest : List ℕ) (i l r cnt : ℕ) (z : List ℕ)
      → ((k : ℕ) → k < length sample → get_or sample k 0 ≡ get_or s k 0)
      → ((k : ℕ) → get_or s (i + k) 0 ≡ get_or rest k 0)
      → i + length rest ≡ length s
      → 0 < i
      → length z ≡ length s
      → ((j : ℕ) → 0 < j → j < i → Agrees s (get_or z j 0) j)
      → (r ≤ i) ⊎ ((0 < l) × (l < i) × Agrees s (r - l) l)
      → r ≤ length s
      → count_loop (length rest) s (length sample) i l r cnt z
        ≡ cnt + places (length sample) i sample rest
  unfolding count_loop
  count_loop-places sample [] i l r cnt z front back total pos size known window below = omega arith
  count_loop-places sample (c ∷ rest) i l r cnt z front back total pos size known window below =
      let first : ℕ = if ltb i r then min (r - i) (get_or z (i - l) 0) else 0 in
      let (sound, room) = first-Agrees s i l r z known window below (omega arith) in
      let zi : ℕ = grow_z (length s) s i first in
      let (agrees, within, stop) = grow_z-lem s (length s) i first sound room (omega arith) in
      let test = test-starts s sample (c ∷ rest) i zi front back total agrees within stop in
      let own : get_or (set z i zi) i 0 ≡ zi = get_or-set_self z i zi 0 (omega arith) in
      count_loop-places sample rest (i + 1) (if ltb r (i + zi) then i else l)
        (if ltb r (i + zi) then i + zi else r)
        (if leb (length sample) i && leb (length sample) zi then cnt + 1 else cnt) (set z i zi)
        front
        (λ k.
          ap (λ (x : ℕ). get_or s x 0) {x = i + 1 + k} {y = i + suc k} (omega arith) ∙ back (suc k))
        (omega arith) (omega arith) (length-set z i zi ∙ size)
        (λ j h h'. elim (ℕ_discrete i j) [
          | yes e ↦
              subst (λ x. Agrees s (get_or (set z i zi) x 0) x) e
                (subst (λ x. Agrees s x i) (sym own) agrees)
          | no ne ↦
              subst (λ x. Agrees s x j) (sym (get_or-set_ne z i j zi 0 ne))
                (known j h (omega (arith, ne)))
        ])
        (next i l r zi pos window agrees) (ground arith)
      ∙ counted (length sample) i zi cnt (places (length sample) (i + 1) sample rest)
          (starts_with sample (c ∷ rest)) test
    where
      next :
          (i l r zi : ℕ)
          → 0 < i
          → (r ≤ i) ⊎ ((0 < l) × (l < i) × Agrees s (r - l) l)
          → Agrees s zi i
          → ((if ltb r (i + zi) then i + zi else r) ≤ i + 1)
            ⊎ ((0 < (if ltb r (i + zi) then i else l))
                × ((if ltb r (i + zi) then i else l) < i + 1)
                × Agrees s
                    ((if ltb r (i + zi) then i + zi else r) - (if ltb r (i + zi) then i else l))
                    (if ltb r (i + zi) then i else l))
      next i l r zi pos window agrees = elim (Bool-cases (ltb r (i + zi))) [
        | inl wider ↦ rw wider (inr (pos, omega arith, λ k h. agrees k (omega arith)))
        | inr kept ↦ rw kept (elim window [
          | inl past ↦ inl (omega arith)
          | inr (pos', left, a) ↦ inr (pos', omega arith, a)
        ])
      ]

      counted :
          (size i zi cnt later : ℕ) (starts : Bool)
          → leb size zi ≡ starts
          → (if leb size i && leb size zi then cnt + 1 else cnt) + later
            ≡ cnt + (if leb size i && starts then suc later else later)
      counted size i zi cnt later starts e =
          subst
            (λ b.
              (if leb size i && leb size zi then cnt + 1 else cnt) + later
              ≡ cnt + (if leb size i && b then suc later else later))
            e (same (leb size i && leb size zi))
        where
          same :
              (b : Bool)
              → (if b then cnt + 1 else cnt) + later ≡ cnt + (if b then suc later else later)
          same true = omega arith
          same false = omega arith

places-within :
    (size i : ℕ) (sample text : List ℕ)
    → size ≤ i
    → places size i sample text ≡ occurrences sample text
places-within size i sample [] h = refl
places-within size i sample (c ∷ text) h =
    let later = places-within size (i + 1) sample text (omega arith) in
    rw (le→leb size i h, later) refl

places-skip :
    (size i : ℕ) (sample front text : List ℕ)
    → i + length front ≡ size
    → places size i sample (front ++ text) ≡ occurrences sample text
places-skip size i sample [] text e = places-within size i sample text (omega arith)
places-skip size i sample (x ∷ front) text e =
    let before : leb size i ≡ false = lt_test size i (omega arith) in
    rw before (places-skip size (i + 1) sample front text (omega arith))
  where
    lt_test : (a b : ℕ) → b < a → leb a b ≡ false
    lt_test a b h = ground arith

-- For a non-empty sample, the count of the Z-function is the number of places of the text at which
-- the sample stands.
pub cnt_occurrences-eq :
    (sample text : List ℕ)
    → 0 < length sample
    → cnt_occurrences sample text ≡ occurrences sample text
unfolding cnt_occurrences
cnt_occurrences-eq [] text pos = absurd (omega arith)
cnt_occurrences-eq (x ∷ sample) text pos =
    let s : List ℕ = x ∷ (sample ++ text) in
    let n : ℕ = length s in
    let counted =
      count_loop-places s (x ∷ sample) (sample ++ text) 1 0 0 0 (replicate n 0)
        (λ k h. sym (get_or-append_left (x ∷ sample) text k 0 h))
        (λ k. ap (λ (j : ℕ). get_or s j 0) {x = 1 + k} {y = suc k} (omega arith)) (omega arith)
        (omega arith) (length-replicate n 0) (λ j h h'. absurd (omega arith)) (inl (omega arith))
        (omega arith) in
    ap (λ (left : ℕ). count_loop left s (suc (length sample)) 1 0 0 0 (replicate n 0)) {x = n - 1}
      {y = length (sample ++ text)} (omega arith)
    ∙ counted
    ∙ omega (arith, places-skip (suc (length sample)) 1 (x ∷ sample) sample text (omega arith))
