-- ===== src/LocalUtils/Unite.antt =====
-- unite joins the sets of two numbers, and no others.
use mara_ton_contest_solutio.Common.{
  test_eq, test_ne, ℕ, suc, ◌+◌, ◌≡◌, ◌≢◌, refl, sym, ap, ◌∙◌, ◌⊎◌, inl, inr, not, ◌||◌, some, List,
  ltb, ◌==◌, if◌then◌else◌, Bool-cases, length, length-set, get_elem?, set, subst, arith,
}
use mara_ton_contest_solutio.LocalUtils.{Entry, parent, size, size_of, unite}
use mara_ton_contest_solutio.LocalUtils.Sets.{
  Root, here, up, parents, IsForest, get_elem?-set_self, get_elem?-set_ne, parents_below,
  parents_grown, parents-lt, Root-top, Keeps, Keeps-trans, get_comp-Keeps,
}
use native.Mathlib.Decide.{ℕ_discrete}

-- The root that r becomes when the root `small` is put below the root `big`.
abbrev moved : (big small r : ℕ) → ℕ
moved big small r = if r == small then big else r

module _ (par : List Entry) (big small m n total : ℕ) (big_root : get_elem? par big ≡ some (size m))
    (small_root : get_elem? par small ≡ some (size n)) (ne : big ≢ small) where
  abbrev grown : List Entry
  grown = set par big (size total)

  abbrev joined : List Entry
  joined = set grown small (parent big)

  small_grown : get_elem? grown small ≡ some (size n)
  small_grown = get_elem?-set_ne par big small (size total) ne ∙ small_root

  inner-apart :
      (l : List Entry) (w k z y : ℕ)
      → get_elem? l w ≡ some (size k)
      → get_elem? l z ≡ some (parent y)
      → w ≢ z
  inner-apart l w k z y h h' same =
      let h'' : get_elem? l z ≡ some (size k) = subst (λ v. get_elem? l v ≡ some (size k)) same h in
      absurd (cc)

  -- The roots in the forest that is joined.
  joined-Root : (k z r : ℕ) → Root par k z r → Root joined (suc k) z (moved big small r)
  joined-Root k z r (here {n = j} h) = elim (ℕ_discrete small z) [
    | yes e ↦
        let here_big : get_elem? joined big ≡ some (size total) =
          get_elem?-set_ne grown small big (parent big) (λ x. ne (sym x))
          ∙ get_elem?-set_self par big (size total) big_root in
        let at : moved big small z ≡ big = rw (test_eq z small (sym e)) refl in
        subst (Root joined (suc k) z) (sym at) (
          subst (λ v. Root joined (suc k) v big) e
            (up (get_elem?-set_self grown small (parent big) small_grown) (here here_big)))
    | no other ↦
        let at : moved big small z ≡ z = rw (test_ne z small (λ x. other (sym x))) refl in
        let root : (j : ℕ) × (get_elem? joined z ≡ some (size j)) = elim (ℕ_discrete big z) [
          | yes e ↦ (
            total,
            get_elem?-set_ne grown small z (parent big) other
                ∙ subst (λ v. get_elem? grown v ≡ some (size total)) e
                    (get_elem?-set_self par big (size total) big_root),
          )
          | no apart ↦ (
            j,
            get_elem?-set_ne grown small z (parent big) other
                ∙ get_elem?-set_ne par big z (size total) apart
                ∙ h,
          )
        ] in
        subst (Root joined (suc k) z) (sym at) (here root.1)
  ]
  joined-Root (suc k) z r (up {y = y} h root) =
      up
        (get_elem?-set_ne grown small z (parent big) (inner-apart par small n z y small_root h)
          ∙ get_elem?-set_ne par big z (size total) (inner-apart par big m z y big_root h)
          ∙ h)
        (joined-Root k y r root)

  parents-joined : parents joined ≡ suc (parents par)
  parents-joined =
      parents_below grown small n big small_grown ∙ ap suc (parents_grown par big m total big_root)

  joined-IsForest :
      (before : List Entry) (cnt : ℕ)
      → Keeps before par
      → IsForest cnt before
      → IsForest cnt joined
        × ((z r : ℕ)
            → Root before (parents before) z r
            → Root joined (parents joined) z (moved big small r))
  joined-IsForest before cnt keeps forest =
      let lead = λ (z r : ℕ) (root : Root before (parents before) z r).
        subst (λ k. Root joined k z (moved big small r)) (sym parents-joined ∙ refl)
          (subst (λ k. Root joined (suc k) z (moved big small r)) (sym keeps.count)
            (joined-Root (parents before) z r (keeps.roots (parents before) z r root))) in
      (
        record {
          wide =
              length-set grown small (parent big)
              ∙ length-set par big (size total)
              ∙ keeps.long
              ∙ forest.wide;
          rooted = λ z h. let (r, root) = forest.rooted z h in (moved big small r, lead z r root);
        },
        lead,
      )

-- In a forest of n numbers, unite of two of them finds their roots a and b, answers whether they
-- differ, and leaves a forest of n numbers, in which the numbers under a and under b all have one of
-- these two as their root and each other number has the root that it had.
pub unite_lem :
    (n : ℕ) (par : List Entry) (x y a b : ℕ)
    → IsForest n par
    → Root par (parents par) x a
    → Root par (parents par) y b
    → (par' : List Entry) × (unite par x y ≡ some (not (a == b), par'))
      × IsForest n par'
      × (c : ℕ) × ((c ≡ a) ⊎ (c ≡ b))
      × ((z r : ℕ)
          → Root par (parents par) z r
          → Root par' (parents par') z (if (r == a) || (r == b) then c else r))
unfolding unite
unite_lem n par x y a b forest under_a under_b =
    let (m, top) = Root-top under_a in
    let low = parents-lt par a m top in
    let (par1, got1, keeps1) = get_comp-Keeps (length par) par (parents par) x a under_a low in
    let (par2, got2, keeps2) =
      get_comp-Keeps (length par) par1 (parents par) y b (keeps1.roots (parents par) y b under_b)
        low in
    let keeps = Keeps-trans keeps1 keeps2 in
    let (size_a, was_a) = Root-top under_a in
    let (size_b, was_b) = Root-top under_b in
    let top_a = keeps.sizes a size_a was_a in
    let top_b = keeps.sizes b size_b was_b in
    elim (ℕ_discrete a b) [
      | yes e ↦ (
        par2,
        rw (got1, got2, test_eq a b e) refl,
        record {
          wide = keeps.long ∙ forest.wide;
          rooted = λ z h.
              let (r, root) = forest.rooted z h in
              (
                r,
                subst (λ k. Root par2 k z r) (sym keeps.count) (keeps.roots (parents par) z r root),
              );
        },
        a,
        inl refl,
        λ z r root.
            subst (Root par2 (parents par2) z) (sym (same_root a b e r))
              (subst (λ k. Root par2 k z r) (sym keeps.count) (keeps.roots (parents par) z r root)),
      )
      | no ne ↦ elim (Bool-cases (ltb (size_of par2 a) (size_of par2 b))) [
        | inl less ↦
            let (forest', lead) =
              joined-IsForest par2 b a size_b size_a (size_of par2 b + size_of par2 a) top_b top_a
                (λ e. ne (sym e)) par n keeps forest in
            (
              joined par2 b a size_b size_a (size_of par2 b + size_of par2 a) top_b top_a
                  (λ e. ne (sym e)),
              rw (got1, got2, test_ne a b ne, less) refl,
              forest',
              b,
              inr refl,
              λ z r root. subst (Root _ _ z) (right a b r) (lead z r root),
            )
        | inr more ↦
            let (forest', lead) =
              joined-IsForest par2 a b size_a size_b (size_of par2 a + size_of par2 b) top_a top_b
                ne par n keeps forest in
            (
              joined par2 a b size_a size_b (size_of par2 a + size_of par2 b) top_a top_b ne,
              rw (got1, got2, test_ne a b ne, more) refl,
              forest',
              a,
              inl refl,
              λ z r root. subst (Root _ _ z) (left a b r) (lead z r root),
            )
      ]
    ]
  where
    same_root : (a b : ℕ) → a ≡ b → (r : ℕ) → (if (r == a) || (r == b) then a else r) ≡ r
    same_root a b e r = ground arith

    right : (a b r : ℕ) → moved b a r ≡ (if (r == a) || (r == b) then b else r)
    right a b r = ground arith

    left : (a b r : ℕ) → moved a b r ≡ (if (r == a) || (r == b) then a else r)
    left a b r = ground arith
