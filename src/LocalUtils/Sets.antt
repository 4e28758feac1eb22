-- ===== src/LocalUtils/Sets.antt =====
-- The disjoint sets: which root a number has, and that get_comp and unite agree with it.
use mara_ton_contest_solutio.Common.{
  ℕ, zero, suc, ◌≤◌, ◌<◌, ◌≡◌, ◌≢◌, refl, sym, ap, ◌∙◌, some, List, [], ◌∷◌, length, length-set,
  get_elem?, set, subst, arith,
}
use mara_ton_contest_solutio.LocalUtils.{Entry, parent, size, get_comp}
use native.Mathlib.Decide.{ℕ_discrete}

-- r is the root of x, at most k parents up.
pub data Root (par : List Entry) : ℕ → ℕ → ℕ → Type 0 where
  here : {k x n : ℕ} → get_elem? par x ≡ some (size n) → Root par k x x
  up : {k x y r : ℕ} → get_elem? par x ≡ some (parent y) → Root par k y r → Root par (suc k) x r

-- The numbers that are no roots.
abbrev pub parents : List Entry → ℕ
parents [] = 0
parents (size n ∷ par) = parents par
parents (parent y ∷ par) = suc (parents par)

-- Every number below n has a root, no further up than there are numbers that are no roots.
pub record IsForest (n : ℕ) (par : List Entry) : Type 0 where
  pub wide : length par ≡ n
  pub rooted : (x : ℕ) → x < n → (r : ℕ) × Root par (parents par) x r

pub get_elem?-set_self {ℓ} :
    {A : Type ℓ} (l : List A) (i : ℕ) (v : A) {w : A}
    → get_elem? l i ≡ some w
    → get_elem? (set l i v) i ≡ some v
get_elem?-set_self [] i v h = cc
get_elem?-set_self (x ∷ l) zero v h = refl
get_elem?-set_self (x ∷ l) (suc i) v h = get_elem?-set_self l i v h

pub get_elem?-set_ne {ℓ} :
    {A : Type ℓ} (l : List A) (i j : ℕ) (v : A) → i ≢ j → get_elem? (set l i v) j ≡ get_elem? l j
get_elem?-set_ne [] i j v h = refl
get_elem?-set_ne (x ∷ l) zero zero v h = absurd (h refl)
get_elem?-set_ne (x ∷ l) zero (suc j) v h = refl
get_elem?-set_ne (x ∷ l) (suc i) zero v h = refl
get_elem?-set_ne (x ∷ l) (suc i) (suc j) v h = get_elem?-set_ne l i j v (λ e. h (ap suc e))

parents_compressed :
    (par : List Entry) (i y z : ℕ)
    → get_elem? par i ≡ some (parent y)
    → parents (set par i (parent z)) ≡ parents par
parents_compressed [] i y z h = cc
parents_compressed (size n ∷ par) zero y z h = absurd (cc)
parents_compressed (parent x ∷ par) zero y z h = refl
parents_compressed (size n ∷ par) (suc i) y z h = parents_compressed par i y z h
parents_compressed (parent x ∷ par) (suc i) y z h = ap suc (parents_compressed par i y z h)

pub parents_below :
    (par : List Entry) (i n z : ℕ)
    → get_elem? par i ≡ some (size n)
    → parents (set par i (parent z)) ≡ suc (parents par)
parents_below [] i n z h = cc
parents_below (size m ∷ par) zero n z h = refl
parents_below (parent x ∷ par) zero n z h = absurd (cc)
parents_below (size m ∷ par) (suc i) n z h = parents_below par i n z h
parents_below (parent x ∷ par) (suc i) n z h = ap suc (parents_below par i n z h)

pub parents_grown :
    (par : List Entry) (i n m : ℕ)
    → get_elem? par i ≡ some (size n)
    → parents (set par i (size m)) ≡ parents par
parents_grown [] i n m h = cc
parents_grown (size x ∷ par) zero n m h = refl
parents_grown (parent x ∷ par) zero n m h = absurd (cc)
parents_grown (size x ∷ par) (suc i) n m h = parents_grown par i n m h
parents_grown (parent x ∷ par) (suc i) n m h = ap suc (parents_grown par i n m h)

pub Root-top :
    {par : List Entry} {k x r : ℕ} → Root par k x r → (n : ℕ) × (get_elem? par r ≡ some (size n))
Root-top (here {n = n} h) = (n, h)
Root-top (up h root) = Root-top root

pub Root-unique : {par : List Entry} {k j x r q : ℕ} → Root par k x r → Root par j x q → r ≡ q
Root-unique (here h) (here h') = refl
Root-unique (here h) (up h' root) = absurd (cc)
Root-unique (up h root) (here h') = absurd (cc)
Root-unique {par = par} {q = q} (up {y = y} h root) (up {k = m} {y = z} h' root') =
    let same : y ≡ z = cc in Root-unique root (subst (λ v. Root par m v q) (sym same) root')

Root-weaken : {par : List Entry} {k j x r : ℕ} → k ≤ j → Root par k x r → Root par j x r
Root-weaken h (here e) = here e
Root-weaken {j = zero} h (up e root) = absurd (omega arith)
Root-weaken {j = suc j} h (up e root) = up e (Root-weaken (omega arith) root)

-- The roots of all numbers stay, and so do the sizes that are kept there.
pub record Keeps (par par' : List Entry) : Type 0 where
  pub roots : (k z r : ℕ) → Root par k z r → Root par' k z r
  pub count : parents par' ≡ parents par
  pub long : length par' ≡ length par
  pub sizes : (r n : ℕ) → get_elem? par r ≡ some (size n) → get_elem? par' r ≡ some (size n)
  pub inner :
      (x y : ℕ) → get_elem? par x ≡ some (parent y) → (z : ℕ) × (get_elem? par' x ≡ some (parent z))

pub Keeps-trans : {p q r : List Entry} → Keeps p q → Keeps q r → Keeps p r
Keeps-trans g h = record {
  roots = λ k z r root. h.roots k z r (g.roots k z r root);
  count = h.count ∙ g.count;
  long = h.long ∙ g.long;
  sizes = λ r n e. h.sizes r n (g.sizes r n e);
  inner = λ x y e. let (z, e') = g.inner x y e in h.inner x z e';
}

module _ (par : List Entry) (x y r k : ℕ) (own : get_elem? par x ≡ some (parent y))
    (root : Root par k x r) where
  apart : (z n : ℕ) → get_elem? par z ≡ some (size n) → x ≢ z
  apart z n h same =
      let h' : get_elem? par x ≡ some (size n) =
        subst (λ v. get_elem? par v ≡ some (size n)) (sym same) h in
      absurd (cc)

  compress-Root : (j z q : ℕ) → Root par j z q → Root (set par x (parent r)) j z q
  compress-Root j z q (here {n = n} h) =
      here (get_elem?-set_ne par x z (parent r) (apart z n h) ∙ h)
  compress-Root j z q (up {k = m} {y = w} h rest) = elim (ℕ_discrete x z) [
    | yes e ↦
        let same : r ≡ q =
          Root-unique root (subst (λ v. Root par (suc m) v q) (sym e) (up h rest)) in
        let (n, top) = Root-top root in
        subst (λ v. Root (set par x (parent r)) (suc m) v q) e
          (up (get_elem?-set_self par x (parent r) own) (
            subst (Root (set par x (parent r)) m r) same
              (here (get_elem?-set_ne par x r (parent r) (apart r n top) ∙ top))))
    | no ne ↦ up (get_elem?-set_ne par x z (parent r) ne ∙ h) (compress-Root m w q rest)
  ]

  compress-Keeps : Keeps par (set par x (parent r))
  compress-Keeps = record {
    roots = compress-Root;
    count = parents_compressed par x y r own;
    long = length-set par x (parent r);
    sizes = λ z n h. get_elem?-set_ne par x z (parent r) (apart z n h) ∙ h;
    inner = λ z w h. elim (ℕ_discrete x z) [
      | yes e ↦ (
        r,
        subst (λ v. get_elem? (set par x (parent r)) v ≡ some (parent r)) e
            (get_elem?-set_self par x (parent r) own),
      )
      | no ne ↦ (w, get_elem?-set_ne par x z (parent r) ne ∙ h)
    ];
  }

-- get_comp finds the root, and shortening the way to it changes no root.
pub get_comp-Keeps :
    (fuel : ℕ) (par : List Entry) (k x r : ℕ)
    → Root par k x r
    → k < fuel
    → (par' : List Entry) × (get_comp fuel par x ≡ some (r, par')) × Keeps par par'
unfolding get_comp
get_comp-Keeps zero par k x r root h = absurd (omega arith)
get_comp-Keeps (suc fuel) par k x r (here top) h = (
  par,
  rw top refl,
  record {
    roots = λ j z q root. root;
    count = refl;
    long = refl;
    sizes = λ z n e. e;
    inner = λ z y e. (y, e);
  },
)
get_comp-Keeps (suc fuel) par k x r (up {k = j} {y = y} above root) h =
    let (par1, got, keeps) = get_comp-Keeps fuel par j y r root (omega arith) in
    let (z, above') = keeps.inner x y above in
    (
      set par1 x (parent r),
      rw (above, got) refl,
      Keeps-trans keeps
          (compress-Keeps par1 x z r (suc j) above' (keeps.roots (suc j) x r (up above root))),
    )

pub parents-lt :
    (par : List Entry) (r n : ℕ) → get_elem? par r ≡ some (size n) → parents par < length par
parents-lt [] r n h = absurd (cc)
parents-lt (size m ∷ par) zero n h = omega (arith, parents_le par)
  where
    parents_le : (l : List Entry) → parents l ≤ length l
    parents_le [] = omega arith
    parents_le (size m ∷ l) = omega (arith, parents_le l)
    parents_le (parent y ∷ l) = omega (arith, parents_le l)
parents-lt (parent y ∷ par) zero n h = absurd (cc)
parents-lt (size m ∷ par) (suc r) n h = omega (arith, parents-lt par r n h)
parents-lt (parent y ∷ par) (suc r) n h = omega (arith, parents-lt par r n h)
