-- ===== src/Bits/Stream.antt =====
-- A pointer that only moves forward is a stream of bits: what lies behind it has been written, and
-- what lies ahead is still to be read.
use mara_ton_contest_solutio.Common.{
  ℕ, zero, suc, ◌+◌, ◌*◌, ◌/◌, ◌%◌, ◌^◌, ◌≤◌, ◌<◌, ◌≡◌, refl, sym, ap, ◌∙◌, inl, inr, List, [], ◌∷◌,
  ◌++◌, length, length-append, append_assoc, append-nil, All, arith,
}
use mara_ton_contest_solutio.Bits.{
  bit_at, bits_at, uint_bits, of_bits, IsBit, IsByte, BitOps, BitLaws, BitPtr, write, read,
}
use native.Mathlib.Nat.{pow-suc}

pub length-bits_at : (m : List ℕ) (o n : ℕ) → length (bits_at m o n) ≡ n
length-bits_at m o zero = refl
length-bits_at m o (suc n) = ap suc (length-bits_at m (o + 1) n)

pub length-uint_bits : (n v : ℕ) → length (uint_bits n v) ≡ n
length-uint_bits zero v = refl
length-uint_bits (suc n) v =
    length-append (uint_bits n (v / 2)) (v % 2 ∷ []) ∙ omega (arith, length-uint_bits n (v / 2))

pub bits_at-add :
    (m : List ℕ) (o a b : ℕ) → bits_at m o (a + b) ≡ bits_at m o a ++ bits_at m (o + a) b
bits_at-add m o zero b =
    ap (λ (k : ℕ). bits_at m o k) (omega arith) ∙ ap (λ (k : ℕ). bits_at m k b) (omega arith)
bits_at-add m o (suc a) b =
    ap (λ (k : ℕ). bits_at m o k) {y = suc (a + b)} (omega arith)
    ∙ ap (λ (l : List ℕ). bit_at m o ∷ l)
        (bits_at-add m (o + 1) a b
          ∙ ap (λ (k : ℕ). bits_at m (o + 1) a ++ bits_at m k b) (omega arith))

-- Strings that agree bit by bit agree on a range.
pub bits_at-ext :
    (m m' : List ℕ) (o n : ℕ)
    → ((j : ℕ) → o ≤ j → j < o + n → bit_at m j ≡ bit_at m' j)
    → bits_at m o n ≡ bits_at m' o n
bits_at-ext m m' o zero h = refl
bits_at-ext m m' o (suc n) h = rw (h o (omega arith) (omega arith)) (
    ap (λ (l : List ℕ). bit_at m' o ∷ l)
      (bits_at-ext m m' (o + 1) n (λ j p q. h j (omega arith) (omega arith))))

pub of_bits-append :
    (acc : ℕ) (xs ys : List ℕ) → of_bits acc (xs ++ ys) ≡ of_bits (of_bits acc xs) ys
of_bits-append acc [] ys = refl
of_bits-append acc (x ∷ xs) ys = of_bits-append (acc * 2 + x) xs ys

pub of_bits-uint_bits : (n v : ℕ) → v < 2 ^ n → of_bits 0 (uint_bits n v) ≡ v
of_bits-uint_bits zero v h = omega arith
of_bits-uint_bits (suc n) v h =
    of_bits-append 0 (uint_bits n (v / 2)) (v % 2 ∷ [])
    ∙ omega (arith, of_bits-uint_bits n (v / 2) (omega (arith, pow-suc 2 n)))

-- All that a pointer has passed.
abbrev pub written : BitPtr → List ℕ
written p = bits_at p.ptr 0 p.offs

-- There is room for n more bits.
abbrev pub Fits : BitPtr → ℕ → Type 0
Fits p n = p.offs + n ≤ 8 * length p.ptr

-- `p'` is `p` after the given bits were written to it.
pub record Appends (p : BitPtr) (bits : List ℕ) (p' : BitPtr) : Type 0 where
  pub content : written p' ≡ written p ++ bits
  pub size : length p'.ptr ≡ length p.ptr
  pub moved : p'.offs ≡ p.offs + length bits
  pub kept : (j : ℕ) → p'.offs ≤ j → bit_at p'.ptr j ≡ bit_at p.ptr j
  pub bytes : All IsByte p.ptr → All IsByte p'.ptr

-- The given bits lie ahead of `p`.
pub record Ahead (p : BitPtr) (bits : List ℕ) : Type 0 where
  pub content : bits_at p.ptr p.offs (length bits) ≡ bits
  pub within : p.offs + length bits ≤ 8 * length p.ptr

unfoldable pub advance : BitPtr → ℕ → BitPtr
advance p n = record p { offs = p.offs + n }

-- p.offs = o;
unfoldable pub seek : BitPtr → ℕ → BitPtr
seek p o = record p { offs = o }

pub Appends-none : (p : BitPtr) → Appends p [] p
Appends-none p = record {
  content = sym (append-nil (written p));
  size = refl;
  moved = omega arith;
  kept = λ j _. refl;
  bytes = λ b. b;
}

pub Appends-trans :
    {p q r : BitPtr} {xs ys : List ℕ} → Appends p xs q → Appends q ys r → Appends p (xs ++ ys) r
Appends-trans {p} {q} {r} {xs} {ys} a b = record {
  content = b.content ∙ ap (λ (l : List ℕ). l ++ ys) a.content ∙ append_assoc (written p) xs ys;
  size = b.size ∙ a.size;
  moved = omega (arith, a.moved, b.moved, length-append xs ys);
  kept = λ j h. b.kept j h ∙ a.kept j (omega (arith, b.moved));
  bytes = λ h. b.bytes (a.bytes h);
}

pub bits_at-split :
    (m : List ℕ) (o : ℕ) (xs ys : List ℕ)
    → bits_at m o (length (xs ++ ys)) ≡ xs ++ ys
    → (bits_at m o (length xs) ≡ xs) × (bits_at m (o + length xs) (length ys) ≡ ys)
bits_at-split m o [] ys h =
    (refl, ap (λ (k : ℕ). bits_at m k (length ys)) {y = o} (omega arith) ∙ h)
bits_at-split m o (x ∷ xs) ys h =
    let (e, t) = cons_injective h in
    let (front, back) = bits_at-split m (o + 1) xs ys t in
    (
      rw (e, front) refl,
      ap (λ (k : ℕ). bits_at m k (length ys)) {y = o + 1 + length xs} (omega arith) ∙ back,
    )
  where
    cons_injective : {a b : ℕ} {l r : List ℕ} → a ∷ l ≡ b ∷ r → (a ≡ b) × (l ≡ r)
    cons_injective p = (cc, cc)

-- What was appended is what a reader finds from there on.
pub Ahead-seek :
    (p q : BitPtr) (bits : List ℕ)
    → Fits p (length bits)
    → Appends p bits q
    → Ahead (seek q p.offs) bits
unfolding seek
Ahead-seek p q bits fits a =
    let before : List ℕ = written p in
    let size : length before ≡ p.offs = length-bits_at p.ptr 0 p.offs in
    let total : length (before ++ bits) ≡ q.offs =
      omega (arith, length-append before bits, a.moved) in
    record {
      content =
          ap (λ (o : ℕ). bits_at q.ptr o (length bits)) {x = p.offs} {y = 0 + length before}
            (omega arith)
          ∙ (bits_at-split q.ptr 0 before bits (ap (bits_at q.ptr 0) total ∙ a.content)).1;
      within = omega (arith, a.size);
    }

pub advance-seek :
    (p q : BitPtr) (bits : List ℕ) → Appends p bits q → advance (seek q p.offs) (length bits) ≡ q
unfolding advance seek
advance-seek p q bits a = ap (λ (o : ℕ). record q { offs = o }) (sym a.moved)

pub Ahead-advance :
    (p : BitPtr) (xs ys : List ℕ) → Ahead p (xs ++ ys) → Ahead (advance p (length xs)) ys
unfolding advance
Ahead-advance p xs ys a = record {
  content = (bits_at-split p.ptr p.offs xs ys a.content).1;
  within = omega (arith, a.within, length-append xs ys);
}

pub Ahead-front : (p : BitPtr) (xs ys : List ℕ) → Ahead p (xs ++ ys) → Ahead p xs
Ahead-front p xs ys a = record {
  content = (bits_at-split p.ptr p.offs xs ys a.content).0;
  within = omega (arith, a.within, length-append xs ys);
}

pub advance-advance : (p : BitPtr) (a b : ℕ) → advance (advance p a) b ≡ advance p (a + b)
unfolding advance
advance-advance p a b = ap (λ (o : ℕ). record p { offs = o }) (omega arith)

pub advance_zero : (p : BitPtr) → advance p 0 ≡ p
unfolding advance
advance_zero p = ap (λ (o : ℕ). record p { offs = o }) (omega arith)

module _ (ops : BitOps) (laws : BitLaws ops) where
  -- A write appends the low bits of the value.
  pub write-Appends :
      (p : BitPtr) (v n : ℕ) → n ≤ 64 → Fits p n → Appends p (uint_bits n v) (write ops p v n)
  unfolding write
  write-Appends p v n h fits = record {
    content =
        bits_at-add (ops.store_uint p.ptr p.offs v n) 0 p.offs n
        ∙ ap (λ (l : List ℕ). l ++ bits_at (ops.store_uint p.ptr p.offs v n) (0 + p.offs) n)
            (bits_at-ext (ops.store_uint p.ptr p.offs v n) p.ptr 0 p.offs
              (λ j _ below. laws.store_other p.ptr p.offs v n j h fits (inl (omega arith))))
        ∙ ap (λ (l : List ℕ). written p ++ l)
            (ap (λ (o : ℕ). bits_at (ops.store_uint p.ptr p.offs v n) o n) {y = p.offs}
                (omega arith)
              ∙ laws.store_same p.ptr p.offs v n h fits);
    size = laws.store_length p.ptr p.offs v n h fits;
    moved = omega (arith, length-uint_bits n v);
    kept = λ j above. laws.store_other p.ptr p.offs v n j h fits (inr above);
    bytes = λ b. laws.store_bytes p.ptr p.offs v n h fits b;
  }

  -- A read of n bits returns the number that lies ahead, and passes it.
  pub read-Ahead :
      (p : BitPtr) (v n : ℕ) (rest : List ℕ)
      → n ≤ 64
      → v < 2 ^ n
      → Ahead p (uint_bits n v ++ rest)
      → read ops p n ≡ (v, advance p n)
  unfolding read advance
  read-Ahead p v n rest h small a =
      let front = Ahead-front p (uint_bits n v) rest a in
      let content : bits_at p.ptr p.offs n ≡ uint_bits n v =
        ap (bits_at p.ptr p.offs) (sym (length-uint_bits n v)) ∙ front.content in
      ap (λ (x : ℕ). (x, record p { offs = p.offs + n }))
        (laws.get_law p.ptr p.offs n h (omega (arith, front.within, length-uint_bits n v))
          ∙ ap (of_bits 0) content
          ∙ of_bits-uint_bits n v small)

-- A string of bits is written back by the number that it stands for.
uint_bits-of_bits_from :
    (n acc : ℕ) (bits : List ℕ)
    → All IsBit bits
    → uint_bits (n + length bits) (of_bits acc bits) ≡ uint_bits n acc ++ bits
uint_bits-of_bits_from n acc [] h =
    ap (λ (k : ℕ). uint_bits k acc) {x = n + 0} {y = n} (omega arith)
    ∙ sym (append-nil (uint_bits n acc))
uint_bits-of_bits_from n acc (b ∷ bits) (hb, h) =
    ap (λ (k : ℕ). uint_bits k (of_bits (acc * 2 + b) bits)) {x = n + suc (length bits)}
      {y = suc n + length bits} (omega arith)
    ∙ uint_bits-of_bits_from (suc n) (acc * 2 + b) bits h
    ∙ rw (halved, last) (append_assoc (uint_bits n acc) (b ∷ []) bits)
  where
    halved : (acc * 2 + b) / 2 ≡ acc
    halved = omega arith

    last : (acc * 2 + b) % 2 ≡ b
    last = omega arith

pub uint_bits-of_bits :
    (bits : List ℕ) → All IsBit bits → uint_bits (length bits) (of_bits 0 bits) ≡ bits
uint_bits-of_bits bits h =
    ap (λ (k : ℕ). uint_bits k (of_bits 0 bits)) {x = length bits} {y = 0 + length bits}
      (omega arith)
    ∙ uint_bits-of_bits_from 0 0 bits h

pub bits_at-IsBit : (m : List ℕ) (o n : ℕ) → All IsBit (bits_at m o n)
bits_at-IsBit m o zero = tt
bits_at-IsBit m o (suc n) = (bit_at-lt m o, bits_at-IsBit m (o + 1) n)
  where
    bit_at-lt : (m : List ℕ) (i : ℕ) → bit_at m i < 2
    bit_at-lt m i = unfold bit_at in omega arith
