-- ===== src/Serializator/Numbers/RoundTrip.antt =====
-- A dumped number is read back.
use mara_ton_contest_solutio.Common.{
  ℕ, zero, suc, ◌+◌, ◌-◌, ◌*◌, ◌/◌, ◌%◌, ◌^◌, ◌≤◌, ◌<◌, min, ◌≡◌, refl, sym, ap, ◌∙◌, some, List,
  [], ◌++◌, append-nil, lt→ltb, le→ltb, u32, length, length-append, subst, arith,
}
use mara_ton_contest_solutio.Bits.{uint_bits, BitOps, BitLaws, BitPtr, write}
use mara_ton_contest_solutio.Bits.Stream.{
  Fits, Appends, Appends-trans, Ahead, Ahead-front, Ahead-advance, Ahead-seek, advance-seek,
  advance, advance-advance, seek, write-Appends, read-Ahead, length-uint_bits,
}
use mara_ton_contest_solutio.Serializator.Numbers.{
  mx, dump_loop, dump_num, read_loop, read_dumped_num,
}
use native.Mathlib.Nat.{pow-le-pow_right, div-add-mod}

le-mul : (b a : ℕ) → 0 < a → b ≤ b * a
le-mul b zero h = absurd (omega arith)
le-mul b (suc a) h = omega arith

-- The groups of k * mx + r, for r below mx.
abbrev groups : (blen k r : ℕ) → List ℕ
groups blen zero r = uint_bits blen r
groups blen (suc k) r = uint_bits blen (mx blen) ++ groups blen k r

length-groups : (blen k r : ℕ) → length (groups blen k r) ≡ blen * (k + 1)
length-groups blen zero r = length-uint_bits blen r ∙ omega arith
length-groups blen (suc k) r =
    length-append (uint_bits blen (mx blen)) (groups blen k r)
    ∙ omega (arith, length-uint_bits blen (mx blen), length-groups blen k r)

-- The bits of a dumped number.
abbrev pub num_bits : (blen num : ℕ) → List ℕ
num_bits blen num = groups blen (num / mx blen) (num % mx blen)

length-num_bits : (blen num : ℕ) → length (num_bits blen num) ≡ blen * (num / mx blen + 1)
length-num_bits blen num = length-groups blen (num / mx blen) (num % mx blen)

module _ (ops : BitOps) (laws : BitLaws ops) (blen : ℕ) (pos : 0 < blen) (narrow : blen < 32) where
  two-le : 2 ≤ 2 ^ blen
  two-le = omega (arith, pow-le-pow_right {n = 2} (omega arith) {i = 1} {j = blen} (omega arith))

  dump_loop-Appends :
      (k r fuel : ℕ) (p : BitPtr)
      → r < mx blen
      → k < fuel
      → Fits p (blen * (k + 1))
      → (q : BitPtr) × (dump_loop ops fuel p (k * mx blen + r) blen ≡ some q)
        × Appends p (groups blen k r) q
  unfolding dump_loop
  dump_loop-Appends k r zero p hr hf room = absurd (omega arith)
  dump_loop-Appends zero r (suc fuel) p hr hf room =
      let cur : min (0 * mx blen + r) (mx blen) ≡ r = omega arith in
      (
        write ops p r blen,
        rw (cur, lt→ltb r (mx blen) hr) refl,
        write-Appends ops laws p r blen (omega arith) (omega arith),
      )
  dump_loop-Appends (suc k) r (suc fuel) p hr hf room =
      let cur : min (suc k * mx blen + r) (mx blen) ≡ mx blen = omega arith in
      let left : suc k * mx blen + r - mx blen ≡ k * mx blen + r = omega arith in
      let first = write-Appends ops laws p (mx blen) blen (omega arith) (omega arith) in
      let (q, e, rest) =
        dump_loop-Appends k r fuel (write ops p (mx blen) blen) hr (omega arith)
          (omega (arith, first.moved, first.size, length-uint_bits blen (mx blen))) in
      (q, rw (cur, le→ltb (mx blen) (mx blen) (omega arith), left) e, Appends-trans first rest)

  read_loop-Ahead :
      (k r fuel num : ℕ) (p : BitPtr)
      → r < mx blen
      → k < fuel
      → num + (k * mx blen + r) < 2 ^ 32
      → Ahead p (groups blen k r)
      → read_loop ops fuel p num blen ≡ some (num + (k * mx blen + r), advance p (blen * (k + 1)))
  unfolding read_loop
  read_loop-Ahead k r zero num p hr hf small a = absurd (omega arith)
  read_loop-Ahead zero r (suc fuel) num p hr hf small a =
      let got =
        read-Ahead ops laws p r blen [] (omega arith) (omega (arith, two-le))
          (rw (append-nil (uint_bits blen r)) a) in
      rw (got, lt→ltb r (mx blen) hr)
        (ap (λ (x : ℕ). some (x, advance p blen)) {x = u32 (num + r)} {y = num + (0 * mx blen + r)}
            (omega arith)
          ∙ ap (λ (n : ℕ). some (num + (0 * mx blen + r), advance p n)) (omega arith))
  read_loop-Ahead (suc k) r (suc fuel) num p hr hf small a =
      let got =
        read-Ahead ops laws p (mx blen) blen (groups blen k r) (omega arith) (omega (arith, two-le))
          a in
      let rest = Ahead-advance p (uint_bits blen (mx blen)) (groups blen k r) a in
      let sum : u32 (num + mx blen) ≡ num + mx blen = omega arith in
      let ih =
        read_loop-Ahead k r fuel (num + mx blen) (advance p blen) hr (omega arith) (omega arith) (
          subst (λ n. Ahead (advance p n) (groups blen k r)) (length-uint_bits blen (mx blen))
            rest) in
      rw (got, le→ltb (mx blen) (mx blen) (omega arith), sum)
        (ih
          ∙ ap (λ (x : ℕ). some (x, advance (advance p blen) (blen * (k + 1)))) (omega arith)
          ∙ ap (λ (q : BitPtr). some (num + (suc k * mx blen + r), q))
              (advance-advance p blen (blen * (k + 1)) ∙ ap (advance p) (omega arith)))

  whole : (num : ℕ) → num / mx blen * mx blen + num % mx blen ≡ num
  whole num = omega (arith, div-add-mod num (mx blen))

  pub dump_num-Appends :
      (p : BitPtr) (num : ℕ)
      → Fits p (length (num_bits blen num))
      → (q : BitPtr) × (dump_num ops p num blen ≡ some q) × Appends p (num_bits blen num) q
  unfolding dump_num
  dump_num-Appends p num room =
      let k : ℕ = num / mx blen in
      let r : ℕ = num % mx blen in
      let few : k ≤ num = omega (arith, le-mul k (mx blen) (omega (arith, two-le)), whole num) in
      let (q, e, a) =
        dump_loop-Appends k r (num + 1) p (omega (arith, two-le)) (omega arith)
          (omega (arith, length-num_bits blen num)) in
      (q, ap (λ (n : ℕ). dump_loop ops (num + 1) p n blen) (sym (whole num)) ∙ e, a)

  pub read_dumped_num-Ahead :
      (p : BitPtr) (num : ℕ) (rest : List ℕ)
      → num < 2 ^ 32
      → Ahead p (num_bits blen num ++ rest)
      → read_dumped_num ops p blen ≡ some (num, advance p (length (num_bits blen num)))
  unfolding read_dumped_num
  read_dumped_num-Ahead p num rest small a =
      let k : ℕ = num / mx blen in
      let r : ℕ = num % mx blen in
      let size = length-num_bits blen num in
      let front = Ahead-front p (num_bits blen num) rest a in
      read_loop-Ahead k r (8 * length p.ptr + 1) 0 p (omega (arith, two-le))
        (omega (arith, front.within, size, le-mul (k + 1) blen pos)) (omega (arith, whole num))
        front
      ∙ ap (λ (n : ℕ). some (n, advance p (blen * (k + 1)))) {y = num} (omega (arith, whole num))
      ∙ ap (λ (n : ℕ). some (num, advance p n)) (sym size)

  -- For a group width from 1 to 31 and a 32-bit number: where its num / (2 ^ blen - 1) + 1 groups
  -- fit, dump_num ends and writes just these, and read_dumped_num returns the number from there
  -- and stops behind them.
  pub read_dumped_num-dump_num :
      (p : BitPtr) (num : ℕ)
      → num < 2 ^ 32
      → Fits p (blen * (num / mx blen + 1))
      → (q : BitPtr) × (dump_num ops p num blen ≡ some q)
        × (q.offs ≡ p.offs + blen * (num / mx blen + 1))
        × (read_dumped_num ops (seek q p.offs) blen ≡ some (num, q))
  read_dumped_num-dump_num p num small room =
      let size = length-num_bits blen num in
      let (q, e, a) = dump_num-Appends p num (omega arith) in
      let ahead = Ahead-seek p q (num_bits blen num) (omega (arith, size)) a in
      (
        q,
        e,
        omega (arith, a.moved, size),
        read_dumped_num-Ahead (seek q p.offs) num [] small
              (subst (Ahead (seek q p.offs)) (sym (append-nil (num_bits blen num))) ahead)
            ∙ ap (λ (q' : BitPtr). some (num, q')) (advance-seek p q (num_bits blen num) a),
      )
