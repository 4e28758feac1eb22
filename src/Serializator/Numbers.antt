-- ===== src/Serializator/Numbers.antt =====
-- dump_num of run_lz and read_dumped_num: a number in groups of `blen` bits, of which all but the
-- last are all ones.
pub mod RoundTrip
use mara_ton_contest_solutio.Common.{
  ℕ, zero, suc, ◌+◌, ◌-◌, ◌*◌, ◌^◌, min, Option, none, some, ltb, if◌then◌else◌, u32, length, ◌>>=◌,
}
use mara_ton_contest_solutio.Bits.{BitOps, BitPtr, write, read}

-- (1u << blen) - 1, for a width below 32 alone: the shift is undefined from there on. The program
-- has 9, 8 and 4.
abbrev pub mx : ℕ → ℕ
mx blen = 2 ^ blen - 1

module _ (ops : BitOps) where
  -- while (true): `none` where the rounds do not suffice.
  unfoldable pub dump_loop : ℕ → BitPtr → (num blen : ℕ) → Option BitPtr
  dump_loop zero p num blen = none
  dump_loop (suc fuel) p num blen =
      let cur = min num (mx blen) in
      let q = write ops p cur blen in
      let rest = dump_loop fuel q (num - cur) blen in if ltb cur (mx blen) then some q else rest

  -- A round takes 1 at least off a number that is not yet 0.
  unfoldable pub dump_num : BitPtr → (num blen : ℕ) → Option BitPtr
  dump_num p num blen = dump_loop (num + 1) p num blen

  unfoldable pub read_loop : ℕ → BitPtr → (num blen : ℕ) → Option (ℕ × BitPtr)
  read_loop zero p num blen = none
  read_loop (suc fuel) p num blen =
      let (cur, q) = read ops p blen in
      let sum = u32 (num + cur) in
      let rest = read_loop fuel q sum blen in if ltb cur (mx blen) then some (sum, q) else rest

  -- A round reads one bit at least, so no more rounds than bits are ever made in range.
  unfoldable pub read_dumped_num : BitPtr → ℕ → Option (ℕ × BitPtr)
  read_dumped_num p blen = read_loop (8 * length p.ptr + 1) p 0 blen
