-- ===== src/Rans.antt =====
-- rANS.hpp: frequencies scaled to a total of 2^12, and the coder's state.
-- CHECK aborts, which is `none`; so does a division by zero.
pub mod Examples
pub mod Normalize
pub mod State
pub mod Search
use mara_ton_contest_solutio.Common.{
  ℕ, zero, suc, ◌+◌, ◌-◌, ◌*◌, ◌/◌, ◌%◌, ◌^◌, Bool, true, false, not, Option, none, some, List, [],
  ◌∷◌, ltb, leb, ◌==◌, if◌then◌else◌, ◌>>=◌, ◌>>◌, check, length, get_or, u32, map,
}
use mara_ton_contest_solutio.Bits.{BitOps, BitPtr, write, read}

-- 1u << 12
abbrev pub total_freq : ℕ
total_freq = 4096

-- 1 << (64 - 16)
abbrev pub bound_x : ℕ
bound_x = 281474976710656

abbrev pub u64 : ℕ → ℕ
u64 n = n % 2 ^ 64

-- std::accumulate
unfoldable pub sum : List ℕ → ℕ
sum [] = 0
sum (f ∷ fs) = f + sum fs

abbrev pub at_least_one : ℕ → ℕ
at_least_one f = if f == 0 then 1 else f

abbrev pub scale : ℕ → ℕ → ℕ
scale total f = u32 (f * total_freq / total)

-- One pass of the inner loop: 1 more for each frequency while the total is too small.
unfoldable pub raise : List ℕ → (total : ℕ) → List ℕ × ℕ
raise [] total = ([], total)
raise (f ∷ fs) total =
    let (up, up_total) = raise fs (if ltb total total_freq then total + 1 else total) in
    ((if ltb total total_freq then f + 1 else f) ∷ up, up_total)

-- while (total_freq_new < TOTAL_FREQ): a pass over a non-empty table adds 1 at least.
unfoldable pub raise_loop : ℕ → List ℕ → (total : ℕ) → Option (List ℕ)
raise_loop zero freq total = if ltb total total_freq then none else some freq
raise_loop (suc fuel) freq total =
    let (up, up_total) = raise freq total in
    let rest = raise_loop fuel up up_total in if ltb total total_freq then rest else some freq

unfoldable pub normalize_freq : List ℕ → Option (List ℕ)
normalize_freq freq =
    let ones = map at_least_one freq in
    let total = u32 (sum ones) in
    let scaled = map (scale total) ones in
    check (not (total == 0))
    >> check (leb (u32 (sum scaled)) total_freq)
    >> raise_loop total_freq scaled (u32 (sum scaled))

-- cum_freq from the sum so far on.
unfoldable pub cum_from : ℕ → List ℕ → List ℕ
cum_from acc [] = acc ∷ []
cum_from acc (f ∷ fs) = acc ∷ cum_from (acc + f) fs

unfoldable pub get_cum_freq : List ℕ → List ℕ
get_cum_freq freq = cum_from 0 freq

-- ArithEncoder, and ArithDecoder with `symbols` for symbols_decoded.
pub record Arith : Type 0 where
  pub freq : List ℕ
  pub cum_freq : List ℕ
  pub seq_len : ℕ
  pub symbols : ℕ
  pub x : ℕ

unfoldable pub new_encoder : List ℕ → ℕ → Option Arith
new_encoder freq seq_len = do
  f ← normalize_freq freq
  some (record { freq = f; cum_freq = get_cum_freq f; seq_len = seq_len; symbols = 0; x = 1 })

unfoldable pub new_decoder : List ℕ → ℕ → Option Arith
new_decoder freq seq_len = do
  f ← normalize_freq freq
  some (record { freq = f; cum_freq = get_cum_freq f; seq_len = seq_len; symbols = 0; x = 0 })

-- x = ((x - 1) / freq[s]) * TOTAL_FREQ + cum_freq[s] + (x - 1) % freq[s] + 1
unfoldable pub next_x : (f c x : ℕ) → ℕ
next_x f c x = u64 ((x - 1) / f * total_freq + c + (x - 1) % f + 1)

module _ (ops : BitOps) where
  unfoldable pub shift_x : BitPtr → ℕ → BitPtr × ℕ
  shift_x p x = (write ops p (x % 256) 8, x / 256)

  -- while (x >= BOUND_X): x is below 2^64, so eight rounds suffice.
  unfoldable pub emit : ℕ → BitPtr → ℕ → BitPtr × ℕ
  emit zero p x = (p, x)
  emit (suc fuel) p x =
      let (q, y) = shift_x p x in let rest = emit fuel q y in if leb bound_x x then rest else (p, x)

  unfoldable pub flush : ℕ → BitPtr → ℕ → BitPtr × ℕ
  flush zero p x = (p, x)
  flush (suc n) p x = let (q, y) = shift_x p x in flush n q y

  unfoldable pub encode_symbol : Arith → BitPtr → (s : ℕ) → Option (BitPtr × Arith)
  encode_symbol a p s =
      let f = get_or a.freq s 0 in
      let c = get_or a.cum_freq s 0 in
      let (q, y) = emit 8 p (next_x f c a.x) in
      let (r, z) = flush 8 q y in
      do
        check (ltb s (length a.freq))
        check (ltb a.symbols a.seq_len)
        check (leb 1 a.x)
        check (not (f == 0))
        some (
            if a.symbols + 1 == a.seq_len
            then (r, record a { symbols = a.symbols + 1; x = z })
            else (q, record a { symbols = a.symbols + 1; x = y }))

-- while (L + 1 != R): the interval shrinks in each round.
unfoldable pub find_symbol : ℕ → List ℕ → (y l r : ℕ) → Option ℕ
find_symbol zero cum_freq y l r = if l + 1 == r then some l else none
find_symbol (suc fuel) cum_freq y l r =
    let m = (l + r) / 2 in
    let below = leb (get_or cum_freq m 0) y in
    let rest = find_symbol fuel cum_freq y (if below then m else l) (if below then r else m) in
    if l + 1 == r then some l else rest

-- decode_symbol reads nothing and returns nothing: the state after the call. x - 1 wraps at 2^64.
unfoldable pub decode_symbol : Arith → Option Arith
decode_symbol a =
    let x_before = u64 (a.x + (2 ^ 64 - 1)) in
    let y = x_before % total_freq in
    do
      check (leb 1 a.x)
      s ← find_symbol (length a.freq) a.cum_freq y 0 (length a.freq)
      let c = get_or a.cum_freq s 0
      check (leb c y)
      check (not (c == 0))
      some (record a { x = u64 (x_before / total_freq * get_or a.freq s 0 + x_before % c) })

-- The byte that is read is discarded.
unfoldable pub update_x : BitOps → BitPtr → BitPtr
update_x ops ptr = (read ops ptr 8).1
