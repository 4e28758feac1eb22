-- ===== src/Rans/State.antt =====
-- One step of the encoder's state, and what the decoder does with its first state.
use mara_ton_contest_solutio.Common.{
  ℕ, ◌+◌, ◌-◌, ◌*◌, ◌/◌, ◌%◌, ◌^◌, ◌≤◌, ◌<◌, ◌≡◌, none, some, List, >>=-eq_some, arith,
}
use mara_ton_contest_solutio.Rans.{
  Arith, total_freq, bound_x, next_x, new_decoder, decode_symbol, normalize_freq,
}
use native.Mathlib.Nat.{div-add-mod, mul-le-mul_right}

-- For a symbol of frequency f with c before it, within the total of 2^12, and a state from 1 to
-- below 2^48: the step does not wrap, the new state lies in the symbol's slot, and the old state
-- is f times its number of rounds plus its place in the slot.
pub next_x_inverse :
    (f c x : ℕ)
    → 0 < f
    → c + f ≤ total_freq
    → 1 ≤ x
    → x < bound_x
    → ((c ≤ (next_x f c x - 1) % total_freq) × ((next_x f c x - 1) % total_freq < c + f))
      × ((next_x f c x - 1) / total_freq * f + ((next_x f c x - 1) % total_freq - c) + 1 ≡ x)
      × (1 ≤ next_x f c x)
unfolding next_x
next_x_inverse f c x pos fits low high =
    let q : ℕ = (x - 1) / f in
    let r : ℕ = (x - 1) % f in
    let whole = div-add-mod (x - 1) f in
    let few : q ≤ x - 1 = omega (arith, whole, mul-le-mul_right {m = 1} {n = f} q pos) in
    let below : r < f = omega arith in
    let plain : (q * total_freq + c + r + 1) % 2 ^ 64 ≡ q * total_freq + c + r + 1 = omega arith in
    let place : (q * total_freq + c + r + 1 - 1) % total_freq ≡ c + r = omega arith in
    let rounds : (q * total_freq + c + r + 1 - 1) / total_freq ≡ q = omega arith in
    rw (plain, place, rounds) ((omega arith, omega arith), omega arith, omega arith)

new_decoder-x :
    (freq : List ℕ) (seq_len : ℕ) (a : Arith) → new_decoder freq seq_len ≡ some a → a.x ≡ 0
unfolding new_decoder
new_decoder-x freq seq_len a h =
    let (f, e, made) = >>=-eq_some (normalize_freq freq) _ h in ground arith

-- For every table that the constructor of an ArithDecoder accepts, and every length: the decoder has
-- the state 0, and the CHECK of its first decode_symbol aborts.
pub decode_symbol_fresh :
    (freq : List ℕ) (seq_len : ℕ) (a : Arith)
    → new_decoder freq seq_len ≡ some a
    → (a.x ≡ 0) × (decode_symbol a ≡ none)
unfolding decode_symbol
decode_symbol_fresh freq seq_len a made =
    let e = new_decoder-x freq seq_len a made in (e, ground (arith, e))
