-- ===== src/Rans/Examples.antt =====
-- The arithmetic coder on small inputs.
use mara_ton_contest_solutio.Common.{
  ℕ, ◌+◌, ◌-◌, ◌*◌, ◌/◌, ◌%◌, ◌≤◌, ◌<◌, ◌≡◌, refl, ◌⊎◌, get_or, none, some, List, [], ◌∷◌, length,
  arith,
}
use mara_ton_contest_solutio.Rans.{
  Arith, total_freq, sum, raise, raise_loop, cum_from, get_cum_freq, next_x, find_symbol,
  normalize_freq, new_decoder, decode_symbol,
}
use mara_ton_contest_solutio.Rans.Search.{find_symbol_lem}
use mara_ton_contest_solutio.Rans.Normalize.{normalize_freq_lem}
use mara_ton_contest_solutio.Rans.State.{next_x_inverse, decode_symbol_fresh}

normalize_freq_lem_example :
    (out : List ℕ) × (normalize_freq (7 ∷ 0 ∷ 3 ∷ []) ≡ some out)
    × (sum out ≡ total_freq)
    × (length out ≡ 3)
unfolding sum
normalize_freq_lem_example = normalize_freq_lem (7 ∷ 0 ∷ 3 ∷ []) (omega arith) (omega arith)

next_x_inverse_example :
    ((1000 ≤ (next_x 300 1000 77777 - 1) % total_freq)
      × ((next_x 300 1000 77777 - 1) % total_freq < 1000 + 300))
    × ((next_x 300 1000 77777 - 1) / total_freq * 300
          + ((next_x 300 1000 77777 - 1) % total_freq - 1000)
          + 1
        ≡ 77777)
    × (1 ≤ next_x 300 1000 77777)
next_x_inverse_example =
    next_x_inverse 300 1000 77777 (omega arith) (omega arith) (omega arith) (omega arith)

abbrev fresh_decoder : Arith
fresh_decoder = record {
  freq = 2868 ∷ 1228 ∷ [];
  cum_freq = 0 ∷ 2868 ∷ 4096 ∷ [];
  seq_len = 5;
  symbols = 0;
  x = 0;
}

fresh_made : new_decoder (7 ∷ 3 ∷ []) 5 ≡ some fresh_decoder
unfolding new_decoder normalize_freq sum raise_loop raise get_cum_freq cum_from
fresh_made = refl

decode_symbol_fresh_example : (fresh_decoder.x ≡ 0) × (decode_symbol fresh_decoder ≡ none)
decode_symbol_fresh_example = decode_symbol_fresh (7 ∷ 3 ∷ []) 5 fresh_decoder fresh_made

find_symbol_lem_example :
    (s : ℕ) × (find_symbol 3 (0 ∷ 7 ∷ 10 ∷ 15 ∷ []) 8 0 3 ≡ some s)
    × (s < 3)
    × (get_or (0 ∷ 7 ∷ 10 ∷ 15 ∷ []) s 0 ≤ 8)
    × ((s + 1 ≡ 3) ⊎ (8 < get_or (0 ∷ 7 ∷ 10 ∷ 15 ∷ []) (s + 1) 0))
find_symbol_lem_example =
    find_symbol_lem (7 ∷ 3 ∷ 5 ∷ []) (0 ∷ 7 ∷ 10 ∷ 15 ∷ []) 8 (omega arith) refl
