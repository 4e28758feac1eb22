-- ===== src/Huffman/Bytes.antt =====
-- encode_8 and decode_8 of huffman.hpp: a byte string under the table `bytes_freq`.
use mara_ton_contest_solutio.Common.{
  ℕ, zero, suc, ◌+◌, ◌-◌, ◌*◌, ◌/◌, ◌%◌, not, Option, none, some, List, [], ◌∷◌, ◌++◌, ltb, leb,
  ◌==◌, if◌then◌else◌, ◌>>=◌, ◌>>◌, check, length, take, replicate, u32, none_u32,
}
use mara_ton_contest_solutio.Bits.{shr, BitOps, BitPtr, write}
use mara_ton_contest_solutio.Utils.{back}
use mara_ton_contest_solutio.Huffman.{HuffmanEncoderDecoder, new, encode_symbol, decode_symbol}
use mara_ton_contest_solutio.Huffman.Tables.{bytes_freq}

-- for (tail < 8) if ((data.back() >> tail) & 1) { cnt_bits -= tail + 1; break; }
-- `left` rounds are left.
unfoldable pub drop_tail : (last tail left cnt_bits : ℕ) → ℕ
drop_tail last tail zero cnt_bits = cnt_bits
drop_tail last tail (suc left) cnt_bits =
    let rest = drop_tail last (tail + 1) left cnt_bits in
    if shr last tail % 2 == 1 then cnt_bits - (tail + 1) else rest

-- The uint8_t that a symbol is pushed as; -1u is 255.
abbrev pub pushed : Option ℕ → ℕ
pushed none = 255
pushed (some s) = s % 256

module _ (ops : BitOps) where
  unfoldable pub encode_bytes : HuffmanEncoderDecoder → List ℕ → BitPtr → Option BitPtr
  encode_bytes encoder [] bits = some bits
  encode_bytes encoder (byte ∷ rest) bits = do
    (bits', n) ← encode_symbol ops encoder bits byte
    encode_bytes encoder rest bits'

  unfoldable pub encode_8 : List ℕ → Option (List ℕ)
  encode_8 bytes = do
    encoder ← new bytes_freq
    bits ← encode_bytes encoder bytes (record { ptr = replicate (length bytes * 2) 0; offs = 0 })
    let marked = write ops bits 1 1
    let new_size = (marked.offs + 7) / 8
    check (leb new_size (length marked.ptr))
    some (take new_size marked.ptr)

  -- while (bits.offs < cnt_bits). A round passes one bit at least, so `cnt_bits` rounds suffice;
  -- `none` is also the answer where they do not.
  unfoldable pub decode_loop : ℕ → HuffmanEncoderDecoder → BitPtr → ℕ → List ℕ → Option (List ℕ)
  decode_loop zero decoder bits cnt_bits result =
      if ltb bits.offs cnt_bits then none else some result
  decode_loop (suc fuel) decoder bits cnt_bits result =
      let round = decode_symbol ops decoder bits none_u32 >>= λ got.
      decode_loop fuel decoder got.1 cnt_bits (result ++ (pushed got.0 ∷ [])) in
      if ltb bits.offs cnt_bits then round else some result

  unfoldable pub decode_8 : List ℕ → Option (List ℕ)
  decode_8 bytes = do
    decoder ← new bytes_freq
    check (not (back bytes == 0))
    let cnt_bits = drop_tail (back bytes) 0 8 (u32 (length bytes * 8))
    decode_loop cnt_bits decoder (record { ptr = bytes; offs = 0 }) cnt_bits []
