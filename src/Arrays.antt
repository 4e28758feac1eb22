-- ===== src/Arrays.antt =====
-- encode_array.cpp and decode_vector of utils.h: a table of numbers as text. LZ4 and base64 belong to
-- the TON library: they are the parameter `TextCodec`.
pub mod Examples
pub mod RoundTrip
use mara_ton_contest_solutio.Common.{
  ℕ, zero, suc, ◌+◌, ◌*◌, ◌/◌, max, Option, some, List, [], ◌∷◌, leb, ◌>>=◌, ◌>>◌, check, length,
  take, replicate,
}
use mara_ton_contest_solutio.Bits.{BitOps, BitPtr, write, read}
use mara_ton_contest_solutio.Utils.{ZeroCounts, len_in_bits}

-- td::lz4_compress, td::lz4_decompress(·, 2 << 20), td::base64_encode and td::base64_decode.
pub record TextCodec : Type 0 where
  pub lz4_compress : List ℕ → List ℕ
  pub lz4_decompress : List ℕ → Option (List ℕ)
  pub base64_encode : List ℕ → List ℕ
  pub base64_decode : List ℕ → Option (List ℕ)

module _ (zc : ZeroCounts) where
  -- The loop over the numbers that takes the greatest width.
  unfoldable pub max_bits : ℕ → List ℕ → ℕ
  max_bits widest [] = widest
  max_bits widest (num ∷ numbers) = max_bits (max widest (len_in_bits zc num)) numbers

module _ (ops : BitOps) where
  unfoldable pub store_numbers : (width : ℕ) → List ℕ → BitPtr → BitPtr
  store_numbers width [] p = p
  store_numbers width (num ∷ numbers) p = store_numbers width numbers (write ops p num width)

  unfoldable pub load_numbers : (n width : ℕ) → BitPtr → List ℕ
  load_numbers zero width p = []
  load_numbers (suc n) width p = let (num, q) = read ops p width in num ∷ load_numbers n width q

  -- encode(numbers), up to its compression: the bytes, cut behind the last number.
  unfoldable pub pack_numbers : ZeroCounts → List ℕ → Option (List ℕ)
  pack_numbers zc numbers =
      let width = max_bits zc 0 numbers in
      let buff = replicate (4 + (width * length numbers + 7) / 8 + 10) 0 in
      let sized = write ops (record { ptr = buff; offs = 0 }) (length numbers) (4 * 8) in
      let p = store_numbers width numbers (write ops sized width 5) in
      check (leb width 32) >> some (take ((p.offs + 7) / 8) p.ptr)

  unfoldable pub encode : ZeroCounts → TextCodec → List ℕ → Option (List ℕ)
  encode zc codec numbers = do
    buff ← pack_numbers zc numbers
    some (codec.base64_encode (codec.lz4_compress buff))

  unfoldable pub unpack_numbers : List ℕ → List ℕ
  unpack_numbers bytes =
      let (n, p) = read ops (record { ptr = bytes; offs = 0 }) (4 * 8) in
      let (width, q) = read ops p 5 in load_numbers n width q

  unfoldable pub decode_vector : TextCodec → List ℕ → Option (List ℕ)
  decode_vector codec base64 = do
    compressed ← codec.base64_decode base64
    bytes ← codec.lz4_decompress compressed
    some (unpack_numbers bytes)
