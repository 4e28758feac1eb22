-- ===== src/Arrays/Examples.antt =====
-- A small table as text, with a codec that leaves bytes as they are.
use mara_ton_contest_solutio.Common.{ℕ, ◌≡◌, refl, some, List, [], ◌∷◌, arith}
use mara_ton_contest_solutio.Bits.Bytes.{byte_ops, byte_laws}
use mara_ton_contest_solutio.Utils.Counts.{digit_counts, digit_laws}
use mara_ton_contest_solutio.Arrays.{TextCodec, encode, decode_vector}
use mara_ton_contest_solutio.Arrays.RoundTrip.{decode_vector-encode}

abbrev plain : TextCodec
plain = record {
  lz4_compress = λ bytes. bytes;
  lz4_decompress = λ bytes. some bytes;
  base64_encode = λ bytes. bytes;
  base64_decode = λ bytes. some bytes;
}

decode_vector-encode_example :
    (text : List ℕ) × (encode byte_ops digit_counts plain (5 ∷ 0 ∷ 300 ∷ []) ≡ some text)
    × (decode_vector byte_ops plain text ≡ some (5 ∷ 0 ∷ 300 ∷ []))
decode_vector-encode_example =
    decode_vector-encode byte_ops byte_laws digit_counts digit_laws plain (5 ∷ 0 ∷ 300 ∷ [])
      (λ bytes h. refl) (λ bytes. refl) (omega arith, (omega arith, (omega arith, tt)))
      (omega arith)
