-- ===== src/Math/Bits/Padded.antt =====
-- PaddedBigBytes of pkg/common/math/big.go on the words of an integer, lowest word first, the last one
-- not 0.
use airfk.Shared.{
  ℕ, ◌+◌, ◌*◌, ◌/◌, ◌≡◌, refl, List, [], ◌∷◌, Bytes, leb, ◌==◌, if◌then◌else◌, length, replicate,
}
use airfk.Math.Big.{bit_len_of}
use airfk.Math.Bits.{word_bytes, read_bits}

-- BitLen and Bytes of big.Int; Bytes has no leading zeros.
unfoldable pub words_bit_len : List ℕ → ℕ
unfolding bit_len_of
words_bit_len [] = 0
words_bit_len (d ∷ []) = bit_len_of d d
words_bit_len (d ∷ e ∷ words) = 8 * word_bytes + words_bit_len (e ∷ words)

unfoldable pub without_zeros : Bytes → Bytes
without_zeros [] = []
without_zeros (b ∷ bs) = let rest = without_zeros bs in if b == 0 then rest else b ∷ bs

unfoldable pub big_bytes : List ℕ → Bytes
unfolding read_bits without_zeros
big_bytes words = without_zeros (read_bits words (replicate (word_bytes * length words) 0))

unfoldable pub padded_big_bytes : List ℕ → ℕ → Bytes
unfolding words_bit_len big_bytes read_bits
padded_big_bytes words n =
    if leb n (words_bit_len words / 8) then big_bytes words else read_bits words (replicate n 0)

padded_to_4 : padded_big_bytes (258 ∷ []) 4 ≡ 0 ∷ 0 ∷ 1 ∷ 2 ∷ []
unfolding padded_big_bytes airfk.Math.Bits.read_word airfk.Math.Bits.read_bits_loop
padded_to_4 = refl

longer_than_1 : padded_big_bytes (65538 ∷ []) 1 ≡ 1 ∷ 0 ∷ 2 ∷ []
unfolding padded_big_bytes airfk.Math.Bits.read_word airfk.Math.Bits.read_bits_loop
longer_than_1 = refl
