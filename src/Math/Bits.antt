-- ===== src/Math/Bits.antt =====
-- Bytes and bits of the words of a big integer, lowest word first: bigEndianByteAt, Byte and
-- ReadBits of pkg/common/math/big.go.
pub mod Buffer
pub mod Padded
use airfk.Shared.{
  ℕ, zero, suc, ◌-◌, ◌*◌, ◌/◌, ◌%◌, ◌^◌, none, some, List, [], ◌∷◌, ◌++◌, Bytes, leb, if◌then◌else◌,
  get_elem?, length, take,
}

abbrev pub word_bytes : ℕ
word_bytes = 8

unfoldable pub big_endian_byte_at : List ℕ → ℕ → ℕ
big_endian_byte_at words n = elim (get_elem? words (n / word_bytes)) [
  | none ↦ 0
  | some word ↦ word / 2 ^ (8 * (n % word_bytes)) % 256
]

unfoldable pub byte : List ℕ → ℕ → ℕ → ℕ
byte words padlength n = if leb padlength n then 0 else big_endian_byte_at words (padlength - 1 - n)

-- The inner loop, with `j` rounds and `i` bytes left: the bytes written, the lowest last, and `i`.
unfoldable pub read_word : ℕ → ℕ → ℕ → Bytes → Bytes × ℕ
read_word zero i d tail = (tail, i)
read_word (suc j) zero d tail = (tail, zero)
read_word (suc j) (suc i) d tail = read_word j i (d / 256) (d % 256 ∷ tail)

-- The outer loop, with `i` bytes of the buffer left, which it leaves as they are in the end.
unfoldable pub read_bits_loop : List ℕ → ℕ → Bytes → Bytes → Bytes
read_bits_loop [] i tail buf = take i buf ++ tail
read_bits_loop (d ∷ words) i tail buf =
    let (written, left) = read_word word_bytes i d tail in read_bits_loop words left written buf

-- What is in `buf` behind ReadBits.
unfoldable pub read_bits : List ℕ → Bytes → Bytes
unfolding read_bits_loop
read_bits words buf = read_bits_loop words (length buf) [] buf
