-- ===== src/Tests/Numbers.antt =====
-- pkg/common/math and pkg/common/bytes.go at concrete inputs.
use airfk.Shared.{
  get_elem?, some, none, ℕ, ◌+◌, ◌-◌, ◌*◌, ◌%◌, ◌^◌, ◌≡◌, true, false, [], ◌∷◌, arith, leb,
  if◌then◌else◌, Bytes,
}
use airfk.Shared.Int.{pos, negsuc}
use airfk.Math.Big
use airfk.Math.Big.{parse_big256, parse_big256-marshal_text}
use airfk.Math.Bits.{read_bits}
use airfk.Math.Bits.Buffer.{read_bits-byte}
use airfk.Math.Integer.{safe_add, safe_mul, safe_sub, overflow_flags}
use airfk.Math.Power.{exp, value, exp-value}

abbrev big_word : ℕ
big_word = 18446744073709551615

overflow_flags_example :
    (safe_add big_word 2 ≡ ((big_word + 2) % 2 ^ 64, leb (2 ^ 64) (big_word + 2)))
    × (safe_mul big_word 2 ≡ (big_word * 2 % 2 ^ 64, leb (2 ^ 64) (big_word * 2)))
    × (safe_sub big_word 2
        ≡ (if leb 2 big_word then (big_word - 2, false) else (2 ^ 64 - (2 - big_word), true)))
overflow_flags_example = overflow_flags big_word 2 (omega arith) (omega arith)

exp-value_example : (exp 3 (5 ∷ [])).0 ≡ 3 ^ value (5 ∷ []) % 2 ^ 256
exp-value_example = exp-value 3 (5 ∷ []) (omega arith, tt)

-- One word in a buffer of ten bytes that were not 0; the second byte is out of its reach.
abbrev used_buffer : Bytes
used_buffer = 70 ∷ 71 ∷ 72 ∷ 73 ∷ 74 ∷ 75 ∷ 76 ∷ 77 ∷ 78 ∷ 79 ∷ []

read_bits-byte_example : get_elem? (read_bits (0x0102030405060708 ∷ []) used_buffer) 1 ≡ some 71
read_bits-byte_example = read_bits-byte (0x0102030405060708 ∷ []) used_buffer 1 (omega arith)

parse_big256-marshal_text_example :
    (parse_big256 (Big.marshal_text (some (pos 255))) ≡ some (pos 255))
    × (parse_big256 (Big.marshal_text (some (negsuc 255))) ≡ none)
parse_big256-marshal_text_example = parse_big256-marshal_text 255 (omega arith)
