-- ===== src/Hexutil.antt =====
-- pkg/common/hexutil/hexutil.go: hex strings with 0x prefix. A string is the list of its bytes; a
-- pair of a value and an error keeps both where Go returns a value beside an error; the platform
-- is one of 64 bits, so that a big.Word holds 16 nibbles.
pub mod Words
pub mod Quantity
pub mod Grammar
pub mod RoundTrip
pub mod Json
use airfk.Shared.{
  ℕ, zero, suc, ◌+◌, ◌-◌, ◌*◌, ◌/◌, ◌%◌, ◌^◌, ◌≤◌, ◌<◌, ◌≡◌, refl, ◌∙◌, Bool, true, false, ◌&&◌,
  ◌||◌, Option, none, some, List, [], ◌∷◌, ◌++◌, Bytes, All, arith, ltb, leb, ◌==◌, if◌then◌else◌,
  length, take, drop,
}
use airfk.Shared.Result.{Result, ok, err, ◌>>=◌}
use airfk.Shared.Int.{ℤ, pos, negsuc, nat_abs}
use airfk.GoStd.Hex.{HexError, invalid_byte, err_length}
use airfk.GoStd.Hex
use airfk.GoStd.Strconv.{NumError, err_syntax, err_range, parse_uint, format_hex, max_uint64}

pub data DecError : Type 0 where
  empty_string syntax missing_prefix odd_length empty_number : DecError
  leading_zero uint64_range uint_range big256_range : DecError

-- The errors of the standard library that mapError tells apart.
pub data GoError : Type 0 where
  num_error : NumError → GoError
  hex_error : HexError → GoError

unfoldable pub map_error : GoError → DecError
map_error (num_error err_range) = uint64_range
map_error (num_error err_syntax) = syntax
map_error (hex_error (invalid_byte b)) = syntax
map_error (hex_error err_length) = odd_length

unfoldable pub has0x_prefix : Bytes → Bool
has0x_prefix [] = false
has0x_prefix (a ∷ []) = false
has0x_prefix (a ∷ b ∷ s) = a == b'0' && (b == b'x' || b == b'X')

-- What checkNumber does behind the prefix.
unfoldable pub check_digits : Bytes → Result DecError Bytes
check_digits [] = err empty_number
check_digits (c ∷ s) = if ltb 1 (length (c ∷ s)) && c == b'0' then err leading_zero else ok (c ∷ s)

unfoldable pub check_number : Bytes → Result DecError Bytes
check_number input =
    if length input == 0
    then err empty_string
    else if has0x_prefix input
    then check_digits (drop 2 input)
    else err missing_prefix

-- ^uint64(0)
abbrev pub bad_nibble : ℕ
bad_nibble = 2 ^ 64 - 1

unfoldable pub decode_nibble : ℕ → ℕ
decode_nibble c =
    if leb b'0' c && leb c b'9'
    then c - b'0'
    else if leb b'A' c && leb c b'F'
    then c - b'A' + 10
    else if leb b'a' c && leb c b'f'
    then c - b'a' + 10
    else bad_nibble

abbrev pub mapped : Option HexError → Option DecError
mapped none = none
mapped (some e) = some (map_error (hex_error e))

unfoldable pub decode : Bytes → Bytes × Option DecError
decode input =
    if length input == 0
    then ([], some empty_string)
    else if has0x_prefix input
    then (let (b, e) = Hex.decode (drop 2 input) in (b, mapped e))
    else ([], some missing_prefix)

-- `none` is the panic.
unfoldable pub must_decode : Bytes → Option Bytes
must_decode input = let (b, e) = decode input in elim e [ none ↦ some b | some x ↦ none ]

unfoldable pub encode : Bytes → Bytes
encode b = b'0' ∷ b'x' ∷ Hex.encode b

abbrev pub mapped_num : Option NumError → Option DecError
mapped_num none = none
mapped_num (some e) = some (map_error (num_error e))

unfoldable pub decode_uint64 : Bytes → ℕ × Option DecError
decode_uint64 input = elim (check_number input) [
  | err e ↦ (0, some e)
  | ok raw ↦ let (v, e) = parse_uint 16 raw in (v, mapped_num e)
]

unfoldable pub must_decode_uint64 : Bytes → Option ℕ
must_decode_uint64 input =
    let (v, e) = decode_uint64 input in elim e [ none ↦ some v | some x ↦ none ]

-- strconv.AppendUint in base 16.
unfoldable pub encode_uint64 : ℕ → Bytes
encode_uint64 i = b'0' ∷ b'x' ∷ format_hex i []

-- The nibbles that a 64-bit big.Word holds.
abbrev pub big_word_nibbles : ℕ
big_word_nibbles = 16

-- One run of the inner loop: the nibbles of one word.
unfoldable pub decode_word : ℕ → Bytes → Option ℕ
decode_word w [] = some w
decode_word w (c ∷ s) =
    let nib = decode_nibble c in
    let rest = decode_word ((w * 16 % 2 ^ 64 + nib) % 2 ^ 64) s in
    if nib == bad_nibble then none else rest

-- The outer loop, with `count` words to go: words from the end of `raw`, the lowest first.
unfoldable pub decode_words : ℕ → Bytes → ℕ → Option (List ℕ)
decode_words zero raw end = some []
decode_words (suc count) raw end =
    let start = end - big_word_nibbles in
    let rest = decode_words count raw start in
    elim (decode_word 0 (take (end - start) (drop start raw))) [
      | none ↦ none
      | some w ↦ elim rest [ none ↦ none | some ws ↦ some (w ∷ ws) ]
    ]

-- big.Int.SetBits
unfoldable pub set_bits : List ℕ → ℕ
set_bits [] = 0
set_bits (w ∷ ws) = w + 2 ^ 64 * set_bits ws

-- What DecodeBig and Big.UnmarshalText do with the checked digits.
unfoldable pub big_of_digits : Bytes → Result DecError ℤ
big_of_digits raw =
    if ltb 64 (length raw)
    then err big256_range
    else elim (decode_words (length raw / big_word_nibbles + 1) raw (length raw)) [
      | none ↦ err syntax
      | some words ↦ ok (pos (set_bits words))
    ]

unfoldable pub decode_big : Bytes → Result DecError ℤ
decode_big input = check_number input >>= big_of_digits

unfoldable pub must_decode_big : Bytes → Option ℤ
must_decode_big input = elim (decode_big input) [ ok v ↦ some v | err e ↦ none ]

-- fmt's %#x of a big.Int: the sign, then the prefix.
abbrev pub sharp_x : ℤ → Bytes
sharp_x (pos n) = b'0' ∷ b'x' ∷ format_hex n []
sharp_x (negsuc n) = b'-' ∷ b'0' ∷ b'x' ∷ format_hex (suc n) []

unfoldable pub encode_big : ℤ → Bytes
encode_big z = if nat_abs z == 0 then b'0' ∷ b'x' ∷ b'0' ∷ [] else sharp_x z
