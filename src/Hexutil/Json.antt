-- ===== src/Hexutil/Json.antt =====
-- pkg/common/hexutil/json.go: the JSON and text methods of Bytes, Big, Uint64 and Uint, and the
-- fixed-length decoders. A method with a pointer receiver takes the value it would overwrite and
-- returns the value it leaves, with its error.
pub mod Numbers
pub mod Quoted
pub mod Strings
pub mod Fixed
use airfk.Shared.{
  ℕ, zero, suc, ◌+◌, ◌-◌, ◌*◌, ◌/◌, ◌%◌, ◌^◌, ◌≤◌, ◌<◌, ◌≡◌, refl, Bool, true, false, ◌&&◌, not,
  ◌||◌, Option, none, some, List, [], ◌∷◌, ◌++◌, Bytes, codes, arith, ltb, leb, ◌==◌, if◌then◌else◌,
  length, take, drop, get_elem?,
}
use airfk.Shared.Result.{Result, ok, err}
use airfk.Shared.Int.{ℤ, pos, negsuc}
use airfk.GoStd.Hex
use airfk.Hexutil.{
  DecError, empty_string, syntax, missing_prefix, odd_length, empty_number, leading_zero,
  uint64_range, uint_range, big256_range, has0x_prefix, bad_nibble, decode_nibble, big_of_digits,
  mapped, encode, encode_uint64, encode_big,
}

-- The reflect.Type that an UnmarshalTypeError names.
pub data GoType : Type 0 where
  bytes_t big_t uint_t uint64_t : GoType
  named : Bytes → GoType

pub data Error : Type 0 where
  dec_error : DecError → Error
  unmarshal_type_error : Bytes → GoType → Error
  wrong_length : ℕ → ℕ → Bytes → Error

-- decError.Error
unfoldable pub error_text : DecError → Bytes
error_text empty_string = codes "empty hex string"
error_text syntax = codes "invalid hex string"
error_text missing_prefix = codes "hex string without 0x prefix"
error_text odd_length = codes "hex string of odd length"
error_text empty_number = codes "hex string \"0x\""
error_text leading_zero = codes "hex number with leading zero digits"
error_text uint64_range = codes "hex number > 64 bits"
error_text uint_range = codes "hex number > 64 bits"
error_text big256_range = codes "hex number > 256 bits"

unfoldable pub is_string : Bytes → Bool
is_string [] = false
is_string (c ∷ []) = false
is_string (c ∷ d ∷ s) =
    let input = c ∷ d ∷ s in
    c == b'"' && (elim (get_elem? input (length input - 1)) [ none ↦ false | some q ↦ q == b'"' ])

unfoldable pub check_text : Bytes → Bool → Result DecError Bytes
check_text input want_prefix =
    let raw = if has0x_prefix input then drop 2 input else input in
    if length input == 0
    then ok []
    else if not (has0x_prefix input) && want_prefix
    then err missing_prefix
    else if length raw % 2 == 0
    then ok raw
    else err odd_length

unfoldable pub check_number_text : Bytes → Result DecError Bytes
check_number_text input =
    let raw = drop 2 input in
    if length input == 0
    then ok []
    else if not (has0x_prefix input)
    then err missing_prefix
    else if length raw == 0
    then err empty_number
    else if ltb 1 (length raw) && (elim (get_elem? raw 0) [ none ↦ false | some c ↦ c == b'0' ])
    then err leading_zero
    else ok raw

unfoldable pub wrap_type_error : Option Error → GoType → Option Error
wrap_type_error none typ = none
wrap_type_error (some (dec_error e)) typ = some (unmarshal_type_error (error_text e) typ)
wrap_type_error (some (unmarshal_type_error v t)) typ = some (unmarshal_type_error v t)
wrap_type_error (some (wrong_length n want name)) typ = some (wrong_length n want name)

unfoldable pub err_non_string : GoType → Error
err_non_string typ = unmarshal_type_error (codes "non-string") typ

-- The receiver after a method, and the method's error.
abbrev pub After : Type 0 → Type 0
After A = A × Option Error

-- Every UnmarshalJSON: the text between the quotes goes to `unmarshal`.
unfoldable pub unmarshal_string_json :
    {A : Type 0} → GoType → Bytes → (Bytes → After A) → A → After A
unmarshal_string_json typ input unmarshal old =
    if is_string input
    then (let (value, e) = unmarshal (take (length input - 2) (drop 1 input)) in
        (value, wrap_type_error e typ))
    else (old, some (err_non_string typ))

unfoldable pub bytes_marshal_text : Bytes → Bytes
bytes_marshal_text b = b'0' ∷ b'x' ∷ Hex.encode b

unfoldable pub bytes_unmarshal_text : Bytes → Bytes → After Bytes
bytes_unmarshal_text old input = elim (check_text input true) [
  | err e ↦ (old, some (dec_error e))
  | ok raw ↦
      let (dec, e) = Hex.decode raw in
      elim (mapped e) [ none ↦ (dec, none) | some x ↦ (old, some (dec_error x)) ]
]

unfoldable pub bytes_unmarshal_json : Bytes → Bytes → After Bytes
bytes_unmarshal_json old input = unmarshal_string_json bytes_t input (bytes_unmarshal_text old) old

-- The loop that verifies the syntax before `out` is written.
unfoldable pub all_nibbles : Bytes → Bool
all_nibbles [] = true
all_nibbles (c ∷ s) = not (decode_nibble c == bad_nibble) && all_nibbles s

-- The common body of the fixed-length decoders, on the checked digits.
unfoldable pub fixed_of_digits : Bytes → Bytes → Bytes → After Bytes
fixed_of_digits typname raw out =
    if length raw / 2 == length out
    then (if all_nibbles raw then ((Hex.decode raw).0, none) else (out, some (dec_error syntax)))
    else (out, some (wrong_length (length raw) (length out * 2) typname))

unfoldable pub unmarshal_fixed_text : Bytes → Bytes → Bytes → After Bytes
unmarshal_fixed_text typname input out = elim (check_text input true) [
  | err e ↦ (out, some (dec_error e))
  | ok raw ↦ fixed_of_digits typname raw out
]

unfoldable pub unmarshal_fixed_unprefixed_text : Bytes → Bytes → Bytes → After Bytes
unmarshal_fixed_unprefixed_text typname input out = elim (check_text input false) [
  | err e ↦ (out, some (dec_error e))
  | ok raw ↦ fixed_of_digits typname raw out
]

unfoldable pub unmarshal_fixed_json : Bytes → Bytes → Bytes → After Bytes
unmarshal_fixed_json typname input out =
    unmarshal_string_json (named typname) input (λ text. unmarshal_fixed_text typname text out) out

unfoldable pub big_marshal_text : ℤ → Bytes
big_marshal_text b = encode_big b

unfoldable pub big_unmarshal_text : ℤ → Bytes → After ℤ
big_unmarshal_text old input = elim (check_number_text input) [
  | err e ↦ (old, some (dec_error e))
  | ok raw ↦ elim (big_of_digits raw) [ err e ↦ (old, some (dec_error e)) | ok dec ↦ (dec, none) ]
]

unfoldable pub big_unmarshal_json : ℤ → Bytes → After ℤ
big_unmarshal_json old input = unmarshal_string_json big_t input (big_unmarshal_text old) old

unfoldable pub uint64_marshal_text : ℕ → Bytes
uint64_marshal_text b = encode_uint64 b

-- The loop of Uint64.UnmarshalText, in uint64 arithmetic.
unfoldable pub uint64_loop : ℕ → Bytes → Option ℕ
uint64_loop dec [] = some dec
uint64_loop dec (c ∷ s) =
    let nib = decode_nibble c in
    let rest = uint64_loop ((dec * 16 % 2 ^ 64 + nib) % 2 ^ 64) s in
    if nib == bad_nibble then none else rest

unfoldable pub uint64_unmarshal_text : ℕ → Bytes → After ℕ
uint64_unmarshal_text old input = elim (check_number_text input) [
  | err e ↦ (old, some (dec_error e))
  | ok raw ↦
      if ltb 16 (length raw)
      then (old, some (dec_error uint64_range))
      else elim (uint64_loop 0 raw) [
        | none ↦ (old, some (dec_error syntax))
        | some dec ↦ (dec, none)
      ]
]

unfoldable pub uint64_unmarshal_json : ℕ → Bytes → After ℕ
uint64_unmarshal_json old input =
    unmarshal_string_json uint64_t input (uint64_unmarshal_text old) old

unfoldable pub uint_marshal_text : ℕ → Bytes
uint_marshal_text b = uint64_marshal_text b

-- ^uint(0) on a platform of 64 bits.
abbrev pub max_uint : ℕ
max_uint = 2 ^ 64 - 1

abbrev is_range_error : Option Error → Bool
is_range_error none = false
is_range_error (some (dec_error uint64_range)) = true
is_range_error (some _) = false

unfoldable pub uint_unmarshal_text : ℕ → Bytes → After ℕ
uint_unmarshal_text old input =
    let (u64, e) = uint64_unmarshal_text 0 input in
    if ltb max_uint u64 || is_range_error e
    then (old, some (dec_error uint_range))
    else elim e [ none ↦ (u64, none) | some x ↦ (old, some x) ]

unfoldable pub uint_unmarshal_json : ℕ → Bytes → After ℕ
uint_unmarshal_json old input = unmarshal_string_json uint_t input (uint_unmarshal_text old) old
