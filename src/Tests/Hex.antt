-- ===== src/Tests/Hex.antt =====
-- pkg/common/hexutil/hexutil.go at concrete inputs.
use airfk.Shared.{ℕ, ◌^◌, ◌<◌, ◌≡◌, refl, ◌↔◌, none, some, [], ◌∷◌, Bytes, codes, arith, All}
use airfk.Shared.Result.{ok}
use airfk.Shared.Int.{pos}
use airfk.Hexutil.{
  missing_prefix, decode, encode, decode_uint64, encode_uint64, decode_big, encode_big,
}
use airfk.Hexutil.Quantity.{normal}
use airfk.Hexutil.Grammar.{quantity, decode_uint64-quantity, decode_big-quantity}
use airfk.Hexutil.RoundTrip.{
  decode-encode, encode-decode, decode_uint64-encode_uint64, encode_uint64-decode_uint64,
  decode_big-encode_big, encode_big-decode_big,
}

abbrev pub text_400 : Bytes
text_400 = codes "0X400"

abbrev pub text_ca : Bytes
text_ca = codes "0xCA01"

decode_uint64-quantity_example :
    (decode_uint64 text_400 ≡ (1024, none)) ↔ ((quantity text_400 ≡ some 1024) × (1024 < 2 ^ 64))
decode_uint64-quantity_example = decode_uint64-quantity text_400 1024

decode_big-quantity_example :
    (decode_big text_400 ≡ ok (pos 1024))
    ↔ ((v : ℕ) × (pos 1024 ≡ pos v) × (quantity text_400 ≡ some v) × (v < 2 ^ 256))
decode_big-quantity_example = decode_big-quantity text_400 (pos 1024)

decode-encode_example : decode (encode (202 ∷ 1 ∷ [])) ≡ (202 ∷ 1 ∷ [], none)
decode-encode_example = decode-encode (202 ∷ 1 ∷ []) (omega arith, (omega arith, tt))

encode-decode_example : (encode (202 ∷ 1 ∷ []) ≡ normal text_ca) × All (λ x. x < 256) (202 ∷ 1 ∷ [])
unfolding decode airfk.Hexutil.has0x_prefix airfk.GoStd.Hex.decode airfk.GoStd.Hex.from_hex_char
encode-decode_example = encode-decode text_ca (202 ∷ 1 ∷ []) refl

decode_uint64-encode_uint64_example : decode_uint64 (encode_uint64 1024) ≡ (1024, none)
decode_uint64-encode_uint64_example = decode_uint64-encode_uint64 1024 (omega arith)

encode_uint64-decode_uint64_example : (encode_uint64 1024 ≡ normal text_400) × (1024 < 2 ^ 64)
unfolding decode_uint64 airfk.Hexutil.check_number airfk.Hexutil.has0x_prefix
    airfk.Hexutil.check_digits airfk.GoStd.Strconv.parse_uint airfk.GoStd.Strconv.parse_loop
    airfk.GoStd.Strconv.digit_val airfk.GoStd.Strconv.max_uint64
encode_uint64-decode_uint64_example = encode_uint64-decode_uint64 text_400 1024 refl

decode_big-encode_big_example : decode_big (encode_big (pos 1024)) ≡ ok (pos 1024)
decode_big-encode_big_example = decode_big-encode_big 1024 (omega arith)

encode_big-decode_big_example :
    (encode_big (pos 1024) ≡ normal text_400) × (n : ℕ) × (pos 1024 ≡ pos n) × (n < 2 ^ 256)
unfolding decode_big airfk.Hexutil.check_number airfk.Hexutil.has0x_prefix
    airfk.Hexutil.check_digits airfk.Hexutil.big_of_digits airfk.Hexutil.decode_words
    airfk.Hexutil.decode_word airfk.Hexutil.decode_nibble airfk.Hexutil.set_bits
encode_big-decode_big_example = encode_big-decode_big text_400 (pos 1024) refl
