-- ===== src/GoStd/Hex.antt =====
-- encoding/hex (EncodeToString, Encode, DecodeString, Decode) on lists of bytes.
use airfk.Shared.{
  ℕ, ◌+◌, ◌-◌, ◌*◌, ◌/◌, ◌%◌, ◌<◌, ◌≡◌, refl, ◌&&◌, Option, none, some, [], ◌∷◌, Bytes, All, arith,
  ltb, leb, if◌then◌else◌, Option-cases, inl, inr,
}

pub data HexError : Type 0 where
  invalid_byte : ℕ → HexError
  err_length : HexError

unfoldable pub from_hex_char : ℕ → Option ℕ
from_hex_char c =
    if leb 48 c && leb c 57
    then some (c - 48)
    else if leb 97 c && leb c 102
    then some (c - 97 + 10)
    else if leb 65 c && leb c 70
    then some (c - 65 + 10)
    else none

-- "0123456789abcdef"[v]
unfoldable pub hex_digit : ℕ → ℕ
hex_digit v = if ltb v 10 then v + 48 else v + 87

unfoldable pub encode : Bytes → Bytes
encode [] = []
encode (b ∷ bs) = hex_digit (b / 16) ∷ hex_digit (b % 16) ∷ encode bs

unfoldable pub odd_error : ℕ → HexError
odd_error c = elim (from_hex_char c) [ none ↦ invalid_byte c | some d ↦ err_length ]

-- The bytes decoded before the first error, and that error.
unfoldable pub decode : Bytes → Bytes × Option HexError
decode [] = ([], none)
decode (a ∷ []) = ([], some (odd_error a))
decode (a ∷ b ∷ s) =
    let rest = decode s in
    elim (from_hex_char a) [
      | none ↦ ([], some (invalid_byte a))
      | some x ↦ elim (from_hex_char b) [
        | none ↦ ([], some (invalid_byte b))
        | some y ↦ ((x * 16 + y) ∷ rest.0, rest.1)
      ]
    ]

-- Letters of hex digits in lower case; anything else stays.
unfoldable pub lower_digit : ℕ → ℕ
lower_digit c = if leb 65 c && leb c 70 then c + 32 else c

unfoldable pub lower : Bytes → Bytes
lower [] = []
lower (c ∷ s) = lower_digit c ∷ lower s

pub from_hex_char-hex_digit : (v : ℕ) → v < 16 → from_hex_char (hex_digit v) ≡ some v
unfolding from_hex_char hex_digit
from_hex_char-hex_digit v h = ground arith

pub from_hex_char-lt : (c v : ℕ) → from_hex_char c ≡ some v → v < 16
unfolding from_hex_char
from_hex_char-lt c v h = ground arith

pub hex_digit-from_hex_char : (c v : ℕ) → from_hex_char c ≡ some v → hex_digit v ≡ lower_digit c
unfolding from_hex_char hex_digit lower_digit
hex_digit-from_hex_char c v h = ground arith

pub decode_pair :
    (a b x y : ℕ) (s : Bytes)
    → from_hex_char a ≡ some x
    → from_hex_char b ≡ some y
    → decode (a ∷ b ∷ s) ≡ ((x * 16 + y) ∷ (decode s).0, (decode s).1)
unfolding decode
decode_pair a b x y s h k = ground arith

pub decode-encode : (bs : Bytes) → All (λ b. b < 256) bs → decode (encode bs) ≡ (bs, none)
unfolding encode
decode-encode [] h = unfold decode in refl
decode-encode (b ∷ bs) (h, hs) = ground (
  arith,
  decode_pair (hex_digit (b / 16)) (hex_digit (b % 16)) (b / 16) (b % 16) (encode bs),
  from_hex_char-hex_digit (b / 16),
  from_hex_char-hex_digit (b % 16),
  decode-encode bs hs,
)

-- What decodes without an error is the encoding of the result, but for the case of letters.
pub encode-decode :
    (s bs : Bytes) → decode s ≡ (bs, none) → (encode bs ≡ lower s) × All (λ b. b < 256) bs
unfolding encode decode lower
encode-decode [] bs h = ground arith
encode-decode (a ∷ []) bs h = cc
encode-decode (a ∷ b ∷ s) bs h = elim (Option-cases (from_hex_char a)) [
  | inl e ↦ ground arith
  | inr (x, e) ↦ elim (Option-cases (from_hex_char b)) [
    | inl k ↦ ground arith
    | inr (y, k) ↦ ground (
      arith,
      from_hex_char-lt a x,
      from_hex_char-lt b y,
      hex_digit-from_hex_char a x,
      hex_digit-from_hex_char b y,
      encode-decode s (decode s).0,
    )
  ]
]
