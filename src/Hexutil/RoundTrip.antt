-- ===== src/Hexutil/RoundTrip.antt =====
-- Encoding and decoding undo one another, for byte slices and for quantities.
use airfk.Shared.{
  ℕ, zero, suc, ◌/◌, ◌%◌, ◌^◌, ◌<◌, ◌≡◌, refl, ◌∙◌, none, some, [], ◌∷◌, ◌++◌, Bytes, All, arith,
  ◌==◌, length, drop, Option-cases, inl, inr, sym, ap, append-nil, Bool-cases, append_assoc,
}
use airfk.Shared.Result.{ok, err, Result-cases}
use airfk.Shared.Int.{ℤ, pos, negsuc}
use airfk.Shared.Order.{lt_wf}
use mathlib.Core.WellFounded.{induction}
use native.Mathlib.Decide.{dec_lt}
use airfk.GoStd.Hex
use airfk.GoStd.Hex.{
  from_hex_char, from_hex_char-lt, hex_digit, hex_digit-from_hex_char, from_hex_char-hex_digit,
  lower, lower_digit,
}
use airfk.GoStd.Strconv.{
  hex_value, format_hex, format_hex_small, format_hex_large, hex_value-format_hex,
  format_hex-hex_value,
}
use airfk.Hexutil.{
  has0x_prefix, check_number, check_digits, decode_uint64, encode_uint64, decode_big, encode_big,
  decode, encode, missing_prefix,
}
use airfk.Hexutil.Quantity.{
  checked, normal, IsDigits, check_number-ok, decode_uint64-checked, decode_big-checked, digit_zero,
}

-- Decode reads back the bytes that Encode wrote.
pub decode-encode : (b : Bytes) → All (λ x. x < 256) b → decode (encode b) ≡ (b, none)
unfolding decode encode has0x_prefix
decode-encode b h = ground (arith, Hex.decode-encode b h)

-- What decodes is the encoding of the result, up to the case of letters and of the prefix.
pub encode-decode :
    (s b : Bytes) → decode s ≡ (b, none) → (encode b ≡ normal s) × All (λ x. x < 256) b
unfolding decode encode normal
encode-decode s b h = elim (Bool-cases (length s == 0)) [
  | inl empty ↦ ground arith
  | inr some_bytes ↦ elim (Bool-cases (has0x_prefix s)) [
    | inr bare ↦ ground arith
    | inl prefixed ↦ elim (Option-cases (Hex.decode (drop 2 s)).1) [
      | inr (e, k) ↦ ground arith
      | inl k ↦
          let (spelt, bytes) = Hex.encode-decode (drop 2 s) b (ground arith) in
          (ap (λ (t : Bytes). b'0' ∷ b'x' ∷ t) spelt, bytes)
    ]
  ]
]

pub record Shape (n : ℕ) (tail : Bytes) : Type 0 where
  pub first : ℕ
  pub others : Bytes
  pub digits : format_hex n tail ≡ first ∷ (others ++ tail)
  positive : first ≡ b'0' → n ≡ 0
  alone : n ≡ 0 → others ≡ []

hex_digit_zero : (n : ℕ) → hex_digit n ≡ b'0' → n ≡ 0
unfolding hex_digit
hex_digit_zero n e = ground arith

pub format_hex-Shape : (n : ℕ) (tail : Bytes) → Shape n tail
format_hex-Shape n = induction lt_wf {C = λ k. (tail : Bytes) → Shape k tail} n λ k ih tail.
    elim (dec_lt 15 k) [
      | no p ↦ record {
        first = hex_digit k;
        others = [];
        digits = format_hex_small k tail (omega arith);
        positive = hex_digit_zero k;
        alone = λ _. refl;
      }
      | yes p ↦
          let d : ℕ = hex_digit (k % 16) in
          let s : Shape (k / 16) (d ∷ tail) = ih (k / 16) (omega arith) (d ∷ tail) in
          record {
            first = s.first;
            others = s.others ++ (d ∷ []);
            digits =
                format_hex_large k tail p
                ∙ s.digits
                ∙ ap (◌∷◌ s.first) (sym (append_assoc s.others (d ∷ []) tail));
            positive = λ e. absurd (omega (arith, s.positive e));
            alone = λ e. absurd (omega arith);
          }
    ]

check_digits_alone : (c : ℕ) (t : Bytes) → (c ≡ b'0' → t ≡ []) → check_digits (c ∷ t) ≡ ok (c ∷ t)
unfolding check_digits
check_digits_alone c [] h = ground arith
check_digits_alone c (d ∷ t) h = elim (Bool-cases (c == b'0')) [
  | inl e ↦ cc (h (ground arith))
  | inr e ↦ ground arith
]

check_digits-format : (n : ℕ) → check_digits (format_hex n []) ≡ ok (format_hex n [])
check_digits-format n =
    let p : Shape n [] = format_hex-Shape n [] in
    rw (p.digits) (
      check_digits_alone p.first (p.others ++ [])
        (λ e. append-nil p.others ∙ p.alone (p.positive e)))

lower_digits :
    (raw : Bytes) (n : ℕ) → IsDigits raw → hex_value 0 raw ≡ some n → format_hex n [] ≡ lower raw
unfolding hex_value lower
lower_digits [] n d e = absurd (cc (d.digits))
lower_digits (c ∷ t) n d e = elim (Option-cases (from_hex_char c)) [
  | inl bad ↦ ground arith
  | inr (zero, x) ↦
      let alone : t ≡ [] = ground (arith, d.digits, d.zero_alone, digit_zero c x) in
      ground (
        arith,
        alone,
        digit_zero c x,
        hex_digit-from_hex_char c 0,
        format_hex_small 0 [] (omega arith),
      )
  | inr (suc v, x) ↦ ground (
    arith,
    from_hex_char-lt c (suc v),
    format_hex-hex_value t [] (suc v) n,
    format_hex_small (suc v) (lower t ++ []),
    append-nil (lower t),
    hex_digit-from_hex_char c (suc v),
  )
]

-- The encoding of a number is a quantity of that value.
pub checked-encode_uint64 : (n : ℕ) → checked (encode_uint64 n) ≡ some n
unfolding checked encode_uint64 check_number has0x_prefix
checked-encode_uint64 n =
    ground (arith, check_digits-format n, hex_value-format_hex n [], value_nil)
  where
    value_nil : hex_value n [] ≡ some n
    value_nil = unfold hex_value in refl

-- A quantity is the encoding of its value, up to the case of letters and of the prefix.
pub encode_uint64-checked : (s : Bytes) (n : ℕ) → checked s ≡ some n → encode_uint64 n ≡ normal s
unfolding checked encode_uint64 normal
encode_uint64-checked s n h = elim (Result-cases (check_number s)) [
  | inr (x, e) ↦ ground arith
  | inl (raw, e) ↦
      let (same, digits) = check_number-ok s raw e in
      ap (λ (t : Bytes). b'0' ∷ b'x' ∷ t) (rw same (lower_digits raw n digits (ground arith)))
]

-- DecodeUint64 reads back what EncodeUint64 wrote, for every uint64.
pub decode_uint64-encode_uint64 : (v : ℕ) → v < 2 ^ 64 → decode_uint64 (encode_uint64 v) ≡ (v, none)
decode_uint64-encode_uint64 v h =
    (decode_uint64-checked (encode_uint64 v) v).1 (checked-encode_uint64 v, h)

-- Only the encoding of a uint64 decodes to it by DecodeUint64, up to the case of letters and of the prefix.
pub encode_uint64-decode_uint64 :
    (s : Bytes) (v : ℕ) → decode_uint64 s ≡ (v, none) → (encode_uint64 v ≡ normal s) × (v < 2 ^ 64)
encode_uint64-decode_uint64 s v e =
    let (value, fits) = (decode_uint64-checked s v).0 e in (encode_uint64-checked s v value, fits)

pub encode_big_pos : (n : ℕ) → encode_big (pos n) ≡ encode_uint64 n
unfolding encode_big encode_uint64
encode_big_pos zero = unfold hex_digit in rw (format_hex_small 0 [] (omega arith))
encode_big_pos (suc n) = ground arith

-- DecodeBig reads back what EncodeBig wrote, for every number from 0 to below 2^256.
pub decode_big-encode_big : (n : ℕ) → n < 2 ^ 256 → decode_big (encode_big (pos n)) ≡ ok (pos n)
decode_big-encode_big n h =
    rw (encode_big_pos n)
      ((decode_big-checked (encode_uint64 n) (pos n)).1 (n, refl, checked-encode_uint64 n, h))

-- Only the encoding of a number below 2^256 decodes to it by DecodeBig, up to the case of letters and
-- of the prefix, and no string to a negative one.
pub encode_big-decode_big :
    (s : Bytes) (z : ℤ)
    → decode_big s ≡ ok z
    → (encode_big z ≡ normal s) × (n : ℕ) × (z ≡ pos n) × (n < 2 ^ 256)
encode_big-decode_big s z e =
    let (n, sign, value, fits) = (decode_big-checked s z).0 e in
    (rw sign (encode_big_pos n ∙ encode_uint64-checked s n value), n, sign, fits)

-- EncodeBig writes a negative number in a form that DecodeBig refuses for its missing prefix.
decode_big-encode_big_negative : (n : ℕ) → decode_big (encode_big (negsuc n)) ≡ err missing_prefix
unfolding decode_big encode_big check_number has0x_prefix
decode_big-encode_big_negative n = ground arith
