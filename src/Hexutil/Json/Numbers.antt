-- ===== src/Hexutil/Json/Numbers.antt =====
-- The text methods of Uint64, Uint and Big against DecodeUint64 and DecodeBig.
use airfk.Shared.{
  ℕ, ◌+◌, ◌*◌, ◌%◌, ◌^◌, ◌≤◌, ◌<◌, ◌≡◌, refl, ◌∙◌, none, some, [], ◌∷◌, Bytes, arith, length,
  Option-cases, inl, inr, sym, ◌↔◌,
}
use airfk.Shared.Result.{ok, Result-cases}
use airfk.Shared.Int.{ℤ}
use airfk.GoStd.Strconv.{hex_value}
use airfk.Hexutil.{
  has0x_prefix, check_number, check_digits, decode_uint64, decode_big, decode_word, decode_nibble,
  big_of_digits,
}
use airfk.Hexutil.Words.{decode_word-hex_value}
use airfk.Hexutil.Quantity.{
  checked, IsDigits, check_number-ok, decode_uint64-checked, length_of_value, value_fits,
}
use airfk.Hexutil.Json.{
  check_number_text, uint64_loop, uint64_unmarshal_text, uint_unmarshal_text, big_unmarshal_text,
}

-- Both checks agree on everything but the empty input.
check_number_text-check_number :
    (c : ℕ) (s : Bytes) → check_number_text (c ∷ s) ≡ check_number (c ∷ s)
unfolding check_number_text check_number check_digits
check_number_text-check_number c [] = unfold has0x_prefix in refl
check_number_text-check_number c (x ∷ []) = ground arith
check_number_text-check_number c (x ∷ d ∷ []) = ground arith
check_number_text-check_number c (x ∷ d ∷ e ∷ t) = ground arith

uint64_loop-decode_word : (s : Bytes) (n : ℕ) → uint64_loop n s ≡ decode_word n s
unfolding uint64_loop decode_word
uint64_loop-decode_word [] n = refl
uint64_loop-decode_word (c ∷ s) n =
    ground (arith, uint64_loop-decode_word s ((n * 16 % 2 ^ 64 + decode_nibble c) % 2 ^ 64))

loop_value : (raw : Bytes) → length raw ≤ 16 → uint64_loop 0 raw ≡ hex_value 0 raw
loop_value raw h = uint64_loop-decode_word raw 0 ∙ decode_word-hex_value raw 0 16 h (omega arith)

short_value :
    (raw : Bytes) (v : ℕ)
    → IsDigits raw
    → ((hex_value 0 raw ≡ some v) × (v < 2 ^ 64))
      ↔ ((length raw ≤ 16) × (uint64_loop 0 raw ≡ some v))
short_value raw v d = (
  λ (e, fits).
      let short : length raw ≤ 16 = length_of_value raw v 15 d e fits in
      (short, loop_value raw short ∙ e),
  λ (short, e).
      let value : hex_value 0 raw ≡ some v = sym (loop_value raw short) ∙ e in
      (value, value_fits raw v 16 short value),
)

-- On any input but the empty one Uint64.UnmarshalText succeeds exactly when DecodeUint64 does, with
-- the same value, whatever the receiver was.
pub uint64_unmarshal_text-decode_uint64 :
    (old c : ℕ) (s : Bytes) (v : ℕ)
    → (uint64_unmarshal_text old (c ∷ s) ≡ (v, none)) ↔ (decode_uint64 (c ∷ s) ≡ (v, none))
unfolding uint64_unmarshal_text checked
uint64_unmarshal_text-decode_uint64 old c s v =
    let same = check_number_text-check_number c s in
    let (known, back) = decode_uint64-checked (c ∷ s) v in
    elim (Result-cases (check_number (c ∷ s))) [
      | inr (x, e) ↦ (λ h. ground (arith, same), λ h. ground (arith, known h))
      | inl (raw, e) ↦
          let (there, short) = short_value raw v (check_number-ok (c ∷ s) raw e).1 in
          (
            λ h. back (ground (arith, same, Option-cases (uint64_loop 0 raw), short)),
            λ h. ground (arith, same, known h, there),
          )
    ]

-- On any input but the empty one Uint.UnmarshalText, where uint has 64 bits, succeeds exactly when
-- DecodeUint64 does, with the same value, whatever the receiver was.
pub uint_unmarshal_text-decode_uint64 :
    (old c : ℕ) (s : Bytes) (v : ℕ)
    → (uint_unmarshal_text old (c ∷ s) ≡ (v, none)) ↔ (decode_uint64 (c ∷ s) ≡ (v, none))
unfolding uint_unmarshal_text
uint_unmarshal_text-decode_uint64 old c s v =
    let (there, back) = uint64_unmarshal_text-decode_uint64 0 c s v in
    let (known, _) = decode_uint64-checked (c ∷ s) v in
    (
      λ h. there (ground (arith, Option-cases (uint64_unmarshal_text 0 (c ∷ s)).1)),
      λ h. ground (arith, back h, known h),
    )

-- On any input but the empty one Big.UnmarshalText succeeds exactly when DecodeBig does, with the
-- same value, whatever the receiver was.
pub big_unmarshal_text-decode_big :
    (old : ℤ) (c : ℕ) (s : Bytes) (z : ℤ)
    → (big_unmarshal_text old (c ∷ s) ≡ (z, none)) ↔ (decode_big (c ∷ s) ≡ ok z)
unfolding big_unmarshal_text decode_big
big_unmarshal_text-decode_big old c s z =
    let same = check_number_text-check_number c s in
    elim (Result-cases (check_number (c ∷ s))) [
      | inr (x, e) ↦ (λ h. ground (arith, same), λ h. ground (arith, same))
      | inl (raw, e) ↦ elim (Result-cases (big_of_digits raw)) [
        | inl (w, k) ↦ (λ h. ground (arith, same), λ h. ground (arith, same))
        | inr (x, k) ↦ (λ h. ground (arith, same), λ h. ground (arith, same))
      ]
    ]
