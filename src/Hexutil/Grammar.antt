-- ===== src/Hexutil/Grammar.antt =====
-- The quantities of the package comment of hexutil.go: the prefix, then the least number of digits.
use airfk.Shared.{
  ℕ, ◌^◌, ◌<◌, ◌≡◌, refl, ◌&&◌, ◌||◌, ◌↔◌, Option, none, some, [], ◌∷◌, Bytes, arith, ◌==◌,
  if◌then◌else◌,
}
use airfk.Shared.Result.{ok, err}
use airfk.Shared.Int.{ℤ, pos}
use airfk.GoStd.Strconv.{hex_value}
use airfk.Hexutil.{decode_uint64, decode_big, check_number, check_digits, has0x_prefix}
use airfk.Hexutil.Quantity.{checked, decode_uint64-checked, decode_big-checked}

-- The number that digits stand for: there is one at least, and zero is not followed by another.
unfoldable pub digits_value : Bytes → Option ℕ
digits_value [] = none
digits_value (c ∷ []) = hex_value 0 (c ∷ [])
digits_value (c ∷ d ∷ s) = if c == b'0' then none else hex_value 0 (c ∷ d ∷ s)

unfoldable pub quantity : Bytes → Option ℕ
quantity [] = none
quantity (a ∷ []) = none
quantity (a ∷ b ∷ s) = if a == b'0' && (b == b'x' || b == b'X') then digits_value s else none

checked_digits :
    (s : Bytes)
    → (elim (check_digits s) as (λ _. Option ℕ) [ err e ↦ none | ok raw ↦ hex_value 0 raw ])
      ≡ digits_value s
unfolding check_digits digits_value
checked_digits [] = refl
checked_digits (c ∷ []) = refl
checked_digits (c ∷ d ∷ s) = ground arith

pub quantity-checked : (s : Bytes) → quantity s ≡ checked s
unfolding quantity checked check_number has0x_prefix
quantity-checked [] = refl
quantity-checked (a ∷ []) = refl
quantity-checked (a ∷ b ∷ s) = ground (arith, checked_digits s)

-- DecodeUint64 succeeds exactly on the well-formed quantities that fit 64 bits, with their value.
pub decode_uint64-quantity :
    (s : Bytes) (v : ℕ) → (decode_uint64 s ≡ (v, none)) ↔ ((quantity s ≡ some v) × (v < 2 ^ 64))
decode_uint64-quantity s v = rw (quantity-checked s) (decode_uint64-checked s v)

-- DecodeBig succeeds exactly on the well-formed quantities below 2^256, with their value.
pub decode_big-quantity :
    (s : Bytes) (z : ℤ)
    → (decode_big s ≡ ok z) ↔ ((v : ℕ) × (z ≡ pos v) × (quantity s ≡ some v) × (v < 2 ^ 256))
decode_big-quantity s z = rw (quantity-checked s) (decode_big-checked s z)
