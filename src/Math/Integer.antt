-- ===== src/Math/Integer.antt =====
-- pkg/common/math/integer.go: arithmetic on uint64 that reports overflow, and ParseUint64.
use airfk.Shared.{
  ℕ, zero, suc, ◌+◌, ◌-◌, ◌*◌, ◌/◌, ◌%◌, ◌^◌, ◌<◌, ◌≡◌, Bool, true, false, ◌||◌, ◌↔◌, Option, none,
  some, [], ◌∷◌, Bytes, codes, arith, ltb, leb, ◌==◌, if◌then◌else◌, length, drop, has_prefix,
}
use native.Mathlib.Nat.{div-lt_iff_lt-mul, mul_comm}
use airfk.GoStd.Strconv.{NumError, parse_uint, format_hex, max_uint64}

unfoldable pub is_ok : ℕ × Option NumError → ℕ × Bool
is_ok (v, none) = (v, true)
is_ok (v, some e) = (v, false)

unfoldable pub parse_uint64 : Bytes → ℕ × Bool
parse_uint64 s =
    if length s == 0
    then (0, true)
    else if has_prefix s (codes "0x") || has_prefix s (codes "0X")
    then is_ok (parse_uint 16 (drop 2 s))
    else is_ok (parse_uint 10 s)

-- `none` is the panic.
unfoldable pub must_parse_uint64 : Bytes → Option ℕ
must_parse_uint64 s = if (parse_uint64 s).1 then some (parse_uint64 s).0 else none

-- The new value, or the error.
unfoldable pub unmarshal_text : Bytes → Option ℕ
unmarshal_text input = if (parse_uint64 input).1 then some (parse_uint64 input).0 else none

unfoldable pub marshal_text : ℕ → Bytes
marshal_text i = b'0' ∷ b'x' ∷ format_hex i []

-- The difference wraps around.
unfoldable pub safe_sub : ℕ → ℕ → ℕ × Bool
safe_sub x y = ((x + (2 ^ 64 - y)) % 2 ^ 64, ltb x y)

unfoldable pub safe_add : ℕ → ℕ → ℕ × Bool
safe_add x y = ((x + y) % 2 ^ 64, ltb (max_uint64 - x) y)

unfoldable pub safe_mul : ℕ → ℕ → ℕ × Bool
safe_mul x y = if x == 0 || y == 0 then (0, false) else ((x * y) % 2 ^ 64, ltb (max_uint64 / x) y)

-- The quotient test of SafeMul.
quotient_test : (x y m : ℕ) → 0 < x → (m / x < y) ↔ (m < x * y)
quotient_test x y m h = rw (mul_comm x y) (div-lt_iff_lt-mul h)

safe_mul_flag : (x y : ℕ) → safe_mul x y ≡ (x * y % 2 ^ 64, leb (2 ^ 64) (x * y))
unfolding safe_mul max_uint64
safe_mul_flag zero y = ground arith
safe_mul_flag (suc x) zero = ground arith
safe_mul_flag (suc x) (suc y) = ground (arith, quotient_test (suc x) (suc y) (2 ^ 64 - 1))

-- On uint64s SafeAdd and SafeMul return the sum and the product modulo 2 ^ 64, with a flag that is
-- set exactly when the exact one does not fit; SafeSub returns the difference, or what is 2 ^ 64
-- more with a flag when it is negative.
pub overflow_flags :
    (x y : ℕ)
    → x < 2 ^ 64
    → y < 2 ^ 64
    → (safe_add x y ≡ ((x + y) % 2 ^ 64, leb (2 ^ 64) (x + y)))
      × (safe_mul x y ≡ (x * y % 2 ^ 64, leb (2 ^ 64) (x * y)))
      × (safe_sub x y ≡ (if leb y x then (x - y, false) else (2 ^ 64 - (y - x), true)))
unfolding safe_add safe_sub max_uint64
overflow_flags x y hx hy = (ground arith, safe_mul_flag x y, ground arith)
