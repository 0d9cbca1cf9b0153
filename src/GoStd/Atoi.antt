-- ===== src/GoStd/Atoi.antt =====
-- strconv.Atoi on a platform of 64 bits, and fmt's %d of an int.
use airfk.Shared.{
  ℕ, zero, suc, ◌+◌, ◌-◌, ◌*◌, ◌/◌, ◌%◌, ◌^◌, ◌≤◌, ◌<◌, ◌≡◌, ◌∙◌, Bool, true, false, Option, none,
  some, [], ◌∷◌, ◌++◌, Bytes, arith, ltb, leb, ◌==◌, if◌then◌else◌, Bool-cases, inl, inr,
  Option-cases,
}
use airfk.Shared.Int.{ℤ, pos, negsuc}
use airfk.GoStd.Strconv.{
  NumError, err_syntax, err_range, parse_uint, parse_loop, digit_val, max_uint64,
}
use airfk.GoStd.Decimal.{digits10, decimal}

unfoldable pub decimal_int : ℤ → Bytes
decimal_int (pos n) = decimal n
decimal_int (negsuc n) = b'-' ∷ decimal (suc n)

-- The value n with a sign, which is an int only up to a bound; a value beyond it is the bound.
unfoldable pub signed_value : Bool → ℕ → ℤ
signed_value false n = if leb (2 ^ 63) n then pos (2 ^ 63 - 1) else pos n
signed_value true zero = pos 0
signed_value true (suc n) = if leb (2 ^ 63) n then negsuc (2 ^ 63 - 1) else negsuc n

-- The value beside an error, which is dropped: 0 for a syntax error, a bound for a range error.
unfoldable pub int_value : Bool → ℕ × Option NumError → ℤ
int_value negative (n, some err_syntax) = pos 0
int_value negative (n, some err_range) = signed_value negative n
int_value negative (n, none) = signed_value negative n

unfoldable pub atoi : Bytes → ℤ
atoi [] = pos 0
atoi (c ∷ s) =
    if c == b'-'
    then int_value true (parse_uint 10 s)
    else if c == b'+'
    then int_value false (parse_uint 10 s)
    else int_value false (parse_uint 10 (c ∷ s))

parse_loop-append :
    (n m : ℕ) (s t : Bytes)
    → parse_loop 10 n s ≡ (m, none)
    → parse_loop 10 n (s ++ t) ≡ parse_loop 10 m t
unfolding parse_loop
parse_loop-append n m [] t e = ground arith
parse_loop-append n m (c ∷ s) t e = elim (Option-cases (digit_val c)) [
  | inl bad ↦ absurd (ground arith)
  | inr (d, good) ↦ ground (arith, parse_loop-append ((n * 10 + d) % 2 ^ 64) m s t)
]

parse_loop-digit :
    (n d v : ℕ) → d < 10 → n * 10 + d ≡ v → v < 2 ^ 64 → parse_loop 10 n ((d + 48) ∷ []) ≡ (v, none)
unfolding parse_loop digit_val max_uint64
parse_loop-digit n d v h e k = ground arith

parse_loop-digits10 :
    (fuel n : ℕ) → n < fuel → n < 2 ^ 64 → parse_loop 10 0 (digits10 fuel n) ≡ (n, none)
unfolding digits10
parse_loop-digits10 zero n h k = absurd (omega arith)
parse_loop-digits10 (suc fuel) n h k = elim (Bool-cases (ltb n 10)) [
  | inl small ↦ rw small (parse_loop-digit 0 n n (ground arith) (omega arith) k)
  | inr large ↦ rw large (
      parse_loop-append 0 (n / 10) (digits10 fuel (n / 10)) ((n % 10 + 48) ∷ [])
        (parse_loop-digits10 fuel (n / 10) (ground arith) (omega arith))
      ∙ parse_loop-digit (n / 10) (n % 10) n (omega arith) (omega arith) k)
]

-- The digits of a number start with a digit.
first_digit :
    (fuel n : ℕ)
    → n < fuel
    → (c : ℕ) × (s : Bytes) × (digits10 fuel n ≡ c ∷ s) × (48 ≤ c) × (c < 58)
unfolding digits10
first_digit zero n h = absurd (omega arith)
first_digit (suc fuel) n h = elim (Bool-cases (ltb n 10)) [
  | inl small ↦ (n + 48, [], rw small, omega arith, ground arith)
  | inr large ↦
      let (c, s, e, low, high) = first_digit fuel (n / 10) (ground arith) in
      (c, s ++ (n % 10 + 48) ∷ [], rw large (rw e), low, high)
]

-- Atoi reads back what %d writes, for an int that is not negative.
pub atoi-decimal : (n : ℕ) → n < 2 ^ 63 → atoi (decimal n) ≡ pos n
unfolding atoi int_value signed_value decimal parse_uint
atoi-decimal n h =
    let (c, s, e, low, high) = first_digit (suc n) n (omega arith) in
    let value : parse_loop 10 0 (c ∷ s) ≡ (n, none) =
      rw e at (parse_loop-digits10 (suc n) n (omega arith) (omega arith)) in
    rw e (ground arith)
