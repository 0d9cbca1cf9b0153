-- ===== src/GoStd/Strconv.antt =====
-- strconv (ParseUint with bit size 64 and a fixed base, AppendUint in base 16), and the digits of a
-- number of any size, as math/big prints it with %x.
pub mod Base16
use airfk.Shared.{
  ℕ, zero, suc, ◌+◌, ◌-◌, ◌*◌, ◌/◌, ◌%◌, ◌^◌, ◌≤◌, ◌<◌, ◌≡◌, refl, ◌∙◌, Bool, true, false, ◌&&◌,
  Option, none, some, List, [], ◌∷◌, ◌++◌, Bytes, All, arith, ltb, leb, if◌then◌else◌, length,
  Option-cases, inl, inr, sym, ap,
}
use airfk.Shared.Order.{lt_wf}
use airfk.GoStd.Hex.{from_hex_char, hex_digit, lower_digit, lower}
use airfk.GoStd.Hex
use mathlib.Core.WellFounded.{Acc}
use mathlib.Core.Logic.{dite, dif_pos, dif_neg}
use mathlib.Core.WellFounded.{induction}
use native.Mathlib.Bridge.{le_prop}
use native.Mathlib.Decide.{dec_lt}

pub data NumError : Type 0 where
  err_syntax err_range : NumError

unfoldable pub max_uint64 : ℕ
max_uint64 = 2 ^ 64 - 1

-- A digit of any base up to 36.
unfoldable pub digit_val : ℕ → Option ℕ
digit_val c =
    if leb 48 c && leb c 57
    then some (c - 48)
    else if leb 97 c && leb c 122
    then some (c - 97 + 10)
    else if leb 65 c && leb c 90
    then some (c - 65 + 10)
    else none

-- The loop of ParseUint: the value is 0 beside a syntax error and the maximum beside a range error.
unfoldable pub parse_loop : ℕ → ℕ → Bytes → ℕ × Option NumError
parse_loop base n [] = (n, none)
parse_loop base n (c ∷ s) = elim (digit_val c) [
  | none ↦ (0, some err_syntax)
  | some d ↦
      let sum = (n * base + d) % 2 ^ 64 in
      let rest = parse_loop base sum s in
      if leb base d
      then (0, some err_syntax)
      else if leb (max_uint64 / base + 1) n
      then (max_uint64, some err_range)
      else if ltb sum (n * base)
      then (max_uint64, some err_range)
      else rest
]

unfoldable pub parse_uint : ℕ → Bytes → ℕ × Option NumError
parse_uint base [] = (0, some err_syntax)
parse_uint base (c ∷ s) = parse_loop base 0 (c ∷ s)

pub shrinks : (n : ℕ) → 15 < n → n / 16 < n
shrinks n h = omega arith

-- The digits of `n` in base 16, without leading zeros, in front of `tail`.
pub format_acc : (n : ℕ) → Acc ◌<◌ n → Bytes → Bytes
format_acc n (Acc.intro _ smaller) tail =
    dite (dec_lt 15 n)
      (λ h. format_acc (n / 16) (smaller (n / 16) (shrinks n h)) (hex_digit (n % 16) ∷ tail))
      (λ _. hex_digit n ∷ tail)

unfoldable pub format_hex : ℕ → Bytes → Bytes
unfolding format_acc lt_wf dec_lt
format_hex n tail = format_acc n (lt_wf.apply n) tail

format_acc-irrelevant :
    (n : ℕ) (v w : Acc ◌<◌ n) (tail : Bytes) → format_acc n v tail ≡ format_acc n w tail
unfolding format_acc
format_acc-irrelevant n (Acc.intro _ f) (Acc.intro _ g) tail = elim (dec_lt 15 n) [
  | yes p ↦
      rw (dif_pos _ le_prop p, dif_pos _ le_prop p)
        (format_acc-irrelevant (n / 16) (f (n / 16) (shrinks n p)) (g (n / 16) (shrinks n p))
          (hex_digit (n % 16) ∷ tail))
  | no p ↦ rw (dif_neg _ p, dif_neg _ p)
]

pub format_hex_small : (n : ℕ) (tail : Bytes) → n < 16 → format_hex n tail ≡ hex_digit n ∷ tail
unfolding format_hex format_acc lt_wf
format_hex_small n tail h = ground arith

format_acc_large :
    (n : ℕ) (v : Acc ◌<◌ n) (w : Acc ◌<◌ (n / 16)) (tail : Bytes)
    → 15 < n
    → format_acc n v tail ≡ format_acc (n / 16) w (hex_digit (n % 16) ∷ tail)
unfolding format_acc
format_acc_large n (Acc.intro _ f) w tail h =
    rw (dif_pos _ le_prop h)
      (format_acc-irrelevant (n / 16) (f (n / 16) (shrinks n h)) w (hex_digit (n % 16) ∷ tail))

pub format_hex_large :
    (n : ℕ) (tail : Bytes)
    → 15 < n
    → format_hex n tail ≡ format_hex (n / 16) (hex_digit (n % 16) ∷ tail)
unfolding format_hex
format_hex_large n tail h = format_acc_large n (lt_wf.apply n) (lt_wf.apply (n / 16)) tail h

-- The number that hex digits spell, read after the digits of `n`.
unfoldable pub hex_value : ℕ → Bytes → Option ℕ
hex_value n [] = some n
hex_value n (c ∷ s) = elim (from_hex_char c) [ none ↦ none | some d ↦ hex_value (n * 16 + d) s ]

hex_value_digit :
    (n d c : ℕ) (s : Bytes)
    → from_hex_char c ≡ some d
    → hex_value n (c ∷ s) ≡ hex_value (n * 16 + d) s
hex_value_digit n d c s h = unfold hex_value in rw (h, hex_value)

-- Reading the digits of `n` from nothing is being at `n`.
pub hex_value-format_hex :
    (n : ℕ) (tail : Bytes) → hex_value 0 (format_hex n tail) ≡ hex_value n tail
hex_value-format_hex n =
    induction lt_wf {C = λ k. (tail : Bytes) → hex_value 0 (format_hex k tail) ≡ hex_value k tail} n
      λ k ih tail. elim (dec_lt 15 k) [
        | yes p ↦ rw (format_hex_large k tail p) (
            ih (k / 16) (omega arith) (hex_digit (k % 16) ∷ tail)
            ∙ hex_value_digit (k / 16) (k % 16) _ tail
                (Hex.from_hex_char-hex_digit (k % 16) (omega arith))
            ∙ ap (λ (m : ℕ). hex_value m tail) (omega arith))
        | no p ↦ rw (format_hex_small k tail (omega arith)) (
            hex_value_digit 0 k _ tail (Hex.from_hex_char-hex_digit k (omega arith))
            ∙ ap (λ (m : ℕ). hex_value m tail) (omega arith))
      ]

-- The digits read after those of a positive `n` stand behind them, in lower case.
pub format_hex-hex_value :
    (s tail : Bytes) (n v : ℕ)
    → 0 < n
    → hex_value n s ≡ some v
    → format_hex v tail ≡ format_hex n (lower s ++ tail)
unfolding hex_value lower
format_hex-hex_value [] tail n v h e = ground arith
format_hex-hex_value (c ∷ s) tail n v h e = elim (Option-cases (from_hex_char c)) [
  | inl k ↦ ground arith
  | inr (d, k) ↦ ground (
    arith,
    Hex.from_hex_char-lt c d,
    Hex.hex_digit-from_hex_char c d,
    format_hex-hex_value s tail (n * 16 + d) v,
    format_hex_large (n * 16 + d) (lower s ++ tail),
  )
]

-- A value grows with the digits read.
pub hex_value-le : (s : Bytes) (n v : ℕ) → hex_value n s ≡ some v → n ≤ v
unfolding hex_value
hex_value-le [] n v e = ground arith
hex_value-le (c ∷ s) n v e = elim (Option-cases (from_hex_char c)) [
  | inl k ↦ ground arith
  | inr (d, k) ↦ ground (arith, hex_value-le s (n * 16 + d) v)
]
