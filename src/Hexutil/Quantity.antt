-- ===== src/Hexutil/Quantity.antt =====
-- Quantities: hex numbers without leading zeros, in the two decoders and the two encoders of
-- hexutil.go, against the value of the digits.
use airfk.Shared.{
  ℕ, zero, suc, ◌+◌, ◌*◌, ◌/◌, ◌^◌, ◌≤◌, ◌<◌, ◌≡◌, refl, Option, none, some, [], ◌∷◌, Bytes, arith,
  ◌==◌, length, drop, Option-cases, inl, inr, ◌↔◌,
}
use airfk.Shared.{Bool-cases}
use airfk.Hexutil.Words.{pow16}
use airfk.Shared.Result.{ok, err, Result-cases}
use airfk.Shared.Int.{ℤ, pos}
use native.Mathlib.Decide.{dec_le}
use native.Mathlib.Nat.{pow-le-pow_right}
use airfk.GoStd.Hex.{from_hex_char, from_hex_char-lt, lower}
use airfk.GoStd.Strconv.{hex_value, parse_uint}
use airfk.GoStd.Strconv.Base16.{loop_sound, loop_complete}
use airfk.Hexutil.{
  has0x_prefix, check_number, check_digits, decode_uint64, decode_words, big_of_digits, decode_big,
  set_bits,
}
use airfk.Hexutil.Words.{words_value, pow16}

-- The value of the digits that checkNumber lets through, of any size.
unfoldable pub checked : Bytes → Option ℕ
checked s = elim (check_number s) [ err e ↦ none | ok raw ↦ hex_value 0 raw ]

-- Prefix and letters as the encoders write them.
unfoldable pub normal : Bytes → Bytes
normal s = b'0' ∷ b'x' ∷ lower (drop 2 s)

-- What passes checkNumber: at least one digit, and a zero in front only alone.
pub record IsDigits (raw : Bytes) : Type 0 where
  pub first : ℕ
  pub others : Bytes
  pub digits : raw ≡ first ∷ others
  pub zero_alone : first ≡ b'0' → others ≡ []

check_digits-ok : (s raw : Bytes) → check_digits s ≡ ok raw → (s ≡ raw) × IsDigits raw
unfolding check_digits
check_digits-ok [] raw e = cc
check_digits-ok (c ∷ []) raw e =
    (ground arith, record { first = c; others = []; digits = ground arith; zero_alone = λ _. refl })
check_digits-ok (c ∷ d ∷ t) raw e = (
  ground arith,
  record { first = c; others = d ∷ t; digits = ground arith; zero_alone = λ z. ground arith },
)

pub check_number-ok : (s raw : Bytes) → check_number s ≡ ok raw → (drop 2 s ≡ raw) × IsDigits raw
unfolding check_number
check_number-ok s raw e = elim (Bool-cases (length s == 0)) [
  | inl empty ↦ ground arith
  | inr some_bytes ↦ elim (Bool-cases (has0x_prefix s)) [
    | inl prefixed ↦ check_digits-ok (drop 2 s) raw (ground arith)
    | inr bare ↦ ground arith
  ]
]

parse_raw :
    (raw : Bytes) (v : ℕ)
    → IsDigits raw
    → (parse_uint 16 raw ≡ (v, none)) ↔ ((hex_value 0 raw ≡ some v) × (v < 2 ^ 64))
unfolding parse_uint
parse_raw [] v d = absurd (cc (d.digits))
parse_raw (c ∷ t) v d =
    (λ e. loop_sound (c ∷ t) 0 v (omega arith) e, λ e. loop_complete (c ∷ t) 0 v e.1 e.0)

-- DecodeUint64 behind checkNumber.
pub decode_uint64-checked :
    (s : Bytes) (v : ℕ) → (decode_uint64 s ≡ (v, none)) ↔ ((checked s ≡ some v) × (v < 2 ^ 64))
unfolding decode_uint64 checked
decode_uint64-checked s v = elim (Result-cases (check_number s)) [
  | inl (raw, e) ↦
      let (there, back) = parse_raw raw v (check_number-ok s raw e).1 in
      (λ h. ground (arith, there), λ h. ground (arith, back))
  | inr (x, e) ↦ (λ h. ground arith, λ h. ground arith)
]

-- Bounds on a value from the number of its digits.
hex_value_bounds :
    (s : Bytes) (n v : ℕ)
    → hex_value n s ≡ some v
    → (n * 16 ^ length s ≤ v) × (v < (n + 1) * 16 ^ length s)
unfolding hex_value
hex_value_bounds [] n v e = ground arith
hex_value_bounds (c ∷ s) n v e = elim (Option-cases (from_hex_char c)) [
  | inl k ↦ ground arith
  | inr (d, k) ↦
      let h : hex_value (n * 16 + d) s ≡ some v = ground arith in
      let (low, high) = hex_value_bounds s (n * 16 + d) v h in
      let small : d < 16 = from_hex_char-lt c d k in
      let room : (d + 1) * 16 ^ length s ≤ 16 * 16 ^ length s = grind arith in
      rw ((pow16 (length s)).0) (omega (arith, low), omega (arith, high, room))
]

pub digit_zero : (c : ℕ) → from_hex_char c ≡ some 0 → c ≡ b'0'
unfolding from_hex_char
digit_zero c e = ground arith

-- Digits of a value below 16 ^ k are at most k.
pub length_of_value :
    (raw : Bytes) (v k : ℕ)
    → IsDigits raw
    → hex_value 0 raw ≡ some v
    → v < 16 ^ suc k
    → length raw ≤ suc k
unfolding hex_value
length_of_value [] v k d e h = omega arith
length_of_value (c ∷ t) v k d e h = elim (Option-cases (from_hex_char c)) [
  | inl bad ↦ ground arith
  | inr (zero, x) ↦
      let alone : t ≡ [] = ground (arith, d.digits, d.zero_alone, digit_zero c x) in
      rw alone (omega arith)
  | inr (suc x, good) ↦
      let value : hex_value (0 * 16 + suc x) t ≡ some v = ground arith in
      let (low, _) = hex_value_bounds t (0 * 16 + suc x) v value in
      elim (dec_le (suc k) (length t)) [
        | no short ↦ omega arith
        | yes long ↦
            let power : 16 ^ suc k ≤ 16 ^ length t = pow-le-pow_right (omega arith) long in
            let weight : 16 ^ length t ≤ suc x * 16 ^ length t = grind arith in
            absurd (omega (arith, low, power, weight))
      ]
]

pub value_fits : (raw : Bytes) (v k : ℕ) → length raw ≤ k → hex_value 0 raw ≡ some v → v < 16 ^ k
value_fits raw v k h e =
    let (_, high) = hex_value_bounds raw 0 v e in
    let power : 16 ^ length raw ≤ 16 ^ k = pow-le-pow_right (omega arith) h in
    omega (arith, high, power)

big_raw_sound :
    (raw : Bytes) (z : ℤ)
    → big_of_digits raw ≡ ok z
    → (v : ℕ) × (z ≡ pos v) × (hex_value 0 raw ≡ some v) × (v < 2 ^ 256)
unfolding big_of_digits
big_raw_sound raw z e = elim (Option-cases (decode_words (length raw / 16 + 1) raw (length raw))) [
  | inl k ↦ ground arith
  | inr (words, k) ↦
      let value : hex_value 0 raw ≡ some (set_bits words) = ground (arith, words_value raw) in
      let short : length raw ≤ 64 = ground arith in
      (set_bits words, ground arith, value, value_fits raw (set_bits words) 64 short value)
]

big_raw_complete :
    (raw : Bytes) (v : ℕ)
    → IsDigits raw
    → hex_value 0 raw ≡ some v
    → v < 2 ^ 256
    → big_of_digits raw ≡ ok (pos v)
unfolding big_of_digits
big_raw_complete raw v d e h =
    let short : length raw ≤ 64 = length_of_value raw v 63 d e h in
    elim (Option-cases (decode_words (length raw / 16 + 1) raw (length raw))) [
      | inl k ↦ ground (arith, words_value raw)
      | inr (words, k) ↦ ground (arith, words_value raw)
    ]

-- DecodeBig behind checkNumber.
pub decode_big-checked :
    (s : Bytes) (z : ℤ)
    → (decode_big s ≡ ok z) ↔ ((v : ℕ) × (z ≡ pos v) × (checked s ≡ some v) × (v < 2 ^ 256))
unfolding decode_big checked
decode_big-checked s z = elim (Result-cases (check_number s)) [
  | inl (raw, e) ↦ (
    λ h.
        let (v, sign, value, fits) = big_raw_sound raw z (ground arith) in
        (v, sign, ground arith, fits),
    λ (v, sign, value, fits).
        let done : big_of_digits raw ≡ ok (pos v) =
          big_raw_complete raw v (check_number-ok s raw e).1 (ground arith) fits in
        ground arith,
  )
  | inr (x, e) ↦ (λ h. ground arith, λ h. ground arith)
]

-- Both decoders read a quantity of 64 bits alike.
pub decode_big-decode_uint64 :
    (s : Bytes) (v : ℕ)
    → (decode_uint64 s ≡ (v, none)) ↔ ((decode_big s ≡ ok (pos v)) × (v < 2 ^ 64))
decode_big-decode_uint64 s v = (
  λ e.
      let (value, fits) = (decode_uint64-checked s v).0 e in
      ((decode_big-checked s (pos v)).1 (v, refl, value, omega arith), fits),
  λ (e, fits).
      let (u, sign, value, _) = (decode_big-checked s (pos v)).0 e in
      (decode_uint64-checked s v).1 (ground arith, fits),
)
