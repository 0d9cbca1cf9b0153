-- ===== src/Math/Big.antt =====
-- HexOrDecimal256, ParseBig256, BigMax, BigMin, FirstBitSet, BigPow and S256 of pkg/common/math/big.go, on
-- integers of any size. A big.Int that is nil is `none`.
use airfk.Shared.{
  ℕ, zero, suc, ◌+◌, ◌-◌, ◌*◌, ◌/◌, ◌%◌, ◌^◌, refl, ◌<◌, ◌≡◌, ◌∙◌, ap, Bool, true, false, ◌&&◌,
  ◌||◌, Option, none, some, [], ◌∷◌, append-nil, Bytes, codes, arith, leb, ltb, ◌==◌, if◌then◌else◌,
  length, drop, has_prefix,
}
use airfk.Shared.Int.{ℤ, pos, negsuc, nat_abs}
use airfk.GoStd.Hex.{from_hex_char}
use airfk.GoStd.Strconv.{hex_value, format_hex, hex_value-format_hex}
use airfk.Hexutil.{sharp_x}
use airfk.Hexutil.RoundTrip.{Shape, format_hex-Shape}

unfoldable pub decimal_value : ℕ → Bytes → Option ℕ
decimal_value n [] = some n
decimal_value n (c ∷ s) =
    let rest = decimal_value (n * 10 + (c - 48)) s in if leb 48 c && leb c 57 then rest else none

-- big.Int.SetString in base 16 and in base 10: a sign or none, and at least one digit.
unfoldable pub digits_value : Bool → Bytes → Option ℕ
digits_value hex [] = none
digits_value hex (c ∷ s) = if hex then hex_value 0 (c ∷ s) else decimal_value 0 (c ∷ s)

unfoldable pub negated : Option ℕ → Option ℤ
negated none = none
negated (some zero) = some (pos 0)
negated (some (suc n)) = some (negsuc n)

unfoldable pub positive : Option ℕ → Option ℤ
positive none = none
positive (some n) = some (pos n)

unfoldable pub set_string : Bool → Bytes → Option ℤ
set_string hex [] = none
set_string hex (c ∷ s) =
    if c == b'-'
    then negated (digits_value hex s)
    else if c == b'+'
    then positive (digits_value hex s)
    else positive (digits_value hex (c ∷ s))

unfoldable pub within_256 : Option ℤ → Option ℤ
within_256 none = none
within_256 (some z) = if leb (2 ^ 256) (nat_abs z) then none else some z

unfoldable pub parse_big256 : Bytes → Option ℤ
parse_big256 s =
    if length s == 0
    then some (pos 0)
    else if has_prefix s (codes "0x") || has_prefix s (codes "0X")
    then within_256 (set_string true (drop 2 s))
    else within_256 (set_string false s)

-- `none` is the panic.
unfoldable pub must_parse_big256 : Bytes → Option ℤ
must_parse_big256 s = parse_big256 s

-- The new value, or nothing beside an error.
unfoldable pub unmarshal_text : Bytes → Option ℤ
unmarshal_text input = parse_big256 input

unfoldable pub marshal_text : Option ℤ → Bytes
marshal_text none = codes "0x0"
marshal_text (some z) = sharp_x z

-- `none` is the panic.
unfoldable pub must_string_to_big_int : Bytes → Option ℤ
must_string_to_big_int str = set_string false str

-- Whether the first is the smaller one.
unfoldable pub less : ℤ → ℤ → Bool
less (pos x) (pos y) = ltb x y
less (pos x) (negsuc y) = false
less (negsuc x) (pos y) = true
less (negsuc x) (negsuc y) = ltb y x

unfoldable pub big_max : ℤ → ℤ → ℤ
big_max x y = if less x y then y else x

unfoldable pub big_min : ℤ → ℤ → ℤ
big_min x y = if less y x then y else x

unfoldable pub s256 : ℕ → ℤ
s256 x =
    if ltb x (2 ^ 255)
    then pos x
    else if leb (2 ^ 256) x
    then pos (x - 2 ^ 256)
    else negsuc (2 ^ 256 - 1 - x)

hex_signed :
    (s : Bytes) (c : ℕ) (t : Bytes) (n : ℕ)
    → s ≡ c ∷ t
    → hex_value 0 s ≡ some n
    → set_string true s ≡ some (pos n)
unfolding set_string digits_value positive hex_value from_hex_char
hex_signed [] c t n e h = absurd (cc e)
hex_signed (d ∷ s) c t n e h = ground (arith, h)

read_back : (n : ℕ) → n < 2 ^ 256 → parse_big256 (sharp_x (pos n)) ≡ some (pos n)
unfolding parse_big256 within_256 has_prefix hex_value
read_back n h =
    let p : Shape n [] = format_hex-Shape n [] in
    let read =
      hex_signed (format_hex n []) p.first p.others n
        (p.digits ∙ ap (λ l. p.first ∷ l) (append-nil p.others)) (hex_value-format_hex n []) in
    ground (arith, read, h)

refused : (n : ℕ) → parse_big256 (sharp_x (negsuc n)) ≡ none
unfolding parse_big256 within_256 has_prefix set_string digits_value negated decimal_value
refused n = ground arith

-- What MarshalText writes of an integer of at most 256 bits that is not negative, ParseBig256 reads
-- back; what it writes of a negative integer, ParseBig256 refuses.
pub parse_big256-marshal_text :
    (n : ℕ)
    → n < 2 ^ 256
    → (parse_big256 (marshal_text (some (pos n))) ≡ some (pos n))
      × (parse_big256 (marshal_text (some (negsuc n))) ≡ none)
unfolding marshal_text
parse_big256-marshal_text n h = (read_back n h, refused n)

-- big.Int.BitLen of the absolute value. The fuel is the number, which is more than its bits.
unfoldable pub bit_len_of : ℕ → ℕ → ℕ
bit_len_of zero n = 0
bit_len_of (suc fuel) n = let rest = suc (bit_len_of fuel (n / 2)) in if n == 0 then 0 else rest

unfoldable pub bit_len : ℤ → ℕ
unfolding bit_len_of
bit_len z = bit_len_of (nat_abs z) (nat_abs z)

-- The loop of FirstBitSet with `k` rounds left. The lowest bits that are set of an integer and of its
-- absolute value are the same.
unfoldable pub first_bit_loop : ℕ → ℕ → ℕ → ℕ
first_bit_loop zero i n = i
first_bit_loop (suc k) i n =
    let rest = first_bit_loop k (i + 1) n in if ltb 0 (n / 2 ^ i % 2) then i else rest

unfoldable pub first_bit_set : ℤ → ℕ
unfolding bit_len first_bit_loop
first_bit_set z = first_bit_loop (bit_len z) 0 (nat_abs z)

-- big.Int.Exp without a modulus: 1 for an exponent that is not positive.
unfoldable pub power : ℤ → ℕ → ℤ
power (pos a) b = pos (a ^ b)
power (negsuc a) b =
    if b % 2 == 0 then pos (suc a ^ b) else elim (suc a ^ b) [ zero ↦ pos 0 | suc m ↦ negsuc m ]

unfoldable pub big_pow : ℤ → ℤ → ℤ
unfolding power
big_pow a (pos b) = power a b
big_pow a (negsuc b) = pos 1

first_bit_set_24 : first_bit_set (negsuc 23) ≡ 3
unfolding first_bit_set
first_bit_set_24 = refl

big_pow_27 : big_pow (negsuc 2) (pos 3) ≡ negsuc 26
unfolding big_pow
big_pow_27 = refl
