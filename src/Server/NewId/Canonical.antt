-- ===== src/Server/NewId/Canonical.antt =====
-- The texts that NewID makes (pkg/server/subscription.go) as quantities of hexutil.
use airfk.Shared.{
  ℕ, zero, suc, ◌+◌, ◌-◌, ◌*◌, ◌/◌, ◌%◌, ◌<◌, ◌≡◌, refl, ◌∙◌, sym, ap, ◌≢◌, some, [], ◌∷◌, ◌++◌,
  Bytes, arith, ltb, ◌==◌, if◌then◌else◌, All, Bool-cases, inl, inr,
}
use airfk.GoStd.Hex
use airfk.GoStd.Hex.{
  from_hex_char, hex_digit, lower_digit, lower, from_hex_char-hex_digit, hex_digit-from_hex_char,
}
use airfk.GoStd.Strconv.{hex_value}
use airfk.Hexutil.{encode_uint64}
use airfk.Hexutil.Quantity.{normal}
use airfk.Hexutil.Grammar.{quantity, digits_value, quantity-checked}
use airfk.Hexutil.RoundTrip.{encode_uint64-checked}
use airfk.Server.NewId.{low_bytes, fill, trim_zeros, or_zero, new_id}

abbrev IsLowHex : ℕ → Type 0
IsLowHex c = (d : ℕ) × (from_hex_char c ≡ some d) × (lower_digit c ≡ c)

low_digit : (d : ℕ) → d < 16 → IsLowHex (hex_digit d)
low_digit d h = (
  d,
  from_hex_char-hex_digit d h,
  sym (hex_digit-from_hex_char (hex_digit d) d (from_hex_char-hex_digit d h)),
)

encode_low : (bs : Bytes) → All (λ b. b < 256) bs → All IsLowHex (Hex.encode bs)
unfolding Hex.encode
encode_low [] h = tt
encode_low (b ∷ bs) (h, hs) =
    (low_digit (b / 16) (omega arith), (low_digit (b % 16) (omega arith), encode_low bs hs))

trim_low : (s : Bytes) → All IsLowHex s → All IsLowHex (trim_zeros s)
unfolding trim_zeros
trim_low [] h = tt
trim_low (c ∷ s) h = elim (Bool-cases (c == b'0')) [
  | inl z ↦ rw z (trim_low s h.1)
  | inr n ↦ rw n h
]

All-append :
    (xs ys : Bytes) → All (λ b. b < 256) xs → All (λ b. b < 256) ys → All (λ b. b < 256) (xs ++ ys)
All-append [] ys h k = k
All-append (x ∷ xs) ys (h, hs) k = (h, All-append xs ys hs k)

low_bytes_lt : (n val : ℕ) → All (λ b. b < 256) (low_bytes n val)
unfolding low_bytes
low_bytes_lt zero val = tt
low_bytes_lt (suc n) val = (omega arith, low_bytes_lt n (val / 256))

fill_lt : (draw : ℕ → ℕ) (rounds k left : ℕ) → All (λ b. b < 256) (fill draw rounds k left)
unfolding fill
fill_lt draw zero k left = tt
fill_lt draw (suc rounds) k left =
    let n = if ltb left 7 then left else 7 in
    All-append (low_bytes n (draw k)) (fill draw rounds (suc k) (left - 7))
      (low_bytes_lt n (draw k)) (fill_lt draw rounds (suc k) (left - 7))

trim_zeros-head : (s t : Bytes) (c : ℕ) → trim_zeros s ≡ c ∷ t → c ≢ b'0'
unfolding trim_zeros
trim_zeros-head [] t c e = absurd (cc e)
trim_zeros-head (d ∷ s) t c e = elim (Bool-cases (d == b'0')) [
  | inl z ↦ trim_zeros-head s t c (rw z at e)
  | inr n ↦ ground arith
]

low_value : (n : ℕ) (s : Bytes) → All IsLowHex s → (v : ℕ) × (hex_value n s ≡ some v)
unfolding hex_value
low_value n [] h = (n, refl)
low_value n (c ∷ s) ((d, good, low), hs) =
    let (v, e) = low_value (n * 16 + d) s hs in (v, ground (arith, good, e))

low_lower : (s : Bytes) → All IsLowHex s → lower s ≡ s
unfolding lower
low_lower [] h = refl
low_lower (c ∷ s) ((d, good, low), hs) = rw low (ap (λ t. c ∷ t) (low_lower s hs))

or_zero_low : (s : Bytes) → All IsLowHex s → All IsLowHex (or_zero s)
unfolding or_zero hex_digit
or_zero_low [] h = (low_digit 0 (omega arith), tt)
or_zero_low (c ∷ s) h = h

or_zero_digits :
    (s : Bytes)
    → All IsLowHex s
    → ((c : ℕ) (t : Bytes) → s ≡ c ∷ t → c ≢ b'0')
    → (v : ℕ) × (digits_value (or_zero s) ≡ some v)
unfolding or_zero digits_value hex_digit
or_zero_digits [] h k = low_value 0 (b'0' ∷ []) (low_digit 0 (omega arith), tt)
or_zero_digits (c ∷ []) h k = low_value 0 (c ∷ []) h
or_zero_digits (c ∷ d ∷ s) h k =
    let (v, e) = low_value 0 (c ∷ d ∷ s) h in (v, ground (arith, k c (d ∷ s) refl, e))

-- Whatever numbers it draws, NewID makes a well-formed quantity, spelled as the encoders of hexutil
-- spell that number.
pub new_id-canonical :
    (draw : ℕ → ℕ) → (v : ℕ) × (quantity (new_id draw) ≡ some v) × (encode_uint64 v ≡ new_id draw)
unfolding new_id
new_id-canonical draw =
    let bytes = fill draw 3 0 16 in
    let s = trim_zeros (Hex.encode bytes) in
    let low : All IsLowHex s =
      trim_low (Hex.encode bytes) (encode_low bytes (fill_lt draw 3 0 16)) in
    let (v, e) = or_zero_digits s low (λ c t. trim_zeros-head (Hex.encode bytes) t c) in
    let q : quantity (b'0' ∷ b'x' ∷ or_zero s) ≡ some v = unfold quantity in e in
    let same : normal (b'0' ∷ b'x' ∷ or_zero s) ≡ b'0' ∷ b'x' ∷ or_zero s =
      unfold normal in ap (λ t. b'0' ∷ b'x' ∷ t) (low_lower (or_zero s) (or_zero_low s low)) in
    (
      v,
      q,
      encode_uint64-checked (b'0' ∷ b'x' ∷ or_zero s) v
            (sym (quantity-checked (b'0' ∷ b'x' ∷ or_zero s)) ∙ q)
          ∙ same,
    )
