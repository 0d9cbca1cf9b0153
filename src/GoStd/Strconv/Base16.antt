-- ===== src/GoStd/Strconv/Base16.antt =====
-- ParseUint in base 16 against the value that the digits spell.
use airfk.Shared.{
  ℕ, ◌+◌, ◌*◌, ◌^◌, ◌≤◌, ◌<◌, ◌≡◌, refl, none, some, [], ◌∷◌, Bytes, arith, Option-cases, inl, inr,
  ◌⊎◌, ◌≢◌,
}
use airfk.GoStd.Hex.{from_hex_char, from_hex_char-lt}
use airfk.GoStd.Strconv.{digit_val, parse_loop, hex_value, hex_value-le, max_uint64, err_syntax}

digit_val_hex : (c d : ℕ) → from_hex_char c ≡ some d → digit_val c ≡ some d
unfolding from_hex_char digit_val
digit_val_hex c d h = ground arith

digit_val_other :
    (c : ℕ)
    → from_hex_char c ≡ none
    → (digit_val c ≡ none) ⊎ ((d : ℕ) × (digit_val c ≡ some d) × (15 < d))
unfolding from_hex_char digit_val
digit_val_other c h = ground arith

loop_bad :
    (n c : ℕ) (s : Bytes) → from_hex_char c ≡ none → parse_loop 16 n (c ∷ s) ≡ (0, some err_syntax)
unfolding parse_loop
loop_bad n c s h = elim (digit_val_other c h) [
  | inl e ↦ ground arith
  | inr (d, e, k) ↦ ground arith
]

loop_step :
    (n c d : ℕ) (s : Bytes)
    → from_hex_char c ≡ some d
    → n * 16 + d < 2 ^ 64
    → parse_loop 16 n (c ∷ s) ≡ parse_loop 16 (n * 16 + d) s
unfolding parse_loop max_uint64
loop_step n c d s h k = ground (arith, digit_val_hex c d, from_hex_char-lt c d)

loop_range :
    (n c d : ℕ) (s : Bytes)
    → from_hex_char c ≡ some d
    → 2 ^ 64 ≤ n * 16 + d
    → n < 2 ^ 64
    → (parse_loop 16 n (c ∷ s)).1 ≢ none
unfolding parse_loop max_uint64
loop_range n c d s h k fits e = ground (arith, digit_val_hex c d, from_hex_char-lt c d)

loop_nil : (n : ℕ) → parse_loop 16 n [] ≡ (n, none)
unfolding parse_loop
loop_nil n = refl

-- What parses is the value of the digits, and fits 64 bits.
pub loop_sound :
    (s : Bytes) (n v : ℕ)
    → n < 2 ^ 64
    → parse_loop 16 n s ≡ (v, none)
    → (hex_value n s ≡ some v) × (v < 2 ^ 64)
unfolding hex_value
loop_sound [] n v h e = ground (arith, loop_nil n)
loop_sound (c ∷ s) n v h e = elim (Option-cases (from_hex_char c)) [
  | inl k ↦ ground (arith, loop_bad n c s k)
  | inr (d, k) ↦
      unfold hex_value in
      ground (arith, loop_step n c d s k, loop_range n c d s k, loop_sound s (n * 16 + d) v)
]

-- A value that fits 64 bits parses.
pub loop_complete :
    (s : Bytes) (n v : ℕ) → v < 2 ^ 64 → hex_value n s ≡ some v → parse_loop 16 n s ≡ (v, none)
unfolding hex_value
loop_complete [] n v h e = ground (arith, loop_nil n)
loop_complete (c ∷ s) n v h e = elim (Option-cases (from_hex_char c)) [
  | inl k ↦ ground arith
  | inr (d, k) ↦
      unfold hex_value in
      ground
        (arith, loop_step n c d s k, hex_value-le s (n * 16 + d) v, loop_complete s (n * 16 + d) v)
]
