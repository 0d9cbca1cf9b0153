-- ===== src/Server/NewId.antt =====
-- NewID of pkg/server/subscription.go. `draw k` is the k-th number that Int63 of a generator yields.
pub mod Canonical
use airfk.Shared.{
  ℕ, zero, suc, ◌-◌, ◌/◌, ◌%◌, ◌<◌, ◌≡◌, sym, some, [], ◌∷◌, ◌++◌, Bytes, arith, ltb, ◌==◌,
  if◌then◌else◌, All, Bool-cases, inl, inr,
}
use airfk.GoStd.Hex
use airfk.GoStd.Hex.{
  from_hex_char, hex_digit, lower_digit, lower, from_hex_char-hex_digit, hex_digit-from_hex_char,
}

-- The inner loop: the low bytes of `val`, lowest first.
unfoldable pub low_bytes : ℕ → ℕ → Bytes
low_bytes zero val = []
low_bytes (suc n) val = val % 256 ∷ low_bytes n (val / 256)

-- The outer loop, with `left` bytes of the id to fill, at most seven a round.
unfoldable pub fill : (ℕ → ℕ) → ℕ → ℕ → ℕ → Bytes
fill draw zero k left = []
fill draw (suc rounds) k left =
    low_bytes (if ltb left 7 then left else 7) (draw k) ++ fill draw rounds (suc k) (left - 7)

-- strings.TrimLeft with the cutset "0".
unfoldable pub trim_zeros : Bytes → Bytes
trim_zeros [] = []
trim_zeros (c ∷ s) = let rest = trim_zeros s in if c == b'0' then rest else c ∷ s

unfoldable pub or_zero : Bytes → Bytes
or_zero [] = b'0' ∷ []
or_zero (c ∷ s) = c ∷ s

-- Three rounds fill the 16 bytes.
unfoldable pub new_id : (ℕ → ℕ) → Bytes
new_id draw = b'0' ∷ b'x' ∷ or_zero (trim_zeros (Hex.encode (fill draw 3 0 16)))
