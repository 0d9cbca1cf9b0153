-- ===== src/Common/HexBytes/Laws.antt =====
-- The conversions of pkg/common/bytes.go together.
use airfk.Shared.{
  ℕ, zero, suc, ◌+◌, ◌-◌, ◌*◌, ◌/◌, ◌%◌, ◌^◌, ◌<◌, ◌≡◌, refl, ◌∙◌, ap, true, false, ◌&&◌, ◌↔◌, none,
  some, [], ◌∷◌, Bytes, arith, if◌then◌else◌, length, replicate, Option-cases, inl, inr, ◌⊎◌, ◌≢◌,
  length-append, length-drop, length-replicate,
}
use native.Mathlib.Nat.{pow-suc, mul_assoc}
use airfk.GoStd.Hex
use airfk.GoStd.Hex.{from_hex_char, odd_error, decode_pair}
use airfk.Common.HexBytes.{
  hex2bytes, is_hex_character, all_hex, is_hex, hex2bytes_fixed, put_bytes, read_bytes,
  uint64_to_bytes, bytes_to_uint64,
}

-- Hex2BytesFixed returns `flen` bytes on every input.
pub length-hex2bytes_fixed : (str : Bytes) (flen : ℕ) → length (hex2bytes_fixed str flen) ≡ flen
unfolding hex2bytes_fixed
length-hex2bytes_fixed str flen = ground (
  arith,
  length-drop (length (hex2bytes str) - flen) (hex2bytes str),
  length-append (replicate (flen - length (hex2bytes str)) 0) (hex2bytes str),
  length-replicate {A = ℕ} (flen - length (hex2bytes str)) 0,
)

hex_character_cases :
    (c : ℕ)
    → ((is_hex_character c ≡ true) × ((d : ℕ) × (from_hex_char c ≡ some d)))
      ⊎ ((is_hex_character c ≡ false) × (from_hex_char c ≡ none))
unfolding is_hex_character from_hex_char
hex_character_cases c = elim (Option-cases (from_hex_char c)) [
  | inl bad ↦ inr (ground arith, bad)
  | inr (d, good) ↦ inl (ground arith, (d, good))
]

is_hex_pair :
    (a b : ℕ) (s : Bytes)
    → is_hex (a ∷ b ∷ s) ≡ (if is_hex_character a && is_hex_character b then is_hex s else false)
unfolding is_hex all_hex
is_hex_pair a b s = ground arith

first_bad : (a b : ℕ) (s : Bytes) → from_hex_char a ≡ none → (Hex.decode (a ∷ b ∷ s)).1 ≢ none
unfolding Hex.decode
first_bad a b s h = ground arith

second_bad :
    (a b d : ℕ) (s : Bytes)
    → from_hex_char a ≡ some d
    → from_hex_char b ≡ none
    → (Hex.decode (a ∷ b ∷ s)).1 ≢ none
unfolding Hex.decode
second_bad a b d s g h = ground arith

-- isHex accepts exactly the texts that DecodeString reads without an error.
is_hex-decode : (str : Bytes) → (is_hex str ≡ true) ↔ ((Hex.decode str).1 ≡ none)
is_hex-decode [] = unfold is_hex all_hex Hex.decode in (λ _. refl, λ _. refl)
is_hex-decode (a ∷ []) = unfold is_hex Hex.decode in (λ h. ground arith, λ h. ground arith)
is_hex-decode (a ∷ b ∷ s) = elim (hex_character_cases a) [
  | inr (n, bad) ↦ ground (arith, is_hex_pair a b s, first_bad a b s bad)
  | inl (y, (d, good)) ↦ elim (hex_character_cases b) [
    | inr (n, bad) ↦ ground (arith, is_hex_pair a b s, second_bad a b d s good bad)
    | inl (y', (d', good')) ↦
        ground (arith, is_hex_pair a b s, decode_pair a b d d' s good good', is_hex-decode s)
  ]
]

value_step : (p acc u q : ℕ) → q ≡ p * 256 → (acc * p + u / 256) * 256 + u % 256 ≡ acc * q + u
value_step p acc u q e = rw e (omega (arith, mul_assoc acc p 256))

read_bytes-put_bytes :
    (n k j u acc : ℕ) (tail : Bytes)
    → n ≡ k + j
    → u < 256 ^ k
    → read_bytes n acc (put_bytes k u tail) ≡ read_bytes j (acc * 256 ^ k + u) tail
unfolding put_bytes read_bytes
read_bytes-put_bytes n zero j u acc tail e h =
    ap (λ m. read_bytes m acc tail) (omega arith) ∙ ap (λ m. read_bytes j m tail) (omega arith)
read_bytes-put_bytes n (suc k) j u acc tail e h =
    let power : 256 ^ suc k ≡ 256 ^ k * 256 = pow-suc 256 k in
    let small : u / 256 < 256 ^ k = omega (arith, h, power) in
    let value : (acc * 256 ^ k + u / 256) * 256 + u % 256 ≡ acc * 256 ^ suc k + u =
      value_step (256 ^ k) acc u (256 ^ suc k) power in
    read_bytes-put_bytes n k (suc j) (u / 256) acc (u % 256 ∷ tail) (omega arith) small
    ∙ ap (λ m. read_bytes j m tail) value

-- A 64-bit number is read back from the eight bytes that Uint64ToBytes makes.
bytes_to_uint64-uint64_to_bytes :
    (u : ℕ) → u < 2 ^ 64 → bytes_to_uint64 (uint64_to_bytes u) ≡ some u
unfolding bytes_to_uint64 uint64_to_bytes read_bytes
bytes_to_uint64-uint64_to_bytes u h =
    read_bytes-put_bytes 8 8 0 u 0 [] refl h ∙ ap some (omega arith)
