-- ===== src/Hexutil/Json/Fixed.antt =====
-- What the decoders of json.go leave in their receivers, and the fixed-length decoders.
use airfk.Shared.{
  ℕ, ◌-◌, ◌*◌, ◌%◌, ◌≡◌, refl, true, false, ◌≢◌, none, some, [], ◌∷◌, Bytes, arith, ◌==◌, length,
  take, drop, Option-cases, inl, inr, ◌⊎◌, ◌↔◌, Bool-cases,
}
use airfk.Shared.Int.{ℤ}
use airfk.GoStd.Hex.{from_hex_char, lower}
use airfk.GoStd.Hex
use airfk.Hexutil.{has0x_prefix, decode, bad_nibble, decode_nibble}
use airfk.Hexutil.Json.{
  After, GoType, check_text, wrap_type_error, unmarshal_string_json, bytes_unmarshal_text,
  bytes_unmarshal_json, all_nibbles, fixed_of_digits, unmarshal_fixed_text,
  unmarshal_fixed_unprefixed_text, unmarshal_fixed_json, big_unmarshal_text, big_unmarshal_json,
  uint64_unmarshal_text, uint64_unmarshal_json, uint_unmarshal_text, uint_unmarshal_json,
}

-- A decoder that reports an error has not touched its receiver.
abbrev pub Keeps : {A : Type 0} → A → After A → Type 0
Keeps old r = (r.1 ≡ none) ⊎ (r.0 ≡ old)

json-Keeps :
    {A : Type 0} (typ : GoType) (input : Bytes) (u : Bytes → After A) (old : A)
    → ((t : Bytes) → Keeps old (u t))
    → Keeps old (unmarshal_string_json typ input u old)
unfolding unmarshal_string_json wrap_type_error
json-Keeps typ input u old h =
    let text = take (length input - 2) (drop 1 input) in
    ground (arith, h text, Option-cases (u text).1)

-- The text methods leave the receiver alone when they report an error.
unmarshal_text-Keeps :
    (b out name : Bytes) (z : ℤ) (n : ℕ) (input : Bytes)
    → Keeps b (bytes_unmarshal_text b input)
      × Keeps z (big_unmarshal_text z input)
      × Keeps n (uint64_unmarshal_text n input)
      × Keeps n (uint_unmarshal_text n input)
      × Keeps out (unmarshal_fixed_text name input out)
      × Keeps out (unmarshal_fixed_unprefixed_text name input out)
unmarshal_text-Keeps b out name z n input = (
  unfold bytes_unmarshal_text in ground arith,
  unfold big_unmarshal_text in ground arith,
  unfold uint64_unmarshal_text in ground arith,
  unfold uint_unmarshal_text in ground arith,
  unfold unmarshal_fixed_text fixed_of_digits in ground arith,
  unfold unmarshal_fixed_unprefixed_text fixed_of_digits in ground arith,
)

-- The JSON methods leave the receiver alone when they report an error.
unmarshal_json-Keeps :
    (b out name : Bytes) (z : ℤ) (n : ℕ) (input : Bytes)
    → Keeps b (bytes_unmarshal_json b input)
      × Keeps z (big_unmarshal_json z input)
      × Keeps n (uint64_unmarshal_json n input)
      × Keeps n (uint_unmarshal_json n input)
      × Keeps out (unmarshal_fixed_json name input out)
unfolding bytes_unmarshal_json big_unmarshal_json uint64_unmarshal_json uint_unmarshal_json
    unmarshal_fixed_json
unmarshal_json-Keeps b out name z n input = (
  json-Keeps _ input _ b (λ t. (unmarshal_text-Keeps b out name z n t).0),
  json-Keeps _ input _ z (λ t. (unmarshal_text-Keeps b out name z n t).1),
  json-Keeps _ input _ n (λ t. (unmarshal_text-Keeps b out name z n t).2),
  json-Keeps _ input _ n (λ t. (unmarshal_text-Keeps b out name z n t).3),
  json-Keeps _ input _ out (λ t. (unmarshal_text-Keeps b out name z n t).4),
)

nibble_ok :
    (c : ℕ)
    → ((d : ℕ) × (from_hex_char c ≡ some d) × ((decode_nibble c == bad_nibble) ≡ false))
      ⊎ ((from_hex_char c ≡ none) × ((decode_nibble c == bad_nibble) ≡ true))
unfolding from_hex_char decode_nibble
nibble_ok c = ground arith

-- The check before the write is the check that the decoder makes, on digits in pairs.
decode_checked :
    (raw : Bytes)
    → length raw % 2 ≡ 0
    → ((all_nibbles raw ≡ true)
        × ((Hex.decode raw).1 ≡ none)
        × (length raw ≡ 2 * length (Hex.decode raw).0))
      ⊎ ((all_nibbles raw ≡ false) × ((Hex.decode raw).1 ≢ none))
unfolding all_nibbles Hex.decode
decode_checked [] h = ground arith
decode_checked (a ∷ []) h = absurd (omega arith)
decode_checked (a ∷ b ∷ s) h =
    ground (arith, nibble_ok a, nibble_ok b, decode_checked s (omega arith))

decode_even : (raw : Bytes) → (Hex.decode raw).1 ≡ none → length raw % 2 ≡ 0
unfolding Hex.decode
decode_even [] e = refl
decode_even (a ∷ []) e = cc
decode_even (a ∷ b ∷ s) e =
    let rest : (Hex.decode s).1 ≡ none = ground (arith, nibble_ok a, nibble_ok b) in
    omega (arith, decode_even s rest)

-- A fixed-length decoder with a wanted prefix succeeds exactly when Decode does and the result has
-- the length of the receiver, and leaves that result there.
unmarshal_fixed_text-decode :
    (name : Bytes) (c : ℕ) (s out b : Bytes)
    → (unmarshal_fixed_text name (c ∷ s) out ≡ (b, none))
      ↔ ((decode (c ∷ s) ≡ (b, none)) × (length b ≡ length out))
unfolding unmarshal_fixed_text fixed_of_digits decode check_text
unmarshal_fixed_text-decode name c s out b =
    let raw = drop 2 (c ∷ s) in
    elim (Bool-cases (has0x_prefix (c ∷ s))) [
      | inr bare ↦ (λ h. ground arith, λ h. ground arith)
      | inl prefixed ↦ elim (Bool-cases (length raw % 2 == 0)) [
        | inr odd ↦ (
          λ h. ground arith,
          λ (h, fits). absurd (ground (arith, decode_even raw, Option-cases (Hex.decode raw).1)),
        )
        | inl even ↦
            let both = decode_checked raw (ground arith) in
            (λ h. ground (arith, both), λ h. ground (arith, both))
      ]
    ]

-- Without a wanted prefix the same digits are taken with and without it.
unmarshal_fixed_unprefixed_text-prefix :
    (name t out : Bytes)
    → has0x_prefix t ≡ false
    → unmarshal_fixed_unprefixed_text name (b'0' ∷ b'x' ∷ t) out
      ≡ unmarshal_fixed_unprefixed_text name t out
unfolding unmarshal_fixed_unprefixed_text check_text has0x_prefix
unmarshal_fixed_unprefixed_text-prefix name [] out h = refl
unmarshal_fixed_unprefixed_text-prefix name (a ∷ []) out h = ground arith
unmarshal_fixed_unprefixed_text-prefix name (a ∷ b ∷ t) out h = ground arith
