-- ===== src/Hexutil/Json/Quoted.antt =====
-- The JSON methods: the text methods between quotes.
use airfk.Shared.{
  ℕ, suc, ◌+◌, ◌-◌, ◌*◌, ◌^◌, ◌<◌, ◌≡◌, refl, ◌∙◌, true, none, some, [], ◌∷◌, ◌++◌, Bytes, All,
  arith, length, take, drop, ap, length-append, get_elem?,
}
use airfk.Shared.Int.{ℤ, pos}
use airfk.GoStd.Hex
use airfk.Hexutil.{has0x_prefix, encode_uint64}
use airfk.Hexutil.RoundTrip.{decode_uint64-encode_uint64, decode_big-encode_big, encode_big_pos}
use airfk.Hexutil.Json.{
  After, GoType, is_string, check_text, wrap_type_error, unmarshal_string_json, bytes_marshal_text,
  bytes_unmarshal_text, bytes_unmarshal_json, uint64_marshal_text, uint64_unmarshal_json,
  uint_marshal_text, uint_unmarshal_json, big_marshal_text, big_unmarshal_json,
}
use airfk.Hexutil.Json.Numbers.{
  uint64_unmarshal_text-decode_uint64, uint_unmarshal_text-decode_uint64,
  big_unmarshal_text-decode_big,
}

-- A JSON string whose text needs no escapes.
abbrev pub quoted : Bytes → Bytes
quoted t = b'"' ∷ (t ++ b'"' ∷ [])

last_elem : (t : Bytes) (c : ℕ) → get_elem? (t ++ c ∷ []) (length t) ≡ some c
last_elem [] c = refl
last_elem (d ∷ t) c = last_elem t c

take_front : (t : Bytes) (c : ℕ) → take (length t) (t ++ c ∷ []) ≡ t
take_front [] c = refl
take_front (d ∷ t) c = ap (◌∷◌ d) (take_front t c)

length-quoted : (t : Bytes) → length (quoted t) ≡ suc (length t) + 1
length-quoted t = omega (arith, length-append t (b'"' ∷ []))

is_string-quoted : (t : Bytes) → is_string (quoted t) ≡ true
unfolding is_string
is_string-quoted [] = refl
is_string-quoted (d ∷ t) =
    let end : length (quoted (d ∷ t)) - 1 ≡ length (b'"' ∷ d ∷ t) =
      omega (arith, length-quoted (d ∷ t)) in
    rw end (rw (last_elem t b'"'))

between : (t : Bytes) → take (length (quoted t) - 2) (drop 1 (quoted t)) ≡ t
between t =
    let size : length (quoted t) - 2 ≡ length t = omega (arith, length-quoted t) in
    rw size (take_front t b'"')

-- UnmarshalJSON on a quoted text is UnmarshalText on the text, its error wrapped.
pub unmarshal_string_json-quoted :
    {A : Type 0} (typ : GoType) (t : Bytes) (u : Bytes → After A) (old : A)
    → unmarshal_string_json typ (quoted t) u old ≡ ((u t).0, wrap_type_error (u t).1 typ)
unfolding unmarshal_string_json
unmarshal_string_json-quoted typ t u old = rw (is_string-quoted t) (rw (between t))

quoted_ok :
    {A : Type 0} (typ : GoType) (t : Bytes) (u : Bytes → After A) (old v : A)
    → u t ≡ (v, none)
    → unmarshal_string_json typ (quoted t) u old ≡ (v, none)
quoted_ok typ t u old v e =
    unmarshal_string_json-quoted typ t u old ∙ rw e (unfold wrap_type_error in refl)

length-hex_encode : (b : Bytes) → length (Hex.encode b) ≡ 2 * length b
unfolding Hex.encode
length-hex_encode [] = refl
length-hex_encode (x ∷ b) = omega (arith, length-hex_encode b)

-- A byte slice survives its JSON form, whatever the receiver was.
bytes_unmarshal_json-marshal_text :
    (old b : Bytes)
    → All (λ x. x < 256) b
    → bytes_unmarshal_json old (quoted (bytes_marshal_text b)) ≡ (b, none)
unfolding bytes_unmarshal_json
bytes_unmarshal_json-marshal_text old b h = quoted_ok _ _ _ old b text
  where
    text : bytes_unmarshal_text old (bytes_marshal_text b) ≡ (b, none)
    text =
        unfold bytes_unmarshal_text bytes_marshal_text check_text has0x_prefix in
        ground (arith, length-hex_encode b, Hex.decode-encode b h)

-- Uint64s, uints of 64 bits and numbers from 0 to below 2^256 survive their JSON forms, whatever the
-- receivers were.
pub numbers_unmarshal_json-marshal_text :
    (old v : ℕ) (z : ℤ) (n : ℕ)
    → v < 2 ^ 64
    → n < 2 ^ 256
    → (uint64_unmarshal_json old (quoted (uint64_marshal_text v)) ≡ (v, none))
      × (uint_unmarshal_json old (quoted (uint_marshal_text v)) ≡ (v, none))
      × (big_unmarshal_json z (quoted (big_marshal_text (pos n))) ≡ (pos n, none))
unfolding uint64_unmarshal_json uint_unmarshal_json big_unmarshal_json
numbers_unmarshal_json-marshal_text old v z n h k = (
  quoted_ok _ _ _ old v (
      unfold uint64_marshal_text encode_uint64 in
      (uint64_unmarshal_text-decode_uint64 old _ _ v).1 (decode_uint64-encode_uint64 v h)),
  quoted_ok _ _ _ old v (
      unfold uint_marshal_text uint64_marshal_text encode_uint64 in
      (uint_unmarshal_text-decode_uint64 old _ _ v).1 (decode_uint64-encode_uint64 v h)),
  quoted_ok _ _ _ z (pos n) (
      unfold big_marshal_text in
      rw (encode_big_pos n) (
        unfold encode_uint64 in
        (big_unmarshal_text-decode_big z _ _ (pos n)).1
          (rw (encode_big_pos n) at (decode_big-encode_big n k)))),
)
