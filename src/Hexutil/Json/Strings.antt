-- ===== src/Hexutil/Json/Strings.antt =====
-- The String methods of pkg/common/hexutil/json.go.
use airfk.Shared.{ℕ, ◌≡◌, refl, Bytes}
use airfk.Shared.Int.{ℤ}
use airfk.Hexutil.{encode, encode_big, encode_uint64}
use airfk.Hexutil.Json.{
  bytes_marshal_text, big_marshal_text, uint64_marshal_text, uint_marshal_text,
}

unfoldable pub bytes_string : Bytes → Bytes
bytes_string b = encode b

unfoldable pub big_string : ℤ → Bytes
big_string z = encode_big z

unfoldable pub uint64_string : ℕ → Bytes
uint64_string n = encode_uint64 n

unfoldable pub uint_string : ℕ → Bytes
uint_string n = encode_uint64 n

-- They write what MarshalText writes.
string-marshal_text :
    (b : Bytes) (z : ℤ) (n : ℕ)
    → (bytes_string b ≡ bytes_marshal_text b)
      × (big_string z ≡ big_marshal_text z)
      × (uint64_string n ≡ uint64_marshal_text n)
      × (uint_string n ≡ uint_marshal_text n)
unfolding bytes_string bytes_marshal_text big_string big_marshal_text uint64_string
    uint64_marshal_text uint_string uint_marshal_text encode encode_uint64
string-marshal_text b z n = (refl, refl, refl, refl)
