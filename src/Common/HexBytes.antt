-- ===== src/Common/HexBytes.antt =====
-- pkg/common/bytes.go: bytes from and to hexadecimal text, padding, and big-endian words.
pub mod Laws
use airfk.Shared.{
  ℕ, zero, suc, ◌+◌, ◌-◌, ◌*◌, ◌/◌, ◌%◌, ◌^◌, ◌≡◌, refl, Bool, true, false, ◌&&◌, ◌||◌, Option,
  none, some, List, [], ◌∷◌, ◌++◌, Bytes, codes, arith, ltb, leb, ◌==◌, if◌then◌else◌, length, take,
  drop, replicate, has_prefix,
}
use airfk.GoStd.Hex

unfoldable pub bytes2hex : Bytes → Bytes
bytes2hex d = Hex.encode d

-- The error of DecodeString is dropped, the bytes before it are kept.
unfoldable pub hex2bytes : Bytes → Bytes
hex2bytes str = (Hex.decode str).0

unfoldable pub to_hex : Bytes → Bytes
to_hex b = b'0' ∷ b'x' ∷ (if length (bytes2hex b) == 0 then codes "0" else bytes2hex b)

unfoldable pub trim_prefix : Bytes → Bytes
trim_prefix s = if has_prefix s (codes "0x") || has_prefix s (codes "0X") then drop 2 s else s

unfoldable pub even_digits : Bytes → Bytes
even_digits s = if length s % 2 == 1 then b'0' ∷ s else s

unfoldable pub from_hex : Bytes → Bytes
from_hex s = hex2bytes (even_digits (trim_prefix s))

unfoldable pub is_hex_character : ℕ → Bool
is_hex_character c =
    leb b'0' c && leb c b'9' || leb b'a' c && leb c b'f' || leb b'A' c && leb c b'F'

unfoldable pub all_hex : Bytes → Bool
all_hex [] = true
all_hex (c ∷ str) = is_hex_character c && all_hex str

unfoldable pub is_hex : Bytes → Bool
is_hex str = if length str % 2 == 0 then all_hex str else false

unfoldable pub left_pad_bytes : Bytes → ℕ → Bytes
left_pad_bytes slice l =
    if leb l (length slice) then slice else replicate (l - length slice) 0 ++ slice

unfoldable pub right_pad_bytes : Bytes → ℕ → Bytes
right_pad_bytes slice l =
    if leb l (length slice) then slice else slice ++ replicate (l - length slice) 0

unfoldable pub hex2bytes_fixed : Bytes → ℕ → Bytes
hex2bytes_fixed str flen =
    let h = hex2bytes str in
    if length h == flen
    then h
    else if ltb flen (length h)
    then drop (length h - flen) h
    else replicate (flen - length h) 0 ++ h

-- PutUint64 and Uint64 of binary.BigEndian; Uint64 panics on fewer than eight bytes.
unfoldable pub put_bytes : ℕ → ℕ → Bytes → Bytes
put_bytes zero u tail = tail
put_bytes (suc k) u tail = put_bytes k (u / 256) (u % 256 ∷ tail)

unfoldable pub read_bytes : ℕ → ℕ → Bytes → Option ℕ
read_bytes zero acc b = some acc
read_bytes (suc k) acc [] = none
read_bytes (suc k) acc (c ∷ b) = read_bytes k (acc * 256 + c) b

unfoldable pub uint64_to_bytes : ℕ → Bytes
uint64_to_bytes u = put_bytes 8 u []

unfoldable pub bytes_to_uint64 : Bytes → Option ℕ
bytes_to_uint64 b = read_bytes 8 0 b
