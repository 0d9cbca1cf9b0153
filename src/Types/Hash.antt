-- ===== src/Types/Hash.antt =====
-- Hash and UnprefixedHash of pkg/types/types.go. A hash is its bytes.
use airfk.Shared.{
  ℕ, ◌-◌, ◌++◌, ◌∷◌, Bytes, codes, ltb, if◌then◌else◌, length, take, drop, replicate, has_prefix,
}
use airfk.GoStd.Hex
use airfk.Hexutil
use airfk.Hexutil.Json.{
  After, bytes_marshal_text, unmarshal_fixed_text, unmarshal_fixed_unprefixed_text,
  unmarshal_fixed_json,
}

abbrev pub hash_length : ℕ
hash_length = 32

-- Cropped from the left; what `b` does not cover keeps its bytes.
unfoldable pub set_bytes : Bytes → Bytes → Bytes
set_bytes h b =
    let c = if ltb (length h) (length b) then drop (length b - hash_length) b else b in
    take (hash_length - length c) h ++ c

unfoldable pub bytes_to_hash : Bytes → Bytes
bytes_to_hash b = set_bytes (replicate hash_length 0) b

-- The prefix is taken off, and the characters of the digits are the bytes.
unfoldable pub hash_from_hex : Bytes → Bytes
hash_from_hex s = if has_prefix s (codes "0x") then drop 2 s else s

unfoldable pub hex_to_hash : Bytes → Bytes
hex_to_hash s = bytes_to_hash (hash_from_hex s)

unfoldable pub hash_hex : Bytes → Bytes
hash_hex h = Hexutil.encode h

-- The method String.
unfoldable pub hash_string : Bytes → Bytes
unfolding hash_hex
hash_string h = hash_hex h

-- The method TerminalString: the first and the last three bytes, with an ellipsis in UTF-8 between them.
unfoldable pub terminal_string : Bytes → Bytes
terminal_string h = Hex.encode (take 3 h) ++ (226 ∷ 128 ∷ 166 ∷ Hex.encode (drop 29 h))

unfoldable pub hash_unmarshal_text : Bytes → Bytes → After Bytes
hash_unmarshal_text h input = unmarshal_fixed_text (codes "Hash") input h

unfoldable pub hash_unmarshal_json : Bytes → Bytes → After Bytes
hash_unmarshal_json h input = unmarshal_fixed_json (codes "Hash") input h

unfoldable pub hash_marshal_text : Bytes → Bytes
hash_marshal_text h = bytes_marshal_text h

unfoldable pub unprefixed_unmarshal_text : Bytes → Bytes → After Bytes
unprefixed_unmarshal_text h input = unmarshal_fixed_unprefixed_text (codes "UnprefixedHash") input h

unfoldable pub unprefixed_marshal_text : Bytes → Bytes
unprefixed_marshal_text h = Hex.encode h
