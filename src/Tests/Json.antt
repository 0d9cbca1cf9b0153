-- ===== src/Tests/Json.antt =====
-- pkg/common/hexutil/json.go at concrete inputs.
use airfk.Shared.{◌≡◌, none, Bytes, codes, arith}
use airfk.Shared.Int.{pos}
use airfk.Hexutil.Json.{
  big_marshal_text, big_unmarshal_json, uint64_marshal_text, uint64_unmarshal_json,
  uint_marshal_text, uint_unmarshal_json,
}
use airfk.Hexutil.Json.Quoted.{quoted, numbers_unmarshal_json-marshal_text}

abbrev name : Bytes
name = codes "Hash"

numbers_unmarshal_json-marshal_text_example :
    (uint64_unmarshal_json 1 (quoted (uint64_marshal_text 79)) ≡ (79, none))
    × (uint_unmarshal_json 1 (quoted (uint_marshal_text 79)) ≡ (79, none))
    × (big_unmarshal_json (pos 2) (quoted (big_marshal_text (pos 300))) ≡ (pos 300, none))
numbers_unmarshal_json-marshal_text_example =
    numbers_unmarshal_json-marshal_text 1 79 (pos 2) 300 (omega arith) (omega arith)
