-- ===== src/Tests/Requests.antt =====
-- pkg/codec/jsonc.go at concrete inputs, with a JSON package that knows one request.
use airfk.Shared.{Bool, true, false, none, some, [], ◌∷◌, Bytes, codes}
use airfk.Shared.Result.{ok, err}
use airfk.Types.Rpc.{RpcRequest}
use airfk.Codec.{Json, JsonRequest}
use airfk.Codec.Arguments.{Scan, Reflect}

abbrev pub add_request : JsonRequest
add_request = record {
  method = codes "calc_add";
  version = codes "2.0";
  id = codes "7";
  payload = codes "[1]";
}

abbrev pub one_request_json : Json
one_request_json = record {
  unmarshal_request = λ _. ok add_request;
  unmarshal_requests = λ _. ok (add_request ∷ add_request ∷ []);
  unmarshal_first = λ _. err (codes "no string");
  is_float = λ _. true;
  is_json_string = λ _. false;
}

abbrev pub add_parsed : RpcRequest
add_parsed = record {
  service = codes "calc";
  method = codes "add";
  id = codes "7";
  is_pub_sub = false;
  params = some (codes "[1]");
  err = none;
}

-- Types are whether they are pointers, values are texts.
abbrev pub text_reflect : Reflect
text_reflect = record {
  T = Bool;
  V = Bytes;
  is_ptr = λ t. t;
  decode = λ _ raw. ok raw;
  zero_value = λ _. [];
}

abbrev one_scan : Scan
one_scan = record { opens = true; elems = codes "1" ∷ []; closes = none }
