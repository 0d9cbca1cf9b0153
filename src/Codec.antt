-- ===== src/Codec.antt =====
-- pkg/codec/jsonc.go: JSON-RPC requests and responses. JSON values are their bytes; what encoding/json
-- and strconv.ParseFloat make of them is an interface.
pub mod Requests
pub mod Arguments
use airfk.Shared.{
  ℕ, zero, suc, ◌+◌, ◌-◌, ◌≤◌, ◌<◌, ◌≡◌, refl, Bool, true, false, not, ◌&&◌, ◌||◌, Option, none,
  some, List, [], ◌∷◌, ◌++◌, Bytes, codes, arith, ltb, leb, ◌==◌, if◌then◌else◌, length, take, drop,
  text_eq,
}
use airfk.Shared.Result.{Result, ok, err, ◌>>=◌}
use airfk.Shared.Int.{ℤ}
use airfk.Types.Rpc.{
  RpcError, method_not_found, invalid_request, invalid_message, invalid_params, RpcRequest,
  error_code, error_text,
}
use airfk.GoStd.Atoi.{decimal_int}
use airfk.GoStd.Strings.{has_suffix, trim_suffix, split}

abbrev pub service_method_separator : ℕ
service_method_separator = b'_'

abbrev pub subscribe_method_suffix : Bytes
subscribe_method_suffix = codes "_subscribe"

abbrev pub unsubscribe_method_suffix : Bytes
unsubscribe_method_suffix = codes "_unsubscribe"

abbrev pub notification_method_suffix : Bytes
notification_method_suffix = codes "_subscription"

abbrev pub jsonrpc_version : Bytes
jsonrpc_version = codes "2.0"

pub record JsonRequest : Type 0 where
  pub method : Bytes
  pub version : Bytes
  pub id : Bytes
  pub payload : Bytes

-- The messages that the codec writes, with the reply or event as raw JSON.
pub data Message : Type 0 where
  json_success_response : (version id result : Bytes) → Message
  json_err_response :
      (version : Bytes) (id : Option Bytes) (code : ℤ) (message : Bytes) (info : Option Bytes)
      → Message
  json_notification : (version method subscription result : Bytes) → Message

-- encoding/json and strconv, as the codec calls them; an error is its text.
pub record Json : Type 0 where
  pub unmarshal_request : Bytes → Result Bytes JsonRequest
  pub unmarshal_requests : Bytes → Result Bytes (List JsonRequest)
  -- the first string of an array of strings
  pub unmarshal_first : Bytes → Result Bytes Bytes
  -- whether ParseFloat, or Unmarshal into a string, succeeds
  pub is_float : Bytes → Bool
  pub is_json_string : Bytes → Bool

unfoldable pub is_batch : Bytes → Bool
is_batch [] = false
is_batch (c ∷ msg) =
    let rest = is_batch msg in
    if c == 0x20 || c == 0x09 || c == 0x0a || c == 0x0d then rest else c == b'['

-- The request of a subscription to the method that the payload names first.
unfoldable pub subscription_request : JsonRequest → Bytes → RpcRequest
subscription_request in_request name = record {
  service = trim_suffix in_request.method subscribe_method_suffix;
  method = name;
  id = in_request.id;
  is_pub_sub = true;
  params = some in_request.payload;
  err = none;
}

unfoldable pub unsubscription_request : JsonRequest → RpcRequest
unsubscription_request in_request = record {
  service = [];
  method = in_request.method;
  id = in_request.id;
  is_pub_sub = true;
  params = some in_request.payload;
  err = none;
}

unfoldable pub regular_request : JsonRequest → Bytes → Bytes → Option RpcError → RpcRequest
regular_request in_request service method e = record {
  service = service;
  method = method;
  id = in_request.id;
  is_pub_sub = false;
  params = if length in_request.payload == 0 then none else some in_request.payload;
  err = e;
}

unfoldable pub two_parts : List Bytes → Option (Bytes × Bytes)
two_parts [] = none
two_parts (a ∷ []) = none
two_parts (a ∷ b ∷ []) = some (a, b)
two_parts (a ∷ b ∷ c ∷ more) = none

-- strings.Split in two, or not.
unfoldable pub split_method : Bytes → Option (Bytes × Bytes)
split_method method = two_parts (split service_method_separator method)

module _ (json : Json) where
  unfoldable pub check_req_id : Bytes → Option Bytes
  check_req_id id =
      if length id == 0
      then some (codes "missing request id")
      else if json.is_float id
      then none
      else if json.is_json_string id
      then none
      else some (codes "invalid request id")

  -- The body of parseRequest behind Unmarshal.
  unfoldable pub parse_one : JsonRequest → Result RpcError RpcRequest
  parse_one in_request = elim (check_req_id in_request.id) [
    | some e ↦ err (invalid_message e)
    | none ↦
        if has_suffix in_request.method subscribe_method_suffix
        then (if length in_request.payload == 0
            then err (invalid_request (codes "Unable to parse subscription request"))
            else elim (json.unmarshal_first in_request.payload) [
              | err e ↦ err (invalid_request (codes "Unable to parse subscription request"))
              | ok name ↦ ok (subscription_request in_request name)
            ])
        else if has_suffix in_request.method unsubscribe_method_suffix
        then ok (unsubscription_request in_request)
        else elim (split_method in_request.method) [
          | none ↦ err (method_not_found in_request.method [])
          | some (service, method) ↦ ok (regular_request in_request service method none)
        ]
  ]

  -- What parseRequest returns: the requests, whether they are a batch, or an error.
  unfoldable pub parse_request : Bytes → Result RpcError (List RpcRequest) × Bool
  parse_request msg = elim (json.unmarshal_request msg) [
    | err e ↦ (err (invalid_message e), false)
    | ok in_request ↦ elim (parse_one in_request) [
      | err e ↦ (err e, false)
      | ok req ↦ (ok (req ∷ []), false)
    ]
  ]

  -- One round of the loop of parseBatchRequest; an error ends the loop, with the batch flag that
  -- the function returns beside it.
  unfoldable pub batch_one : JsonRequest → Result (Bool × RpcError) RpcRequest
  batch_one r = elim (check_req_id r.id) [
    | some e ↦ err (false, invalid_message e)
    | none ↦
        if has_suffix r.method subscribe_method_suffix
        then (if length r.payload == 0
            then err
                (true, invalid_request (codes "Unable to parse (un)subscribe request arguments"))
            else elim (json.unmarshal_first r.payload) [
              | err e ↦ err (false, invalid_request (codes "Unable to parse subscription request"))
              | ok name ↦ ok (subscription_request r name)
            ])
        else if has_suffix r.method unsubscribe_method_suffix
        then ok (unsubscription_request r)
        else elim (split_method r.method) [
          | none ↦ ok (regular_request r [] [] (some (method_not_found r.method [])))
          | some (service, method) ↦ ok (regular_request r service method none)
        ]
  ]

  unfoldable pub batch_loop : List JsonRequest → Result (Bool × RpcError) (List RpcRequest)
  batch_loop [] = ok []
  batch_loop (r ∷ rs) = do req ← batch_one r; reqs ← batch_loop rs; ok (req ∷ reqs)

  unfoldable pub parse_batch_request : Bytes → Result RpcError (List RpcRequest) × Bool
  parse_batch_request msg = elim (json.unmarshal_requests msg) [
    | err e ↦ (err (invalid_message e), false)
    | ok in_requests ↦ elim (batch_loop in_requests) [
      | err failure ↦ (err failure.1, failure.0)
      | ok reqs ↦ (ok reqs, true)
    ]
  ]

  -- `incoming` is what the decoder yields.
  unfoldable pub read_request_headers :
      Result Bytes Bytes → Result RpcError (List RpcRequest) × Bool
  read_request_headers (err e) = (err (invalid_request e), false)
  read_request_headers (ok msg) =
      if is_batch msg then parse_batch_request msg else parse_request msg

unfoldable pub create_response : Bytes → Bytes → Message
create_response id reply = json_success_response jsonrpc_version id reply

unfoldable pub create_error_response : Option Bytes → RpcError → Message
create_error_response id e = json_err_response jsonrpc_version id (error_code e) (error_text e) none

unfoldable pub create_error_response_with_info : Option Bytes → RpcError → Bytes → Message
create_error_response_with_info id e info =
    json_err_response jsonrpc_version id (error_code e) (error_text e) (some info)

unfoldable pub create_notification : Bytes → Bytes → Bytes → Message
create_notification subid namespace event =
    json_notification jsonrpc_version (namespace ++ notification_method_suffix) subid event

-- JsonError.Error
unfoldable pub json_error_text : ℤ → Bytes → Bytes
unfolding decimal_int
json_error_text code message =
    if length message == 0 then codes "json-rpc error " ++ decimal_int code else message
