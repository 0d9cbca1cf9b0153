-- ===== src/Server/Requests.antt =====
-- readRequest of pkg/server/server.go, with Callback, Service and ServerRequest: from the headers
-- that the codec reads to the requests that the server runs.
use airfk.Shared.{
  Bool, true, false, ◌&&◌, Option, none, some, List, [], ◌∷◌, Bytes, ltb, if◌then◌else◌, length,
  drop,
}
use airfk.Shared.Result.{Result, ok, err}
use airfk.Shared.Map.{Map, lookup}
use airfk.Types.Rpc.{RpcError, RpcRequest, method_not_found, invalid_params, error_text}
use airfk.Codec.{unsubscribe_method_suffix}
use airfk.GoStd.Strings.{has_suffix}
use airfk.Codec.Arguments.{Reflect, Scan, parse_request_arguments}
use airfk.Server.Notifier.{Wire, Notifier}

-- A connection and the notifier of its context, if it has one.
pub record Conn : Type 0 where
  pub wire : Wire
  pub notifier : Option Notifier

-- What a call by reflection returns: no values, or the error at ErrPos (for a subscription, the
-- second value) and the first value, raw JSON or the id of the subscription.
pub data Reply : Type 0 where
  no_values : Reply
  values : Option Bytes → Bytes → Reply

module _ (r : Reflect) where
  open r use {T, V}

  -- `has_err` is ErrPos >= 0, `func` the method on its receiver.
  pub record Callback : Type 0 where
    pub method : Bytes
    pub arg_types : List T
    pub has_err : Bool
    pub is_subscribe : Bool
    pub func : Conn → List V → Conn × Reply

  pub record Service : Type 0 where
    pub name : Bytes
    pub callbacks : Map Callback
    pub subscriptions : Map Callback

  pub record ServerRequest : Type 0 where
    pub id : Bytes
    pub svcname : Bytes
    pub callb : Option Callback
    pub args : List V
    pub is_unsubscribe : Bool
    pub err : Option RpcError

-- Package reflect, the type of strings in it, and what a decoder meets in raw parameters.
pub record Host : Type 1 where
  pub reflect : Reflect
  pub string_type : Reflect.T reflect
  pub as_string : Reflect.V reflect → Option Bytes
  pub scan : Bytes → Scan

module _ (h : Host) where
  open h use {reflect, string_type, as_string, scan}

  unfoldable pub failed_request : Bytes → RpcError → ServerRequest reflect
  failed_request id e = record {
    id = id;
    svcname = [];
    callb = none;
    args = [];
    is_unsubscribe = false;
    err = some e;
  }

  unfoldable pub unsubscribe_request : RpcRequest → ServerRequest reflect
  unsubscribe_request q = elim (parse_request_arguments reflect (string_type ∷ []) q.params scan) [
    | ok args ↦ record {
      id = q.id;
      svcname = [];
      callb = none;
      args = args;
      is_unsubscribe = true;
      err = none;
    }
    | err e ↦ record {
      id = q.id;
      svcname = [];
      callb = none;
      args = [];
      is_unsubscribe = true;
      err = some (invalid_params (error_text e));
    }
  ]

  -- The arguments of a callback: parsed if there are parameters and the callback takes some;
  -- a subscription has its name in front of them.
  unfoldable pub read_arguments :
      RpcRequest → Callback reflect → Bool → Result RpcError (List (Reflect.V reflect))
  read_arguments q cb subscribing = elim q.params [
    | none ↦ ok []
    | some raw ↦
        if ltb 0 (length cb.arg_types)
        then (if subscribing
            then (elim (parse_request_arguments reflect (string_type ∷ cb.arg_types) (some raw)
                scan) [ ok args ↦ ok (drop 1 args) | err e ↦ err e ])
            else parse_request_arguments reflect cb.arg_types (some raw) scan)
        else ok []
  ]

  unfoldable pub call_request :
      RpcRequest → Service reflect → Callback reflect → Bool → ServerRequest reflect
  call_request q svc cb subscribing = elim (read_arguments q cb subscribing) [
    | ok args ↦ record {
      id = q.id;
      svcname = svc.name;
      callb = some cb;
      args = args;
      is_unsubscribe = false;
      err = none;
    }
    | err e ↦ record {
      id = q.id;
      svcname = svc.name;
      callb = some cb;
      args = [];
      is_unsubscribe = false;
      err = some (invalid_params (error_text e));
    }
  ]

  -- One round of the loop of readRequest.
  unfoldable pub read_one : Map (Service reflect) → RpcRequest → ServerRequest reflect
  read_one services q = elim q.err [
    | some e ↦ failed_request q.id e
    | none ↦
        if q.is_pub_sub && has_suffix q.method unsubscribe_method_suffix
        then unsubscribe_request q
        else elim (lookup q.service services) [
          | none ↦ failed_request q.id (method_not_found q.service q.method)
          | some svc ↦
              elim (lookup q.method (if q.is_pub_sub then svc.subscriptions else svc.callbacks)) [
                | none ↦ failed_request q.id (method_not_found q.service q.method)
                | some cb ↦ call_request q svc cb q.is_pub_sub
              ]
        ]
  ]

  unfoldable pub read_all : Map (Service reflect) → List RpcRequest → List (ServerRequest reflect)
  read_all services [] = []
  read_all services (q ∷ qs) = read_one services q ∷ read_all services qs

  -- `headers` is what ReadRequestHeaders returns.
  unfoldable pub read_request :
      Map (Service reflect)
      → Result RpcError (List RpcRequest) × Bool
      → Result RpcError (List (ServerRequest reflect)) × Bool
  read_request services headers = elim headers.0 [
    | err e ↦ (err e, headers.1)
    | ok reqs ↦ (ok (read_all services reqs), headers.1)
  ]
